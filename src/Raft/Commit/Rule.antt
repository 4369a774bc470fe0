-- ===== src/Raft/Commit/Rule.antt =====
-- What maybeCommit of raft/node.go commits, and what it hands over to be applied.
use mathlib.Core.List.{append-nil}
use raft_sim.Base.{
  ◌≢◌, false, [], ltb, ℕ, suc, ◌≤◌, ◌<◌, ◌≡◌, ◌⊎◌, inl, inr, refl, ap, subst, ◌∙◌, arith, true,
  List, ◌++◌, Option, none, some, Outcome, ok, panic, ◌>>=◌, Ensures, if◌then◌else◌, leb, not, ◌||◌,
  add64, Bool-cases,
}
use raft_sim.Raft.Types.{quorum, Entry}
use raft_sim.Raft.State.{Node, is_leader, become_follower, apply_committed}
use raft_sim.Raft.Log
use raft_sim.Raft.Replication.{
  after_commit, commit_to, maybe_commit, quorum_match, broadcast_if_leader,
}
use raft_sim.Raft.Commit.Quorums.{count_ge, leader_matches, quorum_match_lem}
use raft_sim.Raft.Commit.Sends.{Sends, broadcast_if_leader-Sending}

-- The entries that become committed at index c, in order.
abbrev pub newly_applied : Node → ℕ → List Entry
newly_applied n c =
    if ltb n.last_applied c then Log.slice n.log (add64 n.last_applied 1) (add64 c 1) 0 else []

-- The commit index moves to c.
pub record Commits (n n' : Node) (c : ℕ) : Type 0 where
  pub leader : is_leader n.state ≡ true
  pub above : n.commit_index < c
  pub held : quorum n.config ≤ count_ge c (leader_matches n)
  pub largest : count_ge (suc c) (leader_matches n) < quorum n.config
  pub own_term : Log.term n.log c ≡ some n.term
  pub commit_index : n'.commit_index ≡ c
  pub log : n'.log ≡ n.log
  pub last_applied : n'.last_applied ≡ (if ltb n.last_applied c then c else n.last_applied)
  pub applied : n'.out.applied ≡ n.out.applied ++ newly_applied n c

has_term-some : (o : Option ℕ) (t : ℕ) → Log.has_term o t ≡ true → o ≡ some t
has_term-some none t h = cc
has_term-some (some u) t h = ground arith

abbrev before_sending : ℕ → Node → Node
before_sending c n = after_commit (apply_committed (record n { commit_index = c }))

commit_to-Sends : (c : ℕ) (n n' : Node) → commit_to c n ≡ ok n' → Sends (before_sending c n) n'
unfolding commit_to
commit_to-Sends c n n' h =
    go (broadcast_if_leader (before_sending c n))
      (broadcast_if_leader-Sending (before_sending c n)).at h
  where
    go :
        (m : Outcome Node)
        → Ensures (Sends (before_sending c n)) m
        → m ≡ ok n'
        → Sends (before_sending c n) n'
    go (ok a) s e = subst (Sends (before_sending c n)) (ground arith) s
    go panic s e = cc

module _ (c : ℕ) (n : Node) where
  commit_index-before_sending : (before_sending c n).commit_index ≡ c
  unfolding after_commit become_follower apply_committed
  commit_index-before_sending = ground arith

  log-before_sending : (before_sending c n).log ≡ n.log
  unfolding after_commit become_follower apply_committed
  log-before_sending = ground arith

  last_applied-before_sending :
      (before_sending c n).last_applied ≡ (if ltb n.last_applied c then c else n.last_applied)
  unfolding after_commit become_follower apply_committed
  last_applied-before_sending = ground arith

  applied-before_sending : (before_sending c n).out.applied ≡ n.out.applied ++ newly_applied n c
  unfolding after_commit become_follower apply_committed
  applied-before_sending = ground (arith, append-nil n.out.applied)

commit_to-Commits :
    (c : ℕ) (n n' : Node)
    → is_leader n.state ≡ true
    → quorum_match n ≡ ok c
    → n.commit_index < c
    → Log.term n.log c ≡ some n.term
    → commit_to c n ≡ ok n'
    → Commits n n' c
commit_to-Commits c n n' l q lt t h =
    let s = (commit_to-Sends c n n' h).only in
    let m = quorum_match_lem n c q in
    record {
      leader = l;
      above = lt;
      held = m.0;
      largest = m.1;
      own_term = t;
      commit_index = ap (λ (x : Node). x.commit_index) s ∙ commit_index-before_sending c n;
      log = ap (λ (x : Node). x.log) s ∙ log-before_sending c n;
      last_applied = ap (λ (x : Node). x.last_applied) s ∙ last_applied-before_sending c n;
      applied = ap (λ (x : Node). x.out.applied) s ∙ applied-before_sending c n;
    }

-- Why nothing is committed: the node does not lead, or the largest index that a quorum of the voters
-- holds is committed already or is not one of the leader's own term.
pub record Held (n : Node) (c : ℕ) : Type 0 where
  pub held : quorum n.config ≤ count_ge c (leader_matches n)
  pub largest : count_ge (suc c) (leader_matches n) < quorum n.config
  pub stays : (c ≤ n.commit_index) ⊎ (Log.term n.log c ≢ some n.term)

abbrev pub Waits : Node → Type 0
Waits n = (is_leader n.state ≡ false) ⊎ ((c : ℕ) × Held n c)

has_term-other : (o : Option ℕ) (t : ℕ) → Log.has_term o t ≡ false → o ≢ some t
has_term-other none t h = λ e. cc
has_term-other (some u) t h = λ e. ground (arith, e)

waits_at :
    (n : Node) (c : ℕ)
    → quorum_match n ≡ ok c
    → (leb c n.commit_index || not (Log.has_term (Log.term n.log c) n.term)) ≡ true
    → Held n c
waits_at n c q stop =
    let m = quorum_match_lem n c q in
    record {
      held = m.0;
      largest = m.1;
      stays = elim (Bool-cases (leb c n.commit_index)) [
        | inl low ↦ inl (ground arith)
        | inr high ↦ inr (has_term-other (Log.term n.log c) n.term (ground arith))
      ];
    }

-- Where it returns, maybeCommit changes nothing where the node does not lead, or where the largest index that a quorum
-- of the voters holds is committed already or is not an entry of the leader's own term. Else the
-- leader commits up to that index: the log stays, and the entries behind the last applied one up to
-- that index, if there are any, are handed over in order.
pub maybe_commit_lem :
    (n n' : Node) → maybe_commit n ≡ ok n' → ((n' ≡ n) × Waits n) ⊎ ((c : ℕ) × Commits n n' c)
unfolding maybe_commit
maybe_commit_lem n n' h = elim (Bool-cases (is_leader n.state)) [
  | inr no_ ↦ inl (ground arith, inl no_)
  | inl l ↦ go l (quorum_match n) refl (ground arith)
]
  where
    go :
        is_leader n.state ≡ true
        → (o : Outcome ℕ) → quorum_match n ≡ o
        → (o >>= λ c.
            (if leb c n.commit_index || not (Log.has_term (Log.term n.log c) n.term)
              then ok n
              else commit_to c n))
          ≡ ok n'
        → ((n' ≡ n) × Waits n) ⊎ ((c : ℕ) × Commits n n' c)
    go l (ok c) q e =
        elim (Bool-cases (leb c n.commit_index || not (Log.has_term (Log.term n.log c) n.term))) [
          | inl stop ↦ inl (ground arith, inr (c, waits_at n c q stop))
          | inr on ↦ inr (
            c,
            commit_to-Commits c n n' l q (ground arith) (has_term-some _ _ (ground arith))
                (ground arith),
          )
        ]
    go l panic q e = cc
