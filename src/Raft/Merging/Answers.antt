-- ===== src/Raft/Merging/Answers.antt =====
-- The ways handleApp of raft/node.go can end, and what its last steps change.
use raft_sim.Base.{
  ℕ, ◌+◌, ◌-◌, ◌≤◌, ◌≡◌, ◌⊎◌, refl, sym, ap, subst, arith, Bool, true, false, List, [], ◌∷◌, ◌++◌,
  inl, length, drop,
}
use raft_sim.Raft.Types.{Message, MessageType, message}
use raft_sim.Raft.State.{Node, send, stamped, apply_committed}
use raft_sim.Raft.Log.{RaftLog, term, entry}
use raft_sim.Raft.Log.Terms.{WellFormed}
use raft_sim.Raft.Replication.{respond_app, follow_commit}
use raft_sim.Raft.Merging.{Holds, SameTo, top}

-- One message is sent, with this answer.
abbrev pub Answers : Node → Node → Bool → ℕ → Type 0
Answers n n' success match_index =
    (r : Message) × (n'.out.messages ≡ n.out.messages ++ r ∷ [])
    × (r.success ≡ success)
    × (r.match_index ≡ match_index)

-- The log stays: nothing is answered, or a refusal, or that the snapshot has all the entries.
abbrev pub Stays : Node → Node → Type 0
Stays n n' =
    (n'.log ≡ n.log)
    × ((n'.out.messages ≡ n.out.messages)
        ⊎ (Answers n n' false 0 ⊎ Answers n n' true n.log.snap_index))

-- At the index of each entry of the message behind the snapshot the log has that entry, or the entry of
-- the same term that it had, and the answer is the index of the last.
abbrev pub Accepts : Message → Node → Node → Type 0
Accepts m n n' =
    Holds n.log n'.log (drop (n.log.snap_index - m.prev_log_index) m.entries)
    × Answers n n' true (m.prev_log_index + length m.entries)

pub record Follows (m : Message) (n n' : Node) : Type 0 where
  pub well_formed : WellFormed n'.log
  pub committed : SameTo n.log n'.log n.commit_index
  pub advances : n.commit_index ≤ n'.commit_index
  pub inside : n'.commit_index ≤ top n'.log
  pub answer : Stays n n' ⊎ Accepts m n n'

module _ (commit last_new : ℕ) (n : Node) where
  pub log-follow_commit : (follow_commit commit last_new n).log ≡ n.log
  unfolding follow_commit apply_committed
  log-follow_commit = ground arith

  pub messages-follow_commit : (follow_commit commit last_new n).out.messages ≡ n.out.messages
  unfolding follow_commit apply_committed
  messages-follow_commit = ground arith

  pub follow_commit-le : n.commit_index ≤ (follow_commit commit last_new n).commit_index
  unfolding follow_commit apply_committed
  follow_commit-le = ground arith

  pub commit_index-follow_commit :
      (k : ℕ)
      → n.commit_index ≤ k
      → last_new ≤ k
      → (follow_commit commit last_new n).commit_index ≤ k
  unfolding follow_commit apply_committed
  commit_index-follow_commit k h1 h2 = ground arith

pub respond_app-Answers :
    (to : ℕ) (success : Bool) (match_index ci ct : ℕ) (n b : Node)
    → b.out.messages ≡ n.out.messages
    → Answers n (respond_app to success match_index ci ct b) success match_index
unfolding respond_app send
respond_app-Answers to success match_index ci ct n b h =
    let r : Message = record (message MessageType.app_resp to b.term) {
      success = success;
      match_index = match_index;
      conflict_index = ci;
      conflict_term = ct;
    } in
    (stamped b r, ap (λ (ms : List Message). ms ++ stamped b r ∷ []) h, refl, refl)

-- A message that changes nothing but what is sent.
pub Stays-Follows :
    (m : Message) (n n' : Node)
    → WellFormed n.log
    → n.commit_index ≤ top n.log
    → n'.commit_index ≡ n.commit_index
    → Stays n n'
    → Follows m n n'
Stays-Follows m n n' w c same s = record {
  well_formed = subst WellFormed (sym s.0) w;
  committed = λ j le. (ap (λ (l : RaftLog). term l j) s.0, ap (λ (l : RaftLog). entry l j) s.0);
  advances = omega (arith, same);
  inside = subst (λ (l : RaftLog). n'.commit_index ≤ top l) (sym s.0) (omega (arith, same));
  answer = inl s;
}
