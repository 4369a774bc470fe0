-- ===== src/Raft/Votes/Moves.antt =====
-- How the term and the vote may move: the rules, and the role changes of raft/node.go.
use raft_sim.Base.{
  ℕ, ◌+◌, ◌^◌, ◌≤◌, ◌<◌, ◌≡◌, ◌≢◌, refl, sym, ◌∙◌, arith, Bool, true, false, List, [], ◌∷◌, Outcome,
  ok, panic, Ensures, if◌then◌else◌, nat_beq,
}
use raft_sim.Raft.Types.{EntryType}
use raft_sim.Raft.State.{Node, send, become_follower}
use raft_sim.Raft.Replication.{append_entry, maybe_commit}
use raft_sim.Raft.Election.{
  become_candidate, become_pre_candidate, become_leader, leading, record_vote, request_votes,
  vote_request, campaign_vote, campaign_pre, campaign,
}
use raft_sim.Raft.Votes.Quiet.{
  Quiet, Quiet-same, Quiet-refl, Quiet-trans, Quiet-either, AllQuiet, NoHard, Calm, Calm-ok,
  Calm-bind, Calm-from, send-Quiet,
}
use raft_sim.Raft.Votes.Handlers.{append_entry-Calm, maybe_commit-Calm, broadcast_append-Calm}

-- The term does not fall; within a term a vote that was cast stays; a change of either is marked for
-- the disk.
pub record Moves (n n' : Node) : Type 0 where
  pub id : n'.id ≡ n.id
  pub later : n.term ≤ n'.term
  pub kept : n'.term ≡ n.term → n.voted_for ≢ 0 → n'.voted_for ≡ n.voted_for
  pub marked : n.hs_dirty ≡ true → n'.hs_dirty ≡ true
  pub durable : n'.hs_dirty ≡ false → (n'.term ≡ n.term) × (n'.voted_for ≡ n.voted_for)
  pub clean : NoHard n → NoHard n'

pub record MovesQuietly (n n' : Node) : Type 0 where
  pub moves : Moves n n'
  pub messages : AllQuiet n.out.messages → AllQuiet n'.out.messages

pub Quiet-Moves : (n n' : Node) → Quiet n n' → Moves n n'
Quiet-Moves n n' q = record {
  id = q.id;
  later = omega (arith, q.term);
  kept = λ e v. q.voted_for;
  marked = λ d. q.hs_dirty ∙ d;
  durable = λ d. (q.term, q.voted_for);
  clean = q.clean;
}

pub Moves-trans : (a b c : Node) → Moves a b → Moves b c → Moves a c
Moves-trans a b c p q = record {
  id = q.id ∙ p.id;
  later = omega (arith, p.later, q.later);
  kept = λ e v.
      let same : b.term ≡ a.term = omega (arith, p.later, q.later, e) in
      let first = p.kept same v in q.kept (e ∙ sym same) (λ z. v (sym first ∙ z)) ∙ first;
  marked = λ d. q.marked (p.marked d);
  durable = λ d.
      let second = q.durable d in
      let clean : b.hs_dirty ≡ false = ground (arith, q.marked) in
      let first = p.durable clean in (second.0 ∙ first.0, second.1 ∙ first.1);
  clean = λ c. q.clean (p.clean c);
}

pub MovesQuietly-calm : (n n' : Node) → Quiet n n' → MovesQuietly n n'
MovesQuietly-calm n n' q = record { moves = Quiet-Moves n n' q; messages = q.messages }

pub MovesQuietly-trans : (a b c : Node) → MovesQuietly a b → MovesQuietly b c → MovesQuietly a c
MovesQuietly-trans a b c p q = record {
  moves = Moves-trans a b c p.moves q.moves;
  messages = λ h. q.messages (p.messages h);
}

pub record Moving (n : Node) (m : Outcome Node) : Type 0 where
  pub at : Ensures (MovesQuietly n) m

module _ (n : Node) where
  pub Moving-ok : (a : Node) → MovesQuietly n a → Moving n (ok a)
  Moving-ok a q = record { at = q }

  pub Moving-from : (a : Node) (m : Outcome Node) → MovesQuietly n a → Moving a m → Moving n m
  Moving-from a (ok b) p q = record { at = MovesQuietly-trans n a b p q.at }
  Moving-from a panic p q = record { at = tt }

  pub Calm-Moving : (m : Outcome Node) → Calm n m → Moving n m
  Calm-Moving (ok b) q = record { at = MovesQuietly-calm n b q.at }
  Calm-Moving panic q = record { at = tt }

  pub Moving-if :
      (b : Bool) (x y : Outcome Node) → Moving n x → Moving n y → Moving n (if b then x else y)
  Moving-if true x y p q = p
  Moving-if false x y p q = q

-- After a move, something that leaves the term and the vote alone.
pub Moving-Calm : (n a : Node) (m : Outcome Node) → MovesQuietly n a → Calm a m → Moving n m
Moving-Calm n a m p q = Moving-from n a m p (Calm-Moving a m q)

pub become_follower-MovesQuietly :
    (t leader : ℕ) (n : Node) → MovesQuietly n (become_follower t leader n)
unfolding become_follower
become_follower-MovesQuietly t leader n = record {
  moves = record {
    id = refl;
    later = ground arith;
    kept = λ e v. ground arith;
    marked = λ d. ground arith;
    durable = λ d. ground arith;
    clean = λ c. c;
  };
  messages = λ h. h;
}

-- The next term is still a uint64.
become_candidate-MovesQuietly :
    (n : Node) → n.term + 1 < 2 ^ 64 → MovesQuietly n (become_candidate n)
unfolding become_candidate
become_candidate-MovesQuietly n room = record {
  moves = record {
    id = refl;
    later = omega (arith, room);
    kept = λ e v. absurd (omega (arith, room, e));
    marked = λ d. refl;
    durable = λ d. cc;
    clean = λ c. c;
  };
  messages = λ h. h;
}

pub become_leader-Calm : (n : Node) → Calm n (become_leader n)
unfolding become_leader
become_leader-Calm n =
    Calm-bind (append_entry EntryType.noop [] (leading n)) _
      (Calm-from (append_entry EntryType.noop [] (leading n))
        (Quiet-same n (leading n) refl refl refl refl refl (λ c. c))
        (append_entry-Calm EntryType.noop [] (leading n)))
      (λ a. Calm-bind (maybe_commit a) _ (maybe_commit-Calm a) broadcast_append-Calm)

request_votes-Quiet :
    (t : ℕ) (pre force : Bool) (vs : List ℕ) (n : Node) → Quiet n (request_votes t pre force vs n)
unfolding request_votes
request_votes-Quiet t pre force [] n = Quiet-refl n
request_votes-Quiet t pre force (v ∷ vs) n =
    Quiet-trans
      (Quiet-either n (nat_beq v n.id) n (send (vote_request v t pre force n) n) (Quiet-refl n)
        (send-Quiet _ n refl))
      (request_votes-Quiet t pre force vs _)

record_vote-Quiet : (id : ℕ) (granted : Bool) (n : Node) → Quiet n (record_vote id granted n)
unfolding record_vote
record_vote-Quiet id granted n = Quiet-same n _ refl refl refl refl refl (λ c. c)

pub campaign_vote-Moving :
    (force : Bool) (n : Node) → n.term + 1 < 2 ^ 64 → Moving n (campaign_vote force n)
unfolding campaign_vote
campaign_vote-Moving force n room =
    let n1 = become_candidate n in
    let n2 = record_vote n1.id true n1 in
    let start =
      MovesQuietly-trans n n1 n2 (become_candidate-MovesQuietly n room)
        (MovesQuietly-calm n1 n2 (record_vote-Quiet n1.id true n1)) in
    Moving-if n _ _ _ (Moving-ok n n (MovesQuietly-calm n n (Quiet-refl n))) (
      Moving-if n _ _ _ (Moving-Calm n n2 (become_leader n2) start (become_leader-Calm n2)) (
        Moving-Calm n n2 _ start
          (Calm-ok (request_votes-Quiet n1.term false force n2.config.voters n2))))

become_pre_candidate-Quiet : (n : Node) → Quiet n (become_pre_candidate n)
unfolding become_pre_candidate
become_pre_candidate-Quiet n = Quiet-same n _ refl refl refl refl refl (λ c. c)

pub campaign_pre-Moving :
    (force : Bool) (n : Node) → n.term + 1 < 2 ^ 64 → Moving n (campaign_pre force n)
unfolding campaign_pre
campaign_pre-Moving force n room =
    let n1 = become_pre_candidate n in
    let n2 = record_vote n1.id true n1 in
    let quiet = Quiet-trans (become_pre_candidate-Quiet n) (record_vote-Quiet n1.id true n1) in
    Moving-if n _ _ _ (Moving-ok n n (MovesQuietly-calm n n (Quiet-refl n))) (
      Moving-if n _ _ _
        (Moving-from n n2 (campaign_vote force n2) (MovesQuietly-calm n n2 quiet)
          (campaign_vote-Moving force n2 (omega (arith, quiet.term, room))))
        (Moving-Calm n n2 _ (MovesQuietly-calm n n2 quiet)
          (Calm-ok (request_votes-Quiet _ true force n2.config.voters n2))))

pub campaign-Moving :
    (pre force : Bool) (n : Node) → n.term + 1 < 2 ^ 64 → Moving n (campaign pre force n)
unfolding campaign
campaign-Moving pre force n room =
    Moving-if n pre _ _ (campaign_pre-Moving force n room) (campaign_vote-Moving force n room)
