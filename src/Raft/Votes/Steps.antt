-- ===== src/Raft/Votes/Steps.antt =====
-- Every input of Node.Step (raft/node.go) moves the term and the vote safely.
use raft_sim.Base.{
  ℕ, ◌+◌, ◌^◌, ◌<◌, ◌≡◌, refl, sym, ◌∙◌, subst, arith, Bool, true, false, List, [], ◌∷◌, ◌++◌,
  Outcome, ok, panic, Ensures, false≢true, Bool-cases, inl, inr,
}
use raft_sim.Raft.Types.{Message, StateType}
use raft_sim.Raft.State.{Node, send}
use raft_sim.Raft.Replication.{replication_targets}
use raft_sim.Raft.Election.{
  become_leader, record_vote, clear_active, tick_transfer, tick_heartbeat, tick_leader, tick,
  vote_response, handle_pre_vote, handle_vote, can_vote, pre_vote_resp, real_vote_resp,
  handle_vote_resp, timeout_now,
}
use raft_sim.Raft.Votes.Quiet.{
  Quiet, Quiet-same, Quiet-refl, Quiet-trans, Quiet-either, AllQuiet, grants, Calm, Calm-ok,
  Calm-from, Calm-if, send-Quiet, become_follower-Quiet,
}
use raft_sim.Raft.Votes.Handlers.{broadcast_append-Calm}
use raft_sim.Raft.Votes.Moves.{
  Moves, Moves-trans, MovesQuietly, MovesQuietly-calm, Moving, Moving-ok, Moving-from, Moving-if,
  Calm-Moving, become_leader-Calm, campaign_vote-Moving, campaign-Moving,
}

-- Every vote that is granted is the vote of the node in its term.
abbrev pub AllGrant : ℕ → ℕ → List Message → Type 0
AllGrant t v [] = Unit {0}
AllGrant t v (m ∷ ms) = (grants m ≡ true → (m.term ≡ t) × (m.to ≡ v)) × AllGrant t v ms

AllGrant-quiet : (t v : ℕ) (ms : List Message) → AllQuiet ms → AllGrant t v ms
AllGrant-quiet t v [] h = tt
AllGrant-quiet t v (m ∷ ms) h = (λ g. absurd (false≢true (sym h.0 ∙ g)), AllGrant-quiet t v ms h.1)

AllGrant-append :
    (t v : ℕ) (ms : List Message) (m : Message)
    → AllGrant t v ms
    → (grants m ≡ true → (m.term ≡ t) × (m.to ≡ v))
    → AllGrant t v (ms ++ m ∷ [])
AllGrant-append t v [] m h g = (g, tt)
AllGrant-append t v (x ∷ ms) m h g = (h.0, AllGrant-append t v ms m h.1 g)

pub record Evolves (n n' : Node) : Type 0 where
  pub moves : Moves n n'
  pub granted : AllQuiet n.out.messages → AllGrant n'.term n'.voted_for n'.out.messages

pub record Evolving (n : Node) (m : Outcome Node) : Type 0 where
  pub at : Ensures (Evolves n) m

pub Moving-Evolving : (n : Node) (m : Outcome Node) → Moving n m → Evolving n m
Moving-Evolving n (ok b) q = record {
  at = record { moves = q.at.moves; granted = λ h. AllGrant-quiet _ _ _ (q.at.messages h) };
}
Moving-Evolving n panic q = record { at = tt }

pub Calm-Evolving : (n : Node) (m : Outcome Node) → Calm n m → Evolving n m
Calm-Evolving n m q = Moving-Evolving n m (Calm-Moving n m q)

pub Evolving-from : (n a : Node) (m : Outcome Node) → MovesQuietly n a → Evolving a m → Evolving n m
Evolving-from n a (ok b) p q = record {
  at = record {
    moves = Moves-trans n a b p.moves q.at.moves;
    granted = λ h. q.at.granted (p.messages h);
  };
}
Evolving-from n a panic p q = record { at = tt }

tick_transfer-Quiet : (n : Node) → Quiet n (tick_transfer n)
unfolding tick_transfer
tick_transfer-Quiet n =
    Quiet-either n _ _ _ (Quiet-refl n) (Quiet-same n _ refl refl refl refl refl (λ c. c))

tick_heartbeat-Calm : (n : Node) → Calm n (tick_heartbeat n)
unfolding tick_heartbeat
tick_heartbeat-Calm n =
    Calm-if _ _ _
      (Calm-from _ (Quiet-same n _ refl refl refl refl refl (λ c. c))
        (broadcast_append-Calm (record n { heartbeat_elapsed = 0 })))
      (Calm-ok (Quiet-refl n))

tick_leader-Calm : (n : Node) → Calm n (tick_leader n)
unfolding tick_leader
tick_leader-Calm n =
    let n0 : Node = record n {
      heartbeat_elapsed = n.heartbeat_elapsed + 1;
      quorum_elapsed = n.quorum_elapsed + 1;
    } in
    let n1 = tick_transfer n0 in
    let n2 : Node = record n1 { quorum_elapsed = 0 } in
    let n3 : Node = record n2 { prs = clear_active (replication_targets n2) n2.prs } in
    let q1 : Quiet n n1 =
      Quiet-trans (Quiet-same n n0 refl refl refl refl refl (λ c. c)) (tick_transfer-Quiet n0) in
    let q2 : Quiet n n2 = Quiet-trans q1 (Quiet-same n1 n2 refl refl refl refl refl (λ c. c)) in
    let q3 : Quiet n n3 = Quiet-trans q2 (Quiet-same n2 n3 refl refl refl refl refl (λ c. c)) in
    Calm-if _ _ _
      (Calm-if _ _ _ (Calm-ok (Quiet-trans q2 (become_follower-Quiet 0 n2)))
        (Calm-from (tick_heartbeat n3) q3 (tick_heartbeat-Calm n3)))
      (Calm-from (tick_heartbeat n1) q1 (tick_heartbeat-Calm n1))

pub tick-Moving : (n : Node) → n.term + 1 < 2 ^ 64 → Moving n (tick n)
unfolding tick
tick-Moving n room =
    let n1 : Node = record n { election_elapsed = n.election_elapsed + 1 } in
    let q = MovesQuietly-calm n n1 (Quiet-same n n1 refl refl refl refl refl (λ c. c)) in
    Moving-if n _ _ _ (Calm-Moving n _ (tick_leader-Calm n)) (
      Moving-if n _ _ _ (Moving-from n n1 _ q (campaign-Moving n1.pre_vote false n1 room))
        (Moving-ok n n1 q))

pub timeout_now-Moving : (n : Node) → n.term + 1 < 2 ^ 64 → Moving n (timeout_now n)
unfolding timeout_now
timeout_now-Moving n room =
    Moving-if n _ _ _ (Calm-Moving n _ (Calm-ok (Quiet-refl n))) (campaign_vote-Moving true n room)

record_vote-Quiet : (id : ℕ) (granted : Bool) (n : Node) → Quiet n (record_vote id granted n)
unfolding record_vote
record_vote-Quiet id granted n = Quiet-same n _ refl refl refl refl refl (λ c. c)

pre_vote_resp-Moving : (m : Message) (n : Node) → n.term + 1 < 2 ^ 64 → Moving n (pre_vote_resp m n)
unfolding pre_vote_resp
pre_vote_resp-Moving m n room =
    let qy = record_vote-Quiet m.from true n in
    let qn = record_vote-Quiet m.from false n in
    Moving-if n _ _ _
      (Calm-Moving n _ (
        Calm-if _ _ _ (Calm-ok (Quiet-trans qn (become_follower-Quiet 0 _)))
          (Calm-if _ _ _ (Calm-ok qn) (Calm-ok (Quiet-refl n)))))
      (Moving-if n _ _ _
        (Moving-from n _ _ (MovesQuietly-calm n _ qy)
          (campaign_vote-Moving m.force (record_vote m.from true n) (omega (arith, qy.term, room))))
        (Calm-Moving n _ (Calm-ok qy)))

real_vote_resp-Calm : (m : Message) (n : Node) → Calm n (real_vote_resp m n)
unfolding real_vote_resp
real_vote_resp-Calm m n =
    let q = record_vote-Quiet m.from m.granted n in
    let n1 = record_vote m.from m.granted n in
    Calm-if _ _ _ (Calm-ok (Quiet-refl n)) (
      Calm-if _ _ _ (Calm-from (become_leader n1) q (become_leader-Calm n1))
        (Calm-if _ _ _ (Calm-ok (Quiet-trans q (become_follower-Quiet 0 n1))) (Calm-ok q)))

pub handle_vote_resp-Moving :
    (s : StateType) (m : Message) (n : Node)
    → n.state ≡ s
    → n.term + 1 < 2 ^ 64
    → Moving n (handle_vote_resp m n)
unfolding handle_vote_resp
handle_vote_resp-Moving StateType.pre_candidate m n h room =
    let e : handle_vote_resp m n ≡ pre_vote_resp m n = ground arith in
    subst (Moving n) (sym e) (pre_vote_resp-Moving m n room)
handle_vote_resp-Moving StateType.candidate m n h room =
    let e : handle_vote_resp m n ≡ real_vote_resp m n = ground arith in
    subst (Moving n) (sym e) (Calm-Moving n _ (real_vote_resp-Calm m n))
handle_vote_resp-Moving _ m n h room =
    let e : handle_vote_resp m n ≡ ok n = ground arith in
    subst (Moving n) (sym e) (Calm-Moving n _ (Calm-ok (Quiet-refl n)))

handle_pre_vote-Quiet : (m : Message) (n : Node) → Quiet n (handle_pre_vote m n)
unfolding handle_pre_vote
handle_pre_vote-Quiet m n = send-Quiet _ n refl

-- The state in which a vote is granted, before the answer is sent.
abbrev voting : Message → Node → Node
voting m n = record n { voted_for = m.from; hs_dirty = true; election_elapsed = 0 }

grant-Evolves :
    (m : Message) (n : Node)
    → can_vote m n ≡ true
    → Evolves n (send (vote_response m.from n.term false true) (voting m n))
unfolding can_vote send
grant-Evolves m n h = record {
  moves = record {
    id = refl;
    later = omega arith;
    kept = λ e v. ground arith;
    marked = λ d. refl;
    durable = λ d. cc;
    clean = λ c. c;
  };
  granted = λ q.
      AllGrant-append n.term m.from n.out.messages _ (AllGrant-quiet _ _ _ q)
        (λ g. (ground arith, refl));
}

pub handle_vote-Evolves : (m : Message) (n : Node) → Evolves n (handle_vote m n)
unfolding handle_vote
handle_vote-Evolves m n = elim (Bool-cases m.pre_vote) [
  | inl pre ↦
      let e : handle_vote m n ≡ handle_pre_vote m n = ground arith in
      subst (Evolves n) (sym e) (Calm-Evolving n (ok _) (Calm-ok (handle_pre_vote-Quiet m n))).at
  | inr real ↦ elim (Bool-cases (can_vote m n)) [
    | inl yes_ ↦
        let e : handle_vote m n ≡ send (vote_response m.from n.term false true) (voting m n) =
          ground arith in
        subst (Evolves n) (sym e) (grant-Evolves m n yes_)
    | inr no_ ↦
        let e : handle_vote m n ≡ send (vote_response m.from n.term false false) n = ground arith in
        subst (Evolves n) (sym e) (Calm-Evolving n (ok _) (Calm-ok (send-Quiet _ n refl))).at
  ]
]
