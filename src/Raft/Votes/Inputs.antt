-- ===== src/Raft/Votes/Inputs.antt =====
-- Node.Step as a whole (raft/node.go): messages of any type and term, and every other input.
use raft_sim.Base.{
  ℕ, ◌+◌, ◌^◌, ◌<◌, ◌≡◌, refl, sym, ◌⊎◌, subst, arith, false, Option, none, some, ok, panic,
  if◌then◌else◌, ltb, nat_beq, ◌&&◌, Bool-cases, inl, inr, ltb→lt,
}
use raft_sim.Raft.Types.{Message, MessageType, Snapshot, Input}
use raft_sim.Raft.State.{Node, is_leader, is_follower, send, become_follower}
use raft_sim.Raft.Replication.{heard, handle_app}
use raft_sim.Raft.Snapshots.{install_snapshot, take_snapshot}
use raft_sim.Raft.Election.{vote_response}
use raft_sim.Raft.Step.{dispatch, catch_up, refuse_old, receive_later, receive, handle}
use raft_sim.Raft.Votes.Quiet.{Quiet, Quiet-same, Quiet-refl, Calm-ok, send-Quiet}
use raft_sim.Raft.Votes.Handlers.{handle_app_entries-Calm, propose-Calm}
use raft_sim.Raft.Votes.Changes.{
  take_snapshot-Calm, handle_app_resp-Calm, handle_snapshot_resp-Calm, propose_conf_change-Calm,
  transfer_leadership-Calm, create_snapshot-Calm,
}
use raft_sim.Raft.Votes.Moves.{
  MovesQuietly, MovesQuietly-calm, MovesQuietly-trans, Moving, Moving-ok, Moving-if, Moving-Calm,
  become_follower-MovesQuietly,
}
use raft_sim.Raft.Votes.Steps.{
  Evolving, Moving-Evolving, Calm-Evolving, Evolving-from, tick-Moving, timeout_now-Moving,
  handle_vote_resp-Moving, handle_vote-Evolves,
}

-- A node that is no follower follows the sender first.
following : Message → Node → Node
following m n = heard m.from (if is_follower n.state then n else become_follower m.term m.from n)

following-MovesQuietly : (m : Message) (n : Node) → MovesQuietly n (following m n)
unfolding following
following-MovesQuietly m n = elim (Bool-cases (is_follower n.state)) [
  | inl e ↦ rw e (MovesQuietly-calm n _ (Quiet-same n _ refl refl refl refl refl (λ c. c)))
  | inr e ↦ rw e (
      MovesQuietly-trans n (become_follower m.term m.from n) _
        (become_follower-MovesQuietly m.term m.from n)
        (MovesQuietly-calm _ _
          (Quiet-same (become_follower m.term m.from n) _ refl refl refl refl refl (λ c. c))))
]

handle_app-Moving : (m : Message) (n : Node) → Moving n (handle_app m n)
unfolding handle_app following
handle_app-Moving m n =
    Moving-if n (is_leader n.state) _ _ (Moving-ok n n (MovesQuietly-calm n n (Quiet-refl n))) (
      Moving-Calm n (following m n) _ (following-MovesQuietly m n)
        (handle_app_entries-Calm m (following m n)))

install-Moving :
    (m : Message) (n : Node) (o : Option Snapshot)
    → m.snapshot ≡ o
    → Moving n (install_snapshot m n)
unfolding install_snapshot following
install-Moving m n none h =
    let e : install_snapshot m n ≡ ok (following m n) = ground arith in
    subst (Moving n) (sym e) (Moving-ok n _ (following-MovesQuietly m n))
install-Moving m n (some s) h =
    let e : install_snapshot m n ≡ take_snapshot m.from s (following m n) = ground arith in
    subst (Moving n) (sym e) (
      Moving-Calm n (following m n) _ (following-MovesQuietly m n)
        (take_snapshot-Calm m.from s (following m n)))

dispatch-Evolving :
    (t : MessageType) (m : Message) (n : Node) → n.term + 1 < 2 ^ 64 → Evolving n (dispatch t m n)
unfolding dispatch
dispatch-Evolving MessageType.vote m n room = record { at = handle_vote-Evolves m n }
dispatch-Evolving MessageType.vote_resp m n room =
    Moving-Evolving n _ (handle_vote_resp-Moving n.state m n refl room)
dispatch-Evolving MessageType.app m n room = Moving-Evolving n _ (handle_app-Moving m n)
dispatch-Evolving MessageType.app_resp m n room = Calm-Evolving n _ (handle_app_resp-Calm m n)
dispatch-Evolving MessageType.snap m n room =
    Moving-Evolving n _ (install-Moving m n m.snapshot refl)
dispatch-Evolving MessageType.snap_resp m n room = Calm-Evolving n _ (handle_snapshot_resp-Calm m n)
dispatch-Evolving MessageType.timeout_now m n room = Moving-Evolving n _ (timeout_now-Moving n room)

-- Catching up with a later term keeps the node as it is, or makes it a follower in that term.
abbrev CaughtUp : Message → Node → Node → Type 0
CaughtUp m n n' = (n' ≡ n) ⊎ ((l : ℕ) × (n' ≡ become_follower m.term l n))

catch_up-CaughtUp :
    (t : MessageType) (m : Message) (n n' : Node) → catch_up t m n ≡ some n' → CaughtUp m n n'
unfolding catch_up
catch_up-CaughtUp MessageType.vote m n n' h = elim (Bool-cases m.pre_vote) [
  | inl e ↦ inl (ground arith)
  | inr e ↦ inr (0, ground arith)
]
catch_up-CaughtUp MessageType.vote_resp m n n' h = elim (Bool-cases (m.pre_vote && m.granted)) [
  | inl e ↦ inl (ground arith)
  | inr e ↦ inr (0, ground arith)
]
catch_up-CaughtUp MessageType.app m n n' h = inr (m.from, ground arith)
catch_up-CaughtUp MessageType.snap m n n' h = inr (m.from, ground arith)
catch_up-CaughtUp _ m n n' h = inr (0, ground arith)

term-become_follower : (t l : ℕ) (n : Node) → n.term < t → (become_follower t l n).term ≡ t
unfolding become_follower
term-become_follower t l n h = ground arith

dispatch-CaughtUp :
    (m : Message) (n n' : Node)
    → n.term < m.term
    → n.term + 1 < 2 ^ 64
    → m.term + 1 < 2 ^ 64
    → CaughtUp m n n'
    → Evolving n (dispatch m.type_of m n')
dispatch-CaughtUp m n n' lt room roomy (inl e) =
    subst (λ a. Evolving n (dispatch m.type_of m a)) (sym e) (dispatch-Evolving m.type_of m n room)
dispatch-CaughtUp m n n' lt room roomy (inr (l, e)) =
    let a = become_follower m.term l n in
    subst (λ b. Evolving n (dispatch m.type_of m b)) (sym e)
      (Evolving-from n a _ (become_follower-MovesQuietly m.term l n) (
        dispatch-Evolving m.type_of m a (omega (arith, term-become_follower m.term l n lt, roomy))))

receive_later-Evolving :
    (m : Message) (n : Node) (o : Option Node)
    → catch_up m.type_of m n ≡ o
    → n.term < m.term
    → n.term + 1 < 2 ^ 64
    → m.term + 1 < 2 ^ 64
    → Evolving n (receive_later m n)
unfolding receive_later
receive_later-Evolving m n none h lt room roomy =
    let e : receive_later m n ≡ ok (send (vote_response m.from n.term false false) n) =
      ground arith in
    subst (Evolving n) (sym e) (Calm-Evolving n _ (Calm-ok (send-Quiet _ n refl)))
receive_later-Evolving m n (some n') h lt room roomy =
    let e : receive_later m n ≡ dispatch m.type_of m n' = ground arith in
    subst (Evolving n) (sym e)
      (dispatch-CaughtUp m n n' lt room roomy (catch_up-CaughtUp m.type_of m n n' h))

refuse_old-Quiet : (t : MessageType) (m : Message) (n : Node) → Quiet n (refuse_old t m n)
unfolding refuse_old
refuse_old-Quiet MessageType.app m n = send-Quiet _ n refl
refuse_old-Quiet MessageType.snap m n = send-Quiet _ n refl
refuse_old-Quiet MessageType.vote m n = send-Quiet _ n (ground arith)
refuse_old-Quiet _ m n = Quiet-refl n

receive-Evolving :
    (m : Message) (n : Node) → n.term + 1 < 2 ^ 64 → m.term + 1 < 2 ^ 64 → Evolving n (receive m n)
unfolding receive
receive-Evolving m n room roomy = elim (Bool-cases (nat_beq m.to n.id)) [
  | inr e ↦
      let r : receive m n ≡ panic = ground arith in subst (Evolving n) (sym r) (record { at = tt })
  | inl e ↦ elim (Bool-cases (ltb n.term m.term)) [
    | inl later ↦
        let r : receive m n ≡ receive_later m n = ground arith in
        subst (Evolving n) (sym r)
          (receive_later-Evolving m n (catch_up m.type_of m n) refl (ltb→lt _ _ later) room roomy)
    | inr not_later ↦ elim (Bool-cases (ltb m.term n.term)) [
      | inl old ↦
          let r : receive m n ≡ ok (refuse_old m.type_of m n) = ground arith in
          subst (Evolving n) (sym r) (Calm-Evolving n _ (Calm-ok (refuse_old-Quiet m.type_of m n)))
      | inr same ↦
          let r : receive m n ≡ dispatch m.type_of m n = ground arith in
          subst (Evolving n) (sym r) (dispatch-Evolving m.type_of m n room)
    ]
  ]
]

-- The terms of the node and of the message it receives have a successor among the uint64.
abbrev pub TermsFit : Node → Input → Type 0
TermsFit n (Input.receive m) = (n.term + 1 < 2 ^ 64) × (m.term + 1 < 2 ^ 64)
TermsFit n _ = n.term + 1 < 2 ^ 64

pub handle-Evolving : (input : Input) (n : Node) → TermsFit n input → Evolving n (handle input n)
unfolding handle
handle-Evolving (Input.receive m) n fit = receive-Evolving m n fit.0 fit.1
handle-Evolving Input.tick n fit = Moving-Evolving n _ (tick-Moving n fit)
handle-Evolving (Input.propose bytes) n fit = Calm-Evolving n _ (propose-Calm bytes n)
handle-Evolving (Input.propose_conf_change ch) n fit =
    Calm-Evolving n _ (propose_conf_change-Calm ch n)
handle-Evolving (Input.transfer_leadership target) n fit =
    Calm-Evolving n _ (transfer_leadership-Calm target n)
handle-Evolving (Input.create_snapshot index bytes) n fit =
    Calm-Evolving n _ (create_snapshot-Calm index bytes n)
