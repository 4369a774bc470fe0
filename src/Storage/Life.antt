-- ===== src/Storage/Life.antt =====
-- A node with its disk (raft/node.go and storage/storage.go), through steps, crashes and restarts.
use raft_sim.Base.{
  ◌≤◌, ◌≡◌, ◌≢◌, refl, sym, ap, subst, arith, Option, none, some, Outcome, ok, panic, ◌>>=◌,
  Ensures, Bool-cases, inl, inr,
}
use raft_sim.Raft.Types.{HardState, Persist, Input, Output, empty_output}
use raft_sim.Raft.State.{Node}
use raft_sim.Raft.Step.{handle, step, opened, finish, persist_of, hard_state}
use raft_sim.Raft.Votes.Steps.{Evolves, AllGrant}
use raft_sim.Raft.Votes.Inputs.{TermsFit, handle-Evolving}
use raft_sim.Storage.{hard_after}

-- The hard state that a unit leaves on the disk.
abbrev pub persisted : HardState → Option Persist → HardState
persisted hs none = hs
persisted hs (some p) = hard_after hs p.hard_state

-- One step, seen from outside.
pub record StepSafe (n n' : Node) (out : Output) : Type 0 where
  pub id : n'.id ≡ n.id
  pub later : n.term ≤ n'.term
  pub kept : n'.term ≡ n.term → n.voted_for ≢ 0 → n'.voted_for ≡ n.voted_for
  pub recorded : persisted (hard_state n) out.persist ≡ hard_state n'
  pub granted : AllGrant n'.term n'.voted_for out.messages

persisted-persist_of :
    (n n' : Node) → Evolves (opened n) n' → persisted (hard_state n) (persist_of n') ≡ hard_state n'
unfolding persist_of
persisted-persist_of n n' e = elim (Bool-cases n'.hs_dirty) [
  | inl d ↦ ground arith
  | inr d ↦
      let same = e.moves.durable d in
      let clean = e.moves.clean refl in ground (arith, same.0, same.1, clean)
]

fits_opened : (n : Node) (input : Input) → TermsFit n input → TermsFit (opened n) input
fits_opened n (Input.receive m) h = h
fits_opened n _ h = h

step-Evolves :
    (n n' : Node) (input : Input) (out : Output)
    → TermsFit n input
    → step n input ≡ ok (n', out)
    → (a : Node) × Evolves (opened n) a
      × (n' ≡ record a { out = empty_output })
      × (out ≡ record a.out { persist = persist_of a })
unfolding step
step-Evolves n n' input out fit h =
    go (handle input (opened n)) (handle-Evolving input (opened n) (fits_opened n input fit)).at h
  where
    go :
        (r : Outcome Node)
        → Ensures (Evolves (opened n)) r
        → (r >>= λ a. ok (finish a)) ≡ ok (n', out)
        → (a : Node) × Evolves (opened n) a
          × (n' ≡ record a { out = empty_output })
          × (out ≡ record a.out { persist = persist_of a })
    go (ok a) e p = (a, e, ground arith, ground arith)
    go panic e p = cc

-- One step with any input, of a node whose terms fit. The node's id stays and its term does not
-- fall; within a term a vote that was cast stays; the unit for the disk, where there is one, turns
-- the hard state of before into the hard state of after, and where there is none the two are the
-- same; and each real vote granted by a message that is sent is the vote of the node in its term.
pub step_safe :
    (n n' : Node) (input : Input) (out : Output)
    → TermsFit n input
    → step n input ≡ ok (n', out)
    → StepSafe n n' out
step_safe n n' input out fit h =
    let (a, e, en, eo) = step-Evolves n n' input out fit h in
    record {
      id = ground (arith, en, e.moves.id);
      later = omega (arith, e.moves.later, ap (λ (x : Node). x.term) en);
      kept = λ t v. ground (arith, en, e.moves.kept);
      recorded = ground (arith, en, eo, persisted-persist_of n a e);
      granted =
          subst (λ (o : Output). AllGrant n'.term n'.voted_for o.messages) (sym eo)
            (subst (λ (x : Node). AllGrant x.term x.voted_for a.out.messages) (sym en)
              (e.granted tt));
    }
