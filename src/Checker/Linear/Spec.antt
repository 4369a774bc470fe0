-- ===== src/Checker/Linear/Spec.antt =====
-- What it means for the history of one key to be linearizable, with no search: some of its operations,
-- all completed ones among them, stand in an order that respects the times, in which the register
-- gives each completed operation the output that was recorded.
use mathlib.Core.List.{Perm}
use raft_sim.Base.{ℕ, ◌≡◌, Bool, true, not, ◌&&◌, ◌||◌, List, [], ◌∷◌, ◌++◌, ok, all, leb}
use raft_sim.Checker.Linear.{LinOp, RegState, apply_op, output_matches, max_int64}

-- a is not over before o begins.
abbrev pub may_precede : LinOp → LinOp → Bool
may_precede o a = not a.complete || leb o.invoke a.response

abbrev pub is_lost : LinOp → Bool
is_lost o = not o.complete

-- No operation stands behind one that began after it was over.
abbrev pub InTime : List LinOp → Type 0
InTime [] = Unit {0}
InTime (o ∷ os) = (all (may_precede o) os ≡ true) × InTime os

-- The register runs through the operations with the recorded outputs.
pub data Legal : RegState → List LinOp → Type 0 where
  done : {st : RegState} → Legal st []
  next :
      {st : RegState} (o : LinOp) {os : List LinOp} (st' : RegState) (value : List ℕ)
      (out_ok : Bool)
      → apply_op st o ≡ ok (st', value, out_ok)
      → (is_lost o || output_matches o value out_ok) ≡ true
      → Legal st' os
      → Legal st (o ∷ os)

pub record Linearization (st : RegState) (ops : List LinOp) : Type 0 where
  pub order : List LinOp
  pub lost : List LinOp
  pub same : Perm (order ++ lost) ops
  pub incomplete : all is_lost lost ≡ true
  pub in_time : InTime order
  pub legal : Legal st order

abbrev pub Dead : RegState → List LinOp → Type 0
Dead st ops = Linearization st ops → ⊥

-- The operations stand by their beginnings.
abbrev pub Rises : List LinOp → Type 0
Rises [] = Unit {0}
Rises (o ∷ os) = (all (λ a. leb o.invoke a.invoke) os ≡ true) × Rises os

-- A time is an int64, and a completed operation is not over before it begins.
abbrev pub is_timed : LinOp → Bool
is_timed o = leb o.invoke max_int64 && may_precede o o
