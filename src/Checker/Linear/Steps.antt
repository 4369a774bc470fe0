-- ===== src/Checker/Linear/Steps.antt =====
-- One level of the search of checker/linear.go: the operations that are left under a mask, and what
-- the loop over them tried.
use mathlib.Core.List.{Perm}
use mathlib.Core.List.Perm
use raft_sim.Base.{
  ℕ, zero, suc, ◌+◌, ◌-◌, ◌≤◌, ◌≡◌, refl, sym, ap, subst, arith, Bool, true, false, not, ◌&&◌, ◌||◌,
  List, [], ◌∷◌, some, ok, get_elem?, drop, length, set, all, ltb, if◌then◌else◌,
}
use raft_sim.Checker.Linear.{
  LinOp, RegState, apply_op, output_matches, min_response, count_complete, bit,
}
use raft_sim.Checker.Linear.Spec.{is_lost, may_precede}

abbrev pub pending : List Bool → List LinOp → List LinOp
pending [] os = []
pending (b ∷ bs) [] = []
pending (b ∷ bs) (o ∷ os) = let rest = pending bs os in if b then rest else o ∷ rest

module _ (o : LinOp) where
  pub pending-set :
      (mask : List Bool) (ops : List LinOp) (i : ℕ)
      → get_elem? mask i ≡ some false
      → get_elem? ops i ≡ some o
      → Perm (o ∷ pending (set mask i true) ops) (pending mask ops)
  pending-set [] ops i h k = cc
  pending-set (b ∷ bs) [] i h k = cc
  pending-set (true ∷ bs) (x ∷ os) zero h k = cc
  pending-set (false ∷ bs) (x ∷ os) zero h k =
      let same : x ≡ o = ground arith in
      subst (λ y. Perm (o ∷ pending bs os) (y ∷ pending bs os)) (sym same) Perm.rfl
  pending-set (true ∷ bs) (x ∷ os) (suc i) h k = pending-set bs os i h k
  pending-set (false ∷ bs) (x ∷ os) (suc i) h k =
      Perm.trans (Perm.swap x o (pending (set bs i true) os))
        (Perm.cons x (pending-set bs os i h k))

  pub length-pending-set :
      (mask : List Bool) (ops : List LinOp) (i : ℕ)
      → get_elem? mask i ≡ some false
      → get_elem? ops i ≡ some o
      → suc (length (pending (set mask i true) ops)) ≡ length (pending mask ops)
  length-pending-set [] ops i h k = cc
  length-pending-set (b ∷ bs) [] i h k = cc
  length-pending-set (true ∷ bs) (x ∷ os) zero h k = cc
  length-pending-set (false ∷ bs) (x ∷ os) zero h k = refl
  length-pending-set (true ∷ bs) (x ∷ os) (suc i) h k = length-pending-set bs os i h k
  length-pending-set (false ∷ bs) (x ∷ os) (suc i) h k = ap suc (length-pending-set bs os i h k)

  pub count_complete-pending-set :
      (mask : List Bool) (ops : List LinOp) (i : ℕ)
      → get_elem? mask i ≡ some false
      → get_elem? ops i ≡ some o
      → bit o.complete + count_complete (pending (set mask i true) ops)
        ≡ count_complete (pending mask ops)
  unfolding count_complete
  count_complete-pending-set [] ops i h k = cc
  count_complete-pending-set (b ∷ bs) [] i h k = cc
  count_complete-pending-set (true ∷ bs) (x ∷ os) zero h k = cc
  count_complete-pending-set (false ∷ bs) (x ∷ os) zero h k = ground arith
  count_complete-pending-set (true ∷ bs) (x ∷ os) (suc i) h k =
      count_complete-pending-set bs os i h k
  count_complete-pending-set (false ∷ bs) (x ∷ os) (suc i) h k =
      omega (arith, count_complete-pending-set bs os i h k)

pub count_complete-zero : (os : List LinOp) → count_complete os ≡ 0 → all is_lost os ≡ true
unfolding count_complete
count_complete-zero [] h = refl
count_complete-zero (o ∷ os) h = ground (arith, count_complete-zero os)

pub count_complete-lost : (os : List LinOp) → all is_lost os ≡ true → count_complete os ≡ 0
unfolding count_complete
count_complete-lost [] h = refl
count_complete-lost (o ∷ os) h = ground (arith, count_complete-lost os)

-- The least response decides who may stand next.
pub min_response-le :
    (o : LinOp) (acc : ℕ) (mask : List Bool) (ops : List LinOp)
    → o.invoke ≤ min_response acc mask ops
    → (o.invoke ≤ acc) × (all (may_precede o) (pending mask ops) ≡ true)
unfolding min_response
min_response-le o acc [] ops h = (h, refl)
min_response-le o acc (b ∷ bs) [] h = (h, refl)
min_response-le o acc (b ∷ bs) (x ∷ os) h =
    let (low, rest) =
      min_response-le o (if not b && x.complete && ltb x.response acc then x.response else acc) bs
        os h in
    (ground arith, ground arith)

pub le-min_response :
    (o : LinOp) (acc : ℕ) (mask : List Bool) (ops : List LinOp)
    → o.invoke ≤ acc
    → all (may_precede o) (pending mask ops) ≡ true
    → o.invoke ≤ min_response acc mask ops
unfolding min_response
le-min_response o acc [] ops h k = h
le-min_response o acc (b ∷ bs) [] h k = h
le-min_response o acc (b ∷ bs) (x ∷ os) h k =
    le-min_response o (if not b && x.complete && ltb x.response acc then x.response else acc) bs os
      (ground arith) (ground arith)

-- Operation i can stand next: it is left, begins early enough, and its output fits.
pub record CanStand (least : ℕ) (mask : List Bool) (ops : List LinOp) (st : RegState) (i : ℕ)
    (o : LinOp) (st' : RegState) : Type 0 where
  pub unmarked : get_elem? mask i ≡ some false
  pub at_index : get_elem? ops i ≡ some o
  pub early : o.invoke ≤ least
  pub value : List ℕ
  pub out_ok : Bool
  pub runs : apply_op st o ≡ ok (st', value, out_ok)
  pub fits : (is_lost o || output_matches o value out_ok) ≡ true

abbrev pub left_after : LinOp → ℕ → ℕ
left_after o left = if o.complete then left - 1 else left

pub drop-uncons {ℓ} :
    {A : Type ℓ} (i : ℕ) (xs : List A) (x : A) (rest : List A)
    → drop i xs ≡ x ∷ rest
    → (get_elem? xs i ≡ some x) × (drop (suc i) xs ≡ rest)
drop-uncons zero [] x rest h = cc
drop-uncons zero (y ∷ xs) x rest h = (ground arith, ground arith)
drop-uncons (suc i) [] x rest h = cc
drop-uncons (suc i) (y ∷ xs) x rest h = drop-uncons i xs x rest h
