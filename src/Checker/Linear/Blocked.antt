-- ===== src/Checker/Linear/Blocked.antt =====
-- A state of the search of checker/linear.go that no operation can leave has no linearization.
use mathlib.Core.Logic.{∥∥₁_elim}
use mathlib.Core.HLevel.{⊥_prop}
use mathlib.Core.List.{Perm, Memᴰ, mem-cons_self}
use mathlib.Core.List.Perm
use mathlib.Core.List.Memᴰ
use raft_sim.Base.{
  all-Perm, all-get_elem?, ℕ, suc, ◌≡◌, ◌≢◌, refl, sym, ap, ◌∙◌, arith, Bool, true, false, List, [],
  ◌∷◌, ◌++◌, some, get_elem?, set, all, bytes_eq,
}
use raft_sim.Checker.Linear.{LinOp, RegState, min_response, max_int64, count_complete}
use raft_sim.Checker.Linear.Spec.{Dead, is_timed, is_lost, may_precede, InTime, Legal}
use raft_sim.Checker.Linear.Steps.{
  pending, pending-set, count_complete-lost, le-min_response, CanStand,
}

pending_index :
    (o : LinOp) (mask : List Bool) (ops : List LinOp)
    → Memᴰ o (pending mask ops)
    → (i : ℕ) × (get_elem? mask i ≡ some false) × (get_elem? ops i ≡ some o)
pending_index o [] ops m = absurd (Memᴰ.not-nil m)
pending_index o (b ∷ bs) [] m = absurd (Memᴰ.not-nil m)
pending_index o (true ∷ bs) (x ∷ os) m =
    let (i, un, at_i) = pending_index o bs os m in (suc i, un, at_i)
pending_index o (false ∷ bs) (x ∷ os) (Memᴰ.head e) = (0, refl, ap some (sym e))
pending_index o (false ∷ bs) (x ∷ os) (Memᴰ.tail m) =
    let (i, un, at_i) = pending_index o bs os m in (suc i, un, at_i)

all-lost_may_precede :
    (o : LinOp) (os : List LinOp) → all is_lost os ≡ true → all (may_precede o) os ≡ true
all-lost_may_precede o [] h = refl
all-lost_may_precede o (x ∷ os) h = ground (arith, all-lost_may_precede o os)

all-append {ℓ} :
    {A : Type ℓ} (p : A → Bool) (xs ys : List A)
    → all p xs ≡ true
    → all p ys ≡ true
    → all p (xs ++ ys) ≡ true
all-append p [] ys h k = k
all-append p (x ∷ xs) ys h k = ground (arith, all-append p xs ys)

-- Where no operation that is left can stand next, and a completed one is left, there is no
-- linearization.
pub Dead-step :
    (mask : List Bool) (ops : List LinOp) (st : RegState)
    → all is_timed ops ≡ true
    → count_complete (pending mask ops) ≢ 0
    → ((j : ℕ) (o : LinOp) (st' : RegState)
        → CanStand (min_response max_int64 mask ops) mask ops st j o st'
        → Dead st' (pending (set mask j true) ops))
    → Dead st (pending mask ops)
Dead-step mask ops st timed some_left ex l = go l.order l.lost l.same l.incomplete l.in_time l.legal
  where
    go :
        (order lost : List LinOp)
        → Perm (order ++ lost) (pending mask ops)
        → all is_lost lost ≡ true
        → InTime order
        → Legal st order
        → ⊥
    go [] lost same inc time legal =
        some_left (count_complete-lost (pending mask ops) (sym (all-Perm is_lost same) ∙ inc))
    go (o ∷ os) lost same inc time (Legal.next _ st' value out_ok runs fits legal) =
        ∥∥₁_elim ((Perm.mem_iff same).0 mem-cons_self) ⊥_prop (λ m.
          let (j, un, at_j) = pending_index o mask ops m in
          let self = all-get_elem? is_timed ops j o timed at_j in
          let after : all (may_precede o) (os ++ lost) ≡ true =
            all-append (may_precede o) os lost time.0 (all-lost_may_precede o lost inc) in
          let before : all (may_precede o) (pending mask ops) ≡ true =
            sym (all-Perm (may_precede o) same) ∙ ground (arith, self, after) in
          let early = le-min_response o max_int64 mask ops (ground (arith, self)) before in
          let c : CanStand (min_response max_int64 mask ops) mask ops st j o st' = record {
            unmarked = un;
            at_index = at_j;
            early = early;
            value = value;
            out_ok = out_ok;
            runs = runs;
            fits = fits;
          } in
          ex j o st' c (record {
            order = os;
            lost = lost;
            same = Perm.cons_inv (Perm.trans same (Perm.symm (pending-set o mask ops j un at_j)));
            incomplete = inc;
            in_time = time.1;
            legal = legal;
          }))

-- Every state whose key is in `visited` is dead, or excused.
