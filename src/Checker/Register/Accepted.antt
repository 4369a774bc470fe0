-- ===== src/Checker/Register/Accepted.antt =====
-- CheckLinearizable of checker/linear.go accepts what the store makes.
use mathlib.Core.Logic.{∥∥₁_elim}
use mathlib.Core.List.{Perm, Permᴰ, Perm-prop, append-nil}
use mathlib.Core.List.Perm
use raft_sim.Base.{
  ℕ, ◌≡◌, refl, sym, subst, true, List, [], ◌∷◌, Option, none, some, ok, bytes_eq, ◌==◌, all,
  Bool-cases, inl, inr,
}
use raft_sim.Kv.Store.{new_store}
use raft_sim.Checker.Linear.{LinOp, new_register, check_linearizable}
use raft_sim.Checker.Linear.Spec.{Linearization, InTime, may_precede}
use raft_sim.Checker.Linear.Spec.{is_timed}
use raft_sim.Checker.Linear.Histories.{Answer, ops_at, all-ops_at, check_linearizable_lem}
use raft_sim.Checker.Register.{Request, history, is_request, history-Legal}

InTime-ops_at : (k : List ℕ) (os : List LinOp) → InTime os → InTime (ops_at k os)
InTime-ops_at k [] h = tt
InTime-ops_at k (o ∷ os) h = elim (Bool-cases (o.key == k)) [
  | inl hit ↦ rw hit (all-ops_at (may_precede o) k os h.0, InTime-ops_at k os h.1)
  | inr miss ↦ rw miss (InTime-ops_at k os h.1)
]

ops_at-cons :
    (k : List ℕ) (o : LinOp) (xs ys : List LinOp)
    → Perm (ops_at k xs) (ops_at k ys)
    → Perm (ops_at k (o ∷ xs)) (ops_at k (o ∷ ys))
ops_at-cons k o xs ys p = elim (Bool-cases (o.key == k)) [
  | inl hit ↦ rw hit (Perm.cons o p)
  | inr miss ↦ rw miss p
]

ops_at-swap :
    (k : List ℕ) (a b : LinOp) (xs : List LinOp)
    → Perm (ops_at k (a ∷ b ∷ xs)) (ops_at k (b ∷ a ∷ xs))
ops_at-swap k a b xs = elim (Bool-cases (a.key == k)) [
  | inl hit ↦ elim (Bool-cases (b.key == k)) [
    | inl hit' ↦ rw (hit, hit') (Perm.swap b a (ops_at k xs))
    | inr miss' ↦ rw (hit, miss') Perm.rfl
  ]
  | inr miss ↦ rw miss Perm.rfl
]

ops_at-Permᴰ : (k : List ℕ) {xs ys : List LinOp} → Permᴰ xs ys → Perm (ops_at k xs) (ops_at k ys)
ops_at-Permᴰ k Permᴰ.nil = Perm.rfl
ops_at-Permᴰ k (Permᴰ.cons {a} {b} {l₁} {l₂} e p) =
    subst (λ x. Perm (ops_at k (a ∷ l₁)) (ops_at k (x ∷ l₂))) e
      (ops_at-cons k a l₁ l₂ (ops_at-Permᴰ k p))
ops_at-Permᴰ k (Permᴰ.swap {a} {b} {a'} {b'} {l} e f) =
    subst (λ x. Perm (ops_at k (a ∷ b ∷ l)) (ops_at k (a' ∷ x ∷ l))) e
      (subst (λ x. Perm (ops_at k (a ∷ b ∷ l)) (ops_at k (x ∷ a ∷ l))) f (ops_at-swap k a b l))
ops_at-Permᴰ k (Permᴰ.trans p q) = Perm.trans (ops_at-Permᴰ k p) (ops_at-Permᴰ k q)

ops_at-Perm : (k : List ℕ) {xs ys : List LinOp} → Perm xs ys → Perm (ops_at k xs) (ops_at k ys)
ops_at-Perm k {xs} {ys} p = ∥∥₁_elim p Perm-prop (ops_at-Permᴰ k)

module _ (qs : List Request) (h : List LinOp) where
  history-Linearization :
      all is_request qs ≡ true
      → Perm (history new_store qs) h
      → InTime (history new_store qs)
      → (k : List ℕ) → Linearization new_register (ops_at k h)
  history-Linearization known p in_time k = record {
    order = ops_at k (history new_store qs);
    lost = [];
    same =
        subst (λ os. Perm os (ops_at k h)) (sym (append-nil (ops_at k (history new_store qs))))
          (ops_at-Perm k p);
    incomplete = refl;
    in_time = InTime-ops_at k (history new_store qs) in_time;
    legal = history-Legal k new_store qs known;
  }

  accepted :
      (found : Option (List ℕ))
      → ((k : List ℕ) → Linearization new_register (ops_at k h))
      → Answer found h
      → found ≡ none
  accepted none l a = refl
  accepted (some k) l a = absurd (a (l k))

-- A history that the store can make is never refused: of a run of the store from the empty one on
-- gets, puts and compare-and-swaps, duplicates included, the records of the commands that ran, in any
-- order, where CheckLinearizable answers, have no key that it refuses. In the run no command stands
-- behind one that was invoked after its response; all are invoked by the greatest int64, and no
-- response is before its invocation.
pub check_linearizable-history :
    (qs : List Request) (h : List LinOp) (found : Option (List ℕ))
    → all is_request qs ≡ true
    → Perm (history new_store qs) h
    → InTime (history new_store qs)
    → all is_timed h ≡ true
    → check_linearizable h ≡ ok found
    → found ≡ none
check_linearizable-history qs h found known p in_time timed a =
    accepted qs h found (history-Linearization qs h known p in_time)
      (check_linearizable_lem h found timed a)
