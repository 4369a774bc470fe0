-- ===== src/Base/Sorting.antt =====
-- Sorting as sort.Strings and sort.Slice do it on distinct keys: an insertion sort by a Boolean
-- order, and the order of byte strings.
use mathlib.Core.Bool.{Bool, true, false, ◌||◌, ◌&&◌}
use mathlib.Core.List.{List, [], ◌∷◌, Perm}
use mathlib.Core.List.Perm
use mathlib.Core.Logic.{inl, inr}
use mathlib.Core.Path.{◌≡◌, refl}
use Prim.Native.Nat.{ℕ, suc}
use native.Mathlib.Omega.{arith}
use raft_sim.Base.Tests.{ltb, nat_beq, if◌then◌else◌, Bool-cases}
use raft_sim.Base.Lists.{length}
use raft_sim.Base.Maps.{Comparable, ◌==◌}

-- Go compares strings byte by byte; a proper prefix is less.
unfoldable pub bytes_less : List ℕ → List ℕ → Bool
bytes_less [] [] = false
bytes_less [] (y ∷ ys) = true
bytes_less (x ∷ xs) [] = false
bytes_less (x ∷ xs) (y ∷ ys) = ltb x y || (nat_beq x y && bytes_less xs ys)

module _ {A : Type 0} (less : A → A → Bool) where
  unfoldable pub insert_by : A → List A → List A
  insert_by a [] = a ∷ []
  insert_by a (x ∷ xs) = if less x a then x ∷ insert_by a xs else a ∷ x ∷ xs

  unfoldable pub sort_by : List A → List A
  unfolding insert_by
  sort_by [] = []
  sort_by (x ∷ xs) = insert_by x (sort_by xs)

  length-insert_by : (a : A) (xs : List A) → length (insert_by a xs) ≡ suc (length xs)
  unfolding insert_by
  length-insert_by a [] = refl
  length-insert_by a (x ∷ xs) = ground (arith, length-insert_by a xs)

  pub length-sort_by : (xs : List A) → length (sort_by xs) ≡ length xs
  unfolding sort_by
  length-sort_by [] = refl
  length-sort_by (x ∷ xs) = omega (arith, length-insert_by x (sort_by xs), length-sort_by xs)

  pub insert_by-Perm : (a : A) (xs : List A) → Perm (insert_by a xs) (a ∷ xs)
  unfolding insert_by
  insert_by-Perm a [] = Perm.rfl
  insert_by-Perm a (x ∷ xs) = elim (Bool-cases (less x a)) [
    | inl before ↦ rw before (Perm.trans (Perm.cons x (insert_by-Perm a xs)) (Perm.swap a x xs))
    | inr behind ↦ rw behind Perm.rfl
  ]

  pub sort_by-Perm : (xs : List A) → Perm (sort_by xs) xs
  unfolding sort_by
  sort_by-Perm [] = Perm.rfl
  sort_by-Perm (x ∷ xs) = Perm.trans (insert_by-Perm x (sort_by xs)) (Perm.cons x (sort_by-Perm xs))

module _ {A : Type 0} ⦃keyed : Comparable A⦄ where
  abbrev pub elem : A → List A → Bool
  elem a [] = false
  elem a (x ∷ xs) = (x == a) || elem a xs

module _ {A : Type 0} ⦃keyed : Comparable A⦄ (less : A → A → Bool) (j : A) where
  elem-insert_by : (a : A) (xs : List A) → elem j (insert_by less a xs) ≡ ((a == j) || elem j xs)
  unfolding insert_by
  elem-insert_by a [] = refl
  elem-insert_by a (x ∷ xs) = ground (arith, elem-insert_by a xs)

  pub elem-sort_by : (xs : List A) → elem j (sort_by less xs) ≡ elem j xs
  unfolding sort_by
  elem-sort_by [] = refl
  elem-sort_by (x ∷ xs) = ground (arith, elem-insert_by x (sort_by less xs), elem-sort_by xs)
