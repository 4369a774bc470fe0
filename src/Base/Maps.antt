-- ===== src/Base/Maps.antt =====
-- Go maps as association lists with one entry for a key, and the equality of keys: the numbers
-- and the byte strings. A nil map is the empty one.
use mathlib.Core.Path.{◌≡◌, refl}
use mathlib.Core.Logic.{◌↔◌, ◌≢◌}
use mathlib.Core.Bool.{Bool, true, false, ◌&&◌}
use mathlib.Core.List.{List, [], ◌∷◌}
use mathlib.Core.Option.{Option, none, some}
use Prim.Native.Nat.{ℕ}
use native.Mathlib.Omega.{arith}
use raft_sim.Base.Tests.{nat_beq, nat_beq_iff, if◌then◌else◌}

-- What may be a key: a type whose values Go compares with `==`.
pub record Comparable {ℓ} (K : Type ℓ) : Type ℓ where
  pub same : K → K → Bool
  pub sound : (k j : K) → (same k j ≡ true) ↔ (k ≡ j)

infix 50 ◌==◌
abbrev pub ◌==◌ {ℓ} : {K : Type ℓ} ⦃keyed : Comparable K⦄ → K → K → Bool
◌==◌ ⦃keyed⦄ k j = keyed.same k j

instance abbrev pub nat_eq : Comparable ℕ
nat_eq = record { sound = nat_beq_iff; same = nat_beq }

abbrev pub bytes_beq : List ℕ → List ℕ → Bool
bytes_beq [] [] = true
bytes_beq [] (y ∷ ys) = false
bytes_beq (x ∷ xs) [] = false
bytes_beq (x ∷ xs) (y ∷ ys) = nat_beq x y && bytes_beq xs ys

pub bytes_beq_iff : (a b : List ℕ) → (bytes_beq a b ≡ true) ↔ (a ≡ b)
bytes_beq_iff [] [] = (λ h. refl, λ h. refl)
bytes_beq_iff [] (y ∷ ys) = (λ h. cc, λ h. cc)
bytes_beq_iff (x ∷ xs) [] = (λ h. cc, λ h. cc)
bytes_beq_iff (x ∷ xs) (y ∷ ys) =
    (λ h. ground (arith, bytes_beq_iff xs ys), λ h. ground (arith, bytes_beq_iff xs ys))

instance abbrev pub bytes_eq : Comparable (List ℕ)
bytes_eq = record { sound = bytes_beq_iff; same = bytes_beq }

abbrev pub Map : Type 0 → Type 0 → Type 0
Map K V = List (K × V)

module _ {K V : Type 0} ⦃keyed : Comparable K⦄ where
  -- m[key], and whether it is there
  abbrev pub lookup : K → Map K V → Option V
  lookup key [] = none
  lookup key (e ∷ rest) = let deeper = lookup key rest in if e.0 == key then some e.1 else deeper

  -- m[key] = value
  abbrev pub insert : K → V → Map K V → Map K V
  insert key value [] = (key, value) ∷ []
  insert key value (e ∷ rest) =
      let deeper = insert key value rest in if e.0 == key then (key, value) ∷ rest else e ∷ deeper

  -- delete(m, key)
  abbrev pub remove : K → Map K V → Map K V
  remove key [] = []
  remove key (e ∷ rest) = let kept = remove key rest in if e.0 == key then kept else e ∷ kept

  pub lookup-insert :
      (key other : K) (value : V) (m : Map K V)
      → lookup other (insert key value m) ≡ (if key == other then some value else lookup other m)
  lookup-insert key other value [] = refl
  lookup-insert key other value (e ∷ rest) = ground (
    arith,
    lookup-insert key other value rest,
    keyed.sound key other,
    keyed.sound e.0 key,
    keyed.sound e.0 other,
  )

  pub lookup-remove :
      (key other : K) (m : Map K V)
      → lookup other (remove key m) ≡ (if key == other then none else lookup other m)
  lookup-remove key other [] = ground arith
  lookup-remove key other (e ∷ rest) = ground (
    arith,
    lookup-remove key other rest,
    keyed.sound key other,
    keyed.sound e.0 key,
    keyed.sound e.0 other,
  )

module _ {K : Type 0} ⦃keyed : Comparable K⦄ where
  pub beq_refl : (k : K) → (k == k) ≡ true
  beq_refl k = (keyed.sound k k).1 refl

  pub beq_ne : (k j : K) → k ≢ j → (k == j) ≡ false
  beq_ne k j h = ground (arith, keyed.sound k j)
