-- ===== src/Checker/Invariants/Growth.antt =====
-- What no call of checker/invariants.go takes back: its reports, and what it has on record.
use mathlib.Core.List.{append-nil, append_assoc}
use raft_sim.Base.{
  ℕ, ◌≡◌, refl, sym, ap, ◌∙◌, Bool, true, false, List, [], ◌∷◌, ◌++◌, none, some, Map, lookup,
  insert, lookup-insert, Comparable, ◌==◌, nat_eq, if◌then◌else◌, Bool-cases, inl, inr,
}
use raft_sim.Checker.Track.{key_eq, NodeTrack, Violation, Invariants, violate, put_track}

-- Of a map, the later one has every entry of the earlier one.
module _ {K V : Type 0} ⦃keyed : Comparable K⦄ where
  abbrev pub Kept : Map K V → Map K V → Type 0
  Kept m m' = (k : K) (x : V) → lookup k m ≡ some x → lookup k m' ≡ some x

pub record Extends (v v' : Invariants) : Type 0 where
  pub reports : (more : List Violation) × (v'.violations ≡ v.violations ++ more)
  pub leaders : Kept v.leaders v'.leaders
  pub chain : Kept v.chain v'.chain
  pub applied : Kept v.applied v'.applied

pub Extends-refl : (v : Invariants) → Extends v v
Extends-refl v = record {
  reports = ([], sym (append-nil v.violations));
  leaders = λ k x h. h;
  chain = λ k x h. h;
  applied = λ k x h. h;
}

pub Extends-trans : {u v w : Invariants} → Extends u v → Extends v w → Extends u w
Extends-trans {u} {v} {w} p q =
    let (xs, e) = p.reports in
    let (ys, f) = q.reports in
    record {
      reports = (xs ++ ys, f ∙ ap (λ zs. zs ++ ys) e ∙ append_assoc u.violations xs ys);
      leaders = λ k x h. q.leaders k x (p.leaders k x h);
      chain = λ k x h. q.chain k x (p.chain k x h);
      applied = λ k x h. q.applied k x (p.applied k x h);
    }

pub violate-Extends : (x : Violation) (v : Invariants) → Extends v (violate x v)
violate-Extends x v = record {
  reports = (x ∷ [], refl);
  leaders = λ k y h. h;
  chain = λ k y h. h;
  applied = λ k y h. h;
}

-- A report on a condition.
pub violate_if-Extends :
    (b : Bool) (x : Violation) (v : Invariants) → Extends v (if b then violate x v else v)
violate_if-Extends true x v = violate-Extends x v
violate_if-Extends false x v = Extends-refl v

pub violate_unless-Extends :
    (b : Bool) (x : Violation) (v : Invariants) → Extends v (if b then v else violate x v)
violate_unless-Extends true x v = Extends-refl v
violate_unless-Extends false x v = violate-Extends x v

pub put_track-Extends : (id : ℕ) (t : NodeTrack) (v : Invariants) → Extends v (put_track id t v)
put_track-Extends id t v = record {
  reports = ([], sym (append-nil v.violations));
  leaders = λ k y h. h;
  chain = λ k y h. h;
  applied = λ k y h. h;
}

-- An insertion at a key that is new, or that has the value already.
module _ {K V : Type 0} ⦃keyed : Comparable K⦄ (k : K) (x : V) (m : Map K V) where
  pub Kept-new : lookup k m ≡ none → Kept m (insert k x m)
  Kept-new new j y h = elim (Bool-cases (k == j)) [
    | inl same ↦ cc (sym h ∙ ap (λ i. lookup i m) (sym ((keyed.sound k j).0 same)) ∙ new)
    | inr other ↦ lookup-insert k j x m ∙ rw other h
  ]

  pub Kept-same : lookup k m ≡ some x → Kept m (insert k x m)
  Kept-same old j y h = elim (Bool-cases (k == j)) [
    | inl same ↦
        lookup-insert k j x m
        ∙ rw same (sym old ∙ ap (λ i. lookup i m) ((keyed.sound k j).0 same) ∙ h)
    | inr other ↦ lookup-insert k j x m ∙ rw other h
  ]

pub if-Extends :
    (b : Bool) (u v w : Invariants) → Extends u v → Extends u w → Extends u (if b then v else w)
if-Extends true u v w p q = p
if-Extends false u v w p q = q
