-- ===== src/Checker/Linear/Histories.antt =====
-- CheckLinearizable of checker/linear.go decides a whole history, key by key.
use raft_sim.Base.{
  ℕ, ◌≤◌, ◌≡◌, refl, sym, ap, ◌∙◌, subst, arith, Bool, true, false, List, [], ◌∷◌, ◌++◌, map,
  Option, none, some, ok, returned, Map, lookup, insert, lookup-insert, bytes_eq, bytes_beq_iff,
  ◌==◌, all, if◌then◌else◌, Bool-cases, inl, inr, sort_by, bytes_less, elem, elem-sort_by, length,
}
use mathlib.Core.List.{append_assoc, append-nil}
use raft_sim.Checker.Linear.{
  LinOp, new_register, node_limit, check_key, ops_of, by_key, check_keys, check_linearizable,
}
use raft_sim.Checker.Linear.Spec.{Linearization}
use raft_sim.Checker.Linear.Spec.{is_timed}
use raft_sim.Checker.Linear.Verdicts.{
  Verdict, check_key_lem, check_key_returns, nothing_Linearization,
}
use raft_sim.Checker.Linear.Returns.{is_known, visits}

-- The operations of a history on one key.
abbrev pub ops_at : List ℕ → List LinOp → List LinOp
ops_at k [] = []
ops_at k (o ∷ os) = let rest = ops_at k os in if o.key == k then o ∷ rest else rest

pub all-ops_at :
    (p : LinOp → Bool) (k : List ℕ) (os : List LinOp) → all p os ≡ true → all p (ops_at k os) ≡ true
all-ops_at p k [] h = refl
all-ops_at p k (o ∷ os) h = ground (arith, all-ops_at p k os)

by_key_lem :
    (k : List ℕ) (m : Map (List ℕ) (List LinOp)) (os : List LinOp)
    → ops_of (lookup k (by_key m os)) ≡ ops_of (lookup k m) ++ ops_at k os
unfolding by_key
by_key_lem k m [] = sym (append-nil (ops_of (lookup k m)))
by_key_lem k m (o ∷ os) =
    let later = by_key_lem k (insert o.key (ops_of (lookup o.key m) ++ o ∷ []) m) os in
    let entry = lookup-insert o.key k (ops_of (lookup o.key m) ++ o ∷ []) m in
    elim (Bool-cases (o.key == k)) [
      | inl hit ↦
          let same : o.key ≡ k = (bytes_beq_iff o.key k).0 hit in
          later
          ∙ rw (entry, hit)
              (ap (λ i. (ops_of (lookup i m) ++ o ∷ []) ++ ops_at k os) same
                ∙ append_assoc (ops_of (lookup k m)) (o ∷ []) (ops_at k os))
      | inr miss ↦ later ∙ rw (entry, miss) refl
    ]

abbrev pub keys_of : Map (List ℕ) (List LinOp) → List (List ℕ)
keys_of m = map (λ e. e.0) m

lookup-keys_of :
    (k : List ℕ) (m : Map (List ℕ) (List LinOp)) → elem k (keys_of m) ≡ false → lookup k m ≡ none
lookup-keys_of k [] h = refl
lookup-keys_of k (e ∷ m) h = ground (arith, lookup-keys_of k m)

-- What CheckLinearizable says: nothing, or the first key that it refuses.
abbrev pub Answer : Option (List ℕ) → List LinOp → Type 0
Answer none ops = (k : List ℕ) → Verdict true (ops_at k ops)
Answer (some k) ops = Verdict false (ops_at k ops)

-- What the loop over the keys leaves: every one passed, or one did not.
abbrev Checked : Map (List ℕ) (List LinOp) → List (List ℕ) → Option (List ℕ) → Type 0
Checked m ks none = (k : List ℕ) → elem k ks ≡ true → check_key (ops_of (lookup k m)) ≡ ok true
Checked m ks (some k) = check_key (ops_of (lookup k m)) ≡ ok false

Checked-cons :
    (m : Map (List ℕ) (List LinOp)) (k : List ℕ) (ks : List (List ℕ)) (found : Option (List ℕ))
    → check_key (ops_of (lookup k m)) ≡ ok true
    → Checked m ks found
    → Checked m (k ∷ ks) found
Checked-cons m k ks none h c = λ j e. elim (Bool-cases (k == j)) [
  | inl same ↦ subst (λ i. check_key (ops_of (lookup i m)) ≡ ok true) ((bytes_beq_iff k j).0 same) h
  | inr other ↦ c j (ground (arith, e, other))
]
Checked-cons m k ks (some j) h c = c

check_keys_lem :
    (m : Map (List ℕ) (List LinOp)) (ks : List (List ℕ)) (found : Option (List ℕ))
    → check_keys m ks ≡ ok found
    → Checked m ks found
unfolding check_keys
check_keys_lem m [] none h = λ k e. cc
check_keys_lem m [] (some k) h = cc
check_keys_lem m (k ∷ ks) found h =
    let (fine, a, q) = returned (check_key (ops_of (lookup k m))) _ found h in
    go (λ r. check_keys_lem m ks found r) fine a q
  where
    go :
        (check_keys m ks ≡ ok found → Checked m ks found)
        → (fine : Bool) → check_key (ops_of (lookup k m)) ≡ ok fine
        → (if fine then check_keys m ks else ok (some k)) ≡ ok found
        → Checked m (k ∷ ks) found
    go later true a q = Checked-cons m k ks found a (later q)
    go later false a q = subst (Checked m (k ∷ ks)) {x = some k} {y = found} (ground (arith, q)) a

Answer-Checked :
    (ops : List LinOp) (found : Option (List ℕ))
    → all is_timed ops ≡ true
    → Checked (by_key [] ops) (sort_by bytes_less (keys_of (by_key [] ops))) found
    → Answer found ops
Answer-Checked ops none timed c = λ k.
    let m = by_key [] ops in
    let at_k = by_key_lem k [] ops in
    elim (Bool-cases (elem k (keys_of m))) [
      | inl known ↦ check_key_lem (ops_at k ops) true (all-ops_at is_timed k ops timed) (
          subst (λ os. check_key os ≡ ok true) at_k
            (c k (elem-sort_by bytes_less k (keys_of m) ∙ known)))
      | inr new ↦
          let gone = lookup-keys_of k m new in
          subst (Linearization new_register) (sym (ap ops_of gone) ∙ at_k) nothing_Linearization
    ]
Answer-Checked ops (some k) timed c =
    check_key_lem (ops_at k ops) false (all-ops_at is_timed k ops timed)
      (subst (λ os. check_key os ≡ ok false) (by_key_lem k [] ops) c)

-- Where CheckLinearizable answers, it answers by the keys: without an error the operations of every
-- key have a linearization, and with an error those of the key that it names have none. Every operation
-- begins by the greatest int64, and no completed one is over before it begins.
pub check_linearizable_lem :
    (ops : List LinOp) (found : Option (List ℕ))
    → all is_timed ops ≡ true
    → check_linearizable ops ≡ ok found
    → Answer found ops
unfolding check_linearizable
check_linearizable_lem ops found timed h =
    let m = by_key [] ops in
    Answer-Checked ops found timed (check_keys_lem m (sort_by bytes_less (keys_of m)) found h)

check_keys_returns :
    (m : Map (List ℕ) (List LinOp)) (ks : List (List ℕ))
    → ((k : List ℕ) → (b : Bool) × (check_key (ops_of (lookup k m)) ≡ ok b))
    → (found : Option (List ℕ)) × (check_keys m ks ≡ ok found)
unfolding check_keys
check_keys_returns m [] h = (none, refl)
check_keys_returns m (k ∷ ks) h =
    let (b, e) = h k in
    let (found, f) = check_keys_returns m ks h in
    elim (Bool-cases b) [
      | inl fine ↦ (found, rw (e, fine) f)
      | inr bad ↦ (some k, rw (e, bad) refl)
    ]

-- CheckLinearizable answers, and does not panic, for a history of gets, puts and compare-and-swaps in
-- which the operations of each key are few enough for the limit on states.
pub check_linearizable_returns :
    (ops : List LinOp)
    → all is_known ops ≡ true
    → ((k : List ℕ) → visits (length (ops_at k ops)) ≤ node_limit)
    → (found : Option (List ℕ)) × (check_linearizable ops ≡ ok found)
unfolding check_linearizable
check_linearizable_returns ops known few =
    let m = by_key [] ops in
    check_keys_returns m (sort_by bytes_less (keys_of m)) (λ k.
      subst (λ os. (b : Bool) × (check_key os ≡ ok b)) (sym (by_key_lem k [] ops))
        (check_key_returns (ops_at k ops) (all-ops_at is_known k ops known) (few k)))
