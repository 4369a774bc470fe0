-- ===== src/Checker/Invariants/Matching.antt =====
-- Log matching by checkLogChain of checker/invariants.go: logs that it has scanned whole agree up to an
-- index at which they have the same term.
use raft_sim.Base.{
  ℕ, zero, suc, ◌+◌, ◌-◌, ◌≤◌, ◌<◌, ◌≡◌, refl, sym, ap, ◌∙◌, subst, arith, ◌||◌, List, [], Option,
  none, some, Option-cases, lookup, lookup-insert, beq_refl, nat_beq, nat_beq_iff, ltb, Bool-cases,
  inl, inr, sub64,
}
use raft_sim.Raft.Types.{Entry}
use raft_sim.Raft.State.{Node}
use raft_sim.Raft.Log
use raft_sim.Raft.Log.{first_index, last_index}
use raft_sim.Raft.Log.Terms.{WellFormed, entry_lem, last_index-eq}
use raft_sim.Checker.Track.{
  EntryKey, ChainVal, key_eq, NodeTrack, Violation, Invariants, entry_hash,
}
use raft_sim.Checker.Chain.{
  or_zero, term_at, same_chain, match_chain, scan_chain, scan_from, check_log_chain,
}
use raft_sim.Checker.Invariants.Growth.{Extends}
use raft_sim.Checker.Invariants.Checks.{scan_chain-Extends}
use raft_sim.Checker.Invariants.Safety.{earlier, append-not_empty}

abbrev pub key_of : ℕ → Entry → EntryKey
key_of i e = record { index = i; term = e.term }

abbrev pub val_of : (List ℕ → ℕ) → Node → ℕ → Entry → ChainVal
val_of fnv n i e = record { hash = entry_hash fnv e; prev_term = term_at n (sub64 i 1) }

-- Two logs have at an index entries of one term and one hash.
abbrev pub Agree : (List ℕ → ℕ) → Node → Node → ℕ → Type 0
Agree fnv n m j =
    (a : Entry) × (b : Entry) × (Log.entry n.log j ≡ some a)
    × (Log.entry m.log j ≡ some b)
    × (a.term ≡ b.term)
    × (entry_hash fnv a ≡ entry_hash fnv b)

abbrev entry_or : Entry → Option Entry → Entry
entry_or e none = e
entry_or e (some a) = a

abbrev val_or : ChainVal → Option ChainVal → ChainVal
val_or x none = x
val_or x (some y) = y

on_record :
    (fnv : List ℕ → ℕ) (n : Node) (w : Invariants) (i j : ℕ) (a e : Entry)
    → i ≡ j
    → a ≡ e
    → lookup (key_of i a) w.chain ≡ some (val_of fnv n i a)
    → lookup (key_of j e) w.chain ≡ some (val_of fnv n j e)
on_record fnv n w i j a e p q h =
    subst (λ x. lookup (key_of j x) w.chain ≡ some (val_of fnv n j x)) q
      (subst (λ x. lookup (key_of x a) w.chain ≡ some (val_of fnv n x a)) p h)

match_chain-clean :
    (id : ℕ) (key : EntryKey) (val : ChainVal) (v : Invariants)
    → (match_chain id key val v).violations ≡ []
    → lookup key (match_chain id key val v).chain ≡ some val
unfolding match_chain
match_chain-clean id key val v h = elim (Option-cases (lookup key v.chain)) [
  | inl new ↦ rw (new, match_chain) (lookup-insert key key val v.chain ∙ rw (beq_refl key) refl)
  | inr (seen, old) ↦ elim (Bool-cases (same_chain seen val)) [
    | inl same ↦ rw (old, match_chain, same) (old ∙ ap some (ground (arith, same)))
    | inr differs ↦ absurd (
        append-not_empty v.violations (Violation.log_mismatch key.index key.term id)
          (rw (old, match_chain, differs) at h))
  ]
]

scan_chain-clean :
    (fnv : List ℕ → ℕ) (n : Node) (k i : ℕ) (v : Invariants) (j : ℕ) (e : Entry)
    → (scan_chain fnv n k i v).1.violations ≡ []
    → i ≤ j
    → j < i + k
    → Log.entry n.log j ≡ some e
    → lookup (key_of j e) (scan_chain fnv n k i v).1.chain ≡ some (val_of fnv n j e)
unfolding scan_chain
scan_chain-clean fnv n zero i v j e h lo hi q = absurd (omega arith)
scan_chain-clean fnv n (suc k) i v j e h lo hi q = elim (Option-cases (Log.entry n.log i)) [
  | inl hole ↦
      absurd
        (append-not_empty v.violations (Violation.log_hole n.id i) (rw (hole, scan_chain) at h))
  | inr (a, at_i) ↦
      let v' = match_chain n.id (key_of i a) (val_of fnv n i a) v in
      let h' : (scan_chain fnv n k (suc i) v').1.violations ≡ [] = rw (at_i, scan_chain) at h in
      let found : lookup (key_of j e) (scan_chain fnv n k (suc i) v').1.chain
          ≡ some (val_of fnv n j e) =
        elim (Bool-cases (nat_beq i j)) [
          | inl same ↦
              let at_j : i ≡ j = (nat_beq_iff i j).0 same in
              let one : a ≡ e = ap (entry_or a) (sym at_i ∙ ap (Log.entry n.log) at_j ∙ q) in
              let later = scan_chain-Extends fnv n k (suc i) v' in
              let here =
                later.chain _ _
                  (match_chain-clean n.id (key_of i a) (val_of fnv n i a) v (earlier later h')) in
              on_record fnv n (scan_chain fnv n k (suc i) v').1 i j a e at_j one here
          | inr other ↦
              scan_chain-clean fnv n k (suc i) v' j e h' (ground (arith, other)) (omega arith) q
        ] in
      rw (at_i, scan_chain) found
]

-- Every entry of the log is on record, with its hash and the term before it.
abbrev pub Chained : (List ℕ → ℕ) → Node → Invariants → Type 0
Chained fnv n v =
    (i : ℕ) (e : Entry)
    → Log.entry n.log i ≡ some e
    → lookup (key_of i e) v.chain ≡ some (val_of fnv n i e)

entry_inside :
    (n : Node) (i : ℕ) (e : Entry)
    → Log.entry n.log i ≡ some e
    → (first_index n.log ≤ i) × (i ≤ last_index n.log)
unfolding Log.entry
entry_inside n i e h = elim (Bool-cases (ltb i (first_index n.log) || ltb (last_index n.log) i)) [
  | inl out ↦ cc (rw out at h)
  | inr within ↦ (ground (arith, within), ground (arith, within))
]

check_log_chain-Chained :
    (fnv : List ℕ → ℕ) (n : Node) (t : NodeTrack) (v w : Invariants)
    → t.terms ≡ none
    → Extends (check_log_chain fnv n t v).1 w
    → w.violations ≡ []
    → Chained fnv n w
unfolding check_log_chain scan_from
check_log_chain-Chained fnv n t v w anew later clean i e h =
    let (lo, hi) = entry_inside n i e h in
    let whole : scan_from n t.log_first t.terms ≡ first_index n.log = rw anew refl in
    later.chain (key_of i e) (val_of fnv n i e) (
      scan_chain-clean fnv n _ _ v i e (earlier later clean) (omega (arith, whole, lo))
        (omega (arith, whole, lo, hi)) h)

module _ (fnv : List ℕ → ℕ) (n m : Node) (v : Invariants) (cn : Chained fnv n v)
    (cm : Chained fnv m v) where
  -- Entries of one index and term have one value on record.
  same_val :
      (i : ℕ) (e e' : Entry)
      → Log.entry n.log i ≡ some e
      → Log.entry m.log i ≡ some e'
      → e.term ≡ e'.term
      → val_of fnv n i e ≡ val_of fnv m i e'
  same_val i e e' h h' same =
      ap (val_or (val_of fnv n i e)) (
        sym (cn i e h)
        ∙ ap (λ t. lookup (record { index = i; term = t }) v.chain) same
        ∙ cm i e' h')

  module _ (wn : WellFormed n.log) (wm : WellFormed m.log) where
    same_below :
        (d i j : ℕ) (e e' : Entry)
        → Log.entry n.log i ≡ some e
        → Log.entry m.log i ≡ some e'
        → e.term ≡ e'.term
        → i ≡ j + d
        → first_index n.log ≤ j
        → first_index m.log ≤ j
        → Agree fnv n m j
    same_below zero i j e e' h h' same far lo lo' =
        subst (Agree fnv n m) {x = i} {y = j} (omega arith)
          (e, e', h, h', same, ap (λ (x : ChainVal). x.hash) (same_val i e e' h h' same))
    same_below (suc d) i j e e' h h' same far lo lo' =
        let inside = entry_inside n i e h in
        let inside' = entry_inside m i e' h' in
        let before : sub64 i 1 ≡ i - 1 = omega (arith, inside.1, last_index-eq n.log wn, wn.fits) in
        let (a, at_a, _, ta) = entry_lem n.log (i - 1) wn (omega arith) (omega (arith, inside.1)) in
        let (b, at_b, _, tb) =
          entry_lem m.log (i - 1) wm (omega arith) (omega (arith, inside'.1)) in
        let prev : term_at n (sub64 i 1) ≡ term_at m (sub64 i 1) =
          ap (λ (x : ChainVal). x.prev_term) (same_val i e e' h h' same) in
        let terms : a.term ≡ b.term =
          sym (ap or_zero (ap (Log.term n.log) before ∙ ta))
          ∙ prev
          ∙ ap or_zero (ap (Log.term m.log) before ∙ tb) in
        same_below d (i - 1) j a b at_a at_b terms (omega arith) lo lo'

-- Log matching: of two nodes whose logs the checker has scanned from their first index on, in whatever
-- states, and which are well formed, if a later state has nothing to report and the logs have entries
-- of one term at an index, then at every index from there down to both first ones they have entries of
-- one term and one hash.
pub log_matching :
    (fnv : List ℕ → ℕ) (n m : Node) (t t' : NodeTrack) (v v' w : Invariants) (i j : ℕ)
    (e e' : Entry)
    → t.terms ≡ none
    → t'.terms ≡ none
    → Extends (check_log_chain fnv n t v).1 w
    → Extends (check_log_chain fnv m t' v').1 w
    → w.violations ≡ []
    → WellFormed n.log
    → WellFormed m.log
    → Log.entry n.log i ≡ some e
    → Log.entry m.log i ≡ some e'
    → e.term ≡ e'.term
    → j ≤ i
    → first_index n.log ≤ j
    → first_index m.log ≤ j
    → Agree fnv n m j
log_matching fnv n m t t' v v' w i j e e' anew anew' later later' clean wn wm h h' same le lo lo' =
    same_below fnv n m w (check_log_chain-Chained fnv n t v w anew later clean)
      (check_log_chain-Chained fnv m t' v' w anew' later' clean) wn wm (i - j) i j e e' h h' same
      (omega arith) lo lo'
