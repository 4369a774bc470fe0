-- ===== src/Checker/Chain.antt =====
-- checkLogChain of checker/invariants.go. The loops run over natural numbers, which do not wrap around:
-- the last index of a log is below 2 ^ 64 - 1.
pub mod Incremental
use raft_sim.Base.{
  ℕ, zero, suc, ◌+◌, ◌-◌, Bool, true, false, ◌&&◌, not, List, [], ◌∷◌, Option, none, some, Map,
  lookup, insert, ltb, nat_beq, if◌then◌else◌, length, get_elem?, add64, sub64,
}
use raft_sim.Raft.Types.{Entry}
use raft_sim.Raft.State.{Node}
use raft_sim.Raft.Log
use raft_sim.Raft.Log.{first_index, last_index}
use raft_sim.Checker.Track.{
  EntryKey, ChainVal, key_eq, NodeTrack, Violation, Invariants, violate, entry_hash,
}

abbrev pub or_zero : Option ℕ → ℕ
or_zero none = 0
or_zero (some t) = t

-- The term at an index, 0 where the log has none.
abbrev pub term_at : Node → ℕ → ℕ
term_at n i = or_zero (Log.term n.log i)

abbrev pub same_chain : ChainVal → ChainVal → Bool
same_chain a b = nat_beq a.hash b.hash && nat_beq a.prev_term b.prev_term

abbrev pub is_term : ℕ → Option ℕ → Bool
is_term t none = false
is_term t (some t') = nat_beq t t'

-- The first index from i on, of as many as the first number says, at which the term is not the one
-- that was observed. The loop stays within the observed terms.
unfoldable pub first_change : ℕ → ℕ → Node → ℕ → List ℕ → Option ℕ
first_change zero i n log_first terms = none
first_change (suc k) i n log_first terms =
    let later = first_change k (suc i) n log_first terms in
    if is_term (term_at n i) (get_elem? terms (i - log_first)) then later else some i

abbrev pub or_else : Option ℕ → ℕ → ℕ
or_else none i = i
or_else (some j) i = j

abbrev pub upto : ℕ → ℕ → ℕ
upto a b = if ltb b a then b else a

abbrev pub atleast : ℕ → ℕ → ℕ
atleast a b = if ltb a b then b else a

-- Where the scan begins.
unfoldable pub scan_from : Node → ℕ → Option (List ℕ) → ℕ
unfolding first_change first_index last_index
scan_from n log_first none = first_index n.log
scan_from n log_first (some terms) =
    let first = first_index n.log in
    let last = last_index n.log in
    let prev_last = sub64 (add64 log_first (length terms)) 1 in
    let lo = atleast first log_first in
    let changed = first_change (suc (upto prev_last last) - lo) lo n log_first terms in
    let from = or_else changed (add64 prev_last 1) in
    let from' = if ltb last (sub64 from 1) then add64 last 1 else from in atleast from' first

-- The value of an entry against the one on record.
unfoldable pub match_chain : ℕ → EntryKey → ChainVal → Invariants → Invariants
match_chain id key val v = elim (lookup key v.chain) [
  | none ↦ record v { chain = insert key val v.chain }
  | some seen ↦
      if same_chain seen val then v else violate (Violation.log_mismatch key.index key.term id) v
]

-- The scan of as many entries as the first number says, from index i on; false is the return at a hole.
unfoldable pub scan_chain : (List ℕ → ℕ) → Node → ℕ → ℕ → Invariants → Bool × Invariants
unfolding match_chain
scan_chain fnv n zero i v = (true, v)
scan_chain fnv n (suc k) i v = elim (Log.entry n.log i) [
  | none ↦ (false, violate (Violation.log_hole n.id i) v)
  | some e ↦ scan_chain fnv n k (suc i) (
      match_chain n.id (record { index = i; term = e.term })
        (record { hash = entry_hash fnv e; prev_term = term_at n (sub64 i 1) }) v)
]

-- The terms from index i on.
unfoldable pub terms_from : Node → ℕ → ℕ → List ℕ
terms_from n zero i = []
terms_from n (suc k) i = term_at n i ∷ terms_from n k (suc i)

-- A slice that was nil stays nil where there is nothing to copy.
abbrev pub retermed : Option (List ℕ) → List ℕ → Option (List ℕ)
retermed none [] = none
retermed none (t ∷ ts) = some (t ∷ ts)
retermed (some old) ts = some ts

unfoldable pub check_log_chain :
    (List ℕ → ℕ) → Node → NodeTrack → Invariants → NodeTrack × Invariants
unfolding scan_from scan_chain terms_from
check_log_chain fnv n t v =
    let first = first_index n.log in
    let last = last_index n.log in
    let from = scan_from n t.log_first t.terms in
    let (whole, v') = scan_chain fnv n (suc last - from) from v in
    let ts = terms_from n (suc last - first) first in
    (if whole then record t { terms = retermed t.terms ts; log_first = first } else t, v')
