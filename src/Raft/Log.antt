-- ===== src/Raft/Log.antt =====
-- raft/log.go: the log after the last snapshot. `entries[i].index` is `snap_index + 1 + i`.
pub mod Terms
pub mod Changes
pub mod Scans
use raft_sim.Base.{
  ℕ, zero, suc, ◌+◌, ◌-◌, Bool, true, false, List, [], ◌∷◌, ◌++◌, Option, none, some, Outcome, ok,
  panic, ◌>>=◌, ◌&&◌, ◌||◌, not, ltb, leb, nat_beq, if◌then◌else◌, length, take, drop, get_elem?,
  add64, sub64,
}
use raft_sim.Raft.Types.{Entry}

pub record RaftLog : Type 0 where
  pub snap_index : ℕ
  pub snap_term : ℕ
  pub entries : List Entry

unfoldable pub first_index : RaftLog → ℕ
first_index l = add64 l.snap_index 1

unfoldable pub last_index : RaftLog → ℕ
last_index l = add64 l.snap_index (length l.entries)

abbrev pub entry_term : Option Entry → Option ℕ
entry_term none = none
entry_term (some e) = some e.term

abbrev pub last_term_of : ℕ → List Entry → ℕ
last_term_of t [] = t
last_term_of t (e ∷ es) = last_term_of e.term es

unfoldable pub last_term : RaftLog → ℕ
last_term l = last_term_of l.snap_term l.entries

-- `none` is ok = false.
unfoldable pub term : RaftLog → ℕ → Option ℕ
unfolding last_index
term l i =
    if nat_beq i l.snap_index
    then some l.snap_term
    else if ltb i l.snap_index || ltb (last_index l) i
    then none
    else entry_term (get_elem? l.entries (i - l.snap_index - 1))

unfoldable pub entry : RaftLog → ℕ → Option Entry
unfolding first_index last_index
entry l i =
    if ltb i (first_index l) || ltb (last_index l) i
    then none
    else get_elem? l.entries (i - l.snap_index - 1)

-- n, cut to max_entries where that is positive
abbrev pub capped : ℕ → ℕ → ℕ
capped max_entries n = if ltb 0 max_entries && ltb max_entries n then max_entries else n

unfoldable pub slice : RaftLog → ℕ → ℕ → ℕ → List Entry
unfolding first_index last_index
slice l lo hi max_entries =
    let top = add64 (last_index l) 1 in
    let hi' = if ltb top hi then top else hi in
    if ltb lo (first_index l) || leb hi' lo
    then []
    else take (capped max_entries (hi' - lo)) (drop (lo - l.snap_index - 1) l.entries)

unfoldable pub append : RaftLog → List Entry → Outcome RaftLog
unfolding last_index
append l [] = ok l
append l (e ∷ es) =
    let rest = append (record l { entries = l.entries ++ e ∷ [] }) es in
    if nat_beq e.index (add64 (last_index l) 1) then rest else panic

unfoldable pub truncate_from : RaftLog → ℕ → Outcome RaftLog
unfolding last_index
truncate_from l i =
    if leb i l.snap_index
    then panic
    else if ltb (last_index l) i
    then ok l
    else ok (record l { entries = take (i - l.snap_index - 1) l.entries })

unfoldable pub compact : RaftLog → ℕ → ℕ → Outcome RaftLog
unfolding last_index
compact l i t =
    if leb i l.snap_index
    then ok l
    else if ltb (last_index l) i
    then panic
    else ok (record { snap_index = i; snap_term = t; entries = drop (i - l.snap_index) l.entries })

unfoldable pub reset : RaftLog → ℕ → ℕ → RaftLog
reset l snap_index snap_term = record {
  snap_index = snap_index;
  snap_term = snap_term;
  entries = [];
}

-- pt, ok := l.term(i); ok && pt == t
abbrev pub has_term : Option ℕ → ℕ → Bool
has_term none t = false
has_term (some pt) t = nat_beq pt t

-- The loop goes down from i while the entry before i has the term t.
unfoldable pub first_index_of_term : RaftLog → ℕ → ℕ → ℕ
unfolding first_index term
first_index_of_term l zero t = 0
first_index_of_term l (suc i) t = elim (ltb (first_index l) (suc i) && has_term (term l i) t) [
  | true ↦ first_index_of_term l i t
  | false ↦ suc i
]

abbrev pub term_or_zero : Option ℕ → ℕ
term_or_zero none = 0
term_or_zero (some t) = t

-- The loop goes down from i to the first index; an earlier term ends it.
unfoldable pub last_index_from : RaftLog → ℕ → ℕ → ℕ
unfolding first_index term
last_index_from l zero t = 0
last_index_from l (suc i) t =
    let rest = last_index_from l i t in
    let pt = term_or_zero (term l (suc i)) in
    if leb (first_index l) (suc i)
    then (if nat_beq pt t then suc i else if ltb pt t then 0 else rest)
    else 0

unfoldable pub last_index_of_term : RaftLog → ℕ → ℕ
unfolding last_index_from
last_index_of_term l t = last_index_from l (last_index l) t
