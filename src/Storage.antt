-- ===== src/Storage.antt =====
-- storage/storage.go: the durable state of a node, changed by one whole unit at a time.
pub mod Life
pub mod Votes
mod Examples
use raft_sim.Base.{
  ℕ, Bool, true, false, List, [], ◌∷◌, ◌++◌, Option, none, some, Outcome, ok, panic, ltb, leb,
  nat_beq, if◌then◌else◌, length, add64,
}
use raft_sim.Raft.Types.{HardState, Snapshot, Entry, Persist}
use raft_sim.Raft.State.{Restore}

pub record Durable : Type 0 where
  pub hs : HardState
  pub snap : Option Snapshot
  pub entries : List Entry

abbrev pub new_durable : Durable
new_durable = record { hs = record { term = 0; voted_for = 0 }; snap = none; entries = [] }

-- The entries up to a snapshot point are dropped from the front.
unfoldable pub drop_through : ℕ → List Entry → List Entry
drop_through index [] = []
drop_through index (e ∷ es) =
    let rest = drop_through index es in if leb e.index index then rest else e ∷ es

-- The entries before the first new one.
unfoldable pub keep_before : ℕ → List Entry → List Entry
keep_before first [] = []
keep_before first (e ∷ es) =
    let rest = keep_before first es in if ltb e.index first then e ∷ rest else []

abbrev pub hard_after : HardState → Option HardState → HardState
hard_after old none = old
hard_after old (some hs) = hs

unfoldable pub apply_snapshot : Option Snapshot → Bool → Durable → Durable
unfolding drop_through
apply_snapshot none replace_log d = d
apply_snapshot (some s) replace_log d = record d {
  snap = some s;
  entries = if replace_log then [] else drop_through s.index d.entries;
}

abbrev pub snap_index_of : Option Snapshot → ℕ
snap_index_of none = 0
snap_index_of (some s) = s.index

-- The index of the last entry that is kept, or of the snapshot.
abbrev pub last_kept : ℕ → List Entry → ℕ
last_kept i [] = i
last_kept i (e ∷ es) = last_kept e.index es

-- New entries take the place of the old ones from the first new index on. A gap is a panic.
unfoldable pub apply_entries : List Entry → Durable → Outcome Durable
unfolding keep_before
apply_entries [] d = ok d
apply_entries (e ∷ es) d =
    let kept = keep_before e.index d.entries in
    if nat_beq e.index (add64 (last_kept (snap_index_of d.snap) kept) 1)
    then ok (record d { entries = kept ++ e ∷ es })
    else panic

unfoldable pub apply_unit : Persist → Durable → Outcome Durable
unfolding apply_snapshot apply_entries
apply_unit p d =
    apply_entries p.entries
      (apply_snapshot p.snapshot p.replace_log (record d { hs = hard_after d.hs p.hard_state }))

unfoldable pub apply : Option Persist → Durable → Outcome Durable
unfolding apply_unit
apply none d = ok d
apply (some p) d = apply_unit p d

unfoldable pub load : Durable → Restore
load d = record { hard_state = d.hs; snapshot = d.snap; entries = d.entries }

unfoldable pub log_size : Durable → ℕ
log_size d = length d.entries
