-- ===== src/Checker/Invariants.antt =====
-- checker/invariants.go: Check, with what it compares of every node. The checker reads a node by its
-- accessors, which are the fields; `log_first` and the indexes are as in Checker.Chain.
pub mod Growth
pub mod Checks
pub mod Runs
pub mod Safety
pub mod Voters
pub mod Leaders
pub mod Matching
mod Examples
use raft_sim.Base.{
  ℕ, zero, suc, ◌+◌, ◌-◌, Bool, true, false, ◌&&◌, ◌||◌, not, List, [], ◌∷◌, ◌++◌, Option, none,
  some, Map, lookup, insert, nat_eq, ltb, leb, nat_beq, if◌then◌else◌, length, drop, get_elem?,
  add64, sub64,
}
use raft_sim.Raft.Types.{Entry, Snapshot}
use raft_sim.Raft.State.{Node, is_leader}
use raft_sim.Raft.Log
use raft_sim.Raft.Log.{first_index, last_index}
use raft_sim.Checker.Track.{
  CommittedVal, same_entry, NodeTrack, Violation, Invariants, violate, track, put_track, entry_hash,
}
use raft_sim.Checker.Chain.{term_at, atleast, check_log_chain}
use raft_sim.Checker.Observe.{observe_restart, observe_apply, observe_snapshot_restore}

-- The loop of symmetricDiff while the first list begins with a, before n more elements: `rest` is the
-- loop once it has left a behind.
unfoldable pub diff_at : ℕ → ℕ → (List ℕ → ℕ) → List ℕ → ℕ
diff_at a n rest [] = suc n
diff_at a n rest (b ∷ bs) =
    let right = diff_at a n rest bs in
    if nat_beq a b then rest bs else if ltb a b then suc (rest (b ∷ bs)) else suc right

unfoldable pub symmetric_diff : List ℕ → List ℕ → ℕ
unfolding diff_at
symmetric_diff [] bs = length bs
symmetric_diff (a ∷ rest) bs = diff_at a (length rest) (symmetric_diff rest) bs

unfoldable pub check_monotone : Node → NodeTrack → Invariants → Invariants
check_monotone n t v =
    let v₁ =
      if not t.restarted && ltb n.term t.term
      then violate (Violation.term_fell n.id t.term n.term) v
      else v in
    if not t.restarted && ltb n.commit_index t.commit
    then violate (Violation.commit_fell n.id t.commit n.commit_index) v₁
    else v₁

unfoldable pub check_order : Node → List ℕ → Invariants → Invariants
check_order n (a ∷ b ∷ rest) v =
    check_order n (b ∷ rest)
      (if leb b a then violate (Violation.unordered_voters n.id n.config.voters) v else v)
check_order n _ v = v

abbrev pub is_empty : List ℕ → Bool
is_empty [] = true
is_empty (x ∷ xs) = false

unfoldable pub check_voters : Node → NodeTrack → Invariants → Invariants
unfolding check_order symmetric_diff
check_voters n t v =
    let voters = n.config.voters in
    let v₁ = if is_empty voters then violate (Violation.no_voters n.id) v else v in
    let v₂ = check_order n voters v₁ in
    let d = symmetric_diff t.voters voters in
    if is_leader n.state
      && nat_beq t.leader_term n.term
      && not (is_empty t.voters)
      && not t.restarted
      && ltb 1 d
    then violate (Violation.many_changes n.id d t.voters voters) v₂
    else v₂

abbrev pub lead_term : Node → Option ℕ → Invariants → Invariants
lead_term n none v = record v { leaders = insert n.term n.id v.leaders }
lead_term n (some prev) v =
    if nat_beq prev n.id
    then record v { leaders = insert n.term n.id v.leaders }
    else violate (Violation.two_leaders n.term prev n.id) v

unfoldable pub check_election : Node → Invariants → Invariants
check_election n v = if is_leader n.state then lead_term n (lookup n.term v.leaders) v else v

-- The term at the end that the leader had before.
abbrev pub check_last : Node → NodeTrack → Option ℕ → Invariants → Invariants
check_last n t none v = v
check_last n t (some tt) v =
    if nat_beq tt t.leader_last_term
    then v
    else violate (Violation.leader_overwrote n.id t.leader_last t.leader_last_term tt) v

unfoldable pub check_append_only : Node → NodeTrack → Invariants → Invariants
check_append_only n t v =
    if is_leader n.state && nat_beq t.leader_term n.term && ltb 0 t.leader_last
    then (if ltb (last_index n.log) t.leader_last
        then violate (Violation.leader_shrank n.id n.term t.leader_last (last_index n.log)) v
        else if leb (first_index n.log) t.leader_last
        then check_last n t (Log.term n.log t.leader_last) v
        else v)
    else v

abbrev pub lead : Node → NodeTrack → NodeTrack
lead n t =
    if is_leader n.state
    then record t {
      leader_term = n.term;
      leader_last = last_index n.log;
      leader_last_term = term_at n (last_index n.log);
    }
    else record t { leader_term = 0 }

-- An entry up to the commit index, with what is on record at its index.
unfoldable pub note_committed :
    Node → ℕ → CommittedVal → Option CommittedVal → Invariants → Invariants
note_committed n i val none v = record v {
  committed = insert i val v.committed;
  commit_order = v.commit_order ++ i ∷ [];
}
note_committed n i val (some exist) v =
    let v' =
      if same_entry exist val
      then v
      else violate (Violation.committed_differs i exist.term val.term n.id) v in
    if ltb val.commit_term_ub exist.commit_term_ub
    then record v' {
      committed = insert i (record exist { commit_term_ub = val.commit_term_ub }) v'.committed;
    }
    else v'

unfoldable pub note_all : (List ℕ → ℕ) → Node → ℕ → ℕ → Invariants → Invariants
unfolding note_committed
note_all fnv n zero i v = v
note_all fnv n (suc k) i v = elim (Log.entry n.log i) [
  | none ↦ note_all fnv n k (suc i) v
  | some e ↦ note_all fnv n k (suc i) (
      note_committed n i
        (record { term = e.term; hash = entry_hash fnv e; commit_term_ub = n.term })
        (lookup i v.committed) v)
]

abbrev pub check_snap : Node → Option CommittedVal → Invariants → Invariants
check_snap n none v = v
check_snap n (some exist) v =
    if nat_beq exist.term n.log.snap_term
    then v
    else violate (Violation.snapshot_differs n.log.snap_index n.log.snap_term exist.term n.id) v

unfoldable pub record_committed : (List ℕ → ℕ) → Node → Invariants → Invariants
unfolding note_all
record_committed fnv n v =
    let c = n.commit_index in
    let first = first_index n.log in
    let v' = note_all fnv n (suc c - first) first v in
    if ltb (last_index n.log) c
    then violate (Violation.commit_past_last c (last_index n.log) n.id) v
    else if ltb 0 n.log.snap_index
    then check_snap n (lookup n.log.snap_index v'.committed) v'
    else v'

abbrev pub zero_val : CommittedVal
zero_val = record { term = 0; hash = 0; commit_term_ub = 0 }

abbrev pub or_zero_val : Option CommittedVal → CommittedVal
or_zero_val none = zero_val
or_zero_val (some c) = c

unfoldable pub check_held : Node → ℕ → CommittedVal → Invariants → Invariants
check_held n i c v =
    if leb n.term c.commit_term_ub || leb i n.log.snap_index
    then v
    else if ltb (last_index n.log) i
    then violate (Violation.leader_lacks n.id n.term i) v
    else if nat_beq (term_at n i) c.term
    then v
    else violate (Violation.leader_differs n.id i (term_at n i) c.term) v

unfoldable pub check_all_held : Node → List ℕ → Invariants → Invariants
unfolding check_held
check_all_held n [] v = v
check_all_held n (i ∷ rest) v =
    check_all_held n rest (check_held n i (or_zero_val (lookup i v.committed)) v)

unfoldable pub check_leader_completeness : Node → NodeTrack → Invariants → NodeTrack × Invariants
unfolding check_all_held
check_leader_completeness n t v =
    if is_leader n.state
    then (
      record t { verified = atleast (length v.commit_order) t.verified },
      check_all_held n (drop t.verified v.commit_order) v,
    )
    else (record t { verified = 0 }, v)

unfoldable pub check_node : (List ℕ → ℕ) → Node → Invariants → Invariants
unfolding check_monotone check_voters check_election check_append_only record_committed
    check_leader_completeness
check_node fnv n v =
    let t = track n.id v in
    let v₁ = check_monotone n t v in
    let v₂ = check_voters n t v₁ in
    let v₃ = check_election n v₂ in
    let v₄ = check_append_only n t v₃ in
    let t₄ =
      lead n (record t { term = n.term; commit = n.commit_index; voters = n.config.voters }) in
    let (t₅, v₅) = check_log_chain fnv n t₄ v₄ in
    let v₆ = record_committed fnv n v₅ in
    let (t₇, v₇) = check_leader_completeness n t₅ v₆ in
    put_track n.id (record t₇ { restarted = false }) v₇

unfoldable pub check : (List ℕ → ℕ) → List Node → Invariants → Invariants
unfolding check_node
check fnv [] v = v
check fnv (n ∷ ns) v = check fnv ns (check_node fnv n v)

unfoldable pub is_ok : Invariants → Bool
is_ok v = nat_beq (length v.violations) 0

-- What a run tells the checker.
pub data Observation : Type 0 where
  restart : ℕ → Observation
  applied : ℕ → Entry → Observation
  restored : ℕ → Snapshot → Observation
  nodes : List Node → Observation

abbrev pub observe : (List ℕ → ℕ) → Observation → Invariants → Invariants
observe fnv (Observation.restart id) v = observe_restart id v
observe fnv (Observation.applied id e) v = observe_apply fnv id e v
observe fnv (Observation.restored id s) v = observe_snapshot_restore id s v
observe fnv (Observation.nodes ns) v = check fnv ns v

unfoldable pub observe_all : (List ℕ → ℕ) → List Observation → Invariants → Invariants
observe_all fnv [] v = v
observe_all fnv (o ∷ os) v = observe_all fnv os (observe fnv o v)
