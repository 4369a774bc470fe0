-- ===== src/Checker/Observe.antt =====
-- checker/invariants.go: ObserveRestart, ObserveApply and ObserveSnapshotRestore.
use raft_sim.Base.{
  ℕ, true, false, ◌||◌, not, List, [], Option, none, some, lookup, insert, nat_eq, nat_beq,
  if◌then◌else◌, add64,
}
use raft_sim.Raft.Types.{Entry, Snapshot}
use raft_sim.Checker.Track.{
  CommittedVal, Violation, Invariants, violate, track, put_track, entry_hash,
}

unfoldable pub observe_restart : ℕ → Invariants → Invariants
observe_restart id v =
    put_track id
      (record (track id v) {
        restarted = true;
        applied_reset = true;
        leader_term = 0;
        terms = none;
        log_first = 0;
        verified = 0;
        voters = [];
      })
      v

-- An entry against the one that was applied at its index before.
abbrev pub check_applied : Entry → ℕ → Option CommittedVal → Invariants → Invariants
check_applied e h none v = record v {
  applied = insert e.index (record { term = e.term; hash = h; commit_term_ub = 0 }) v.applied;
}
check_applied e h (some prev) v =
    if not (nat_beq prev.term e.term) || not (nat_beq prev.hash h)
    then violate (Violation.applied_twice e.index prev.term e.term) v
    else v

abbrev pub check_against : Entry → ℕ → Option CommittedVal → Invariants → Invariants
check_against e h none v = v
check_against e h (some c) v =
    if not (nat_beq c.term e.term) || not (nat_beq c.hash h)
    then violate (Violation.applied_uncommitted e.index) v
    else v

unfoldable pub observe_apply : (List ℕ → ℕ) → ℕ → Entry → Invariants → Invariants
observe_apply fnv id e v =
    let t = track id v in
    let h = entry_hash fnv e in
    let v₁ =
      if t.applied_reset || nat_beq e.index (add64 t.applied_to 1)
      then v
      else violate (Violation.apply_order id t.applied_to e.index) v in
    let v₂ = put_track id (record t { applied_reset = false; applied_to = e.index }) v₁ in
    let v₃ = check_applied e h (lookup e.index v₂.applied) v₂ in
    check_against e h (lookup e.index v₃.committed) v₃

abbrev pub check_restored : Snapshot → Option CommittedVal → Invariants → Invariants
check_restored s none v = v
check_restored s (some c) v =
    if nat_beq c.term s.term
    then v
    else violate (Violation.restored_uncommitted s.index s.term c.term) v

unfoldable pub observe_snapshot_restore : ℕ → Snapshot → Invariants → Invariants
observe_snapshot_restore id s v =
    let v' = put_track id (record (track id v) { applied_reset = true; applied_to = s.index }) v in
    check_restored s (lookup s.index v'.committed) v'
