-- ===== src/Checker/Invariants/Runs.antt =====
-- A run of observations by checker/invariants.go: its reports and records only grow.
use mathlib.Core.List.{append-nil}
use raft_sim.Base.{
  ℕ, ◌≡◌, refl, sym, false, ◌||◌, not, List, [], ◌∷◌, Option, none, some, lookup, insert, nat_eq,
  nat_beq, if◌then◌else◌, add64,
}
use raft_sim.Raft.Types.{Entry, Snapshot}
use raft_sim.Raft.State.{Node}
use raft_sim.Checker.Track.{
  key_eq, CommittedVal, Violation, Invariants, violate, track, put_track, entry_hash,
}
use raft_sim.Checker.Observe.{
  check_applied, check_against, check_restored, observe_restart, observe_apply,
  observe_snapshot_restore,
}
use raft_sim.Checker.Invariants.{
  check_monotone, check_voters, check_election, check_node, check, Observation, observe,
  observe_all,
}
use raft_sim.Checker.Invariants.Growth.{
  Extends, Extends-refl, Extends-trans, Kept-new, violate_if-Extends, violate_unless-Extends,
  put_track-Extends,
}
use raft_sim.Checker.Invariants.Checks.{
  check_monotone-Extends, check_voters-Extends, check_election-Extends, check_append_only-Extends,
  check_log_chain-Extends, record_committed-Extends, check_leader_completeness-Extends,
}

module _ (fnv : List ℕ → ℕ) (n : Node) (v : Invariants) where
  -- What checkNode has done once it has looked at the leaders.
  abbrev pub elected : Invariants
  elected = check_election n (check_voters n (track n.id v) (check_monotone n (track n.id v) v))

  elected-Extends : Extends v elected
  elected-Extends =
      Extends-trans (check_monotone-Extends n (track n.id v) v)
        (Extends-trans (check_voters-Extends n (track n.id v) _) (check_election-Extends n _))

  pub check_node-elected : Extends elected (check_node fnv n v)
  unfolding check_node
  check_node-elected = Extends-trans (check_append_only-Extends n (track n.id v) elected) (
      Extends-trans (check_log_chain-Extends fnv n _ _) (
        Extends-trans (record_committed-Extends fnv n _)
          (Extends-trans (check_leader_completeness-Extends n _ _) (put_track-Extends n.id _ _))))

  pub check_node-Extends : Extends v (check_node fnv n v)
  check_node-Extends = Extends-trans elected-Extends check_node-elected

pub check-Extends :
    (fnv : List ℕ → ℕ) (ns : List Node) (v : Invariants) → Extends v (check fnv ns v)
unfolding check
check-Extends fnv [] v = Extends-refl v
check-Extends fnv (n ∷ ns) v = Extends-trans (check_node-Extends fnv n v) (check-Extends fnv ns _)

put_applied-Extends :
    (k : ℕ) (c : CommittedVal) (v : Invariants)
    → lookup k v.applied ≡ none
    → Extends v (record v { applied = insert k c v.applied })
put_applied-Extends k c v h = record {
  reports = ([], sym (append-nil v.violations));
  leaders = λ k y h. h;
  chain = λ k y h. h;
  applied = Kept-new k c v.applied h;
}

pub check_applied-Extends :
    (e : Entry) (h : ℕ) (found : Option CommittedVal) (v : Invariants)
    → lookup e.index v.applied ≡ found
    → Extends v (check_applied e h found v)
check_applied-Extends e h none v q = put_applied-Extends e.index _ v q
check_applied-Extends e h (some prev) v q =
    violate_if-Extends (not (nat_beq prev.term e.term) || not (nat_beq prev.hash h))
      (Violation.applied_twice e.index prev.term e.term) v

pub check_against-Extends :
    (e : Entry) (h : ℕ) (found : Option CommittedVal) (v : Invariants)
    → Extends v (check_against e h found v)
check_against-Extends e h none v = Extends-refl v
check_against-Extends e h (some c) v =
    violate_if-Extends (not (nat_beq c.term e.term) || not (nat_beq c.hash h))
      (Violation.applied_uncommitted e.index) v

module _ (fnv : List ℕ → ℕ) (id : ℕ) (e : Entry) (v : Invariants) where
  -- What ObserveApply has done once it has looked at the order.
  abbrev pub ordered : Invariants
  ordered =
      let t = track id v in
      put_track id (record t { applied_reset = false; applied_to = e.index })
        (if t.applied_reset || nat_beq e.index (add64 t.applied_to 1)
          then v
          else violate (Violation.apply_order id t.applied_to e.index) v)

  abbrev pub compared : Invariants
  compared = check_applied e (entry_hash fnv e) (lookup e.index ordered.applied) ordered

  ordered-Extends : Extends v ordered
  ordered-Extends =
      let t = track id v in
      Extends-trans
        (violate_unless-Extends (t.applied_reset || nat_beq e.index (add64 t.applied_to 1))
          (Violation.apply_order id t.applied_to e.index) v)
        (put_track-Extends id _ _)

  pub observe_apply-compared : Extends compared (observe_apply fnv id e v)
  unfolding observe_apply
  observe_apply-compared = check_against-Extends e (entry_hash fnv e) _ compared

  pub observe_apply-Extends : Extends v (observe_apply fnv id e v)
  observe_apply-Extends = Extends-trans ordered-Extends (
      Extends-trans (check_applied-Extends e (entry_hash fnv e) _ ordered refl)
        observe_apply-compared)

check_restored-Extends :
    (s : Snapshot) (found : Option CommittedVal) (v : Invariants)
    → Extends v (check_restored s found v)
check_restored-Extends s none v = Extends-refl v
check_restored-Extends s (some c) v =
    violate_unless-Extends (nat_beq c.term s.term)
      (Violation.restored_uncommitted s.index s.term c.term) v

pub observe-Extends :
    (fnv : List ℕ → ℕ) (o : Observation) (v : Invariants) → Extends v (observe fnv o v)
unfolding observe_restart observe_snapshot_restore
observe-Extends fnv (Observation.restart id) v = put_track-Extends id _ v
observe-Extends fnv (Observation.applied id e) v = observe_apply-Extends fnv id e v
observe-Extends fnv (Observation.restored id s) v =
    Extends-trans (put_track-Extends id _ v) (check_restored-Extends s _ _)
observe-Extends fnv (Observation.nodes ns) v = check-Extends fnv ns v

-- No later observation takes back a report, or changes what is on record of leaders, entries of logs
-- and applied entries.
pub observe_all-Extends :
    (fnv : List ℕ → ℕ) (os : List Observation) (v : Invariants) → Extends v (observe_all fnv os v)
unfolding observe_all
observe_all-Extends fnv [] v = Extends-refl v
observe_all-Extends fnv (o ∷ os) v =
    Extends-trans (observe-Extends fnv o v) (observe_all-Extends fnv os _)
