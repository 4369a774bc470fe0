-- ===== src/Checker/Invariants/Examples.antt =====
-- Observations of three servers: what the checker of invariants reports of them, and what it lets pass.
use raft_sim.Base.{
  false, ℕ, ◌+◌, ◌*◌, ◌≤◌, ◌≡◌, refl, arith, true, List, [], ◌∷◌, some, inl, inr, lookup, nat_eq,
}
use raft_sim.Raft.Types.{Config, StateType, EntryType, Entry}
use raft_sim.Raft.State.{Params, Node}
use raft_sim.Raft.Step.{blank}
use raft_sim.Raft.Log
use raft_sim.Raft.Log.{RaftLog, first_index, last_index}
use raft_sim.Raft.Quorum.{toggled}
use raft_sim.Checker.Track.{NodeTrack, new_track, Violation, Invariants, new_invariants, entry_hash}
use raft_sim.Checker.Chain.{check_log_chain}
use raft_sim.Checker.Chain.Incremental.{check_log_chain-copied, copied}
use raft_sim.Checker.Observe.{observe_apply, observe_restart}
use raft_sim.Checker.Invariants.{
  Observation, observe_all, check, is_ok, check_leader_completeness, or_zero_val,
}
use raft_sim.Checker.Invariants.Growth.{Extends-refl}
use raft_sim.Checker.Invariants.Checks.{check_log_chain-Extends}
use raft_sim.Checker.Invariants.Safety.{one_leader, one_applied}
use raft_sim.Checker.Invariants.Voters.{check_voters-toggled}
use raft_sim.Raft.Types.{contains}
use raft_sim.Raft.Replication.{without}
use raft_sim.Checker.Invariants.{is_empty, check_voters}
use raft_sim.Checker.Invariants.Leaders.{Holds, check_leader_completeness_lem}
use raft_sim.Checker.Invariants.Matching.{Agree, log_matching}

-- A hash that stands for the library's.
abbrev hash : List ℕ → ℕ
hash [] = 7
hash (b ∷ bs) = b + 31 * hash bs

abbrev entry_at : ℕ → ℕ → Entry
entry_at index term = record { index = index; term = term; type_of = EntryType.normal; bytes = [] }

abbrev params : Params
params = record {
  id = 1;
  voters = 1 ∷ 2 ∷ 3 ∷ [];
  election_ticks = 10;
  heartbeat_ticks = 2;
  max_entries_per_msg = 0;
  pre_vote = true;
  rng = record { intn = λ asked n. 0; asked = [] };
}

abbrev short_log : RaftLog
short_log = record { snap_index = 0; snap_term = 0; entries = entry_at 1 1 ∷ entry_at 2 2 ∷ [] }

abbrev leader : Node
leader = record (blank params (record { term = 2; voted_for = 1 })) {
  state = StateType.leader;
  config = record { voters = 1 ∷ 2 ∷ 3 ∷ [] };
  log = short_log;
  commit_index = 1;
}

-- Server 1 later in the same term.
abbrev leader_later : Node
leader_later = record leader {
  log = record short_log { entries = entry_at 1 1 ∷ entry_at 2 2 ∷ entry_at 3 2 ∷ [] };
  commit_index = 2;
}

abbrev follower : Node
follower = record leader { id = 2; state = StateType.follower }

abbrev rival : Node
rival = record leader { id = 3 }

abbrev run : List Observation
run =
    Observation.nodes (leader ∷ follower ∷ [])
    ∷ Observation.applied 1 (entry_at 1 1)
    ∷ Observation.restart 2
    ∷ Observation.nodes (leader_later ∷ [])
    ∷ Observation.applied 2 (entry_at 1 1)
    ∷ []

run_ok : is_ok (observe_all hash run new_invariants) ≡ true
unfolding is_ok observe_all observe_apply check check_log_chain observe_restart Log.entry entry_hash
    Log.term
run_ok = refl

one_leader_example : leader.id ≡ leader_later.id
one_leader_example =
    one_leader hash run leader leader_later run_ok (inl (inl refl))
      (inr (inr (inr (inl (inl refl))))) refl refl refl

rivals :
    (observe_all hash (Observation.nodes (leader ∷ rival ∷ []) ∷ []) new_invariants).violations
    ≡ Violation.two_leaders 2 1 3 ∷ []
unfolding observe_all check check_log_chain Log.entry entry_hash Log.term
rivals = refl

one_applied_example :
    ((entry_at 1 1).term ≡ (entry_at 1 1).term)
    × (entry_hash hash (entry_at 1 1) ≡ entry_hash hash (entry_at 1 1))
one_applied_example =
    one_applied hash run (entry_at 1 1) (entry_at 1 1) run_ok (inr (inl refl))
      (inr (inr (inr (inr (inl refl))))) refl

abbrev three : Config
three = record { voters = 1 ∷ 2 ∷ 3 ∷ [] }

left_two : is_empty (toggled three 2).voters ≡ false
unfolding contains without
left_two = refl

check_voters-toggled_example :
    check_voters
      (record leader { config = toggled three 2 })
      (record new_track { leader_term = 2; voters = 1 ∷ 2 ∷ 3 ∷ [] })
      new_invariants
    ≡ new_invariants
check_voters-toggled_example =
    check_voters-toggled three 2 (record leader { config = toggled three 2 })
      (record new_track { leader_term = 2; voters = 1 ∷ 2 ∷ 3 ∷ [] }) new_invariants
      (omega arith, (omega arith, (omega arith, tt))) (omega arith) refl refl left_two

-- A leader that two servers leave at once.
two_gone :
    (check_voters
      (record leader { config = record { voters = 3 ∷ [] } })
      (record new_track { leader_term = 2; voters = 1 ∷ 2 ∷ 3 ∷ [] })
      new_invariants).violations
    ≡ Violation.many_changes 1 2 (1 ∷ 2 ∷ 3 ∷ []) (3 ∷ []) ∷ []
unfolding check_voters
two_gone = refl

abbrev on_file : Invariants
on_file = record new_invariants {
  committed = (1, record { term = 1; hash = 7; commit_term_ub = 1 }) ∷ [];
  commit_order = 1 ∷ [];
}

held : (check_leader_completeness leader new_track on_file).1.violations ≡ []
unfolding check_leader_completeness Log.term
held = refl

check_leader_completeness_lem_example : Holds leader 1 (or_zero_val (lookup 1 on_file.committed))
check_leader_completeness_lem_example =
    check_leader_completeness_lem leader new_track on_file 0 1 refl refl held refl

abbrev seen : NodeTrack
seen = record new_track {
  terms = some (copied leader (omega arith));
  log_first = first_index leader.log;
}

check_log_chain-copied_example :
    (check_log_chain hash leader seen new_invariants).1 ≡ new_invariants
check_log_chain-copied_example =
    check_log_chain-copied leader (omega arith) hash seen new_invariants refl refl

abbrev scanned : Invariants
scanned = (check_log_chain hash leader new_track new_invariants).1

abbrev both_scanned : Invariants
both_scanned = (check_log_chain hash leader_later new_track scanned).1

both_match : both_scanned.violations ≡ []
unfolding check_log_chain Log.entry entry_hash Log.term
both_match = refl

second : Log.entry leader.log 2 ≡ some (entry_at 2 2)
unfolding Log.entry
second = refl

second_later : Log.entry leader_later.log 2 ≡ some (entry_at 2 2)
unfolding Log.entry
second_later = refl

low : first_index short_log ≤ 1
unfolding first_index
low = omega arith

log_matching_example : Agree hash leader leader_later 1
unfolding first_index
log_matching_example =
    log_matching hash leader leader_later new_track new_track new_invariants scanned both_scanned 2
      1 (entry_at 2 2) (entry_at 2 2) refl refl
      (check_log_chain-Extends hash leader_later new_track scanned) (Extends-refl both_scanned)
      both_match (record { numbered = (refl, (refl, tt)); fits = omega arith })
      (record { numbered = (refl, (refl, (refl, tt))); fits = omega arith }) second second_later
      refl (omega arith) low low
