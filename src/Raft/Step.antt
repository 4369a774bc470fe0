-- ===== src/Raft/Step.antt =====
-- Node.Step of raft/node.go with the receipt of messages, and the start of a node.
use raft_sim.Base.{
  Bool, true, false, [], Option, none, some, Outcome, ok, panic, ◌>>=◌, ltb, nat_beq, if◌then◌else◌,
  ◌||◌, ◌&&◌, not, add64,
}
use raft_sim.Raft.Types.{
  StateType, Snapshot, HardState, Message, MessageType, message, Persist, Input, Output,
  empty_output,
}
use raft_sim.Raft.State.{Params, Restore, Node, send, become_follower, base_persist}
use raft_sim.Raft.Conf.{init_conf_history}
use raft_sim.Raft.Replication.{append_one, for_each, handle_app, propose}
use raft_sim.Raft.Responses.{handle_app_resp, handle_snapshot_resp}
use raft_sim.Raft.Membership.{propose_conf_change, transfer_leadership}
use raft_sim.Raft.Snapshots.{create_snapshot, install_snapshot}
use raft_sim.Raft.Election.{vote_response, sticks, handle_vote, handle_vote_resp, tick, timeout_now}
use raft_sim.Raft.Log
use raft_sim.Raft.Log.{RaftLog}

-- The handler of each type of message.
unfoldable pub dispatch : MessageType → Message → Node → Outcome Node
dispatch MessageType.vote m n = ok (handle_vote m n)
dispatch MessageType.vote_resp m n = handle_vote_resp m n
dispatch MessageType.app m n = handle_app m n
dispatch MessageType.app_resp m n = handle_app_resp m n
dispatch MessageType.snap m n = install_snapshot m n
dispatch MessageType.snap_resp m n = handle_snapshot_resp m n
dispatch MessageType.timeout_now m n = timeout_now n

-- A message of a later term, before its handler: `none` is the early return of a node that holds on
-- to its leader.
unfoldable pub catch_up : MessageType → Message → Node → Option Node
catch_up MessageType.vote m n =
    if m.pre_vote then some n else if sticks m n then none else some (become_follower m.term 0 n)
catch_up MessageType.vote_resp m n =
    if m.pre_vote && m.granted then some n else some (become_follower m.term 0 n)
catch_up MessageType.app m n = some (become_follower m.term m.from n)
catch_up MessageType.snap m n = some (become_follower m.term m.from n)
catch_up _ m n = some (become_follower m.term 0 n)

-- A message of an earlier term is answered with the current one, or dropped.
unfoldable pub refuse_old : MessageType → Message → Node → Node
refuse_old MessageType.app m n =
    send
      (record (message MessageType.app_resp m.from n.term) {
        conflict_index = add64 (Log.last_index n.log) 1;
      })
      n
refuse_old MessageType.snap m n =
    send
      (record (message MessageType.app_resp m.from n.term) {
        conflict_index = add64 (Log.last_index n.log) 1;
      })
      n
refuse_old MessageType.vote m n = send (vote_response m.from n.term m.pre_vote false) n
refuse_old _ m n = n

unfoldable pub receive_later : Message → Node → Outcome Node
unfolding catch_up
receive_later m n = elim (catch_up m.type_of m n) [
  | none ↦ ok (send (vote_response m.from n.term false false) n)
  | some n' ↦ dispatch m.type_of m n'
]

unfoldable pub receive : Message → Node → Outcome Node
unfolding receive_later refuse_old
receive m n =
    if not (nat_beq m.to n.id)
    then panic
    else if ltb n.term m.term
    then receive_later m n
    else if ltb m.term n.term
    then ok (refuse_old m.type_of m n)
    else dispatch m.type_of m n

unfoldable pub handle : Input → Node → Outcome Node
handle Input.tick n = tick n
handle (Input.receive m) n = receive m n
handle (Input.propose bytes) n = propose bytes n
handle (Input.propose_conf_change ch) n = propose_conf_change ch n
handle (Input.transfer_leadership target) n = transfer_leadership target n
handle (Input.create_snapshot index bytes) n = create_snapshot index bytes n

-- The marks of a step are cleared before it.
abbrev pub opened : Node → Node
opened n = record n { out = empty_output; hs_dirty = false; appended_from = 0; snap_dirty = none }

abbrev pub is_set : Option Persist → Bool
is_set none = false
is_set (some p) = true

abbrev pub hard_state : Node → HardState
hard_state n = record { term = n.term; voted_for = n.voted_for }

-- What a step asks to be made durable, as one unit.
unfoldable pub persist_of : Node → Option Persist
persist_of n =
    let p = base_persist n.snap_dirty in
    if is_set n.snap_dirty || n.hs_dirty || not (nat_beq n.appended_from 0)
    then some (record p {
      hard_state = if n.hs_dirty then some (hard_state n) else p.hard_state;
      entries =
          if nat_beq n.appended_from 0
          then p.entries
          else Log.slice n.log n.appended_from (add64 (Log.last_index n.log) 1) 0;
    })
    else none

-- The node after a step, and the output with the unit for the disk.
abbrev pub finish : Node → Node × Output
finish n = (record n { out = empty_output }, record n.out { persist = persist_of n })

unfoldable pub step : Node → Input → Outcome (Node × Output)
unfolding persist_of
step n input = do n' ← handle input (opened n); ok (finish n')

abbrev pub empty_log : RaftLog
empty_log = record { snap_index = 0; snap_term = 0; entries = [] }

-- The node before anything is restored.
abbrev pub blank : Params → HardState → Node
blank p hs = record {
  id = p.id;
  rng = p.rng;
  et = p.election_ticks;
  ht = p.heartbeat_ticks;
  max_batch = if nat_beq p.max_entries_per_msg 0 then 64 else p.max_entries_per_msg;
  pre_vote = p.pre_vote;
  state = StateType.follower;
  term = hs.term;
  voted_for = hs.voted_for;
  log = empty_log;
  commit_index = 0;
  last_applied = 0;
  leader_id = 0;
  config = record { voters = [] };
  config_index = 0;
  election_elapsed = 0;
  rand_timeout = 0;
  heartbeat_elapsed = 0;
  quorum_elapsed = 0;
  votes = [];
  prs = [];
  transferee = 0;
  transfer_elapsed = 0;
  learner = 0;
  snapshot = none;
  conf_history = [];
  out = empty_output;
  hs_dirty = false;
  appended_from = 0;
  snap_dirty = none;
}

unfoldable pub restore_snapshot : Option Snapshot → Node → Node
unfolding init_conf_history
restore_snapshot none n = n
restore_snapshot (some s) n = record (init_conf_history s.index s.config n) {
  log = Log.reset n.log s.index s.term;
  snapshot = some s;
  commit_index = s.index;
  last_applied = s.index;
}

-- newNode: a panic where a number of ticks is not positive
unfoldable pub restart_node : Params → Restore → Outcome Node
unfolding restore_snapshot
restart_node p r =
    let n1 = init_conf_history 0 (record { voters = p.voters }) (blank p r.hard_state) in
    if nat_beq p.election_ticks 0 || nat_beq p.heartbeat_ticks 0 then panic else (do
      n2 ← for_each append_one r.entries (restore_snapshot r.snapshot n1)
      ok (become_follower n2.term 0 n2))

abbrev pub no_restore : Restore
no_restore = record {
  hard_state = record { term = 0; voted_for = 0 };
  snapshot = none;
  entries = [];
}

unfoldable pub new_node : Params → Outcome Node
unfolding restart_node
new_node p = restart_node p no_restore
