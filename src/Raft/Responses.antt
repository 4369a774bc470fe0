-- ===== src/Raft/Responses.antt =====
-- What a leader does with the answers to AppendEntries (raft/node.go) and to InstallSnapshot
-- (raft/snapshot.go).
pub mod Bounds
use raft_sim.Base.{
  ℕ, true, false, none, some, Outcome, ok, ◌>>=◌, lookup, insert, nat_eq, ltb, leb, nat_beq,
  if◌then◌else◌, ◌||◌, ◌&&◌, not, add64,
}
use raft_sim.Raft.Types.{Message, MessageType, message}
use raft_sim.Raft.State.{Node, Progress, is_leader, send}
use raft_sim.Raft.Replication.{send_append, maybe_commit}
use raft_sim.Raft.Membership.{maybe_promote_learner}
use raft_sim.Raft.Log

abbrev pub put_progress : ℕ → Progress → Node → Node
put_progress from pr n = record n { prs = insert from pr n.prs }

-- `match` and `next` only move up, by what the follower reports to hold.
unfoldable pub advance : ℕ → Progress → Progress
advance match_index pr =
    let matched = if ltb pr.matched match_index then match_index else pr.matched in
    record {
      next = if ltb pr.next (add64 matched 1) then add64 matched 1 else pr.next;
      matched = matched;
      recent_active = true;
      pending_snap = false;
    }

-- The end of both handlers: a learner that has caught up is promoted, and what is missing is sent.
unfoldable pub send_missing : ℕ → Progress → Node → Outcome Node
send_missing from pr n = do
  n' ← maybe_promote_learner from n
  if leb pr.next (Log.last_index n'.log) then send_append from n' else ok n'

-- The target of a transfer that has caught up is told to start an election.
unfoldable pub hand_over : ℕ → Progress → Node → Node
hand_over from pr n =
    if nat_beq n.transferee from && nat_beq pr.matched (Log.last_index n.log)
    then send (message MessageType.timeout_now from n.term) n
    else n

unfoldable pub app_success : ℕ → Progress → Node → Outcome Node
unfolding send_missing hand_over
app_success from pr n = do
  n1 ← maybe_commit (put_progress from pr n)
  if is_leader n1.state then send_missing from pr (hand_over from pr n1) else ok n1

-- Where the next attempt starts: behind the leader's last entry of the conflicting term, if it has
-- one, else at the hint; within the log, and above what is known to match.
unfoldable pub next_try : Message → Progress → Node → ℕ
next_try m pr n =
    let li = Log.last_index_of_term n.log m.conflict_term in
    let next0 =
      if not (nat_beq m.conflict_term 0) && not (nat_beq li 0)
      then add64 li 1
      else m.conflict_index in
    let next1 = if ltb next0 1 then 1 else next0 in
    let top = add64 (Log.last_index n.log) 1 in
    let next2 = if ltb top next1 then top else next1 in
    if leb next2 pr.matched then add64 pr.matched 1 else next2

unfoldable pub app_failure : Message → Progress → Node → Outcome Node
unfolding next_try
app_failure m pr n =
    send_append m.from
      (put_progress m.from (record pr { next = next_try m pr n; recent_active = true }) n)

unfoldable pub handle_app_resp : Message → Node → Outcome Node
unfolding app_success app_failure
handle_app_resp m n =
    if not (is_leader n.state) || not (nat_beq m.term n.term)
    then ok n
    else elim (lookup m.from n.prs) [
      | none ↦ ok n
      | some pr ↦
          if m.success then app_success m.from (advance m.match_index pr) n else app_failure m pr n
    ]

unfoldable pub handle_snapshot_resp : Message → Node → Outcome Node
unfolding send_missing
handle_snapshot_resp m n =
    if not (is_leader n.state) || not (nat_beq m.term n.term)
    then ok n
    else elim (lookup m.from n.prs) [
      | none ↦ ok n
      | some pr ↦ (do
        let pr1 = advance m.match_index pr
        n1 ← maybe_commit (put_progress m.from pr1 n)
        if is_leader n1.state then send_missing m.from pr1 n1 else ok n1)
    ]
