-- ===== src/Raft/Snapshots.antt =====
-- raft/snapshot.go: compaction of the log and InstallSnapshot on the follower's side.
use raft_sim.Base.{
  ℕ, true, none, some, Outcome, ok, panic, ◌>>=◌, or_panic, ltb, leb, if◌then◌else◌, List,
}
use raft_sim.Raft.Types.{Snapshot, Message, MessageType, message, empty_persist}
use raft_sim.Raft.State.{Node, is_follower, send, become_follower, apply_committed}
use raft_sim.Raft.Conf.{config_at, prune_conf_history, init_conf_history}
use raft_sim.Raft.Replication.{heard}
use raft_sim.Raft.Log

unfoldable pub create_snapshot : ℕ → List ℕ → Node → Outcome Node
create_snapshot index bytes n =
    if leb index n.log.snap_index then ok n else if ltb n.last_applied index then panic else (do
      t ← or_panic (Log.term n.log index)
      cfg ← config_at index n
      let snap : Snapshot = record { index = index; term = t; config = cfg; bytes = bytes }
      l ← Log.compact n.log index t
      ok (record (prune_conf_history index (record n { log = l; snapshot = some snap })) {
        snap_dirty = some (record empty_persist { snapshot = some snap });
      }))

abbrev pub snap_resp : ℕ → ℕ → Node → Node
snap_resp to match_index n =
    send (record (message MessageType.snap_resp to n.term) { match_index = match_index }) n

-- The log holds the snapshot's last entry: what is behind it stays.
unfoldable pub keep_suffix : ℕ → Snapshot → Node → Outcome Node
keep_suffix from s n =
    let n1 = apply_committed (record n { commit_index = s.index }) in
    do
      l ← Log.compact n1.log s.index s.term
      ok (
          snap_resp from s.index
            (record (prune_conf_history s.index (record n1 { log = l; snapshot = some s })) {
              snap_dirty = some (record empty_persist { snapshot = some s });
            }))

-- The log conflicts with the snapshot, which takes its place.
unfoldable pub replace_log : ℕ → Snapshot → Node → Node
unfolding init_conf_history
replace_log from s n =
    let n1 : Node = record n {
      log = Log.reset n.log s.index s.term;
      commit_index = s.index;
      last_applied = s.index;
      snapshot = some s;
    } in
    snap_resp from s.index (record (init_conf_history s.index s.config n1) {
      snap_dirty = some (record empty_persist { snapshot = some s; replace_log = true });
      out = record n1.out { apply_snapshot = some s };
    })

unfoldable pub take_snapshot : ℕ → Snapshot → Node → Outcome Node
unfolding keep_suffix replace_log
take_snapshot from s n =
    if leb s.index n.commit_index
    then ok (snap_resp from n.commit_index n)
    else if Log.has_term (Log.term n.log s.index) s.term
    then keep_suffix from s n
    else ok (replace_log from s n)

unfoldable pub install_snapshot : Message → Node → Outcome Node
unfolding take_snapshot
install_snapshot m n =
    let n1 = heard m.from (if is_follower n.state then n else become_follower m.term m.from n) in
    elim m.snapshot [ none ↦ ok n1 | some s ↦ take_snapshot m.from s n1 ]
