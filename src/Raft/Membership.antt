-- ===== src/Raft/Membership.antt =====
-- raft/membership.go: changes of one server at a time, and the transfer of leadership.
use raft_sim.Base.{
  ℕ, Bool, true, false, List, [], ◌∷◌, Option, none, some, Outcome, ok, ◌>>=◌, lookup, insert,
  remove, nat_eq, ltb, nat_beq, if◌then◌else◌, ◌||◌, ◌&&◌, not, length, add64,
}
use raft_sim.Raft.Types.{
  EntryType, Config, contains, MessageType, message, ProposeReply, ConfChange, ConfChangeType,
}
use raft_sim.Raft.State.{Node, Progress, is_leader, new_progress, send, reply, reject_propose}
use raft_sim.Raft.Conf.{encode_config}
use raft_sim.Raft.Replication.{
  append_entry, send_append, without, maybe_commit, broadcast_if_leader,
}
use raft_sim.Raft.Log

-- The loop of insertSorted; `inserted` is its flag.
unfoldable pub insert_sorted_from : Bool → List ℕ → ℕ → List ℕ
insert_sorted_from inserted [] v = if inserted then [] else v ∷ []
insert_sorted_from inserted (x ∷ xs) v =
    let here = not inserted && ltb v x in
    let rest = insert_sorted_from (inserted || here || nat_beq x v) xs v in
    if here then v ∷ x ∷ rest else x ∷ rest

unfoldable pub insert_sorted : List ℕ → ℕ → List ℕ
unfolding insert_sorted_from
insert_sorted s v = insert_sorted_from false s v

abbrev pub accepted : ℕ → ℕ → ProposeReply
accepted index term = record { ok = true; index = index; term = term; leader_hint = 0 }

-- Appends a configuration and lets it commit.
unfoldable pub issue_config : Config → Node → Outcome Node
issue_config cfg n = do
  n1 ← append_entry EntryType.config (encode_config cfg) n
  n2 ← maybe_commit n1
  broadcast_if_leader n2

-- A new server first catches up as a learner.
unfoldable pub add_learner : ℕ → Node → Outcome Node
add_learner id n =
    if contains n.config id || nat_beq id n.id || nat_beq id 0
    then ok (reject_propose n)
    else send_append id (
        reply (accepted 0 n.term) (record n {
          learner = id;
          prs = insert id (new_progress (add64 (Log.last_index n.log) 1)) n.prs;
        }))

unfoldable pub remove_server : ℕ → Node → Outcome Node
remove_server id n =
    if not (contains n.config id) || nat_beq (length n.config.voters) 1
    then ok (reject_propose n)
    else (do
      n1 ←
          append_entry EntryType.config
            (encode_config (record { voters = without id n.config.voters })) n
      let n2 : Node = record n1 { prs = if nat_beq id n1.id then n1.prs else remove id n1.prs }
      n3 ← maybe_commit (reply (accepted (Log.last_index n2.log) n2.term) n2)
      broadcast_if_leader n3)

unfoldable pub change_config : ConfChangeType → ℕ → Node → Outcome Node
unfolding add_learner remove_server
change_config ConfChangeType.add_server id n = add_learner id n
change_config ConfChangeType.remove_server id n = remove_server id n
change_config (ConfChangeType.other k) id n = ok (reject_propose n)

-- A change is refused until the one before has committed.
unfoldable pub propose_conf_change : ConfChange → Node → Outcome Node
unfolding change_config
propose_conf_change ch n =
    if not (is_leader n.state) || not (nat_beq n.transferee 0)
    then ok (reject_propose n)
    else if ltb n.commit_index n.config_index || not (nat_beq n.learner 0)
    then ok (reject_propose n)
    else change_config ch.type_of ch.id n

-- The learner's log has reached the leader's.
abbrev pub caught_up : Option Progress → ℕ → Bool
caught_up none last = false
caught_up (some pr) last = not (ltb pr.matched last)

unfoldable pub maybe_promote_learner : ℕ → Node → Outcome Node
unfolding issue_config
maybe_promote_learner from n =
    if nat_beq n.learner 0 || not (nat_beq n.learner from) || not (is_leader n.state)
    then ok n
    else if not (caught_up (lookup from n.prs) (Log.last_index n.log))
    then ok n
    else issue_config (record { voters = insert_sorted n.config.voters from })
        (record n { learner = 0 })

abbrev pub matches_last : Option Progress → ℕ → Bool
matches_last none last = false
matches_last (some pr) last = nat_beq pr.matched last

unfoldable pub transfer_leadership : ℕ → Node → Outcome Node
transfer_leadership target n =
    if not (is_leader n.state) || nat_beq target n.id || not (contains n.config target)
    then ok (reject_propose n)
    else (let n1 =
          reply (accepted 0 n.term) (record n { transferee = target; transfer_elapsed = 0 }) in
        if matches_last (lookup target n1.prs) (Log.last_index n1.log)
        then ok (send (message MessageType.timeout_now target n1.term) n1)
        else send_append target n1)
