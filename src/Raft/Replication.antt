-- ===== src/Raft/Replication.antt =====
-- Log replication in raft/node.go: AppendEntries on both sides, the commit rule and proposals, with
-- the sending of a snapshot (raft/snapshot.go) and the step down of a removed leader
-- (raft/membership.go). `pr` of the source is read again from `prs` where it may have changed.
use raft_sim.Base.{
  ℕ, ◌-◌, Bool, true, false, List, [], ◌∷◌, ◌++◌, Option, none, some, Outcome, ok, panic, ◌>>=◌,
  or_panic, lookup, insert, nat_eq, ltb, leb, nat_beq, if◌then◌else◌, ◌||◌, ◌&&◌, not, length,
  get_elem?, drop, add64, sub64,
}
use raft_sim.Raft.Types.{EntryType, Entry, contains, quorum, Message, MessageType, message}
use raft_sim.Raft.State.{
  Node, Progress, is_leader, is_follower, send, mark_appended, become_follower, apply_committed,
  reply, reject_propose,
}
use raft_sim.Raft.Conf.{decode_config, set_config, truncate_configs_from}
use raft_sim.Raft.Log

-- Runs an operation that may panic for each element, in order.
unfoldable pub for_each : {A : Type 0} → (A → Node → Outcome Node) → List A → Node → Outcome Node
for_each f [] n = ok n
for_each f (x ∷ xs) n = do n' ← f x n; for_each f xs n'

-- The configuration of an entry takes effect when the entry is appended.
unfoldable pub adopt : Entry → Node → Outcome Node
adopt e n = elim e.type_of [
  | EntryType.config ↦ (do cfg ← decode_config e.bytes; ok (set_config e.index cfg n))
  | _ ↦ ok n
]

-- log.append of one entry, and its configuration
unfoldable pub append_one : Entry → Node → Outcome Node
unfolding adopt
append_one e n = do l ← Log.append n.log (e ∷ []); adopt e (record n { log = l })

abbrev pub own_entry : EntryType → List ℕ → Node → Entry
own_entry t bytes n = record {
  index = add64 (Log.last_index n.log) 1;
  term = n.term;
  type_of = t;
  bytes = bytes;
}

unfoldable pub append_entry : EntryType → List ℕ → Node → Outcome Node
unfolding adopt
append_entry t bytes n =
    let e = own_entry t bytes n in
    do l ← Log.append n.log (e ∷ []); adopt e (mark_appended e.index (record n { log = l }))

-- sendSnapshot of raft/snapshot.go
unfoldable pub send_snapshot : ℕ → Progress → Node → Outcome Node
send_snapshot to pr n = if pr.pending_snap then ok n else (do
  s ← or_panic n.snapshot
  ok (
      send (record (message MessageType.snap to n.term) { snapshot = some s })
        (record n { prs = insert to (record pr { pending_snap = true }) n.prs })))

abbrev pub app_message : ℕ → ℕ → ℕ → ℕ → Node → Message
app_message to prev prev_term next n = record (message MessageType.app to n.term) {
  prev_log_index = prev;
  prev_log_term = prev_term;
  entries = Log.slice n.log next (add64 (Log.last_index n.log) 1) n.max_batch;
  commit = n.commit_index;
}

-- The entries from `next` on, behind the entry before it.
unfoldable pub send_entries : ℕ → Progress → Node → Outcome Node
send_entries to pr n = do
  let prev = sub64 pr.next 1
  prev_term ← or_panic (Log.term n.log prev)
  ok (send (app_message to prev prev_term pr.next n) n)

unfoldable pub send_append : ℕ → Node → Outcome Node
unfolding send_entries send_snapshot
send_append to n = elim (lookup to n.prs) [
  | none ↦ ok n
  | some pr ↦ if leb pr.next n.log.snap_index then send_snapshot to pr n else send_entries to pr n
]

unfoldable pub without : ℕ → List ℕ → List ℕ
without id [] = []
without id (v ∷ vs) = let rest = without id vs in if nat_beq v id then rest else v ∷ rest

unfoldable pub replication_targets : Node → List ℕ
unfolding without
replication_targets n =
    without n.id n.config.voters
    ++ (if not (nat_beq n.learner 0) && not (contains n.config n.learner)
        then n.learner ∷ []
        else [])

unfoldable pub broadcast_append : Node → Outcome Node
unfolding for_each
broadcast_append n = for_each send_append (replication_targets n) n

abbrev pub matched_of : Option Progress → ℕ
matched_of none = 0
matched_of (some pr) = pr.matched

-- What each voter is known to hold.
unfoldable pub matches : Node → List ℕ → List ℕ
matches n [] = []
matches n (v ∷ vs) =
    (if nat_beq v n.id then Log.last_index n.log else matched_of (lookup v n.prs)) ∷ matches n vs

-- The insertion sort, largest first: each value moves left past the smaller ones before it.
unfoldable pub insert_down : ℕ → List ℕ → List ℕ
insert_down x [] = x ∷ []
insert_down x (y ∷ ys) = if ltb y x then x ∷ y ∷ ys else y ∷ insert_down x ys

unfoldable pub sort_down : List ℕ → List ℕ → List ℕ
unfolding insert_down
sort_down done [] = done
sort_down done (x ∷ xs) = sort_down (insert_down x done) xs

-- The largest index that a quorum holds.
unfoldable pub quorum_match : Node → Outcome ℕ
unfolding matches sort_down
quorum_match n =
    or_panic (get_elem? (sort_down [] (matches n n.config.voters)) (quorum n.config - 1))

-- afterCommit of raft/membership.go
unfoldable pub after_commit : Node → Node
after_commit n =
    if is_leader n.state && leb n.config_index n.commit_index && not (contains n.config n.id)
    then become_follower n.term 0 n
    else n

unfoldable pub commit_to : ℕ → Node → Outcome Node
commit_to index n =
    let n' = after_commit (apply_committed (record n { commit_index = index })) in
    if is_leader n'.state then broadcast_append n' else ok n'

unfoldable pub maybe_commit : Node → Outcome Node
unfolding commit_to
maybe_commit n = if not (is_leader n.state) then ok n else (do
  n_commit ← quorum_match n
  if leb n_commit n.commit_index || not (Log.has_term (Log.term n.log n_commit) n.term)
      then ok n
      else commit_to n_commit n)

abbrev pub broadcast_if_leader : Node → Outcome Node
broadcast_if_leader n = if is_leader n.state then broadcast_append n else ok n

unfoldable pub propose : List ℕ → Node → Outcome Node
propose bytes n =
    if not (is_leader n.state) || not (nat_beq n.transferee 0) then ok (reject_propose n) else (do
      n1 ← append_entry EntryType.normal bytes n
      n2 ← maybe_commit (
          reply
            (record { ok = true; index = Log.last_index n1.log; term = n1.term; leader_hint = 0 })
            n1)
      broadcast_if_leader n2)

unfoldable pub respond_app : ℕ → Bool → ℕ → ℕ → ℕ → Node → Node
respond_app to success match_index ci ct n =
    send
      (record (message MessageType.app_resp to n.term) {
        success = success;
        match_index = match_index;
        conflict_index = ci;
        conflict_term = ct;
      })
      n

-- Cuts the log from a conflicting entry on.
unfoldable pub cut_from : ℕ → Node → Outcome Node
cut_from index n =
    if leb index n.commit_index
    then panic
    else (do l ← Log.truncate_from n.log index; truncate_configs_from index (record n { log = l }))

-- Entries that the log has are skipped; from the first other one on all are appended.
unfoldable pub append_rest : Entry → List Entry → Node → Outcome Node
append_rest e es n = do n' ← for_each append_one (e ∷ es) n; ok (mark_appended e.index n')

unfoldable pub merge : List Entry → Node → Outcome Node
unfolding cut_from append_rest
merge [] n = ok n
merge (e ∷ es) n =
    let rest = merge es n in
    elim (Log.term n.log e.index) [
      | none ↦ append_rest e es n
      | some t ↦
          if nat_beq t e.term then rest else (do n' ← cut_from e.index n; append_rest e es n')
    ]

-- commit_index advances to what the leader has committed, as far as this log is known to agree.
unfoldable pub follow_commit : ℕ → ℕ → Node → Node
follow_commit commit last_new n =
    let c = if ltb last_new commit then last_new else commit in
    if ltb n.commit_index commit && ltb n.commit_index c
    then apply_committed (record n { commit_index = c })
    else n

-- The part of handleApp behind the snapshot point.
unfoldable pub accept_entries : Message → ℕ → List Entry → Node → Outcome Node
accept_entries m prev ents n = do
  n' ← merge ents n
  let last_new = add64 prev (length ents)
  ok (respond_app m.from true last_new 0 0 (follow_commit m.commit last_new n'))

unfoldable pub check_prev : Message → ℕ → List Entry → Node → Outcome Node
unfolding accept_entries
check_prev m prev ents n = elim (Log.term n.log prev) [
  | none ↦ ok (respond_app m.from false 0 (add64 (Log.last_index n.log) 1) 0 n)
  | some t ↦
      if nat_beq t m.prev_log_term
      then accept_entries m prev ents n
      else ok (respond_app m.from false 0 (Log.first_index_of_term n.log prev t) t n)
]

unfoldable pub handle_app_entries : Message → Node → Outcome Node
unfolding check_prev
handle_app_entries m n =
    let snap = n.log.snap_index in
    let skip = snap - m.prev_log_index in
    if ltb m.prev_log_index snap
    then (if leb (length m.entries) skip
        then ok (respond_app m.from true snap 0 0 n)
        else check_prev m snap (drop skip m.entries) n)
    else check_prev m m.prev_log_index m.entries n

abbrev pub heard : ℕ → Node → Node
heard from n = record n { leader_id = from; election_elapsed = 0 }

unfoldable pub handle_app : Message → Node → Outcome Node
unfolding handle_app_entries
handle_app m n =
    if is_leader n.state
    then ok n
    else handle_app_entries m
        (heard m.from (if is_follower n.state then n else become_follower m.term m.from n))
