-- ===== src/Raft/Election.antt =====
-- Elections in raft/node.go: the changes of role, the campaign with its Pre-Vote phase, votes and
-- ticks, and the forced election of a transfer (raft/membership.go).
use raft_sim.Base.{
  ℕ, ◌+◌, Bool, true, false, List, [], ◌∷◌, Option, none, some, Outcome, ok, ◌>>=◌, Map, lookup,
  insert, nat_eq, ltb, leb, nat_beq, if◌then◌else◌, ◌||◌, ◌&&◌, not, add64,
}
use raft_sim.Raft.Types.{StateType, EntryType, contains, quorum, Message, MessageType, message}
use raft_sim.Raft.State.{
  Node, Progress, new_progress, is_leader, send, reset_rand_timeout, become_follower,
}
use raft_sim.Raft.Replication.{append_entry, maybe_commit, broadcast_append, replication_targets}
use raft_sim.Raft.Log

unfoldable pub become_pre_candidate : Node → Node
unfolding reset_rand_timeout
become_pre_candidate n =
    reset_rand_timeout (record n {
      state = StateType.pre_candidate;
      leader_id = 0;
      votes = [];
      election_elapsed = 0;
    })

unfoldable pub become_candidate : Node → Node
unfolding reset_rand_timeout
become_candidate n = reset_rand_timeout (record n {
  term = add64 n.term 1;
  voted_for = n.id;
  hs_dirty = true;
  state = StateType.candidate;
  leader_id = 0;
  votes = [];
  election_elapsed = 0;
})

unfoldable pub fresh_progress : ℕ → ℕ → List ℕ → Map ℕ Progress → Map ℕ Progress
fresh_progress id next [] prs = prs
fresh_progress id next (v ∷ vs) prs =
    fresh_progress id next vs (if nat_beq v id then prs else insert v (new_progress next) prs)

-- The fields that a new leader sets, before the no-op of its term.
abbrev pub leading : Node → Node
leading n = record n {
  state = StateType.leader;
  leader_id = n.id;
  votes = [];
  heartbeat_elapsed = 0;
  quorum_elapsed = 0;
  transferee = 0;
  prs = fresh_progress n.id (add64 (Log.last_index n.log) 1) n.config.voters [];
}

unfoldable pub become_leader : Node → Outcome Node
unfolding fresh_progress
become_leader n = do
  n1 ← append_entry EntryType.noop [] (leading n)
  n2 ← maybe_commit n1
  broadcast_append n2

abbrev pub voted_yes : Option Bool → Bool
voted_yes none = false
voted_yes (some b) = b

abbrev pub voted_no : Option Bool → Bool
voted_no none = false
voted_no (some b) = not b

abbrev pub one_if : Bool → ℕ
one_if b = if b then 1 else 0

unfoldable pub count_yes : List ℕ → Map ℕ Bool → ℕ
count_yes [] votes = 0
count_yes (v ∷ vs) votes = one_if (voted_yes (lookup v votes)) + count_yes vs votes

unfoldable pub count_no : List ℕ → Map ℕ Bool → ℕ
count_no [] votes = 0
count_no (v ∷ vs) votes = one_if (voted_no (lookup v votes)) + count_no vs votes

unfoldable pub count_votes : Node → ℕ
unfolding count_yes
count_votes n = count_yes n.config.voters n.votes

unfoldable pub count_rejects : Node → ℕ
unfolding count_no
count_rejects n = count_no n.config.voters n.votes

unfoldable pub promotable : Node → Bool
promotable n = contains n.config n.id

-- n.votes[id] = granted
unfoldable pub record_vote : ℕ → Bool → Node → Node
record_vote id granted n = record n { votes = insert id granted n.votes }

abbrev pub vote_request : ℕ → ℕ → Bool → Bool → Node → Message
vote_request to msg_term pre force n = record (message MessageType.vote to msg_term) {
  pre_vote = pre;
  force = force;
  last_log_index = Log.last_index n.log;
  last_log_term = Log.last_term n.log;
}

unfoldable pub request_votes : ℕ → Bool → Bool → List ℕ → Node → Node
request_votes msg_term pre force [] n = n
request_votes msg_term pre force (v ∷ vs) n =
    request_votes msg_term pre force vs
      (if nat_beq v n.id then n else send (vote_request v msg_term pre force n) n)

-- campaign(false, force)
unfoldable pub campaign_vote : Bool → Node → Outcome Node
unfolding become_candidate record_vote count_votes promotable request_votes
campaign_vote force n =
    let n1 = become_candidate n in
    let n2 = record_vote n1.id true n1 in
    if not (promotable n)
    then ok n
    else if leb (quorum n2.config) (count_votes n2)
    then become_leader n2
    else ok (request_votes n1.term false force n2.config.voters n2)

-- campaign(true, force)
unfoldable pub campaign_pre : Bool → Node → Outcome Node
unfolding become_pre_candidate record_vote count_votes promotable request_votes
campaign_pre force n =
    let n1 = become_pre_candidate n in
    let n2 = record_vote n1.id true n1 in
    if not (promotable n)
    then ok n
    else if leb (quorum n2.config) (count_votes n2)
    then campaign_vote force n2
    else ok (request_votes (add64 n1.term 1) true force n2.config.voters n2)

unfoldable pub campaign : Bool → Bool → Node → Outcome Node
campaign pre force n = if pre then campaign_pre force n else campaign_vote force n

abbrev pub is_active : Option Progress → Bool
is_active none = false
is_active (some pr) = pr.recent_active

unfoldable pub count_active : ℕ → List ℕ → Map ℕ Progress → ℕ
count_active id [] prs = 0
count_active id (v ∷ vs) prs =
    one_if (nat_beq v id || is_active (lookup v prs)) + count_active id vs prs

unfoldable pub quorum_active : Node → Bool
unfolding count_active
quorum_active n = leb (quorum n.config) (count_active n.id n.config.voters n.prs)

-- A new period of the check: nobody has answered yet, and lost snapshots may be sent again.
unfoldable pub clear_active : List ℕ → Map ℕ Progress → Map ℕ Progress
clear_active [] prs = prs
clear_active (v ∷ vs) prs = clear_active vs (elim (lookup v prs) [
  | none ↦ prs
  | some pr ↦ insert v (record pr { recent_active = false; pending_snap = false }) prs
])

-- A transfer that has taken an election timeout is given up.
unfoldable pub tick_transfer : Node → Node
tick_transfer n = if nat_beq n.transferee 0 then n else record n {
  transfer_elapsed = n.transfer_elapsed + 1;
  transferee = if leb n.et (n.transfer_elapsed + 1) then 0 else n.transferee;
}

unfoldable pub tick_heartbeat : Node → Outcome Node
tick_heartbeat n =
    if leb n.ht n.heartbeat_elapsed
    then broadcast_append (record n { heartbeat_elapsed = 0 })
    else ok n

unfoldable pub tick_leader : Node → Outcome Node
unfolding tick_transfer tick_heartbeat quorum_active clear_active
tick_leader n =
    let n1 = tick_transfer (record n {
      heartbeat_elapsed = n.heartbeat_elapsed + 1;
      quorum_elapsed = n.quorum_elapsed + 1;
    }) in
    let n2 : Node = record n1 { quorum_elapsed = 0 } in
    if leb n1.et n1.quorum_elapsed
    then (if not (quorum_active n2)
        then ok (become_follower n2.term 0 n2)
        else tick_heartbeat (record n2 { prs = clear_active (replication_targets n2) n2.prs }))
    else tick_heartbeat n1

unfoldable pub tick : Node → Outcome Node
unfolding tick_leader campaign
tick n =
    let n1 : Node = record n { election_elapsed = n.election_elapsed + 1 } in
    if is_leader n.state
    then tick_leader n
    else if leb n1.rand_timeout n1.election_elapsed
    then campaign n1.pre_vote false n1
    else ok n1

-- The candidate's log is at least as late as the node's own.
unfoldable pub log_up_to_date : ℕ → ℕ → Node → Bool
log_up_to_date last_index last_term n =
    if nat_beq last_term (Log.last_term n.log)
    then leb (Log.last_index n.log) last_index
    else ltb (Log.last_term n.log) last_term

abbrev pub vote_response : ℕ → ℕ → Bool → Bool → Message
vote_response to t pre granted = record (message MessageType.vote_resp to t) {
  pre_vote = pre;
  granted = granted;
}

-- The node has heard of a leader within an election timeout.
abbrev pub sticks : Message → Node → Bool
sticks m n = not m.force && not (nat_beq n.leader_id 0) && ltb n.election_elapsed n.et

unfoldable pub handle_pre_vote : Message → Node → Node
unfolding log_up_to_date
handle_pre_vote m n =
    let granted =
      ltb n.term m.term && log_up_to_date m.last_log_index m.last_log_term n && not (sticks m n) in
    send (vote_response m.from (if granted then m.term else n.term) true granted) n

unfoldable pub can_vote : Message → Node → Bool
unfolding log_up_to_date
can_vote m n =
    (nat_beq n.voted_for 0 || nat_beq n.voted_for m.from)
    && log_up_to_date m.last_log_index m.last_log_term n

unfoldable pub handle_vote : Message → Node → Node
unfolding handle_pre_vote can_vote
handle_vote m n =
    if m.pre_vote
    then handle_pre_vote m n
    else if can_vote m n
    then send (vote_response m.from n.term false true)
        (record n { voted_for = m.from; hs_dirty = true; election_elapsed = 0 })
    else send (vote_response m.from n.term false false) n

-- The answer to a Pre-Vote request.
unfoldable pub pre_vote_resp : Message → Node → Outcome Node
unfolding record_vote count_votes count_rejects
pre_vote_resp m n =
    let yes_ = record_vote m.from true n in
    let no_ = record_vote m.from false n in
    if not m.pre_vote || not (nat_beq m.term (add64 n.term 1)) || not m.granted
    then (if m.pre_vote && not m.granted && leb (quorum no_.config) (count_rejects no_)
        then ok (become_follower no_.term 0 no_)
        else if m.pre_vote && not m.granted
        then ok no_
        else ok n)
    else if leb (quorum yes_.config) (count_votes yes_)
    then campaign_vote m.force yes_
    else ok yes_

-- The answer to a real request.
unfoldable pub real_vote_resp : Message → Node → Outcome Node
unfolding record_vote count_votes count_rejects
real_vote_resp m n =
    let n1 = record_vote m.from m.granted n in
    if m.pre_vote || not (nat_beq m.term n.term)
    then ok n
    else if leb (quorum n1.config) (count_votes n1)
    then become_leader n1
    else if leb (quorum n1.config) (count_rejects n1)
    then ok (become_follower n1.term 0 n1)
    else ok n1

unfoldable pub handle_vote_resp : Message → Node → Outcome Node
unfolding pre_vote_resp real_vote_resp
handle_vote_resp m n = elim n.state [
  | StateType.pre_candidate ↦ pre_vote_resp m n
  | StateType.candidate ↦ real_vote_resp m n
  | _ ↦ ok n
]

unfoldable pub timeout_now : Node → Outcome Node
unfolding promotable
timeout_now n = if is_leader n.state || not (promotable n) then ok n else campaign_vote true n
