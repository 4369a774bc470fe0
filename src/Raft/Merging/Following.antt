-- ===== src/Raft/Merging/Following.antt =====
-- What handleApp of raft/node.go does to a follower: its log, its commit index and its answer.
use raft_sim.Base.{
  ◌-◌, ◌<◌, ◌≡◌, ◌≢◌, refl, arith, false, some, ok, Bool-cases, inl, inr, length, drop,
}
use raft_sim.Raft.Types.{Message}
use raft_sim.Raft.State.{Node, send, become_follower, reset_rand_timeout, is_leader, is_follower}
use raft_sim.Raft.Log.{term, first_index_of_term}
use raft_sim.Raft.Replication.{respond_app, check_prev, handle_app_entries, heard, handle_app}
use raft_sim.Raft.Merging.Answers.{Answers, respond_app-Answers}

refuse_entries :
    (m : Message) (n : Node)
    → m.prev_log_index < n.log.snap_index
    → n.log.snap_index - m.prev_log_index < length m.entries
    → m.prev_log_term ≢ n.log.snap_term
    → (n' : Node) × (handle_app_entries m n ≡ ok n') × (n'.log ≡ n.log) × Answers n n' false 0
unfolding handle_app_entries check_prev
refuse_entries m n before past other =
    let snap = n.log.snap_index in
    let t = n.log.snap_term in
    let ci = first_index_of_term n.log snap t in
    let at_snap : term n.log snap ≡ some t = unfold term in ground arith in
    let run : check_prev m snap (drop (snap - m.prev_log_index) m.entries) n
        ≡ ok (respond_app m.from false 0 ci t n) =
      rw (check_prev, at_snap) (ground (arith, other)) in
    (
      respond_app m.from false 0 ci t n,
      ground (arith, run),
      unfold respond_app send in refl,
      respond_app-Answers m.from false 0 ci t n n refl,
    )

-- By a node that does not lead, a message from before the snapshot point that reaches past it is
-- refused, and the log stays, where the term it names for its previous index is not the term of the
-- snapshot: the two terms belong to different indexes.
pub refuse_behind :
    (m : Message) (n : Node)
    → is_leader n.state ≡ false
    → m.prev_log_index < n.log.snap_index
    → n.log.snap_index - m.prev_log_index < length m.entries
    → m.prev_log_term ≢ n.log.snap_term
    → (n' : Node) × (handle_app m n ≡ ok n') × (n'.log ≡ n.log) × Answers n n' false 0
unfolding handle_app become_follower reset_rand_timeout
refuse_behind m n stays before past other = elim (Bool-cases (is_follower n.state)) [
  | inl follows ↦
      let (n', run, log, said) = refuse_entries m (heard m.from n) before past other in
      (n', ground (arith, stays, follows, run), log, said)
  | inr stands ↦
      let (n', run, log, said) =
        refuse_entries m (heard m.from (become_follower m.term m.from n)) before past other in
      (n', ground (arith, stays, stands, run), log, said)
]
