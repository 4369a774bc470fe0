-- ===== src/Raft/Votes/Changes.antt =====
-- The responses, the membership changes and the snapshots leave the term and the vote alone.
use raft_sim.Base.{
  ℕ, ◌≡◌, refl, true, List, Option, none, some, or_panic, lookup, insert, remove, nat_eq,
  if◌then◌else◌, nat_beq, add64,
}
use raft_sim.Raft.Types.{Config, EntryType, Message, Snapshot, ConfChange, ConfChangeType}
use raft_sim.Raft.State.{Node, Progress, new_progress, apply_committed, reply}
use raft_sim.Raft.Conf.{config_at, prune_conf_history, encode_config}
use raft_sim.Raft.Log
use raft_sim.Raft.Replication.{append_entry, maybe_commit, send_append, without}
use raft_sim.Raft.Responses.{
  put_progress, advance, send_missing, hand_over, app_success, app_failure, next_try,
  handle_app_resp, handle_snapshot_resp,
}
use raft_sim.Raft.Membership.{
  issue_config, add_learner, remove_server, change_config, propose_conf_change,
  maybe_promote_learner, transfer_leadership, accepted,
}
use raft_sim.Raft.Snapshots.{create_snapshot, keep_suffix, replace_log, take_snapshot}
use raft_sim.Raft.Votes.Quiet.{
  Quiet, Quiet-same, Quiet-refl, Quiet-trans, Quiet-either, Calm, Calm-ok, Calm-panic, Calm-from,
  Calm-bind, Calm-value, Calm-if, send-Quiet, send_after, apply_committed-Quiet, reply-Quiet,
  reject_propose-Quiet,
}
use raft_sim.Raft.Votes.Handlers.{
  append_entry-Calm, send_append-Calm, maybe_commit-Calm, broadcast_if_leader-Calm,
}

issue_config-Calm : (cfg : Config) (n : Node) → Calm n (issue_config cfg n)
unfolding issue_config
issue_config-Calm cfg n =
    Calm-bind (append_entry EntryType.config (encode_config cfg) n) _
      (append_entry-Calm EntryType.config (encode_config cfg) n)
      (λ n1. Calm-bind (maybe_commit n1) _ (maybe_commit-Calm n1) broadcast_if_leader-Calm)

add_learner-Calm : (id : ℕ) (n : Node) → Calm n (add_learner id n)
unfolding add_learner
add_learner-Calm id n =
    let n1 : Node = record n {
      learner = id;
      prs = insert id (new_progress (add64 (Log.last_index n.log) 1)) n.prs;
    } in
    Calm-if _ _ _ (Calm-ok (reject_propose-Quiet n)) (
      Calm-from (send_append id (reply (accepted 0 n.term) n1))
        (Quiet-trans (Quiet-same n n1 refl refl refl refl refl (λ c. c))
          (reply-Quiet (accepted 0 n.term) n1))
        (send_append-Calm id (reply (accepted 0 n.term) n1)))

remove_server-Calm : (id : ℕ) (n : Node) → Calm n (remove_server id n)
unfolding remove_server
remove_server-Calm id n =
    let bytes = encode_config (record { voters = without id n.config.voters }) in
    Calm-if _ _ _ (Calm-ok (reject_propose-Quiet n)) (
      Calm-bind (append_entry EntryType.config bytes n) _
        (append_entry-Calm EntryType.config bytes n)
        (λ n1.
          let n2 : Node = record n1 {
            prs = if nat_beq id n1.id then n1.prs else remove id n1.prs;
          } in
          let r = accepted (Log.last_index n2.log) n2.term in
          Calm-bind (maybe_commit (reply r n2)) _
            (Calm-from (maybe_commit (reply r n2))
              (Quiet-trans (Quiet-same n1 n2 refl refl refl refl refl (λ c. c)) (reply-Quiet r n2))
              (maybe_commit-Calm (reply r n2)))
            broadcast_if_leader-Calm))

change_config-Calm : (t : ConfChangeType) (id : ℕ) (n : Node) → Calm n (change_config t id n)
unfolding change_config
change_config-Calm ConfChangeType.add_server id n = add_learner-Calm id n
change_config-Calm ConfChangeType.remove_server id n = remove_server-Calm id n
change_config-Calm (ConfChangeType.other k) id n = Calm-ok (reject_propose-Quiet n)

pub propose_conf_change-Calm : (ch : ConfChange) (n : Node) → Calm n (propose_conf_change ch n)
unfolding propose_conf_change
propose_conf_change-Calm ch n =
    Calm-if _ _ _ (Calm-ok (reject_propose-Quiet n))
      (Calm-if _ _ _ (Calm-ok (reject_propose-Quiet n)) (change_config-Calm ch.type_of ch.id n))

pub maybe_promote_learner-Calm : (from : ℕ) (n : Node) → Calm n (maybe_promote_learner from n)
unfolding maybe_promote_learner
maybe_promote_learner-Calm from n = Calm-if _ _ _ (Calm-ok (Quiet-refl n)) (
    Calm-if _ _ _ (Calm-ok (Quiet-refl n)) (
      Calm-from _ (Quiet-same n _ refl refl refl refl refl (λ c. c))
        (issue_config-Calm _ (record n { learner = 0 }))))

pub transfer_leadership-Calm : (target : ℕ) (n : Node) → Calm n (transfer_leadership target n)
unfolding transfer_leadership
transfer_leadership-Calm target n =
    let n0 : Node = record n { transferee = target; transfer_elapsed = 0 } in
    let n1 = reply (accepted 0 n.term) n0 in
    let q : Quiet n n1 =
      Quiet-trans (Quiet-same n n0 refl refl refl refl refl (λ c. c))
        (reply-Quiet (accepted 0 n.term) n0) in
    Calm-if _ _ _ (Calm-ok (reject_propose-Quiet n)) (
      Calm-if _ _ _ (Calm-ok (send_after _ n1 q refl))
        (Calm-from (send_append target n1) q (send_append-Calm target n1)))

send_missing-Calm : (from : ℕ) (pr : Progress) (n : Node) → Calm n (send_missing from pr n)
unfolding send_missing
send_missing-Calm from pr n =
    Calm-bind (maybe_promote_learner from n) _ (maybe_promote_learner-Calm from n)
      (λ a. Calm-if _ _ _ (send_append-Calm from a) (Calm-ok (Quiet-refl a)))

hand_over-Quiet : (from : ℕ) (pr : Progress) (n : Node) → Quiet n (hand_over from pr n)
unfolding hand_over
hand_over-Quiet from pr n = Quiet-either n _ _ _ (send-Quiet _ n refl) (Quiet-refl n)

put_progress-Quiet : (from : ℕ) (pr : Progress) (n : Node) → Quiet n (put_progress from pr n)
put_progress-Quiet from pr n = Quiet-same n _ refl refl refl refl refl (λ c. c)

commit_after-Calm :
    (from : ℕ) (pr : Progress) (n : Node) → Calm n (maybe_commit (put_progress from pr n))
commit_after-Calm from pr n =
    Calm-from _ (put_progress-Quiet from pr n) (maybe_commit-Calm (put_progress from pr n))

app_success-Calm : (from : ℕ) (pr : Progress) (n : Node) → Calm n (app_success from pr n)
unfolding app_success
app_success-Calm from pr n =
    Calm-bind (maybe_commit (put_progress from pr n)) _ (commit_after-Calm from pr n) (λ a.
      Calm-if _ _ _
        (Calm-from _ (hand_over-Quiet from pr a) (send_missing-Calm from pr (hand_over from pr a)))
        (Calm-ok (Quiet-refl a)))

app_failure-Calm : (m : Message) (pr : Progress) (n : Node) → Calm n (app_failure m pr n)
unfolding app_failure
app_failure-Calm m pr n =
    let n1 = put_progress m.from (record pr { next = next_try m pr n; recent_active = true }) n in
    Calm-from (send_append m.from n1) (put_progress-Quiet m.from _ n) (send_append-Calm m.from n1)

app_resp_at-Calm :
    (m : Message) (n : Node) (o : Option Progress)
    → lookup m.from n.prs ≡ o
    → Calm n (handle_app_resp m n)
unfolding handle_app_resp
app_resp_at-Calm m n none h =
    rw (h, handle_app_resp) (Calm-if _ _ _ (Calm-ok (Quiet-refl n)) (Calm-ok (Quiet-refl n)))
app_resp_at-Calm m n (some pr) h =
    rw (h, handle_app_resp)
      (Calm-if _ _ _ (Calm-ok (Quiet-refl n)) (
        Calm-if _ _ _ (app_success-Calm m.from (advance m.match_index pr) n)
          (app_failure-Calm m pr n)))

pub handle_app_resp-Calm : (m : Message) (n : Node) → Calm n (handle_app_resp m n)
handle_app_resp-Calm m n = app_resp_at-Calm m n (lookup m.from n.prs) refl

snapshot_resp_at-Calm :
    (m : Message) (n : Node) (o : Option Progress)
    → lookup m.from n.prs ≡ o
    → Calm n (handle_snapshot_resp m n)
unfolding handle_snapshot_resp
snapshot_resp_at-Calm m n none h =
    rw (h, handle_snapshot_resp) (Calm-if _ _ _ (Calm-ok (Quiet-refl n)) (Calm-ok (Quiet-refl n)))
snapshot_resp_at-Calm m n (some pr) h =
    let pr1 = advance m.match_index pr in
    rw (h, handle_snapshot_resp)
      (Calm-if _ _ _ (Calm-ok (Quiet-refl n)) (
        Calm-bind (maybe_commit (put_progress m.from pr1 n)) _ (commit_after-Calm m.from pr1 n)
          (λ a. Calm-if _ _ _ (send_missing-Calm m.from pr1 a) (Calm-ok (Quiet-refl a)))))

pub handle_snapshot_resp-Calm : (m : Message) (n : Node) → Calm n (handle_snapshot_resp m n)
handle_snapshot_resp-Calm m n = snapshot_resp_at-Calm m n (lookup m.from n.prs) refl

pub create_snapshot-Calm :
    (index : ℕ) (bytes : List ℕ) (n : Node) → Calm n (create_snapshot index bytes n)
unfolding create_snapshot prune_conf_history
create_snapshot-Calm index bytes n = Calm-if _ _ _ (Calm-ok (Quiet-refl n)) (
    Calm-if _ _ _ Calm-panic (
      Calm-value (or_panic (Log.term n.log index)) _ (λ t. Calm-value (config_at index n) _ (λ cfg.
        Calm-value (Log.compact n.log index t) _
          (λ l. Calm-ok (Quiet-same n _ refl refl refl refl refl (λ c. refl)))))))

keep_suffix-Calm : (from : ℕ) (s : Snapshot) (n : Node) → Calm n (keep_suffix from s n)
unfolding keep_suffix prune_conf_history
keep_suffix-Calm from s n =
    let n0 : Node = record n { commit_index = s.index } in
    Calm-from (keep_suffix from s n)
      (Quiet-trans (Quiet-same n n0 refl refl refl refl refl (λ c. c)) (apply_committed-Quiet n0))
      (Calm-value (Log.compact (apply_committed n0).log s.index s.term) _ (λ l. Calm-ok (
        send_after _ _ (Quiet-same (apply_committed n0) _ refl refl refl refl refl (λ c. refl))
          refl)))

replace_log-Quiet : (from : ℕ) (s : Snapshot) (n : Node) → Quiet n (replace_log from s n)
unfolding replace_log
replace_log-Quiet from s n =
    send_after _ _ (Quiet-same n _ refl refl refl refl refl (λ c. refl)) refl

pub take_snapshot-Calm : (from : ℕ) (s : Snapshot) (n : Node) → Calm n (take_snapshot from s n)
unfolding take_snapshot
take_snapshot-Calm from s n =
    Calm-if _ _ _ (Calm-ok (send-Quiet _ n refl))
      (Calm-if _ _ _ (keep_suffix-Calm from s n) (Calm-ok (replace_log-Quiet from s n)))
