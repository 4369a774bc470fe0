-- ===== src/Raft/Votes/Handlers.antt =====
-- The replication, membership and snapshot handlers leave the term and the vote alone.
use raft_sim.Base.{
  ℕ, ◌≡◌, refl, Bool, true, false, List, [], ◌∷◌, Option, none, some, Outcome, or_panic, lookup,
  nat_eq, if◌then◌else◌, nat_beq, ltb, leb, not, sub64,
}
use raft_sim.Raft.Types.{Entry, EntryType, Message}
use raft_sim.Raft.State.{Node, Progress, is_leader, mark_appended, apply_committed, reply}
use raft_sim.Raft.Conf.{decode_config, truncate_configs_from}
use raft_sim.Raft.Log
use raft_sim.Raft.Replication.{
  for_each, adopt, append_one, own_entry, append_entry, send_snapshot, send_entries, send_append,
  broadcast_append, replication_targets, after_commit, commit_to, quorum_match, maybe_commit,
  broadcast_if_leader, propose, respond_app, cut_from, append_rest, merge, follow_commit,
  accept_entries, check_prev, handle_app_entries,
}
use raft_sim.Raft.Votes.Quiet.{
  Quiet, Quiet-same, Quiet-refl, Quiet-trans, Quiet-either, Calm, Calm-ok, Calm-panic, Calm-from,
  Calm-bind, Calm-value, Calm-if, send-Quiet, set_config-Quiet, mark_appended-Quiet, send_after,
  apply_committed-Quiet, reply-Quiet, reject_propose-Quiet, become_follower-Quiet,
  truncate_configs_from-Calm,
}

pub for_each-Calm :
    {A : Type 0} (f : A → Node → Outcome Node) (xs : List A) (n : Node)
    → ((x : A) (a : Node) → Calm a (f x a))
    → Calm n (for_each f xs n)
unfolding for_each
for_each-Calm f [] n h = Calm-ok (Quiet-refl n)
for_each-Calm f (x ∷ xs) n h =
    Calm-bind (f x n) (for_each f xs) (h x n) (λ a. for_each-Calm f xs a h)

adopt_as-Calm : (t : EntryType) (e : Entry) (n : Node) → e.type_of ≡ t → Calm n (adopt e n)
unfolding adopt
adopt_as-Calm EntryType.config e n h =
    rw (h, adopt)
      (Calm-value (decode_config e.bytes) _ (λ cfg. Calm-ok (set_config-Quiet e.index cfg n)))
adopt_as-Calm _ e n h = rw (h, adopt) (Calm-ok (Quiet-refl n))

adopt-Calm : (e : Entry) (n : Node) → Calm n (adopt e n)
adopt-Calm e n = adopt_as-Calm e.type_of e n refl

pub append_one-Calm : (e : Entry) (n : Node) → Calm n (append_one e n)
unfolding append_one
append_one-Calm e n = Calm-value (Log.append n.log (e ∷ [])) _ (λ l.
    Calm-from _ (Quiet-same n _ refl refl refl refl refl (λ c. c))
      (adopt-Calm e (record n { log = l })))

pub append_entry-Calm :
    (t : EntryType) (bytes : List ℕ) (n : Node) → Calm n (append_entry t bytes n)
unfolding append_entry
append_entry-Calm t bytes n = Calm-value (Log.append n.log (own_entry t bytes n ∷ [])) _ (λ l.
    Calm-from _
      (Quiet-trans (Quiet-same n _ refl refl refl refl refl (λ c. c))
        (mark_appended-Quiet (own_entry t bytes n).index (record n { log = l })))
      (adopt-Calm (own_entry t bytes n)
        (mark_appended (own_entry t bytes n).index (record n { log = l }))))

send_snapshot-Calm : (to : ℕ) (pr : Progress) (n : Node) → Calm n (send_snapshot to pr n)
unfolding send_snapshot
send_snapshot-Calm to pr n = Calm-if pr.pending_snap _ _ (Calm-ok (Quiet-refl n)) (
    Calm-value (or_panic n.snapshot) _
      (λ s. Calm-ok (send_after _ _ (Quiet-same n _ refl refl refl refl refl (λ c. c)) refl)))

send_entries-Calm : (to : ℕ) (pr : Progress) (n : Node) → Calm n (send_entries to pr n)
unfolding send_entries
send_entries-Calm to pr n =
    Calm-value (or_panic (Log.term n.log (sub64 pr.next 1))) _ (λ t. Calm-ok (send-Quiet _ n refl))

send_to-Calm :
    (to : ℕ) (o : Option Progress) (n : Node) → lookup to n.prs ≡ o → Calm n (send_append to n)
unfolding send_append
send_to-Calm to none n h = rw (h, send_append) (Calm-ok (Quiet-refl n))
send_to-Calm to (some pr) n h =
    rw (h, send_append)
      (Calm-if (leb pr.next n.log.snap_index) _ _ (send_snapshot-Calm to pr n)
        (send_entries-Calm to pr n))

pub send_append-Calm : (to : ℕ) (n : Node) → Calm n (send_append to n)
send_append-Calm to n = send_to-Calm to (lookup to n.prs) n refl

pub broadcast_append-Calm : (n : Node) → Calm n (broadcast_append n)
unfolding broadcast_append
broadcast_append-Calm n = for_each-Calm send_append (replication_targets n) n send_append-Calm

pub broadcast_if_leader-Calm : (n : Node) → Calm n (broadcast_if_leader n)
broadcast_if_leader-Calm n =
    Calm-if (is_leader n.state) _ _ (broadcast_append-Calm n) (Calm-ok (Quiet-refl n))

after_commit-Quiet : (n : Node) → Quiet n (after_commit n)
unfolding after_commit
after_commit-Quiet n = Quiet-either n _ _ _ (become_follower-Quiet 0 n) (Quiet-refl n)

commit_to-Calm : (index : ℕ) (n : Node) → Calm n (commit_to index n)
unfolding commit_to
commit_to-Calm index n =
    let n1 : Node = record n { commit_index = index } in
    Calm-from (commit_to index n)
      (Quiet-trans (Quiet-same n n1 refl refl refl refl refl (λ c. c))
        (Quiet-trans (apply_committed-Quiet n1) (after_commit-Quiet (apply_committed n1))))
      (broadcast_if_leader-Calm (after_commit (apply_committed n1)))

pub maybe_commit-Calm : (n : Node) → Calm n (maybe_commit n)
unfolding maybe_commit
maybe_commit-Calm n = Calm-if (not (is_leader n.state)) _ _ (Calm-ok (Quiet-refl n)) (
    Calm-value (quorum_match n) _
      (λ c. Calm-if _ _ _ (Calm-ok (Quiet-refl n)) (commit_to-Calm c n)))

pub propose-Calm : (bytes : List ℕ) (n : Node) → Calm n (propose bytes n)
unfolding propose
propose-Calm bytes n = Calm-if _ _ _ (Calm-ok (reject_propose-Quiet n)) (
    Calm-bind (append_entry EntryType.normal bytes n) _ (append_entry-Calm EntryType.normal bytes n)
      (λ n1.
        Calm-bind (maybe_commit (reply _ n1)) _
          (Calm-from (maybe_commit (reply _ n1)) (reply-Quiet _ n1)
            (maybe_commit-Calm (reply _ n1)))
          broadcast_if_leader-Calm))

respond_app-Quiet :
    (to : ℕ) (success : Bool) (k ci ct : ℕ) (n : Node) → Quiet n (respond_app to success k ci ct n)
unfolding respond_app
respond_app-Quiet to success k ci ct n = send-Quiet _ n refl

cut_from-Calm : (index : ℕ) (n : Node) → Calm n (cut_from index n)
unfolding cut_from
cut_from-Calm index n = Calm-if (leb index n.commit_index) _ _ Calm-panic (
    Calm-value (Log.truncate_from n.log index) _ (λ l.
      Calm-from (truncate_configs_from index (record n { log = l }))
        (Quiet-same n _ refl refl refl refl refl (λ c. c))
        (truncate_configs_from-Calm index (record n { log = l }))))

append_rest-Calm : (e : Entry) (es : List Entry) (n : Node) → Calm n (append_rest e es n)
unfolding append_rest
append_rest-Calm e es n =
    Calm-bind (for_each append_one (e ∷ es) n) _
      (for_each-Calm append_one (e ∷ es) n append_one-Calm)
      (λ a. Calm-ok (mark_appended-Quiet e.index a))

merge_at-Calm :
    (e : Entry) (es : List Entry) (n : Node) (o : Option ℕ)
    → Log.term n.log e.index ≡ o
    → Calm n (merge es n)
    → Calm n (merge (e ∷ es) n)
unfolding merge
merge_at-Calm e es n none h r = rw (h, merge) (append_rest-Calm e es n)
merge_at-Calm e es n (some t) h r =
    rw (h, merge)
      (Calm-if (nat_beq t e.term) _ _ r
        (Calm-bind (cut_from e.index n) _ (cut_from-Calm e.index n) (append_rest-Calm e es)))

merge-Calm : (es : List Entry) (n : Node) → Calm n (merge es n)
merge-Calm [] n = unfold merge in Calm-ok (Quiet-refl n)
merge-Calm (e ∷ es) n = merge_at-Calm e es n (Log.term n.log e.index) refl (merge-Calm es n)

follow_commit-Quiet : (commit last_new : ℕ) (n : Node) → Quiet n (follow_commit commit last_new n)
unfolding follow_commit
follow_commit-Quiet commit last_new n =
    Quiet-either n _ _ _
      (Quiet-trans (Quiet-same n _ refl refl refl refl refl (λ c. c)) (
        apply_committed-Quiet
          (record n { commit_index = if ltb last_new commit then last_new else commit })))
      (Quiet-refl n)

accept_entries-Calm :
    (m : Message) (prev : ℕ) (ents : List Entry) (n : Node) → Calm n (accept_entries m prev ents n)
unfolding accept_entries
accept_entries-Calm m prev ents n = Calm-bind (merge ents n) _ (merge-Calm ents n) (λ a.
    Calm-ok
      (Quiet-trans (follow_commit-Quiet m.commit _ a) (respond_app-Quiet m.from true _ 0 0 _)))

check_prev_at-Calm :
    (m : Message) (prev : ℕ) (ents : List Entry) (n : Node) (o : Option ℕ)
    → Log.term n.log prev ≡ o
    → Calm n (check_prev m prev ents n)
unfolding check_prev
check_prev_at-Calm m prev ents n none h =
    rw (h, check_prev) (Calm-ok (respond_app-Quiet m.from false 0 _ 0 n))
check_prev_at-Calm m prev ents n (some t) h =
    rw (h, check_prev)
      (Calm-if (nat_beq t m.prev_log_term) _ _ (accept_entries-Calm m prev ents n)
        (Calm-ok (respond_app-Quiet m.from false 0 _ t n)))

check_prev-Calm :
    (m : Message) (prev : ℕ) (ents : List Entry) (n : Node) → Calm n (check_prev m prev ents n)
check_prev-Calm m prev ents n = check_prev_at-Calm m prev ents n (Log.term n.log prev) refl

pub handle_app_entries-Calm : (m : Message) (n : Node) → Calm n (handle_app_entries m n)
unfolding handle_app_entries
handle_app_entries-Calm m n =
    Calm-if _ _ _
      (Calm-if _ _ _ (Calm-ok (respond_app-Quiet m.from true _ 0 0 n)) (check_prev-Calm m _ _ n))
      (check_prev-Calm m _ _ n)
