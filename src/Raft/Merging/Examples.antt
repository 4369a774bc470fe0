-- ===== src/Raft/Merging/Examples.antt =====
-- A follower with a conflicting suffix and one message of its leader.
use raft_sim.Base.{inl, ◌≢◌, ℕ, ◌≡◌, refl, arith, true, false, List, [], ◌∷◌, Outcome, ok, panic}
use raft_sim.Raft.Types.{Entry, EntryType, Message, MessageType, message}
use raft_sim.Raft.State.{Node, Params, send, apply_committed, mark_appended}
use raft_sim.Raft.Log.{RaftLog, term, append, truncate_from}
use raft_sim.Raft.Log.Terms.{WellFormed}
use raft_sim.Raft.Conf.{truncate_configs_from}
use raft_sim.Raft.Replication.{merge, handle_app, respond_app, follow_commit, for_each, append_one}
use raft_sim.Raft.Step.{blank}
use raft_sim.Raft.Merging.Answers.{Answers}
use raft_sim.Raft.Merging.Matching.{Merges, merge_lem}
use raft_sim.Raft.Merging.Returns.{Agrees, merge_returns}
use raft_sim.Raft.Merging.Following.{refuse_behind}

abbrev at_ : ℕ → ℕ → Entry
at_ index term = record { index = index; term = term; type_of = EntryType.normal; bytes = [] }

abbrev log : RaftLog
log = record { snap_index = 4; snap_term = 2; entries = at_ 5 2 ∷ at_ 6 2 ∷ at_ 7 2 ∷ [] }

log-WellFormed : WellFormed log
log-WellFormed = record { numbered = (refl, (refl, (refl, tt))); fits = omega arith }

abbrev params : Params
params = record {
  id = 1;
  voters = 1 ∷ 2 ∷ 3 ∷ [];
  election_ticks = 10;
  heartbeat_ticks = 2;
  max_entries_per_msg = 0;
  pre_vote = true;
  rng = record { intn = λ asked n. 0; asked = [] };
}

abbrev follower : Node
follower = record (blank params (record { term = 3; voted_for = 2 })) {
  log = log;
  commit_index = 5;
  last_applied = 5;
  conf_history = record { index = 0; cfg = record { voters = 1 ∷ 2 ∷ 3 ∷ [] } } ∷ [];
}

abbrev news : List Entry
news = at_ 6 3 ∷ at_ 7 3 ∷ at_ 8 3 ∷ []

abbrev node_or : Outcome Node → Node
node_or (ok n) = n
node_or panic = follower

abbrev merged : Node
merged = node_or (merge news follower)

merge_ran : merge news follower ≡ ok merged
unfolding term merge truncate_from truncate_configs_from for_each append_one append respond_app send
    follow_commit mark_appended apply_committed
merge_ran = refl

merged_log : merged.log.entries ≡ at_ 5 2 ∷ news
unfolding term merge truncate_from truncate_configs_from for_each append_one append respond_app send
    follow_commit mark_appended apply_committed
merged_log = refl

merge_lem_example : Merges 5 news follower merged
merge_lem_example =
    merge_lem 5 news follower merged log-WellFormed (omega arith) (omega arith) (omega arith)
      (refl, (refl, (refl, tt))) merge_ran

abbrev news_message : Message
news_message = record (message MessageType.app 1 3) {
  from = 2;
  prev_log_index = 5;
  prev_log_term = 2;
  entries = news;
  commit = 7;
}

abbrev followed : Node
followed = node_or (handle_app news_message follower)

commits_seven : followed.commit_index ≡ 7
unfolding handle_app term merge truncate_from truncate_configs_from for_each append_one append
    respond_app send follow_commit mark_appended apply_committed
commits_seven = refl

-- The entries of a leader whose log has term 1 up to index 3 and term 2 from index 4 on.
abbrev late : Message
late = record (message MessageType.app 1 3) {
  from = 2;
  prev_log_index = 3;
  prev_log_term = 1;
  entries = at_ 4 2 ∷ at_ 5 2 ∷ [];
}

refuse_behind_example :
    (n' : Node) × (handle_app late follower ≡ ok n') × (n'.log ≡ log) × Answers follower n' false 0
refuse_behind_example = refuse_behind late follower refl (omega arith) (omega arith) (omega arith)

history_kept : follower.conf_history ≢ []
history_kept = λ e. cc

news-Agrees : Agrees follower news
news-Agrees = (
  (inl (λ e. cc), inl (omega arith)),
  ((inl (λ e. cc), inl (omega arith)), ((inl (λ e. cc), inl (omega arith)), tt)),
)

merge_returns_example : (n' : Node) × (merge news follower ≡ ok n')
merge_returns_example =
    merge_returns 5 news follower log-WellFormed (omega arith) (omega arith) (omega arith)
      (refl, (refl, (refl, tt))) history_kept news-Agrees
