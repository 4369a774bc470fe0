-- ===== src/Raft/Examples.antt =====
-- A log of three entries behind a snapshot, a leader of three servers, and the theorems at them.
use raft_sim.Base.{
  ◌+◌, ℕ, zero, suc, ◌-◌, ◌<◌, ◌≤◌, ◌≡◌, ◌⊎◌, ◌&&◌, refl, arith, inl, inr, Bool, true, false, [],
  ◌∷◌, ◌++◌, Map, lookup, nat_eq, none, some, Outcome, ok, panic, if◌then◌else◌, leb, ltb,
  get_elem?,
}
use raft_sim.Raft.Types.{
  Message, MessageType, message, Entry, EntryType, Config, StateType, contains, quorum, contains_id,
}
use raft_sim.Raft.State.{Progress, Node, Params, send, apply_committed}
use raft_sim.Raft.Log.{
  RaftLog, entry_term, first_index, last_index, term, entry, slice, append, truncate_from, compact,
  first_index_of_term, last_index_of_term,
}
use raft_sim.Raft.Log.Terms.{Numbered, WellFormed, entry_lem, slice_lem, term-eq}
use raft_sim.Raft.Log.Changes.{append-ok, appended, compact_lem, truncate_from_lem}
use raft_sim.Raft.Log.Scans.{
  FirstOf, first_index_of_term_lem, LastOf, TermsRise, last_index_of_term_lem,
}
use raft_sim.Raft.Conf.{encode_config, decode_config}
use raft_sim.Raft.Conf.Codec.{decode-encode_config}
use raft_sim.Raft.Membership.{insert_sorted}
use raft_sim.Raft.Replication.{
  after_commit, replication_targets, send_append, maybe_commit, quorum_match, broadcast_append,
}
use raft_sim.Raft.Election.{count_yes, voted_yes}
use raft_sim.Raft.Commit.Quorums.{count_ge, leader_matches, quorum_match_returns}
use raft_sim.Raft.Responses.{next_try}
use raft_sim.Raft.Responses.Bounds.{next_try_lem}
use raft_sim.Raft.Commit.Rule.{Commits, Waits, maybe_commit_lem}
use raft_sim.Raft.Quorum.{Adds, Above, toggled, change_overlap, quorum_overlap, insert_sorted-Adds}
use raft_sim.Raft.Step.{blank}

abbrev at_ : ℕ → ℕ → Entry
at_ index term = record { index = index; term = term; type_of = EntryType.normal; bytes = [] }

abbrev log : RaftLog
log = record { snap_index = 4; snap_term = 1; entries = at_ 5 1 ∷ at_ 6 2 ∷ at_ 7 2 ∷ [] }

log-WellFormed : WellFormed log
log-WellFormed = record { numbered = (refl, (refl, (refl, tt))); fits = omega arith }

last_log : last_index log ≡ 7
unfolding last_index
last_log = refl

first_log : first_index log ≡ 5
unfolding first_index
first_log = refl

compact_lem_example :
    (l' : RaftLog) × (compact log 6 2 ≡ ok l')
    × WellFormed l'
    × (last_index l' ≡ last_index log)
    × ((j : ℕ) → 6 < j → (term l' j ≡ term log j) × (entry l' j ≡ entry log j))
compact_lem_example = compact_lem log 6 2 log-WellFormed (omega arith) (omega (arith, last_log))

truncate_from_lem_example :
    (l' : RaftLog) × (truncate_from log 6 ≡ ok l')
    × WellFormed l'
    × ((j : ℕ) → term l' j ≡ (if ltb j 6 then term log j else none))
truncate_from_lem_example = truncate_from_lem log 6 log-WellFormed (omega arith)

append_ran : append log (at_ 8 3 ∷ at_ 9 3 ∷ []) ≡ ok (appended log (at_ 8 3 ∷ at_ 9 3 ∷ []))
unfolding append last_index
append_ran = refl

append-ok_example :
    (appended log (at_ 8 3 ∷ at_ 9 3 ∷ []) ≡ appended log (at_ 8 3 ∷ at_ 9 3 ∷ []))
    × Numbered 8 (at_ 8 3 ∷ at_ 9 3 ∷ [])
append-ok_example =
    append-ok log (appended log (at_ 8 3 ∷ at_ 9 3 ∷ [])) (at_ 8 3 ∷ at_ 9 3 ∷ []) (omega arith)
      append_ran

term_at_7 : term log 7 ≡ some 2
unfolding term last_index
term_at_7 = refl

first_index_of_term_lem_example : FirstOf log 7 2 (first_index_of_term log 7 2)
first_index_of_term_lem_example = first_index_of_term_lem log 7 2 term_at_7

terms_of :
    (k s : ℕ)
    → entry_term (get_elem? log.entries k) ≡ some s
    → ((k ≡ 0) × (s ≡ 1)) ⊎ ((1 ≤ k) × (s ≡ 2))
terms_of zero s h = inl (refl, ground arith)
terms_of (suc zero) s h = inr (omega arith, ground arith)
terms_of (suc (suc zero)) s h = inr (omega arith, ground arith)
terms_of (suc (suc (suc k))) s h = cc

terms_at : (i s : ℕ) → term log i ≡ some s → ((i ≤ 5) × (s ≡ 1)) ⊎ ((6 ≤ i) × (s ≡ 2))
terms_at i s h = ground (arith, term-eq log log-WellFormed i, terms_of (i - 5) s)

log-TermsRise : TermsRise log
log-TermsRise i j s t le h k = ground (arith, terms_at i s h, terms_at j t k)

last_index_of_term_lem_example : LastOf log (last_index log) 1 (last_index_of_term log 1)
last_index_of_term_lem_example = last_index_of_term_lem log 1 log-WellFormed log-TermsRise

entry_lem_example :
    (e : Entry) × (entry log 6 ≡ some e) × (e.index ≡ 6) × (term log 6 ≡ some e.term)
entry_lem_example =
    entry_lem log 6 log-WellFormed (omega (arith, first_log)) (omega (arith, last_log))

slice_lem_example :
    get_elem? (slice log 6 8 0) 1
    ≡ (if leb (first_index log) 6 && ltb 7 8 then entry log 7 else none)
slice_lem_example = slice_lem log 6 8 1 log-WellFormed

abbrev three : Config
three = record { voters = 1 ∷ 2 ∷ 3 ∷ [] }

decode-encode_config_example : decode_config (encode_config three ++ 9 ∷ []) ≡ ok three
decode-encode_config_example =
    decode-encode_config three (9 ∷ []) (omega arith)
      (omega arith, (omega arith, (omega arith, tt)))

abbrev votes_a : Map ℕ Bool
votes_a = (1, true) ∷ (2, true) ∷ []

abbrev votes_b : Map ℕ Bool
votes_b = (1, false) ∷ (2, true) ∷ (3, true) ∷ (4, true) ∷ []

votes_a-quorum : quorum three ≤ count_yes three.voters votes_a
unfolding quorum count_yes
votes_a-quorum = omega arith

votes_b-quorum : quorum three ≤ count_yes three.voters votes_b
unfolding quorum count_yes
votes_b-quorum = omega arith

quorum_overlap_example :
    (v : ℕ) × (contains three v ≡ true)
    × (voted_yes (lookup v votes_a) ≡ true)
    × (voted_yes (lookup v votes_b) ≡ true)
quorum_overlap_example = quorum_overlap three votes_a votes_b votes_a-quorum votes_b-quorum

votes_b-quorum_of_four : quorum (toggled three 4) ≤ count_yes (toggled three 4).voters votes_b
unfolding quorum contains insert_sorted count_yes
votes_b-quorum_of_four = omega arith

three-Above : Above 0 three.voters
three-Above = (omega arith, (omega arith, (omega arith, tt)))

change_overlap_example :
    (v : ℕ) × (contains three v ≡ true)
    × (voted_yes (lookup v votes_a) ≡ true)
    × (voted_yes (lookup v votes_b) ≡ true)
change_overlap_example =
    change_overlap three 4 votes_a votes_b three-Above (omega arith) votes_a-quorum
      votes_b-quorum_of_four

four_outside : contains_id three.voters 4 ≡ false
unfolding contains_id
four_outside = refl

insert_sorted-Adds_example : Adds 0 4 three.voters (insert_sorted three.voters 4)
insert_sorted-Adds_example =
    insert_sorted-Adds three.voters 4 three-Above (omega arith) four_outside

abbrev leader : Node
leader = record (blank params (record { term = 2; voted_for = 1 })) {
  state = StateType.leader;
  config = three;
  log = log;
  commit_index = 4;
  last_applied = 4;
  snapshot = none;
  leader_id = 1;
  prs =
      (2, record { next = 8; matched = 7; recent_active = true; pending_snap = false })
      ∷ (3, record { next = 6; matched = 5; recent_active = false; pending_snap = false })
      ∷ [];
}
  where
    params : Params
    params = record {
      id = 1;
      voters = 1 ∷ 2 ∷ 3 ∷ [];
      election_ticks = 10;
      heartbeat_ticks = 2;
      max_entries_per_msg = 0;
      pre_vote = true;
      rng = record { intn = λ asked n. 0; asked = [] };
    }

abbrev committed : Node
committed = node_or (maybe_commit leader)
  where
    node_or : Outcome Node → Node
    node_or (ok a) = a
    node_or panic = leader

commit_ran : maybe_commit leader ≡ ok committed
unfolding maybe_commit quorum_match last_index quorum term after_commit apply_committed contains
    broadcast_append replication_targets send_append send
commit_ran = refl

commits_seven : committed.commit_index ≡ 7
unfolding maybe_commit quorum_match last_index quorum term after_commit apply_committed contains
    broadcast_append replication_targets send_append send
commits_seven = refl

maybe_commit_lem_example :
    ((committed ≡ leader) × Waits leader) ⊎ ((c : ℕ) × Commits leader committed c)
maybe_commit_lem_example = maybe_commit_lem leader committed commit_ran

quorum_match_returns_example :
    (c : ℕ) × (quorum_match leader ≡ ok c)
    × (quorum leader.config ≤ count_ge c (leader_matches leader))
    × (count_ge (suc c) (leader_matches leader) < quorum leader.config)
quorum_match_returns_example = quorum_match_returns leader (omega arith)

abbrev refusal : Message
refusal = record (message MessageType.app_resp 1 2) {
  from = 3;
  conflict_index = 6;
  conflict_term = 1;
}

abbrev behind : Progress
behind = record { next = 8; matched = 4; recent_active = true; pending_snap = false }

next_try_at : next_try refusal behind leader ≡ 6
unfolding next_try last_index_of_term last_index first_index term
next_try_at = refl

next_try_lem_example :
    (4 < next_try refusal behind leader) × (next_try refusal behind leader ≤ last_index log + 1)
next_try_lem_example =
    next_try_lem refusal behind leader (omega (arith, last_log)) (omega (arith, last_log))
