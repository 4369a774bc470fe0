-- ===== src/Raft/Types.antt =====
-- The types of raft/types.go. Pointers that may be nil are options; `type_of` and `bytes` are the
-- fields `Type` and `Data`.
use raft_sim.Base.{ℕ, ◌+◌, ◌/◌, Bool, false, List, [], ◌∷◌, Option, none, ◌||◌, nat_beq, length}

abbrev pub none_id : ℕ
none_id = 0

-- The interface RNG: what a source of random numbers answers to `Intn n` after the arguments of
-- the earlier calls, the latest first.
pub record Rng : Type 0 where
  pub intn : List ℕ → ℕ → ℕ
  pub asked : List ℕ

pub data StateType : Type 0 where
  follower pre_candidate candidate leader : StateType

pub data EntryType : Type 0 where
  normal noop config : EntryType

pub record Entry : Type 0 where
  pub index : ℕ
  pub term : ℕ
  pub type_of : EntryType
  pub bytes : List ℕ

pub record HardState : Type 0 where
  pub term : ℕ
  pub voted_for : ℕ

pub record Config : Type 0 where
  pub voters : List ℕ

unfoldable pub contains_id : List ℕ → ℕ → Bool
contains_id [] id = false
contains_id (v ∷ vs) id = nat_beq v id || contains_id vs id

unfoldable pub contains : Config → ℕ → Bool
unfolding contains_id
contains c id = contains_id c.voters id

unfoldable pub quorum : Config → ℕ
quorum c = length c.voters / 2 + 1

pub record Snapshot : Type 0 where
  pub index : ℕ
  pub term : ℕ
  pub config : Config
  pub bytes : List ℕ

pub data MessageType : Type 0 where
  vote vote_resp app app_resp snap snap_resp timeout_now : MessageType

pub record Message : Type 0 where
  pub type_of : MessageType
  pub from : ℕ
  pub to : ℕ
  pub term : ℕ
  pub pre_vote : Bool
  pub force : Bool
  pub last_log_index : ℕ
  pub last_log_term : ℕ
  pub granted : Bool
  pub prev_log_index : ℕ
  pub prev_log_term : ℕ
  pub entries : List Entry
  pub commit : ℕ
  pub success : Bool
  pub match_index : ℕ
  pub conflict_index : ℕ
  pub conflict_term : ℕ
  pub snapshot : Option Snapshot

-- The zero value of a message of a type: the other fields are set where they are used.
abbrev pub message : MessageType → ℕ → ℕ → Message
message t to term = record {
  type_of = t;
  from = 0;
  to = to;
  term = term;
  pre_vote = false;
  force = false;
  last_log_index = 0;
  last_log_term = 0;
  granted = false;
  prev_log_index = 0;
  prev_log_term = 0;
  entries = [];
  commit = 0;
  success = false;
  match_index = 0;
  conflict_index = 0;
  conflict_term = 0;
  snapshot = none;
}

pub record Persist : Type 0 where
  pub hard_state : Option HardState
  pub entries : List Entry
  pub snapshot : Option Snapshot
  pub replace_log : Bool

abbrev pub empty_persist : Persist
empty_persist = record { hard_state = none; entries = []; snapshot = none; replace_log = false }

-- `other n` is a byte that names no change.
pub data ConfChangeType : Type 0 where
  add_server remove_server : ConfChangeType
  other : ℕ → ConfChangeType

pub record ConfChange : Type 0 where
  pub type_of : ConfChangeType
  pub id : ℕ

pub data Input : Type 0 where
  tick : Input
  receive : Message → Input
  propose : List ℕ → Input
  propose_conf_change : ConfChange → Input
  transfer_leadership : ℕ → Input
  create_snapshot : ℕ → List ℕ → Input

pub record ProposeReply : Type 0 where
  pub ok : Bool
  pub index : ℕ
  pub term : ℕ
  pub leader_hint : ℕ

pub record Output : Type 0 where
  pub messages : List Message
  pub persist : Option Persist
  pub applied : List Entry
  pub apply_snapshot : Option Snapshot
  pub reply : Option ProposeReply

abbrev pub empty_output : Output
empty_output = record {
  messages = [];
  persist = none;
  applied = [];
  apply_snapshot = none;
  reply = none;
}
