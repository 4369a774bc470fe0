-- ===== src/Raft/State.antt =====
-- The state of raft/node.go, and the operations on it that every handler shares. A pointer to a
-- progress is the entry of `prs`; between two steps `out` is empty. Ticks are counted without bound.
use raft_sim.Base.{
  ℕ, ◌+◌, Bool, true, false, List, [], ◌∷◌, ◌++◌, Option, none, some, Map, ltb, leb, nat_beq,
  if◌then◌else◌, ◌||◌, add64,
}
use raft_sim.Raft.Types.{
  Rng, StateType, Config, Snapshot, Message, Persist, empty_persist, HardState, Entry, Output,
  ProposeReply,
}
use raft_sim.Raft.Log.{RaftLog}
use raft_sim.Raft.Log

pub record Params : Type 0 where
  pub id : ℕ
  pub voters : List ℕ
  pub election_ticks : ℕ
  pub heartbeat_ticks : ℕ
  pub max_entries_per_msg : ℕ
  pub pre_vote : Bool
  pub rng : Rng

pub record Restore : Type 0 where
  pub hard_state : HardState
  pub snapshot : Option Snapshot
  pub entries : List Entry

pub record Progress : Type 0 where
  pub next : ℕ
  pub matched : ℕ
  pub recent_active : Bool
  pub pending_snap : Bool

abbrev pub new_progress : ℕ → Progress
new_progress next = record { next = next; matched = 0; recent_active = false; pending_snap = false }

pub record ConfRecord : Type 0 where
  pub index : ℕ
  pub cfg : Config

pub record Node : Type 0 where
  pub id : ℕ
  pub rng : Rng
  pub et : ℕ
  pub ht : ℕ
  pub max_batch : ℕ
  pub pre_vote : Bool
  pub state : StateType
  pub term : ℕ
  pub voted_for : ℕ
  pub log : RaftLog
  pub commit_index : ℕ
  pub last_applied : ℕ
  pub leader_id : ℕ
  pub config : Config
  pub config_index : ℕ
  pub election_elapsed : ℕ
  pub rand_timeout : ℕ
  pub heartbeat_elapsed : ℕ
  pub quorum_elapsed : ℕ
  pub votes : Map ℕ Bool
  pub prs : Map ℕ Progress
  pub transferee : ℕ
  pub transfer_elapsed : ℕ
  pub learner : ℕ
  pub snapshot : Option Snapshot
  pub conf_history : List ConfRecord
  pub out : Output
  pub hs_dirty : Bool
  pub appended_from : ℕ
  pub snap_dirty : Option Persist

-- What the step so far has put into the unit for the disk.
abbrev pub base_persist : Option Persist → Persist
base_persist none = empty_persist
base_persist (some p) = p

abbrev pub is_leader : StateType → Bool
is_leader StateType.leader = true
is_leader _ = false

abbrev pub is_follower : StateType → Bool
is_follower StateType.follower = true
is_follower _ = false

-- The message that leaves: the sender, and the current term where the message has none.
abbrev pub stamped : Node → Message → Message
stamped n m = record m { from = n.id; term = if nat_beq m.term 0 then n.term else m.term }

unfoldable pub send : Message → Node → Node
send m n = record n { out = record n.out { messages = n.out.messages ++ stamped n m ∷ [] } }

unfoldable pub reset_rand_timeout : Node → Node
reset_rand_timeout n = record n {
  rand_timeout = n.et + n.rng.intn n.rng.asked n.et;
  rng = record n.rng { asked = n.et ∷ n.rng.asked };
}

unfoldable pub mark_appended : ℕ → Node → Node
mark_appended i n =
    if nat_beq n.appended_from 0 || ltb i n.appended_from then record n { appended_from = i } else n

unfoldable pub become_follower : ℕ → ℕ → Node → Node
unfolding reset_rand_timeout
become_follower t leader n =
    let later = ltb n.term t in
    reset_rand_timeout (record n {
      term = if later then t else n.term;
      voted_for = if later then 0 else n.voted_for;
      hs_dirty = if later then true else n.hs_dirty;
      state = StateType.follower;
      leader_id = leader;
      votes = [];
      prs = [];
      transferee = 0;
      learner = 0;
      election_elapsed = 0;
    })

-- The entries in (last_applied, commit_index] are handed over.
unfoldable pub apply_committed : Node → Node
apply_committed n = if leb n.commit_index n.last_applied then n else record n {
  out = record n.out {
    applied = n.out.applied ++ Log.slice n.log (add64 n.last_applied 1) (add64 n.commit_index 1) 0;
  };
  last_applied = n.commit_index;
}

unfoldable pub reply : ProposeReply → Node → Node
reply r n = record n { out = record n.out { reply = some r } }

unfoldable pub reject_propose : Node → Node
unfolding reply
reject_propose n = reply (record { ok = false; index = 0; term = 0; leader_hint = n.leader_id }) n
