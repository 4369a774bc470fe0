-- ===== src/Kv/Types.antt =====
-- The types of kv/kv.go. A Go string is the list of its bytes.
use raft_sim.Base.{ℕ, Bool, List, Map}

-- `other n` is a byte that names no operation: decoding does not check it.
pub data OpType : Type 0 where
  get put cas : OpType
  other : ℕ → OpType

pub record Command : Type 0 where
  pub client_id : ℕ
  pub seq : ℕ
  pub op : OpType
  pub key : List ℕ
  pub value : List ℕ
  pub expect : List ℕ

pub record Result : Type 0 where
  pub value : List ℕ
  pub ok : Bool

pub record Session : Type 0 where
  pub last_seq : ℕ
  pub last_result : Result

pub record Store : Type 0 where
  pub entries : Map (List ℕ) (List ℕ)
  pub sessions : Map ℕ Session
