-- ===== src/Kv/Codec.antt =====
-- kv/codec.go: the byte encodings of a command and of a whole store. A read past the end of the
-- bytes panics.
pub mod Commands
pub mod Snapshots
use raft_sim.Base.{
  ℕ, zero, suc, ◌+◌, ◌-◌, ◌%◌, ◌^◌, Bool, true, false, List, [], ◌∷◌, ◌++◌, map, Outcome, ok, panic,
  ◌>>=◌, length, take, drop, ltb, if◌then◌else◌, nat_beq, sort_by, bytes_less, put_u32, read_u32,
  put_u64, read_u64, Map, lookup, insert, bytes_eq, nat_eq, ◌||◌,
}
use raft_sim.Kv.Types.{OpType, Command, Session, Store}
use raft_sim.Kv.Store.{value_of, session_of, new_store}

unfoldable pub append_str : List ℕ → List ℕ → List ℕ
append_str b s = (b ++ put_u32 (length s % 2 ^ 32)) ++ s

-- `4 + n` is a uint32; the slice b[4:4+n] panics where its bounds are out of order or of range.
unfoldable pub read_str : List ℕ → Outcome (List ℕ × List ℕ)
read_str b = do
  (n, rest) ← read_u32 b
  let stop = (4 + n) % 2 ^ 32
  if ltb stop 4 || ltb (length b) stop
      then panic
      else ok (take (stop - 4) rest, drop (stop - 4) rest)

abbrev pub op_byte : OpType → ℕ
op_byte OpType.get = 0
op_byte OpType.put = 1
op_byte OpType.cas = 2
op_byte (OpType.other n) = n

abbrev pub op_of_byte : ℕ → OpType
op_of_byte n =
    if nat_beq n 0
    then OpType.get
    else if nat_beq n 1
    then OpType.put
    else if nat_beq n 2
    then OpType.cas
    else OpType.other n

unfoldable pub encode : Command → List ℕ
unfolding append_str
encode c =
    let head = (op_byte c.op ∷ []) ++ put_u64 c.client_id ++ put_u64 c.seq in
    append_str (append_str (append_str head c.key) c.value) c.expect

read_byte : List ℕ → Outcome (ℕ × List ℕ)
read_byte [] = panic
read_byte (x ∷ rest) = ok (x, rest)

unfoldable pub decode_command : List ℕ → Outcome Command
unfolding read_byte
decode_command b = do
  (op, b1) ← read_byte b
  (client_id, b2) ← read_u64 b1
  (seq, b3) ← read_u64 b2
  (key, b4) ← read_str b3
  (value, b5) ← read_str b4
  (expect, b6) ← read_str b5
  ok (record {
    client_id = client_id;
    seq = seq;
    op = op_of_byte op;
    key = key;
    value = value;
    expect = expect;
  })

-- The keys of a map, in the order of its entries.
unfoldable pub keys : {K V : Type 0} → Map K V → List K
keys [] = []
keys ((k, v) ∷ m) = k ∷ keys m

-- The keys of the two maps of a store, sorted.
unfoldable pub sorted_keys : Store → List (List ℕ)
sorted_keys s = sort_by bytes_less (keys s.entries)

unfoldable pub sorted_clients : Store → List ℕ
sorted_clients s = sort_by ltb (keys s.sessions)

unfoldable pub append_entries : Map (List ℕ) (List ℕ) → List ℕ → List (List ℕ) → List ℕ
unfolding append_str
append_entries m b [] = b
append_entries m b (k ∷ ks) =
    append_entries m (append_str (append_str b k) (value_of (lookup k m))) ks

unfoldable pub append_session : List ℕ → ℕ → Session → List ℕ
unfolding append_str
append_session b client sess =
    append_str
      (((b ++ put_u64 client) ++ put_u64 sess.last_seq)
        ++ (if sess.last_result.ok then 1 else 0) ∷ [])
      sess.last_result.value

unfoldable pub append_sessions : Map ℕ Session → List ℕ → List ℕ → List ℕ
unfolding append_session
append_sessions m b [] = b
append_sessions m b (c ∷ cs) = append_sessions m (append_session b c (session_of c m)) cs

-- Store.Snapshot
unfoldable pub snapshot : Store → List ℕ
unfolding append_entries append_sessions
snapshot s =
    let ks = sorted_keys s in
    let cs = sorted_clients s in
    let b = append_entries s.entries (put_u32 (length ks % 2 ^ 32)) ks in
    append_sessions s.sessions (b ++ put_u32 (length cs % 2 ^ 32)) cs

-- The two loops of RestoreStore, over the number of rounds left.
unfoldable pub read_entries :
    ℕ → List ℕ → Map (List ℕ) (List ℕ) → Outcome (List ℕ × Map (List ℕ) (List ℕ))
read_entries zero rest m = ok (rest, m)
read_entries (suc n) rest m = do
  (k, r1) ← read_str rest
  (v, r2) ← read_str r1
  read_entries n r2 (insert k v m)

unfoldable pub read_session : List ℕ → Outcome (ℕ × Session × List ℕ)
unfolding read_byte read_str
read_session rest = do
  (client, r1) ← read_u64 rest
  (seq, r2) ← read_u64 r1
  (flag, r3) ← read_byte r2
  (value, r4) ← read_str r3
  ok (
    client,
    record { last_seq = seq; last_result = record { value = value; ok = nat_beq flag 1 } },
    r4,
  )

unfoldable pub read_sessions : ℕ → List ℕ → Map ℕ Session → Outcome (Map ℕ Session)
unfolding read_session
read_sessions zero rest m = ok m
read_sessions (suc n) rest m = do
  (client, sess, r) ← read_session rest
  read_sessions n r (insert client sess m)

unfoldable pub restore_filled : List ℕ → Outcome Store
unfolding read_entries read_sessions
restore_filled b = do
  (nk, r1) ← read_u32 b
  (r2, entries) ← read_entries nk r1 []
  (nc, r3) ← read_u32 r2
  sessions ← read_sessions nc r3 []
  ok (record { entries = entries; sessions = sessions })

-- RestoreStore
unfoldable pub restore_store : List ℕ → Outcome Store
unfolding restore_filled
restore_store [] = ok new_store
restore_store (x ∷ b) = restore_filled (x ∷ b)
