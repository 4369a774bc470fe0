-- ===== src/Kv/Store.antt =====
-- Store of kv/kv.go: its operations. The field `data` of the source is `entries`.
pub mod Sessions
use raft_sim.Base.{
  ℕ, Bool, true, false, Option, none, some, List, [], ◌∷◌, Map, lookup, insert, ◌&&◌, not, ltb,
  ◌==◌, if◌then◌else◌, nat_eq, bytes_eq, length,
}
use raft_sim.Kv.Types.{OpType, Command, Result, Session, Store}

abbrev pub zero_result : Result
zero_result = record { value = []; ok = false }

abbrev pub new_session : Session
new_session = record { last_seq = 0; last_result = zero_result }

abbrev pub new_store : Store
new_store = record { entries = []; sessions = [] }

abbrev pub or_new : Option Session → Session
or_new none = new_session
or_new (some s) = s

-- The session of a client: the one on record, or a new one.
abbrev pub session_of : ℕ → Map ℕ Session → Session
session_of c m = or_new (lookup c m)

-- s.data[key] with the zero value where the key is missing, and whether it is there
abbrev pub value_of : Option (List ℕ) → List ℕ
value_of none = []
value_of (some v) = v

abbrev pub present : Option (List ℕ) → Bool
present none = false
present (some v) = true

-- The switch on c.Op: the result, and the data after it.
unfoldable pub execute : OpType → Command → Map (List ℕ) (List ℕ) → Result × Map (List ℕ) (List ℕ)
execute OpType.get c m =
    (record { value = value_of (lookup c.key m); ok = present (lookup c.key m) }, m)
execute OpType.put c m = (record { value = []; ok = true }, insert c.key c.value m)
execute OpType.cas c m =
    if present (lookup c.key m) && (value_of (lookup c.key m) == c.expect)
    then (record { value = []; ok = true }, insert c.key c.value m)
    else (record { value = value_of (lookup c.key m); ok = false }, m)
execute (OpType.other n) c m = (zero_result, m)

-- What the call with this session does: a duplicate changes nothing but the record of the session.
unfoldable pub apply_in : Session → Command → Store → Result × Bool × Store
unfolding execute
apply_in sess c s =
    let s' : Store = record s { sessions = insert c.client_id sess s.sessions } in
    let run = execute c.op c s.entries in
    if (c.seq == sess.last_seq) && not (c.seq == 0)
    then (sess.last_result, false, s')
    else if ltb c.seq sess.last_seq
    then (zero_result, false, s')
    else (
      run.0,
      true,
      record {
        entries = run.1;
        sessions =
            insert c.client_id (record { last_seq = c.seq; last_result = run.0 }) s'.sessions;
      },
    )

unfoldable pub apply : Store → Command → Result × Bool × Store
unfolding apply_in
apply s c = apply_in (session_of c.client_id s.sessions) c s

unfoldable pub cached_result : Store → ℕ → ℕ → Result × Bool
cached_result s client_id seq = elim (lookup client_id s.sessions) [
  | none ↦ (zero_result, false)
  | some sess ↦
      if (sess.last_seq == seq) && not (seq == 0)
      then (sess.last_result, true)
      else (zero_result, false)
]

unfoldable pub get : Store → List ℕ → List ℕ × Bool
get s key = (value_of (lookup key s.entries), present (lookup key s.entries))

unfoldable pub len : Store → ℕ
len s = length s.entries

-- A run of the state machine over the entries of a log.
unfoldable pub apply_all : Store → List Command → Store
apply_all s [] = s
apply_all s (c ∷ cs) = apply_all (apply s c).2 cs
