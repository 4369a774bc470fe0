-- ===== src/Kv/Store/Sessions.antt =====
-- Exactly-once execution by the sessions of kv/kv.go.
use raft_sim.Base.{
  ℕ, ◌+◌, ◌≤◌, ◌≡◌, ◌≢◌, refl, ◌∙◌, arith, Bool, true, false, List, [], ◌∷◌, ◌&&◌, not, insert,
  nat_beq, nat_beq_iff, Map, Bool-cases, inl, inr, ltb, if◌then◌else◌, lookup-insert, nat_eq,
}
use raft_sim.Kv.Types.{Command, Result, Session, Store}
use raft_sim.Kv.Store.{session_of, apply, apply_all, cached_result, execute}

-- The session of a client in a store.
abbrev pub client_session : Store → ℕ → Session
client_session s j = session_of j s.sessions

session_of-insert :
    (k j : ℕ) (x : Session) (m : Map ℕ Session)
    → session_of j (insert k x m) ≡ (if nat_beq k j then x else session_of j m)
session_of-insert k j x m = ground (arith, lookup-insert k j x m)

-- What `apply` decides by: the sequence number and that of the session.
abbrev pub fresh_for : ℕ → ℕ → Bool
fresh_for seq last = not (nat_beq seq last && not (nat_beq seq 0)) && not (ltb seq last)

module _ (s : Store) (c : Command) where
  pub fresh-apply : (apply s c).1 ≡ fresh_for c.seq (client_session s c.client_id).last_seq
  unfolding apply
  fresh-apply = ground arith

  pub client_session-apply :
      (j : ℕ)
      → client_session (apply s c).2 j ≡ (
          if nat_beq c.client_id j && (apply s c).1
          then record { last_seq = c.seq; last_result = (apply s c).0 }
          else client_session s j)
  unfolding apply
  client_session-apply j =
      let k = c.client_id in
      let old = session_of k s.sessions in
      ground (
        arith,
        nat_beq_iff k j,
        session_of-insert k j old s.sessions,
        session_of-insert k j
            (record { last_seq = c.seq; last_result = (execute c.op c s.entries).0 })
            (insert k old s.sessions),
      )

  -- A call that is not fresh leaves the data alone.
  pub entries-apply_dup : (apply s c).1 ≡ false → (apply s c).2.entries ≡ s.entries
  unfolding apply
  entries-apply_dup h = ground arith

  pub entries-apply : (apply s c).1 ≡ true → (apply s c).2.entries ≡ (execute c.op c s.entries).1
  unfolding apply
  entries-apply h = ground arith

-- A client's last sequence number never falls.
pub last_seq-apply :
    (s : Store) (c : Command) (j : ℕ)
    → (client_session s j).last_seq ≤ (client_session (apply s c).2 j).last_seq
last_seq-apply s c j =
    ground (arith, client_session-apply s c j, fresh-apply s c, nat_beq_iff c.client_id j)

-- The commands of a run of the log that are applied as fresh, in order.
pub executed : Store → List Command → List Command
executed s [] = []
executed s (c ∷ cs) =
    let rest = executed (apply s c).2 cs in if (apply s c).1 then c ∷ rest else rest

-- The data after commands that all run on it, with no sessions between.
pub execute_all : List Command → Map (List ℕ) (List ℕ) → Map (List ℕ) (List ℕ)
execute_all [] m = m
execute_all (c ∷ cs) m = execute_all cs (execute c.op c m).1

-- How often the command (client, seq) is in a list.
pub times : ℕ → ℕ → List Command → ℕ
times client seq [] = 0
times client seq (c ∷ cs) =
    (if nat_beq c.client_id client && nat_beq c.seq seq then 1 else 0) + times client seq cs

entries-apply_all :
    (s : Store) (cs : List Command)
    → (apply_all s cs).entries ≡ execute_all (executed s cs) s.entries
unfolding apply_all executed execute_all
entries-apply_all s [] = refl
entries-apply_all s (c ∷ cs) =
    let t = (apply s c).2 in
    elim (Bool-cases (apply s c).1) [
      | inl fresh ↦ entries-apply_all t cs ∙ rw (fresh, entries-apply s c fresh) refl
      | inr again ↦ entries-apply_all t cs ∙ rw (again, entries-apply_dup s c again) refl
    ]

times-executed_done :
    (client seq : ℕ) (s : Store) (cs : List Command)
    → seq ≢ 0
    → seq ≤ (client_session s client).last_seq
    → times client seq (executed s cs) ≡ 0
unfolding times executed
times-executed_done client seq s [] h le = refl
times-executed_done client seq s (c ∷ cs) h le = ground (
  arith,
  fresh-apply s c,
  last_seq-apply s c client,
  nat_beq_iff c.client_id client,
  times-executed_done client seq (apply s c).2 cs h,
)

times-executed :
    (client seq : ℕ) (s : Store) (cs : List Command)
    → seq ≢ 0
    → times client seq (executed s cs) ≤ 1
unfolding times executed
times-executed client seq s [] h = omega arith
times-executed client seq s (c ∷ cs) h = ground (
  arith,
  client_session-apply s c client,
  times-executed_done client seq (apply s c).2 cs h,
  times-executed client seq (apply s c).2 cs h,
)

-- Exactly once: whatever the log, and however often a command is in it, the data after it is what the
-- commands applied as fresh make of the data before it, one after the other, and among these the
-- command of one client with one sequence number other than 0 is at most once.
pub exactly_once :
    (client seq : ℕ) (s : Store) (cs : List Command)
    → seq ≢ 0
    → ((apply_all s cs).entries ≡ execute_all (executed s cs) s.entries)
      × (times client seq (executed s cs) ≤ 1)
exactly_once client seq s cs h = (entries-apply_all s cs, times-executed client seq s cs h)

abbrev pub NotFrom : ℕ → List Command → Type 0
NotFrom client [] = Unit {0}
NotFrom client (c ∷ cs) = (c.client_id ≢ client) × NotFrom client cs

client_session-apply_all :
    (j : ℕ) (s : Store) (cs : List Command)
    → NotFrom j cs
    → client_session (apply_all s cs) j ≡ client_session s j
unfolding apply_all
client_session-apply_all j s [] h = refl
client_session-apply_all j s (c ∷ cs) h = ground (
  arith,
  client_session-apply_all j (apply s c).2 cs h.1,
  client_session-apply s c j,
  nat_beq_iff c.client_id j,
  h.0,
)

result-apply_dup :
    (s : Store) (c : Command) (r : Result)
    → c.seq ≢ 0
    → client_session s c.client_id ≡ record { last_seq = c.seq; last_result = r }
    → ((apply s c).0 ≡ r) × ((apply s c).1 ≡ false)
unfolding apply
result-apply_dup s c r h e = ground arith

-- A retry gets the first answer: after a command with a sequence number other than 0 took effect,
-- and after any commands of other clients, applying it again is not fresh, returns the result of
-- the first time and leaves the data and the sessions of all clients as they are.
pub apply_retry :
    (s : Store) (c : Command) (cs : List Command) (j : ℕ)
    → c.seq ≢ 0
    → (apply s c).1 ≡ true
    → NotFrom c.client_id cs
    → let t = apply_all (apply s c).2 cs in
      ((apply t c).0 ≡ (apply s c).0)
      × ((apply t c).1 ≡ false)
      × ((apply t c).2.entries ≡ t.entries)
      × (client_session (apply t c).2 j ≡ client_session t j)
apply_retry s c cs j h fresh others =
    let t = apply_all (apply s c).2 cs in
    let k = c.client_id in
    let kept : client_session t k ≡ client_session (apply s c).2 k =
      client_session-apply_all k (apply s c).2 cs others in
    let own = client_session-apply s c k in
    let dup = result-apply_dup t c (apply s c).0 h (ground (arith, own, kept, nat_beq_iff k k)) in
    (dup.0, dup.1, entries-apply_dup t c dup.1, ground (arith, dup, client_session-apply t c j))

cached_result-session :
    (s : Store) (k seq : ℕ) (r : Result)
    → seq ≢ 0
    → client_session s k ≡ record { last_seq = seq; last_result = r }
    → cached_result s k seq ≡ (r, true)
unfolding cached_result
cached_result-session s k seq r h e = ground arith

-- After a command with a sequence number other than 0 took effect, the cache that any server may
-- answer from holds its result.
pub cached_result-apply :
    (s : Store) (c : Command)
    → c.seq ≢ 0
    → (apply s c).1 ≡ true
    → cached_result (apply s c).2 c.client_id c.seq ≡ ((apply s c).0, true)
cached_result-apply s c h fresh =
    cached_result-session _ c.client_id c.seq (apply s c).0 h
      (ground (arith, client_session-apply s c c.client_id, nat_beq_iff c.client_id c.client_id))
