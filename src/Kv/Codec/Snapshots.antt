-- ===== src/Kv/Codec/Snapshots.antt =====
-- A store survives its snapshot (kv/codec.go).
use mathlib.Core.List.{append-nil, append_assoc}
use raft_sim.Base.{
  ℕ, ◌%◌, ◌^◌, ◌<◌, ◌≡◌, refl, sym, ◌∙◌, arith, true, false, none, some, List, [], ◌∷◌, ◌++◌, ok,
  if◌then◌else◌, Map, lookup, insert, lookup-insert, nat_eq, bytes_eq, bytes_beq_iff, beq_refl,
  nat_beq_iff, elem, elem-sort_by, length-sort_by, Comparable, length, put_u32, read_u32-count,
  put_u64, read_u64-put, ltb, bytes_less,
}
use raft_sim.Kv.Types.{Session, Store}
use raft_sim.Kv.Store.{value_of, session_of}
use raft_sim.Kv.Codec.{
  append_str, keys, sorted_keys, sorted_clients, append_entries, append_sessions, append_session,
  snapshot, read_entries, read_session, read_sessions, restore_filled, restore_store,
}
use raft_sim.Kv.Codec.Commands.{str, append_str-eq, FitsStr, read_str-append}

-- The bytes of the entries with these keys.
abbrev entries_bytes : Map (List ℕ) (List ℕ) → List (List ℕ) → List ℕ
entries_bytes m [] = []
entries_bytes m (k ∷ ks) = str k ++ (str (value_of (lookup k m)) ++ entries_bytes m ks)

append_entries-eq :
    (m : Map (List ℕ) (List ℕ)) (ks : List (List ℕ)) (b : List ℕ)
    → append_entries m b ks ≡ b ++ entries_bytes m ks
unfolding append_entries
append_entries-eq m [] b = simp append-nil
append_entries-eq m (k ∷ ks) b =
    append_entries-eq m ks (append_str (append_str b k) (value_of (lookup k m)))
    ∙ simp (append_str-eq, append_assoc)

-- What reading back inserts, in order.
abbrev restored :
    Map (List ℕ) (List ℕ) → List (List ℕ) → Map (List ℕ) (List ℕ) → Map (List ℕ) (List ℕ)
restored m [] acc = acc
restored m (k ∷ ks) acc = restored m ks (insert k (value_of (lookup k m)) acc)

elem_self : {A : Type 0} ⦃keyed : Comparable A⦄ (k : A) (ks : List A) → elem k (k ∷ ks) ≡ true
elem_self k ks = ground (arith, beq_refl k)

elem_later :
    {A : Type 0} ⦃keyed : Comparable A⦄ (j k : A) (ks : List A)
    → elem j ks ≡ true
    → elem j (k ∷ ks) ≡ true
elem_later j k ks h = ground arith

abbrev AllFit : Map (List ℕ) (List ℕ) → List (List ℕ) → Type 0
AllFit m ks = (k : List ℕ) → elem k ks ≡ true → FitsStr k × FitsStr (value_of (lookup k m))

read_entries-bytes :
    (m : Map (List ℕ) (List ℕ)) (ks : List (List ℕ)) (acc : Map (List ℕ) (List ℕ)) (r : List ℕ)
    → AllFit m ks
    → read_entries (length ks) (entries_bytes m ks ++ r) acc ≡ ok (r, restored m ks acc)
unfolding read_entries
read_entries-bytes m [] acc r h = refl
read_entries-bytes m (k ∷ ks) acc r h =
    let here = h k (elem_self k ks) in
    let v = value_of (lookup k m) in
    rw (append_assoc (str k) (str v ++ entries_bytes m ks) r) (
      rw (read_str-append k ((str v ++ entries_bytes m ks) ++ r) here.0) (
        rw (append_assoc (str v) (entries_bytes m ks) r) (
          rw (read_str-append v (entries_bytes m ks ++ r) here.1)
            (read_entries-bytes m ks (insert k v acc) r (λ j e. h j (elem_later j k ks e))))))

lookup-restored :
    (m : Map (List ℕ) (List ℕ)) (ks : List (List ℕ)) (acc : Map (List ℕ) (List ℕ)) (j : List ℕ)
    → lookup j (restored m ks acc)
      ≡ (if elem j ks then some (value_of (lookup j m)) else lookup j acc)
lookup-restored m [] acc j = refl
lookup-restored m (k ∷ ks) acc j =
    lookup-restored m ks (insert k (value_of (lookup k m)) acc) j
    ∙ ground (arith, lookup-insert k j (value_of (lookup k m)) acc, bytes_beq_iff k j)

-- A map and its keys.
lookup-keys :
    {K V : Type 0} ⦃keyed : Comparable K⦄ (m : Map K V) (j : K)
    → elem j (keys m) ≡ (elim (lookup j m) [ none ↦ false | some v ↦ true ])
unfolding keys
lookup-keys [] j = refl
lookup-keys ((k, v) ∷ m) j = ground (arith, lookup-keys m j)

abbrev flag : Session → ℕ
flag x = if x.last_result.ok then 1 else 0

-- The bytes of one session, before what follows.
abbrev session_bytes : ℕ → Session → List ℕ → List ℕ
session_bytes c x r = put_u64 c ++ (put_u64 x.last_seq ++ (flag x ∷ (str x.last_result.value ++ r)))

append_session-eq :
    (b : List ℕ) (c : ℕ) (x : Session) (r : List ℕ)
    → append_session b c x ++ r ≡ b ++ session_bytes c x r
unfolding append_session
append_session-eq b c x r = simp append_assoc

abbrev sessions_bytes : Map ℕ Session → List ℕ → List ℕ
sessions_bytes m [] = []
sessions_bytes m (c ∷ cs) = session_bytes c (session_of c m) (sessions_bytes m cs)

append_sessions-eq :
    (m : Map ℕ Session) (cs : List ℕ) (b : List ℕ)
    → append_sessions m b cs ≡ b ++ sessions_bytes m cs
unfolding append_sessions
append_sessions-eq m [] b = simp append-nil
append_sessions-eq m (c ∷ cs) b =
    append_sessions-eq m cs (append_session b c (session_of c m))
    ∙ append_session-eq b c (session_of c m) (sessions_bytes m cs)

-- The numbers and the value of a session that the codec can carry.
pub record FitsSession (c : ℕ) (x : Session) : Type 0 where
  pub client : c < 2 ^ 64
  pub seq : x.last_seq < 2 ^ 64
  pub value : FitsStr x.last_result.value

read_session-bytes :
    (c : ℕ) (x : Session) (r : List ℕ)
    → FitsSession c x
    → read_session (session_bytes c x r) ≡ ok (c, x, r)
unfolding read_session
read_session-bytes c x r h =
    rw (read_u64-put c (put_u64 x.last_seq ++ (flag x ∷ (str x.last_result.value ++ r))) h.client) (
      rw (read_u64-put x.last_seq (flag x ∷ (str x.last_result.value ++ r)) h.seq)
        (rw (read_str-append x.last_result.value r h.value) (ground arith)))

abbrev restored_sessions : Map ℕ Session → List ℕ → Map ℕ Session → Map ℕ Session
restored_sessions m [] acc = acc
restored_sessions m (c ∷ cs) acc = restored_sessions m cs (insert c (session_of c m) acc)

abbrev AllFitSessions : Map ℕ Session → List ℕ → Type 0
AllFitSessions m cs = (c : ℕ) → elem c cs ≡ true → FitsSession c (session_of c m)

read_sessions-bytes :
    (m : Map ℕ Session) (cs : List ℕ) (acc : Map ℕ Session)
    → AllFitSessions m cs
    → read_sessions (length cs) (sessions_bytes m cs) acc ≡ ok (restored_sessions m cs acc)
unfolding read_sessions
read_sessions-bytes m [] acc h = refl
read_sessions-bytes m (c ∷ cs) acc h =
    let x = session_of c m in
    rw (read_session-bytes c x (sessions_bytes m cs) (h c (elem_self c cs)))
      (read_sessions-bytes m cs (insert c x acc) (λ j e. h j (elem_later j c cs e)))

lookup-restored_sessions :
    (m : Map ℕ Session) (cs : List ℕ) (acc : Map ℕ Session) (j : ℕ)
    → lookup j (restored_sessions m cs acc)
      ≡ (if elem j cs then some (session_of j m) else lookup j acc)
lookup-restored_sessions m [] acc j = refl
lookup-restored_sessions m (c ∷ cs) acc j =
    lookup-restored_sessions m cs (insert c (session_of c m) acc) j
    ∙ ground (arith, lookup-insert c j (session_of c m) acc, nat_beq_iff c j)

-- What a store must satisfy for its snapshot to be read back: fewer than 2 ^ 32 keys and clients,
-- with strings and numbers that fit.
pub record FitsStore (s : Store) : Type 0 where
  pub key_count : length (keys s.entries) < 2 ^ 32
  pub client_count : length (keys s.sessions) < 2 ^ 32
  pub entries : AllFit s.entries (keys s.entries)
  pub sessions : AllFitSessions s.sessions (keys s.sessions)

snapshot-eq :
    (s : Store)
    → snapshot s
      ≡ put_u32 (length (sorted_keys s) % 2 ^ 32)
        ++ (entries_bytes s.entries (sorted_keys s)
            ++ (put_u32 (length (sorted_clients s) % 2 ^ 32)
                ++ sessions_bytes s.sessions (sorted_clients s)))
unfolding snapshot
snapshot-eq s = simp (append_sessions-eq, append_entries-eq, append_assoc)

abbrev restored_store : Store → Store
restored_store s = record {
  entries = restored s.entries (sorted_keys s) [];
  sessions = restored_sessions s.sessions (sorted_clients s) [];
}

restore_store-filled :
    (n : ℕ) (r : List ℕ) → restore_store (put_u32 n ++ r) ≡ restore_filled (put_u32 n ++ r)
unfolding restore_store put_u32
restore_store-filled n r = refl

module _ (s : Store) (h : FitsStore s) where
  all_fit : AllFit s.entries (sorted_keys s)
  unfolding sorted_keys
  all_fit k e = h.entries k (sym (elem-sort_by bytes_less k (keys s.entries)) ∙ e)

  all_fit_sessions : AllFitSessions s.sessions (sorted_clients s)
  unfolding sorted_clients
  all_fit_sessions c e = h.sessions c (sym (elem-sort_by ltb c (keys s.sessions)) ∙ e)

  key_count : length (sorted_keys s) < 2 ^ 32
  unfolding sorted_keys
  key_count = rw (length-sort_by bytes_less (keys s.entries)) h.key_count

  client_count : length (sorted_clients s) < 2 ^ 32
  unfolding sorted_clients
  client_count = rw (length-sort_by ltb (keys s.sessions)) h.client_count

  restore_store-snapshot : restore_store (snapshot s) ≡ ok (restored_store s)
  unfolding restore_filled
  restore_store-snapshot =
      let ks = sorted_keys s in
      let cs = sorted_clients s in
      let tail = put_u32 (length cs % 2 ^ 32) ++ sessions_bytes s.sessions cs in
      rw (snapshot-eq s) (
        rw (restore_store-filled (length ks % 2 ^ 32) (entries_bytes s.entries ks ++ tail)) (
          rw (read_u32-count (length ks) (entries_bytes s.entries ks ++ tail) key_count) (
            rw (read_entries-bytes s.entries ks [] tail all_fit) (
              rw (read_u32-count (length cs) (sessions_bytes s.sessions cs) client_count)
                (rw (read_sessions-bytes s.sessions cs [] all_fit_sessions) refl)))))

-- A store restored from a snapshot is the store that was taken: the same value at every key, and the
-- same session for every client, with ids, counts and lengths that fit their fields. The order of
-- the entries may differ.
pub restore_store_lem :
    (s : Store)
    → FitsStore s
    → (t : Store) × (restore_store (snapshot s) ≡ ok t)
      × ((k : List ℕ) → lookup k t.entries ≡ lookup k s.entries)
      × ((c : ℕ) → lookup c t.sessions ≡ lookup c s.sessions)
unfolding sorted_keys sorted_clients
restore_store_lem s h = (
  restored_store s,
  restore_store-snapshot s h,
  λ k.
      lookup-restored s.entries (sorted_keys s) [] k
      ∙ ground (arith, elem-sort_by bytes_less k (keys s.entries), lookup-keys s.entries k),
  λ c.
      lookup-restored_sessions s.sessions (sorted_clients s) [] c
      ∙ ground (arith, elem-sort_by ltb c (keys s.sessions), lookup-keys s.sessions c),
)
