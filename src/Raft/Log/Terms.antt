-- ===== src/Raft/Log/Terms.antt =====
-- The invariant of raft/log.go and what its readers return under it.
use raft_sim.Base.{
  ℕ, zero, suc, ◌+◌, ◌-◌, ◌^◌, ◌≤◌, ◌<◌, ◌≡◌, ap, subst, ◌⊎◌, ◌&&◌, get_elem?-take_ge, arith, List,
  [], ◌∷◌, ◌++◌, none, some, if◌then◌else◌, ltb, leb, add64, nat_beq, length, take, drop, get_elem?,
  get_elem?-take, get_elem?-drop, get_elem?-some, get_elem?-none,
}
use raft_sim.Raft.Types.{Entry}
use raft_sim.Raft.Log.{RaftLog, first_index, last_index, entry_term, term, entry, slice}

-- The indexes of the entries count up from i.
abbrev pub Numbered : ℕ → List Entry → Type 0
Numbered i [] = Unit {0}
Numbered i (e ∷ es) = (e.index ≡ i) × Numbered (suc i) es

-- `entries[i].index` is `snap_index + 1 + i`, and the next index is still a uint64.
pub record WellFormed (l : RaftLog) : Type 0 where
  pub numbered : Numbered (suc l.snap_index) l.entries
  pub fits : l.snap_index + length l.entries + 1 < 2 ^ 64

pub Numbered-append :
    (i : ℕ) (xs ys : List Entry)
    → Numbered i xs
    → Numbered (i + length xs) ys
    → Numbered i (xs ++ ys)
Numbered-append i [] ys h k = subst (λ n. Numbered n ys) (omega arith) k
Numbered-append i (x ∷ xs) ys h k =
    (h.0, Numbered-append (suc i) xs ys h.1 (subst (λ n. Numbered n ys) (omega arith) k))

pub Numbered-take : (n i : ℕ) (xs : List Entry) → Numbered i xs → Numbered i (take n xs)
Numbered-take zero i xs h = tt
Numbered-take (suc n) i [] h = tt
Numbered-take (suc n) i (x ∷ xs) h = (h.0, Numbered-take n (suc i) xs h.1)

pub Numbered-drop : (n i : ℕ) (xs : List Entry) → Numbered i xs → Numbered (i + n) (drop n xs)
Numbered-drop zero i xs h = subst (λ k. Numbered k xs) (omega arith) h
Numbered-drop (suc n) i [] h = tt
Numbered-drop (suc n) i (x ∷ xs) h =
    subst (λ k. Numbered k (drop n xs)) (omega arith) (Numbered-drop n (suc i) xs h.1)

pub Numbered-get :
    (i k : ℕ) (xs : List Entry) (e : Entry)
    → Numbered i xs
    → get_elem? xs k ≡ some e
    → e.index ≡ i + k
Numbered-get i k [] e h g = cc
Numbered-get i zero (x ∷ xs) e h g = ground (arith, h.0)
Numbered-get i (suc k) (x ∷ xs) e h g = omega (arith, Numbered-get (suc i) k xs e h.1 g)

module _ (l : RaftLog) (w : WellFormed l) where
  pub first_index-eq : first_index l ≡ l.snap_index + 1
  unfolding first_index
  first_index-eq = omega (arith, w.fits)

  pub last_index-eq : last_index l ≡ l.snap_index + length l.entries
  unfolding last_index
  last_index-eq = omega (arith, w.fits)

  -- The reader of terms answers from the snapshot point to the last index, and nowhere else.
  pub term-eq :
      (i : ℕ)
      → term l i ≡ (
          if nat_beq i l.snap_index
          then some l.snap_term
          else if ltb i l.snap_index
          then none
          else entry_term (get_elem? l.entries (i - l.snap_index - 1)))
  unfolding term
  term-eq i = ground (arith, last_index-eq, get_elem?-none l.entries (i - l.snap_index - 1))

  pub entry-eq :
      (i : ℕ)
      → entry l i
        ≡ (if ltb l.snap_index i then get_elem? l.entries (i - l.snap_index - 1) else none)
  unfolding entry
  entry-eq i =
      ground (arith, first_index-eq, last_index-eq, get_elem?-none l.entries (i - l.snap_index - 1))

-- Under the invariant, `entry` finds at each index from the first to the last an entry, whose index
-- is the one asked for and whose term is the one that `term` returns.
pub entry_lem :
    (l : RaftLog) (i : ℕ)
    → WellFormed l
    → first_index l ≤ i
    → i ≤ last_index l
    → (e : Entry) × (entry l i ≡ some e) × (e.index ≡ i) × (term l i ≡ some e.term)
entry_lem l i w lo hi =
    let k = i - l.snap_index - 1 in
    let found = get_elem?-some l.entries k (omega (arith, first_index-eq l w, last_index-eq l w)) in
    (
      found.0,
      ground (arith, entry-eq l w i, first_index-eq l w, found.1),
      omega (
        arith,
        Numbered-get (suc l.snap_index) k l.entries found.0 w.numbered found.1,
        first_index-eq l w,
      ),
      ground (arith, term-eq l w i, first_index-eq l w, found.1),
    )

-- Outside the indexes from first to last there is no entry.
pub entry_out :
    (l : RaftLog) (i : ℕ)
    → WellFormed l
    → (i < first_index l) ⊎ (last_index l < i)
    → entry l i ≡ none
unfolding entry
entry_out l i w h = ground arith

-- Under the invariant, a slice without a limit has at place k the entry of index lo + k, if lo is not
-- below the first index and lo + k is in the asked range and in the log, and else nothing.
pub slice_lem :
    (l : RaftLog) (lo hi k : ℕ)
    → WellFormed l
    → get_elem? (slice l lo hi 0) k
      ≡ (if leb (first_index l) lo && ltb (lo + k) hi then entry l (lo + k) else none)
unfolding slice
slice_lem l lo hi k w =
    let m = lo - l.snap_index - 1 in
    let n = (if ltb (add64 (last_index l) 1) hi then add64 (last_index l) 1 else hi) - lo in
    ground (
      arith,
      w.fits,
      entry-eq l w (lo + k),
      get_elem?-take_ge n (drop m l.entries) k,
      get_elem?-take n (drop m l.entries) k,
      get_elem?-drop m l.entries k,
      get_elem?-none l.entries (m + k),
      ap (get_elem? l.entries) {x = m + k} {y = lo + k - l.snap_index - 1},
    )
