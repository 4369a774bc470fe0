-- ===== src/Raft/Log/Changes.antt =====
-- The writers of raft/log.go keep its invariant, and what the readers see after each.
use raft_sim.Base.{
  ℕ, suc, ◌+◌, ◌-◌, ◌^◌, ◌≤◌, ◌<◌, ◌≡◌, ap, sym, ◌∙◌, subst, arith, List, [], ◌∷◌, ◌++◌, none, ok,
  if◌then◌else◌, ltb, length, take, drop, get_elem?, length-append, length-take, length-drop,
  get_elem?-take, get_elem?-take_ge, get_elem?-drop, take-all,
}
use mathlib.Core.List.{append-nil, append_assoc}
use raft_sim.Raft.Types.{Entry}
use raft_sim.Raft.Log.{RaftLog, last_index, term, entry, append, truncate_from, compact}
use raft_sim.Raft.Log.Terms.{
  Numbered, WellFormed, Numbered-append, Numbered-take, Numbered-drop, last_index-eq, term-eq,
  entry-eq,
}

abbrev pub appended : RaftLog → List Entry → RaftLog
appended l es = record l { entries = l.entries ++ es }

-- `append` returns, with the entries at the end, for exactly the entries that are numbered on from
-- the last index.
pub append-Numbered :
    (l : RaftLog) (es : List Entry)
    → l.snap_index + length l.entries + length es + 1 < 2 ^ 64
    → Numbered (suc (l.snap_index + length l.entries)) es
    → append l es ≡ ok (appended l es)
unfolding append
append-Numbered l [] room h =
    ap (λ (xs : List Entry). ok (record l { entries = xs })) (sym (append-nil l.entries))
append-Numbered l (e ∷ es) room h =
    let l' = appended l (e ∷ []) in
    let len = length-append l.entries (e ∷ []) in
    let rest =
      append-Numbered l' es (omega (arith, len))
        (subst (λ n. Numbered n es) (omega (arith, len)) h.1) in
    ground (arith, h.0, rest, append_assoc l.entries (e ∷ []) es)

-- Where the indexes stay below 2 ^ 64, `append` returns only for entries numbered on from the last
-- index, one by one, and what it returns is the log with those entries at the end.
pub append-ok :
    (l l' : RaftLog) (es : List Entry)
    → l.snap_index + length l.entries + length es + 1 < 2 ^ 64
    → append l es ≡ ok l'
    → (l' ≡ appended l es) × Numbered (suc (l.snap_index + length l.entries)) es
unfolding append
append-ok l l' [] room h = (ground (arith, append-nil l.entries), tt)
append-ok l l' (e ∷ es) room h =
    let len = length-append l.entries (e ∷ []) in
    let ran : append (appended l (e ∷ [])) es ≡ ok l' = ground arith in
    let rest = append-ok (appended l (e ∷ [])) l' es (omega (arith, len)) ran in
    (
      ground (arith, rest.0, append_assoc l.entries (e ∷ []) es),
      (ground arith, subst (λ n. Numbered n es) (omega (arith, len)) rest.1),
    )

-- Appending keeps the invariant.
pub append-WellFormed :
    (l l' : RaftLog) (es : List Entry)
    → WellFormed l
    → l.snap_index + length l.entries + length es + 1 < 2 ^ 64
    → append l es ≡ ok l'
    → WellFormed l'
append-WellFormed l l' es w room h =
    let (e, n) = append-ok l l' es room h in
    subst WellFormed (sym e) (record {
      numbered =
          Numbered-append (suc l.snap_index) l.entries es w.numbered
            (subst (λ k. Numbered k es) (omega arith) n);
      fits = omega (arith, length-append l.entries es);
    })

abbrev pub truncated : RaftLog → ℕ → RaftLog
truncated l i = record l { entries = take (i - l.snap_index - 1) l.entries }

module _ (l : RaftLog) (i : ℕ) (w : WellFormed l) where
  pub truncate_from-eq : l.snap_index < i → truncate_from l i ≡ ok (truncated l i)
  unfolding truncate_from
  truncate_from-eq h = ground (arith, last_index-eq l w, take-all (i - l.snap_index - 1) l.entries)

  pub truncated-WellFormed : WellFormed (truncated l i)
  truncated-WellFormed = record {
    numbered = Numbered-take (i - l.snap_index - 1) (suc l.snap_index) l.entries w.numbered;
    fits = omega (arith, w.fits, length-take (i - l.snap_index - 1) l.entries);
  }

  pub term-truncated :
      (j : ℕ) → l.snap_index < i → term (truncated l i) j ≡ (if ltb j i then term l j else none)
  term-truncated j h = ground (
    arith,
    term-eq l w j,
    term-eq (truncated l i) truncated-WellFormed j,
    get_elem?-take (i - l.snap_index - 1) l.entries (j - l.snap_index - 1),
    get_elem?-take_ge (i - l.snap_index - 1) l.entries (j - l.snap_index - 1),
  )

  pub entry-truncated :
      (j : ℕ) → l.snap_index < i → entry (truncated l i) j ≡ (if ltb j i then entry l j else none)
  entry-truncated j h = ground (
    arith,
    entry-eq l w j,
    entry-eq (truncated l i) truncated-WellFormed j,
    get_elem?-take (i - l.snap_index - 1) l.entries (j - l.snap_index - 1),
    get_elem?-take_ge (i - l.snap_index - 1) l.entries (j - l.snap_index - 1),
  )

-- Truncating from an index above the snapshot does not panic, keeps the invariant, and removes the
-- terms from that index on and no others.
pub truncate_from_lem :
    (l : RaftLog) (i : ℕ)
    → WellFormed l
    → l.snap_index < i
    → (l' : RaftLog) × (truncate_from l i ≡ ok l')
      × WellFormed l'
      × ((j : ℕ) → term l' j ≡ (if ltb j i then term l j else none))
truncate_from_lem l i w h = (
  truncated l i,
  truncate_from-eq l i w h,
  truncated-WellFormed l i w,
  λ j. term-truncated l i w j h,
)

abbrev pub compacted : RaftLog → ℕ → ℕ → RaftLog
compacted l i t = record {
  snap_index = i;
  snap_term = t;
  entries = drop (i - l.snap_index) l.entries;
}

module _ (l : RaftLog) (i t : ℕ) (w : WellFormed l) (h : l.snap_index < i)
    (le : i ≤ last_index l) where
  pub compact-eq : compact l i t ≡ ok (compacted l i t)
  unfolding compact
  compact-eq = ground arith

  pub compacted-WellFormed : WellFormed (compacted l i t)
  compacted-WellFormed = record {
    numbered =
        subst (λ n. Numbered n (drop (i - l.snap_index) l.entries)) (omega arith)
          (Numbered-drop (i - l.snap_index) (suc l.snap_index) l.entries w.numbered);
    fits = omega (arith, w.fits, last_index-eq l w, length-drop (i - l.snap_index) l.entries);
  }

  pub last_index-compacted : last_index (compacted l i t) ≡ last_index l
  last_index-compacted = omega (
    arith,
    last_index-eq l w,
    last_index-eq (compacted l i t) compacted-WellFormed,
    length-drop (i - l.snap_index) l.entries,
  )

  get_elem?-compacted :
      (j : ℕ)
      → i < j
      → get_elem? (drop (i - l.snap_index) l.entries) (j - i - 1)
        ≡ get_elem? l.entries (j - l.snap_index - 1)
  get_elem?-compacted j lt =
      get_elem?-drop (i - l.snap_index) l.entries (j - i - 1)
      ∙ ap (get_elem? l.entries) (omega arith)

  pub term-compacted : (j : ℕ) → i < j → term (compacted l i t) j ≡ term l j
  term-compacted j lt = ground (
    arith,
    term-eq l w j,
    term-eq (compacted l i t) compacted-WellFormed j,
    get_elem?-compacted j lt,
  )

  pub entry-compacted : (j : ℕ) → i < j → entry (compacted l i t) j ≡ entry l j
  entry-compacted j lt = ground (
    arith,
    entry-eq l w j,
    entry-eq (compacted l i t) compacted-WellFormed j,
    get_elem?-compacted j lt,
  )

-- Compacting up to an index that the log holds does not panic, keeps the invariant and the last
-- index, and changes neither the terms nor the entries behind the new snapshot point.
pub compact_lem :
    (l : RaftLog) (i t : ℕ)
    → WellFormed l
    → l.snap_index < i
    → i ≤ last_index l
    → (l' : RaftLog) × (compact l i t ≡ ok l')
      × WellFormed l'
      × (last_index l' ≡ last_index l)
      × ((j : ℕ) → i < j → (term l' j ≡ term l j) × (entry l' j ≡ entry l j))
compact_lem l i t w h le = (
  compacted l i t,
  compact-eq l i t w h le,
  compacted-WellFormed l i t w h le,
  last_index-compacted l i t w h le,
  λ j lt. (term-compacted l i t w h le j lt, entry-compacted l i t w h le j lt),
)
