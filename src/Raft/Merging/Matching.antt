-- ===== src/Raft/Merging/Matching.antt =====
-- The log of a follower after AppendEntries agrees with the message (handleApp of raft/node.go).
use raft_sim.Base.{
  ℕ, suc, ◌+◌, ◌-◌, ◌^◌, ◌≤◌, ◌<◌, ◌≡◌, refl, sym, ap, subst, ◌∙◌, arith, List, [], ◌∷◌, ◌++◌,
  Option, none, some, ok, ◌>>=◌, if◌then◌else◌, leb, nat_beq, Bool-cases, inl, inr, length,
  get_elem?, get_elem?-some, length-append, length-take, get_elem?-append_left,
  get_elem?-append_right, get_elem?-none, returned,
}
use mathlib.Core.List.{append_assoc}
use raft_sim.Raft.Types.{Entry}
use raft_sim.Raft.State.{Node}
use raft_sim.Raft.Log.{RaftLog, term, entry}
use raft_sim.Raft.Log.Terms.{Numbered, Numbered-append, WellFormed, term-eq, entry-eq}
use raft_sim.Raft.Log.Changes.{
  appended, truncated, truncated-WellFormed, term-truncated, entry-truncated,
}
use raft_sim.Raft.Replication.{append_rest, cut_from, merge}
use raft_sim.Raft.Merging.{
  HoldsOne, Holds, SameTo, top, Appends, append_rest-Appends, cut_from-Cuts,
}

module _ (l : RaftLog) (es : List Entry) (w : WellFormed l) (num : Numbered (suc (top l)) es)
    (room : top l + length es + 1 < 2 ^ 64) where
  appended-WellFormed : WellFormed (appended l es)
  appended-WellFormed = record {
    numbered =
        Numbered-append (suc l.snap_index) l.entries es w.numbered
          (subst (λ i. Numbered i es) (omega arith) num);
    fits = omega (arith, length-append l.entries es);
  }

  SameTo-appended : SameTo l (appended l es) (top l)
  SameTo-appended j le = (
    ground (
      arith,
      term-eq l w j,
      term-eq (appended l es) appended-WellFormed j,
      get_elem?-append_left l.entries es (j - l.snap_index - 1),
    ),
    ground (
      arith,
      entry-eq l w j,
      entry-eq (appended l es) appended-WellFormed j,
      get_elem?-append_left l.entries es (j - l.snap_index - 1),
    ),
  )

entry-appended :
    (l : RaftLog) (e : Entry) (es : List Entry)
    → WellFormed (appended l (e ∷ es))
    → entry (appended l (e ∷ es)) (suc (top l)) ≡ some e
entry-appended l e es w =
    let found : get_elem? (l.entries ++ e ∷ es) (suc (top l) - l.snap_index - 1) ≡ some e =
      ap (get_elem? (l.entries ++ e ∷ es)) (omega arith)
      ∙ get_elem?-append_right l.entries (e ∷ es) 0 in
    ground (arith, entry-eq (appended l (e ∷ es)) w (suc (top l)), found)

Holds-appended :
    (old l : RaftLog) (es : List Entry)
    → WellFormed l
    → top l + length es + 1 < 2 ^ 64
    → Numbered (suc (top l)) es
    → Holds old (appended l es) es
Holds-appended old l [] w room num = tt
Holds-appended old l (e ∷ es) w room num =
    let l' = appended l (e ∷ []) in
    let w' = appended-WellFormed l (e ∷ []) w (num.0, tt) (omega arith) in
    let up : top l' ≡ suc (top l) = omega (arith, length-append l.entries (e ∷ [])) in
    let joined : appended l' es ≡ appended l (e ∷ es) =
      ap (λ (xs : List Entry). record l { entries = xs }) (append_assoc l.entries (e ∷ []) es) in
    (
      inl (
          ap (entry (appended l (e ∷ es))) num.0
          ∙ entry-appended l e es (appended-WellFormed l (e ∷ es) w num room)),
      subst (λ (x : RaftLog). Holds old x es) joined
          (Holds-appended old l' es w' (omega (arith, up))
            (subst (λ i. Numbered (suc i) es) (sym up) num.1)),
    )

-- The log of before may have more.
Holds-from :
    (cut old l : RaftLog) (es : List Entry)
    → ((i : ℕ) (o : Entry) → entry cut i ≡ some o → entry old i ≡ some o)
    → Holds cut l es
    → Holds old l es
Holds-from cut old l [] f h = tt
Holds-from cut old l (e ∷ es) f h = (one h.0, Holds-from cut old l es f h.1)
  where
    one : HoldsOne cut l e → HoldsOne old l e
    one (inl here) = inl here
    one (inr (o, was, same, here)) = inr (o, f e.index o was, same, here)

-- What merging the entries behind index p makes of the log of a node.
pub record Merged (p : ℕ) (es : List Entry) (n : Node) (l : RaftLog) : Type 0 where
  pub well_formed : WellFormed l
  pub snap_index : l.snap_index ≡ n.log.snap_index
  pub reaches : p + length es ≤ top l
  pub holds : Holds n.log l es
  pub keeps : SameTo n.log l p
  pub committed :
      (j : ℕ)
      → j ≤ n.commit_index
      → j ≤ top n.log
      → (term l j ≡ term n.log j) × (entry l j ≡ entry n.log j)

abbrev pub Merges : ℕ → List Entry → Node → Node → Type 0
Merges p es n n' = Merged p es n n'.log × (n'.commit_index ≡ n.commit_index) × (n'.out ≡ n.out)

Merges-Appends :
    (es : List Entry) (n n' : Node)
    → WellFormed n.log
    → top n.log + length es + 1 < 2 ^ 64
    → Appends es n n'
    → Merges (top n.log) es n n'
Merges-Appends es n n' w room a =
    let old = SameTo-appended n.log es w a.numbered room in
    let all : Merged (top n.log) es n (appended n.log es) = record {
      well_formed = appended-WellFormed n.log es w a.numbered room;
      snap_index = refl;
      reaches = omega (arith, length-append n.log.entries es);
      holds = Holds-appended n.log n.log es w room a.numbered;
      keeps = old;
      committed = λ j c le. old j le;
    } in
    (subst (Merged (top n.log) es n) (sym a.log) all, a.commit_index, a.out)

-- From the snapshot point on, only the indexes above the last one have no term.
pub term_none :
    (l : RaftLog) (i : ℕ) → WellFormed l → term l i ≡ none → l.snap_index ≤ i → top l < i
term_none l i w out lo =
    let found = get_elem?-some l.entries (i - l.snap_index - 1) in
    elim (Bool-cases (leb i (top l))) [
      | inl in_ ↦ absurd (elim (Bool-cases (nat_beq i l.snap_index)) [
        | inl same ↦ ground (arith, term-eq l w i)
        | inr other ↦ ground (arith, term-eq l w i, (found (ground arith)).1)
      ])
      | inr above ↦ ground arith
    ]

-- An index behind the snapshot that has a term has an entry of that term.
entry_of_term :
    (l : RaftLog) (i t : ℕ)
    → WellFormed l
    → l.snap_index < i
    → term l i ≡ some t
    → (o : Entry) × (entry l i ≡ some o) × (o.term ≡ t)
entry_of_term l i t w lo h = go (get_elem? l.entries (i - l.snap_index - 1)) refl
  where
    go :
        (found : Option Entry)
        → get_elem? l.entries (i - l.snap_index - 1) ≡ found
        → (o : Entry) × (entry l i ≡ some o) × (o.term ≡ t)
    go none q = absurd (ground (arith, term-eq l w i, h, q))
    go (some o) q = (o, ground (arith, entry-eq l w i, q), ground (arith, term-eq l w i, h, q))

-- The first entry that is new stands behind the last one of the log.
merge_new :
    (p : ℕ) (e : Entry) (es : List Entry) (n n' : Node)
    → WellFormed n.log
    → n.log.snap_index ≤ p
    → p ≤ top n.log
    → p + length (e ∷ es) + 1 < 2 ^ 64
    → e.index ≡ suc p
    → term n.log e.index ≡ none
    → append_rest e es n ≡ ok n'
    → Merges p (e ∷ es) n n'
merge_new p e es n n' w lo hi room i out h =
    let above_top = term_none n.log e.index w out (omega (arith, i)) in
    let at_top : top n.log ≡ p = omega (arith, above_top, i) in
    subst (λ q. Merges q (e ∷ es) n n') at_top
      (Merges-Appends (e ∷ es) n n' w (omega (arith, at_top))
        (append_rest-Appends e es n n' (omega (arith, at_top)) h))

-- Where the log has another entry, it is cut first.
merge_other :
    (p : ℕ) (e : Entry) (es : List Entry) (n n' : Node)
    → WellFormed n.log
    → n.log.snap_index ≤ p
    → suc p ≤ top n.log
    → p + length (e ∷ es) + 1 < 2 ^ 64
    → e.index ≡ suc p
    → (cut_from e.index n >>= append_rest e es) ≡ ok n'
    → Merges p (e ∷ es) n n'
merge_other p e es n n' w lo hi room i h =
    let (m, a, q) = returned (cut_from e.index n) (append_rest e es) n' h in
    let c = cut_from-Cuts e.index n m w (omega (arith, i)) a in
    let cut = truncated n.log e.index in
    let w' = subst WellFormed (sym c.log) (truncated-WellFormed n.log e.index w) in
    let at_p : top m.log ≡ p =
      ap top c.log ∙ omega (arith, i, length-take (e.index - n.log.snap_index - 1) n.log.entries) in
    let all =
      subst (λ k. Merges k (e ∷ es) m n') at_p
        (Merges-Appends (e ∷ es) m n' w' (omega (arith, at_p))
          (append_rest-Appends e es m n' (omega (arith, at_p)) q)) in
    let back : (j : ℕ)
        → j < e.index
        → (term m.log j ≡ term n.log j) × (entry m.log j ≡ entry n.log j) =
      λ j lt. (
        ap (λ (l : RaftLog). term l j) c.log
            ∙ ground (arith, term-truncated n.log e.index w j (omega (arith, i)), lt),
        ap (λ (l : RaftLog). entry l j) c.log
            ∙ ground (arith, entry-truncated n.log e.index w j (omega (arith, i)), lt),
      ) in
    let was : (j : ℕ) (o : Entry) → entry m.log j ≡ some o → entry n.log j ≡ some o = λ j o q.
      let shown : entry cut j ≡ some o = ap (λ (l : RaftLog). entry l j) (sym c.log) ∙ q in
      ground (arith, entry-truncated n.log e.index w j (omega (arith, i)), shown) in
    (
      record {
        well_formed = all.0.well_formed;
        snap_index = all.0.snap_index ∙ ap (λ (l : RaftLog). l.snap_index) c.log;
        reaches = all.0.reaches;
        holds = Holds-from m.log n.log n'.log (e ∷ es) was all.0.holds;
        keeps = λ j le.
            let h = all.0.keeps j le in let b = back j (omega (arith, i)) in (h.0 ∙ b.0, h.1 ∙ b.1);
        committed = λ j le in_.
            let h = all.0.keeps j (omega (arith, c.above, i)) in
            let b = back j (omega (arith, c.above)) in (h.0 ∙ b.0, h.1 ∙ b.1);
      },
      all.1 ∙ c.commit_index,
      all.2 ∙ c.out,
    )

-- Where the log has the entry, the rest is merged behind it.
merge_same :
    (p : ℕ) (e : Entry) (es : List Entry) (n n' : Node)
    → WellFormed n.log
    → n.log.snap_index ≤ p
    → e.index ≡ suc p
    → term n.log e.index ≡ some e.term
    → Merges (suc p) es n n'
    → Merges p (e ∷ es) n n'
merge_same p e es n n' w lo i same rest = (
  record {
    well_formed = rest.0.well_formed;
    snap_index = rest.0.snap_index;
    reaches = omega (arith, rest.0.reaches);
    holds =
        let (o, was, t) = entry_of_term n.log e.index e.term w (omega (arith, i)) same in
        (inr (o, was, t, (rest.0.keeps e.index (omega (arith, i))).1 ∙ was), rest.0.holds);
    keeps = λ j le. rest.0.keeps j (omega arith);
    committed = rest.0.committed;
  },
  rest.1,
  rest.2,
)

pub term_top : (l : RaftLog) (i t : ℕ) → WellFormed l → term l i ≡ some t → i ≤ top l
term_top l i t w h = ground (arith, term-eq l w i, get_elem?-none l.entries (i - l.snap_index - 1))

-- Where merging the entries that follow index p returns, for a well-formed log with that index and
-- entries that are numbered on from it below 2 ^ 64: the log keeps its invariant and its snapshot and
-- reaches the last entry; at the index of each entry of the message it has that entry or, where it had
-- an entry of the same term there, the one that it had; the terms and the entries up to p, and those of
-- the log up to the commit index, are what they were; the commit index and the output stay.
pub merge_lem :
    (p : ℕ) (es : List Entry) (n n' : Node)
    → WellFormed n.log
    → n.log.snap_index ≤ p
    → p ≤ top n.log
    → p + length es + 1 < 2 ^ 64
    → Numbered (suc p) es
    → merge es n ≡ ok n'
    → Merges p es n n'
unfolding merge
merge_lem p [] n n' w lo hi room num h =
    let same : n ≡ n' = ground arith in
    subst (λ m. Merges p [] n m) same
      (
        record {
          well_formed = w;
          snap_index = refl;
          reaches = omega arith;
          holds = tt;
          keeps = λ j le. (refl, refl);
          committed = λ j c le. (refl, refl);
        },
        refl,
        refl,
      )
merge_lem p (e ∷ es) n n' w lo hi room num h =
    go (term n.log e.index) refl h
      (λ up r. merge_lem (suc p) es n n' w (omega arith) up (omega arith) num.1 r)
  where
    go :
        (o : Option ℕ)
        → term n.log e.index ≡ o
        → elim o [
          | none ↦ append_rest e es n
          | some t ↦
              if nat_beq t e.term then merge es n else cut_from e.index n >>= append_rest e es
        ]
          ≡ ok n'
        → (suc p ≤ top n.log → merge es n ≡ ok n' → Merges (suc p) es n n')
        → Merges p (e ∷ es) n n'
    go none o r rest = merge_new p e es n n' w lo hi room num.0 o r
    go (some t) o r rest =
        let up : suc p ≤ top n.log = omega (arith, num.0, term_top n.log e.index t w o) in
        elim (Bool-cases (nat_beq t e.term)) [
          | inl yes_ ↦
              merge_same p e es n n' w lo num.0 (ground (arith, o, yes_))
                (rest up (ground (arith, r, yes_)))
          | inr no_ ↦ merge_other p e es n n' w lo up room num.0 (ground (arith, r, no_))
        ]
