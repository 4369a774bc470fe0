-- ===== src/Raft/Merging/Returns.antt =====
-- When the handler of AppendEntries in raft/node.go returns.
use raft_sim.Base.{
  ℕ, suc, ◌+◌, ◌-◌, ◌^◌, ◌≤◌, ◌<◌, ◌≡◌, ◌≢◌, ◌⊎◌, refl, sym, ap, subst, ◌∙◌, arith, false, List, [],
  ◌∷◌, Option, none, some, Outcome, ok, ◌>>=◌, if◌then◌else◌, leb, nat_beq, Bool-cases, inl, inr,
  length, length-append, length-take,
}
use mathlib.Core.List.{reverse, reverse-reverse}
use raft_sim.Raft.Types.{Entry, EntryType, Config}
use raft_sim.Raft.State.{Node, ConfRecord, mark_appended}
use raft_sim.Raft.Conf.{decode_config, set_config, truncate_configs_from, unwind, latest}
use raft_sim.Raft.Log.{term}
use raft_sim.Raft.Log.Terms.{Numbered, WellFormed}
use raft_sim.Raft.Log.Changes.{appended, append-Numbered, truncated, truncate_from-eq}
use raft_sim.Raft.Replication.{for_each, adopt, append_one, append_rest, cut_from, merge}
use raft_sim.Raft.Merging.{top, append_one-Appends, cut_from-Cuts}
use raft_sim.Raft.Merging.Matching.{term_top, term_none}

abbrev pub Returns : Outcome Node → Type 0
Returns m = (n : Node) × (m ≡ ok n)

-- The bytes of a configuration entry are those of a configuration.
abbrev pub Readable : Entry → Type 0
Readable e = (e.type_of ≢ EntryType.config) ⊎ ((c : Config) × (decode_config e.bytes ≡ ok c))

adopt_as-Returns :
    (t : EntryType) (e : Entry) (n : Node) → e.type_of ≡ t → Readable e → Returns (adopt e n)
unfolding adopt
adopt_as-Returns EntryType.config e n h (inl no_) = absurd (no_ h)
adopt_as-Returns EntryType.config e n h (inr (c, r)) =
    (set_config e.index c n, ground (arith, h, r))
adopt_as-Returns _ e n h r = (n, ground (arith, h))

append_one-Returns :
    (e : Entry) (n : Node)
    → e.index ≡ suc (top n.log)
    → top n.log + 2 < 2 ^ 64
    → Readable e
    → Returns (append_one e n)
unfolding append_one
append_one-Returns e n i room r =
    let run = append-Numbered n.log (e ∷ []) (omega arith) (i, tt) in
    let (n', a) =
      adopt_as-Returns e.type_of e (record n { log = appended n.log (e ∷ []) }) refl r in
    (n', rw run a)

-- Every entry is readable.
abbrev pub AllReadable : List Entry → Type 0
AllReadable [] = Unit {0}
AllReadable (e ∷ es) = Readable e × AllReadable es

for_each-Returns :
    (es : List Entry) (n : Node)
    → Numbered (suc (top n.log)) es
    → top n.log + length es + 1 < 2 ^ 64
    → AllReadable es
    → Returns (for_each append_one es n)
unfolding for_each
for_each-Returns [] n num room r = (n, refl)
for_each-Returns (e ∷ es) n num room r =
    let (m, a) = append_one-Returns e n num.0 (omega arith) r.0 in
    let one = append_one-Appends e n m (omega arith) a in
    let up : top m.log ≡ suc (top n.log) =
      ap top one.log ∙ omega (arith, length-append n.log.entries (e ∷ [])) in
    let (n', b) =
      for_each-Returns es m (subst (λ i. Numbered (suc i) es) (sym up) num.1) (omega (arith, up))
        r.1 in
    (n', rw a b)

append_rest-Returns :
    (e : Entry) (es : List Entry) (n : Node)
    → Numbered (suc (top n.log)) (e ∷ es)
    → top n.log + length (e ∷ es) + 1 < 2 ^ 64
    → AllReadable (e ∷ es)
    → Returns (append_rest e es n)
unfolding append_rest
append_rest-Returns e es n num room r =
    let (m, a) = for_each-Returns (e ∷ es) n num room r in (mark_appended e.index m, rw a refl)

latest-unwind_cons :
    (i : ℕ) (r : ConfRecord) (rs : List ConfRecord)
    → (s : ConfRecord) × (latest (unwind i (r ∷ rs)) ≡ some s)
unfolding unwind
latest-unwind_cons i r [] = (r, refl)
latest-unwind_cons i r (s ∷ rs) = elim (Bool-cases (leb i r.index)) [
  | inl gone ↦ let (t, e) = latest-unwind_cons i s rs in (t, ground (arith, gone, e))
  | inr stays ↦ (r, ground (arith, stays))
]

latest-unwind :
    (i : ℕ) (rs : List ConfRecord) → rs ≢ [] → (s : ConfRecord) × (latest (unwind i rs) ≡ some s)
latest-unwind i [] h = absurd (h refl)
latest-unwind i (r ∷ rs) h = latest-unwind_cons i r rs

cut_from-Returns :
    (i : ℕ) (n : Node)
    → WellFormed n.log
    → n.log.snap_index < i
    → n.commit_index < i
    → reverse n.conf_history ≢ []
    → Returns (cut_from i n)
unfolding cut_from truncate_configs_from
cut_from-Returns i n w lo above h =
    let (s, e) = latest-unwind i (reverse n.conf_history) h in
    let cut = truncate_from-eq n.log i w lo in
    let open_ : leb i n.commit_index ≡ false = ground arith in
    (
      record n {
        log = truncated n.log i;
        conf_history = reverse (unwind i (reverse n.conf_history));
        config = s.cfg;
        config_index = s.index;
      },
      rw (open_, cut, e) refl,
    )

history_reversed : (rs : List ConfRecord) → rs ≢ [] → reverse rs ≢ []
history_reversed rs h e = h (sym (reverse-reverse rs) ∙ ap reverse e)

-- The message does not contradict what is committed: each entry is readable, and it is above the
-- commit index or the log has its term at its index.
abbrev pub Agrees : Node → List Entry → Type 0
Agrees n [] = Unit {0}
Agrees n (e ∷ es) =
    (Readable e × ((n.commit_index < e.index) ⊎ (term n.log e.index ≡ some e.term))) × Agrees n es

Agrees-AllReadable : (n : Node) (es : List Entry) → Agrees n es → AllReadable es
Agrees-AllReadable n [] a = tt
Agrees-AllReadable n (e ∷ es) a = (a.0.0, Agrees-AllReadable n es a.1)

cut_and_append :
    (p : ℕ) (e : Entry) (es : List Entry) (n : Node)
    → WellFormed n.log
    → n.log.snap_index ≤ p
    → suc p ≤ top n.log
    → p + length (e ∷ es) + 1 < 2 ^ 64
    → Numbered (suc p) (e ∷ es)
    → n.conf_history ≢ []
    → n.commit_index < e.index
    → AllReadable (e ∷ es)
    → Returns (cut_from e.index n >>= append_rest e es)
cut_and_append p e es n w lo hi room num h above r =
    let (m, a) =
      cut_from-Returns e.index n w (omega (arith, num.0)) above
        (history_reversed n.conf_history h) in
    let c = cut_from-Cuts e.index n m w (omega (arith, num.0)) a in
    let at_p : top m.log ≡ p =
      ap top c.log
      ∙ omega (arith, num.0, length-take (e.index - n.log.snap_index - 1) n.log.entries) in
    let (n', b) =
      append_rest-Returns e es m (subst (λ i. Numbered (suc i) (e ∷ es)) (sym at_p) num)
        (omega (arith, at_p)) r in
    (n', rw a b)

-- Merging returns where the message does not contradict what is committed: for a well-formed log with
-- the previous index, a history of configurations that is not empty, entries that are numbered on
-- below 2 ^ 64, with readable configurations, each above the commit index or with its term in the log.
pub merge_returns :
    (p : ℕ) (es : List Entry) (n : Node)
    → WellFormed n.log
    → n.log.snap_index ≤ p
    → p ≤ top n.log
    → p + length es + 1 < 2 ^ 64
    → Numbered (suc p) es
    → n.conf_history ≢ []
    → Agrees n es
    → (n' : Node) × (merge es n ≡ ok n')
unfolding merge
merge_returns p [] n w lo hi room num h a = (n, refl)
merge_returns p (e ∷ es) n w lo hi room num h a =
    go (term n.log e.index) refl
      (λ up. merge_returns (suc p) es n w (omega arith) up (omega arith) num.1 h a.1)
  where
    all : AllReadable (e ∷ es)
    all = Agrees-AllReadable n (e ∷ es) a

    other :
        (t : ℕ) → term n.log e.index ≡ some t → nat_beq t e.term ≡ false → n.commit_index < e.index
    other t o ne = ground (arith, o, ne, a.0.1)

    go :
        (o : Option ℕ)
        → term n.log e.index ≡ o
        → (suc p ≤ top n.log → Returns (merge es n))
        → Returns (elim o [
          | none ↦ append_rest e es n
          | some t ↦
              if nat_beq t e.term then merge es n else cut_from e.index n >>= append_rest e es
        ])
    go none o rest =
        let at_top : top n.log ≡ p =
          omega (arith, num.0, term_none n.log e.index w o (omega (arith, num.0))) in
        append_rest-Returns e es n (subst (λ i. Numbered (suc i) (e ∷ es)) (sym at_top) num)
          (omega (arith, at_top)) all
    go (some t) o rest =
        let up : suc p ≤ top n.log = omega (arith, num.0, term_top n.log e.index t w o) in
        elim (Bool-cases (nat_beq t e.term)) [
          | inl yes_ ↦ let (n', r) = rest up in (n', ground (arith, yes_, r))
          | inr no_ ↦
              let (n', r) = cut_and_append p e es n w lo up room num h (other t o no_) all in
              (n', ground (arith, no_, r))
        ]
