-- ===== src/Raft/Merging.antt =====
-- What the entries of an AppendEntries message do to a follower's log (handleApp of raft/node.go).
pub mod Matching
pub mod Answers
pub mod Following
pub mod Returns
mod Examples
use raft_sim.Base.{
  ℕ, zero, suc, ◌+◌, ◌-◌, ◌^◌, ◌≤◌, ◌<◌, ◌≡◌, ◌≢◌, ◌⊎◌, refl, sym, ap, subst, ◌∙◌, arith, Bool,
  true, false, List, [], ◌∷◌, ◌++◌, Option, none, some, Outcome, ok, panic, ◌>>=◌, or_panic,
  if◌then◌else◌, ltb, leb, nat_beq, Bool-cases, inl, inr, length, take, get_elem?, length-append,
  length-take, get_elem?-append_left, get_elem?-append_right, get_elem?-none, returned,
}
use mathlib.Core.List.{append_assoc, append-nil, reverse}
use raft_sim.Raft.Types.{Entry, EntryType, Config}
use raft_sim.Raft.State.{Node, mark_appended}
use raft_sim.Raft.Conf.{decode_config, set_config, truncate_configs_from, unwind, latest}
use raft_sim.Raft.Log.{RaftLog, term, entry, append, truncate_from}
use raft_sim.Raft.Log.Terms.{Numbered, WellFormed, term-eq, last_index-eq}
use raft_sim.Raft.Log.Changes.{
  appended, append-ok, append-WellFormed, truncated, truncate_from-eq, truncated-WellFormed,
  term-truncated,
}
use raft_sim.Raft.Replication.{for_each, adopt, append_one, append_rest, cut_from, merge}

-- At the index of an entry the log has that entry, or the entry of the same term that the log of before
-- had there.
abbrev pub HoldsOne : RaftLog → RaftLog → Entry → Type 0
HoldsOne old l e =
    (entry l e.index ≡ some e)
    ⊎ ((o : Entry) × (entry old e.index ≡ some o) × (o.term ≡ e.term) × (entry l e.index ≡ some o))

abbrev pub Holds : RaftLog → RaftLog → List Entry → Type 0
Holds old l [] = Unit {0}
Holds old l (e ∷ es) = HoldsOne old l e × Holds old l es

-- Up to an index, the log has the terms and the entries that it had.
abbrev pub SameTo : RaftLog → RaftLog → ℕ → Type 0
SameTo old l k = (j : ℕ) → j ≤ k → (term l j ≡ term old j) × (entry l j ≡ entry old j)

abbrev pub top : RaftLog → ℕ
top l = l.snap_index + length l.entries

-- What a part of the handler that leaves the log alone keeps.
pub record Keeps (n n' : Node) : Type 0 where
  pub log : n'.log ≡ n.log
  pub commit_index : n'.commit_index ≡ n.commit_index
  pub out : n'.out ≡ n.out

adopt_as-Keeps :
    (t : EntryType) (e : Entry) (n n' : Node) → e.type_of ≡ t → adopt e n ≡ ok n' → Keeps n n'
unfolding adopt set_config
adopt_as-Keeps EntryType.config e n n' h r = go (decode_config e.bytes) (ground (arith, h))
  where
    go : (o : Outcome Config) → (o >>= λ cfg. ok (set_config e.index cfg n)) ≡ ok n' → Keeps n n'
    go (ok cfg) q = record { log = ground arith; commit_index = ground arith; out = ground arith }
    go panic q = cc
adopt_as-Keeps _ e n n' h r = record {
  log = ground (arith, h);
  commit_index = ground (arith, h);
  out = ground (arith, h);
}

mark_appended-Keeps : (i : ℕ) (n : Node) → Keeps n (mark_appended i n)
unfolding mark_appended
mark_appended-Keeps i n = record {
  log = ground arith;
  commit_index = ground arith;
  out = ground arith;
}

-- The log after entries were appended one by one.
pub record Appends (es : List Entry) (n n' : Node) : Type 0 where
  pub log : n'.log ≡ appended n.log es
  pub numbered : Numbered (suc (top n.log)) es
  pub commit_index : n'.commit_index ≡ n.commit_index
  pub out : n'.out ≡ n.out

pub append_one-Appends :
    (e : Entry) (n n' : Node)
    → top n.log + 2 < 2 ^ 64
    → append_one e n ≡ ok n'
    → Appends (e ∷ []) n n'
unfolding append_one
append_one-Appends e n n' room h =
    let (l, a, q) = returned (append n.log (e ∷ [])) _ n' h in
    let (p, ns) = append-ok n.log l (e ∷ []) (omega arith) a in
    let k = adopt_as-Keeps e.type_of e (record n { log = l }) n' refl q in
    record { log = k.log ∙ p; numbered = ns; commit_index = k.commit_index; out = k.out }

for_each-Appends :
    (es : List Entry) (n n' : Node)
    → top n.log + length es + 1 < 2 ^ 64
    → for_each append_one es n ≡ ok n'
    → Appends es n n'
unfolding for_each
for_each-Appends [] n n' room h = record {
  log = ground (arith, append-nil n.log.entries);
  numbered = tt;
  commit_index = ground arith;
  out = ground arith;
}
for_each-Appends (e ∷ es) n n' room h =
    let (m, a, q) = returned (append_one e n) _ n' h in
    let one = append_one-Appends e n m (omega arith) a in
    let up : top m.log ≡ suc (top n.log) =
      ap top one.log ∙ omega (arith, length-append n.log.entries (e ∷ [])) in
    let rest = for_each-Appends es m n' (omega (arith, up)) q in
    record {
      log =
          rest.log
          ∙ ap (λ (l : RaftLog). appended l es) one.log
          ∙ ap (λ (xs : List Entry). record n.log { entries = xs })
              (append_assoc n.log.entries (e ∷ []) es);
      numbered = (one.numbered.0, subst (λ i. Numbered (suc i) es) up rest.numbered);
      commit_index = rest.commit_index ∙ one.commit_index;
      out = rest.out ∙ one.out;
    }

pub append_rest-Appends :
    (e : Entry) (es : List Entry) (n n' : Node)
    → top n.log + length (e ∷ es) + 1 < 2 ^ 64
    → append_rest e es n ≡ ok n'
    → Appends (e ∷ es) n n'
unfolding append_rest
append_rest-Appends e es n n' room h =
    let (m, a, q) = returned (for_each append_one (e ∷ es) n) _ n' h in
    let all = for_each-Appends (e ∷ es) n m room a in
    let k = mark_appended-Keeps e.index m in
    let same : mark_appended e.index m ≡ n' = ground arith in
    record {
      log = ap (λ (x : Node). x.log) (sym same) ∙ k.log ∙ all.log;
      numbered = all.numbered;
      commit_index =
          ap (λ (x : Node). x.commit_index) (sym same) ∙ k.commit_index ∙ all.commit_index;
      out = ap (λ (x : Node). x.out) (sym same) ∙ k.out ∙ all.out;
    }

-- Cutting refuses an index that is committed.
pub record Cuts (i : ℕ) (n n' : Node) : Type 0 where
  pub log : n'.log ≡ truncated n.log i
  pub above : n.commit_index < i
  pub commit_index : n'.commit_index ≡ n.commit_index
  pub out : n'.out ≡ n.out

truncate_configs_from-Keeps : (i : ℕ) (n n' : Node) → truncate_configs_from i n ≡ ok n' → Keeps n n'
unfolding truncate_configs_from
truncate_configs_from-Keeps i n n' h =
    let (r, a, q) = returned (or_panic (latest (unwind i (reverse n.conf_history)))) _ n' h in
    record { log = ground arith; commit_index = ground arith; out = ground arith }

pub cut_from-Cuts :
    (i : ℕ) (n n' : Node)
    → WellFormed n.log
    → n.log.snap_index < i
    → cut_from i n ≡ ok n'
    → Cuts i n n'
unfolding cut_from
cut_from-Cuts i n n' w lt h = elim (Bool-cases (leb i n.commit_index)) [
  | inl low ↦ absurd (ground (arith, h, low))
  | inr high ↦
      let run : (truncate_from n.log i >>= λ l. truncate_configs_from i (record n { log = l }))
          ≡ ok n' =
        ground (arith, h, high) in
      let (l, a, q) = returned (truncate_from n.log i) _ n' run in
      let same : truncated n.log i ≡ l = ground (arith, a, truncate_from-eq n.log i w lt) in
      let k = truncate_configs_from-Keeps i (record n { log = l }) n' q in
      record {
        log = k.log ∙ sym same;
        above = ground arith;
        commit_index = k.commit_index;
        out = k.out;
      }
]
