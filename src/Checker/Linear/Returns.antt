-- ===== src/Checker/Linear/Returns.antt =====
-- The search of checker/linear.go is never deeper than operations are left, and it meets its limit on
-- states only on histories that are long enough.
use raft_sim.Base.{
  ℕ, zero, suc, ◌+◌, ◌-◌, ◌*◌, ◌≤◌, ◌≡◌, refl, ap, ◌∙◌, subst, arith, Bool, true, false, not, ◌&&◌,
  List, [], ◌∷◌, some, Outcome, ok, get_elem?, drop, length, set, all, ltb, nat_beq, Bool-cases,
  inl, inr, elem, bytes_eq,
}
use raft_sim.Checker.Linear.{
  LinKind, LinOp, RegState, Memo, Search, apply_kind, apply_op, output_matches, min_response,
  max_int64, count_complete, try_op, try_ops, dfs, memo_key,
}
use raft_sim.Checker.Linear.Steps.{
  pending, length-pending-set, count_complete-pending-set, left_after, drop-uncons,
}

abbrev pub is_known_kind : LinKind → Bool
is_known_kind (LinKind.other n) = false
is_known_kind _ = true

abbrev pub is_known : LinOp → Bool
is_known o = is_known_kind o.kind

apply_kind-returns :
    (k : LinKind) (st : RegState) (o : LinOp)
    → is_known_kind k ≡ true
    → (r : RegState × List ℕ × Bool) × (apply_kind k st o ≡ ok r)
unfolding apply_kind
apply_kind-returns LinKind.get st o h = (_, refl)
apply_kind-returns LinKind.put st o h = (_, refl)
apply_kind-returns LinKind.cas st o h =
    elim (Bool-cases (st.present && bytes_eq.same st.value o.arg1)) [
      | inl hit ↦ ((record { value = o.arg2; present = true }, [], true), rw hit refl)
      | inr miss ↦ ((st, st.value, false), rw miss refl)
    ]
apply_kind-returns (LinKind.other n) st o h = cc

suc_mul : (k v : ℕ) → suc k * v ≡ v + k * v
suc_mul k v = grind arith

-- The search returns within a number of states.
abbrev pub ReturnsIn : ℕ → Memo → Outcome (Bool × Memo) → Type 0
ReturnsIn n memo m =
    (r : Bool) × (memo' : Memo) × (m ≡ ok (r, memo')) × (memo'.nodes ≤ memo.nodes + n)

module _ (dfs : Search) (limit v least : ℕ) (mask : List Bool) (ops : List LinOp) (left : ℕ)
    (st : RegState) where
  abbrev Goes : Type 0
  Goes =
      (i : ℕ) (o : LinOp) (st' : RegState) (memo : Memo)
      → get_elem? mask i ≡ some false
      → get_elem? ops i ≡ some o
      → memo.nodes + v ≤ limit
      → ReturnsIn v memo (dfs (set mask i true) (left_after o left) st' memo)

  try_ops_returns :
      Goes
      → all is_known ops ≡ true
      → (i : ℕ) (bs : List Bool) (os : List LinOp) (memo : Memo) → drop i mask ≡ bs
      → drop i ops ≡ os
      → all is_known os ≡ true
      → memo.nodes + length (pending bs os) * v ≤ limit
      → ReturnsIn (length (pending bs os) * v) memo (try_ops dfs least mask left st i bs os memo)
  unfolding try_ops
  try_ops_returns goes known i [] os memo hb ho ks room = (false, memo, refl, omega arith)
  try_ops_returns goes known i (b ∷ bs) [] memo hb ho ks room = (false, memo, refl, omega arith)
  try_ops_returns goes known i (true ∷ bs) (o ∷ os) memo hb ho ks room =
      let (un, hb') = drop-uncons i mask true bs hb in
      let (at_i, ho') = drop-uncons i ops o os ho in
      try_ops_returns goes known (suc i) bs os memo hb' ho' (ground arith) room
  try_ops_returns goes known i (false ∷ bs) (o ∷ os) memo hb ho ks room =
      let (un, hb') = drop-uncons i mask false bs hb in
      let (at_i, ho') = drop-uncons i ops o os ho in
      let k = length (pending bs os) * v in
      let split = suc_mul (length (pending bs os)) v in
      let later = λ (m : Memo) (q : m.nodes + k ≤ limit).
        try_ops_returns goes known (suc i) bs os m hb' ho' (ground arith) q in
      let (r, a) = apply_kind-returns o.kind st o (ground arith) in
      let runs : apply_op st o ≡ ok r = unfold apply_op in a in
      elim (Bool-cases (ltb least o.invoke)) [
        | inl late ↦ (false, memo, rw late refl, omega arith)
        | inr early ↦ elim (Bool-cases (o.complete && not (output_matches o r.1 r.2))) [
          | inl other ↦
              let (d, m, e, n) = later memo (omega (arith, split)) in
              (d, m, rw (early, try_op, runs, other) e, omega (arith, split))
          | inr fits ↦
              let (d, m, e, n) = goes i o r.0 memo un at_i (omega (arith, split)) in
              elim (Bool-cases d) [
                | inl found ↦
                    (true, m, rw (early, try_op, runs, fits, e, found) refl, omega (arith, split))
                | inr missed ↦
                    let (d', m', e', n') = later m (omega (arith, split)) in
                    (d', m', rw (early, try_op, runs, fits, e, missed) e', omega (arith, split))
              ]
        ]
      ]

-- As many states as a search without `visited` enters, with u operations left.
unfoldable pub visits : ℕ → ℕ
visits zero = 0
visits (suc u) = 1 + suc u * visits u

visits-suc : (u : ℕ) → visits (suc u) ≡ 1 + suc u * visits u
unfolding visits
visits-suc u = refl

count_complete-empty : (os : List LinOp) → length os ≡ 0 → count_complete os ≡ 0
unfolding count_complete
count_complete-empty [] h = refl
count_complete-empty (o ∷ os) h = absurd (omega arith)

-- With enough depth for the operations that are left and room for the states, the search returns.
pub dfs_returns :
    (limit : ℕ) (ops : List LinOp) (depth : ℕ) (mask : List Bool) (left : ℕ) (st : RegState)
    (memo : Memo)
    → all is_known ops ≡ true
    → left ≡ count_complete (pending mask ops)
    → length (pending mask ops) ≤ depth
    → memo.nodes + visits (length (pending mask ops)) ≤ limit
    → ReturnsIn (visits (length (pending mask ops))) memo (dfs limit ops depth mask left st memo)
unfolding dfs
dfs_returns limit ops zero mask left st memo known count deep room =
    let none_left : left ≡ 0 = count ∙ count_complete-empty (pending mask ops) (omega arith) in
    (true, memo, ground (arith, none_left), omega arith)
dfs_returns limit ops (suc depth) mask left st memo known count deep room =
    elim (Bool-cases (nat_beq left 0)) [
      | inl none_left ↦ (true, memo, rw none_left refl, omega arith)
      | inr some_left ↦
          let u = length (pending mask ops) - 1 in
          let some_ : length (pending mask ops) ≡ suc u =
            ground (arith, some_left, count, count_complete-empty (pending mask ops)) in
          let budget : visits (length (pending mask ops)) ≡ 1 + suc u * visits u =
            ap visits some_ ∙ visits-suc u in
          let width : length (pending mask ops) * visits u ≡ suc u * visits u =
            ap (λ (k : ℕ). k * visits u) some_ in
          let few : ltb limit (suc memo.nodes) ≡ false = ground (arith, budget, room) in
          elim (Bool-cases (elem (memo_key mask st) memo.visited)) [
            | inl seen ↦ (
              false,
              record memo { nodes = suc memo.nodes },
              rw (some_left, few, seen) refl,
              omega (arith, budget),
            )
            | inr new ↦
                let entered : Memo = record {
                  visited = memo_key mask st ∷ memo.visited;
                  nodes = suc memo.nodes;
                } in
                let least = min_response max_int64 mask ops in
                let goes : Goes (dfs limit ops depth) limit (visits u) least mask ops left st =
                  λ i o st' m un at_i r.
                    let shorter = length-pending-set o mask ops i un at_i in
                    let fewer = count_complete-pending-set o mask ops i un at_i in
                    let same : length (pending (set mask i true) ops) ≡ u =
                      omega (arith, shorter, some_) in
                    subst
                      (λ k.
                        ReturnsIn (visits k) m
                          (dfs limit ops depth (set mask i true) (left_after o left) st' m))
                      same
                      (dfs_returns limit ops depth (set mask i true) (left_after o left) st' m known
                        (ground (arith, fewer, count)) (omega (arith, same, some_))
                        (omega (arith, r, ap visits same))) in
                let (d, m, e, n) =
                  try_ops_returns (dfs limit ops depth) limit (visits u) least mask ops left st goes
                    known 0 mask ops entered refl refl known (omega (arith, width, budget)) in
                (d, m, rw (some_left, few, new) e, omega (arith, width, budget, n))
          ]
    ]
