-- ===== src/Checker/Linear/Sound.antt =====
-- A search of checker/linear.go that succeeds has found a linearization.
use mathlib.Core.List.Perm
use raft_sim.Base.{
  all-Perm, ℕ, zero, suc, ◌≤◌, ◌≡◌, refl, ap, ◌∙◌, arith, Bool, true, false, not, ◌&&◌, List, [],
  ◌∷◌, ◌++◌, some, Outcome, ok, ◌>>=◌, returned, get_elem?, drop, set, all, ltb, nat_beq,
  if◌then◌else◌, Bool-cases, inl, inr, elem, bytes_eq, all-append_left,
}
use raft_sim.Checker.Linear.{
  LinOp, RegState, Memo, Search, apply_op, output_matches, min_response, max_int64, count_complete,
  try_op, try_ops, dfs, memo_key,
}
use raft_sim.Checker.Linear.Spec.{may_precede, Legal, Linearization}
use raft_sim.Checker.Linear.Steps.{
  pending, pending-set, count_complete-pending-set, count_complete-zero, min_response-le, CanStand,
  left_after, drop-uncons,
}

-- An operation stood next, and the search behind it succeeded.
record Chosen (dfs : Search) (least : ℕ) (mask : List Bool) (ops : List LinOp) (left : ℕ)
    (st : RegState) : Type 0 where
  i : ℕ
  o : LinOp
  st' : RegState
  can_stand : CanStand least mask ops st i o st'
  before : Memo
  after : Memo
  found : dfs (set mask i true) (left_after o left) st' before ≡ ok (true, after)

module _ (dfs : Search) (least : ℕ) (mask : List Bool) (ops : List LinOp) (left : ℕ)
    (st : RegState) where
  try_op-true :
      (i : ℕ) (o : LinOp) (rest : Memo → Outcome (Bool × Memo)) (memo memo' : Memo)
      → get_elem? mask i ≡ some false
      → get_elem? ops i ≡ some o
      → o.invoke ≤ least
      → try_op dfs mask left st i o rest memo ≡ ok (true, memo')
      → ((m : Memo) → rest m ≡ ok (true, memo') → Chosen dfs least mask ops left st)
      → Chosen dfs least mask ops left st
  unfolding try_op
  try_op-true i o rest memo memo' un at_i early h later =
      let ((next, value, out_ok), a, q) = returned (apply_op st o) _ (true, memo') h in
      elim (Bool-cases (o.complete && not (output_matches o value out_ok))) [
        | inl other ↦ later memo (ground (arith, q, other))
        | inr fits ↦
            let run : (dfs (set mask i true) (left_after o left) next memo >>= λ r.
            (if r.0 then ok (true, r.1) else rest r.1))
                ≡ ok (true, memo') =
              ground (arith, q, fits) in
            let ((done, after), b, p) =
              returned (dfs (set mask i true) (left_after o left) next memo) _ (true, memo') run in
            elim (Bool-cases done) [
              | inl yes_ ↦ record {
                i = i;
                o = o;
                st' = next;
                can_stand = record {
                  unmarked = un;
                  at_index = at_i;
                  early = early;
                  value = value;
                  out_ok = out_ok;
                  runs = a;
                  fits = ground (arith, fits);
                };
                before = memo;
                after = after;
                found = b ∙ ap (λ (d : Bool). ok (d, after)) yes_;
              }
              | inr no_ ↦ later after (ground (arith, p, no_))
            ]
      ]

  try_ops-true :
      (i : ℕ) (bs : List Bool) (os : List LinOp) (memo memo' : Memo)
      → drop i mask ≡ bs
      → drop i ops ≡ os
      → try_ops dfs least mask left st i bs os memo ≡ ok (true, memo')
      → Chosen dfs least mask ops left st
  unfolding try_ops
  try_ops-true i [] os memo memo' hb ho h = cc
  try_ops-true i (b ∷ bs) [] memo memo' hb ho h = cc
  try_ops-true i (b ∷ bs) (o ∷ os) memo memo' hb ho h =
      let (un, hb') = drop-uncons i mask b bs hb in
      let (at_i, ho') = drop-uncons i ops o os ho in
      let later =
        λ (m : Memo) (q : try_ops dfs least mask left st (suc i) bs os m ≡ ok (true, memo')).
          try_ops-true (suc i) bs os m memo' hb' ho' q in
      elim (Bool-cases b) [
        | inl marked ↦ later memo (ground (arith, h, marked))
        | inr free ↦ elim (Bool-cases (ltb least o.invoke)) [
          | inl late ↦ cc (rw (free, late) at h)
          | inr early ↦
              try_op-true i o (try_ops dfs least mask left st (suc i) bs os) memo memo'
                (un ∙ ap some free) at_i (ground arith) (ground (arith, h, free, early)) later
        ]
      ]

linearize_end :
    (mask : List Bool) (ops : List LinOp) (st : RegState)
    → count_complete (pending mask ops) ≡ 0
    → Linearization st (pending mask ops)
linearize_end mask ops st none_left = record {
  order = [];
  lost = pending mask ops;
  same = Perm.rfl;
  incomplete = count_complete-zero (pending mask ops) none_left;
  in_time = tt;
  legal = Legal.done;
}

-- One operation in front of a linearization of what is left after it.
linearize_next :
    (mask : List Bool) (ops : List LinOp) (st st' : RegState) (i : ℕ) (o : LinOp)
    → CanStand (min_response max_int64 mask ops) mask ops st i o st'
    → Linearization st' (pending (set mask i true) ops)
    → Linearization st (pending mask ops)
linearize_next mask ops st st' i o c l =
    let same = Perm.trans (Perm.cons o l.same) (pending-set o mask ops i c.unmarked c.at_index) in
    let before = (min_response-le o max_int64 mask ops c.early).1 in
    let all_after : all (may_precede o) (o ∷ (l.order ++ l.lost)) ≡ true =
      all-Perm (may_precede o) same ∙ before in
    record {
      order = o ∷ l.order;
      lost = l.lost;
      same = same;
      incomplete = l.incomplete;
      in_time = (all-append_left (may_precede o) l.order l.lost (ground arith), l.in_time);
      legal = Legal.next o st' c.value c.out_ok c.runs c.fits l.legal;
    }

-- A search that succeeds, with the right count of the completed operations that are left, has found a
-- linearization of what is left.
pub dfs-true :
    (limit : ℕ) (ops : List LinOp) (depth : ℕ) (mask : List Bool) (left : ℕ) (st : RegState)
    (memo memo' : Memo)
    → left ≡ count_complete (pending mask ops)
    → dfs limit ops depth mask left st memo ≡ ok (true, memo')
    → Linearization st (pending mask ops)
unfolding dfs
dfs-true limit ops zero mask left st memo memo' count h = elim (Bool-cases (nat_beq left 0)) [
  | inl none_left ↦ linearize_end mask ops st (ground arith)
  | inr some_left ↦ cc (rw some_left at h)
]
dfs-true limit ops (suc depth) mask left st memo memo' count h =
    elim (Bool-cases (nat_beq left 0)) [
      | inl none_left ↦ linearize_end mask ops st (ground arith)
      | inr some_left ↦ elim (Bool-cases (ltb limit (suc memo.nodes))) [
        | inl many ↦ cc (rw (some_left, many) at h)
        | inr few ↦ elim (Bool-cases (elem (memo_key mask st) memo.visited)) [
          | inl seen ↦ cc (rw (some_left, few, seen) at h)
          | inr new ↦
              let least = min_response max_int64 mask ops in
              let entered : Memo = record {
                visited = memo_key mask st ∷ memo.visited;
                nodes = suc memo.nodes;
              } in
              let run : try_ops (dfs limit ops depth) least mask left st 0 mask ops entered
                  ≡ ok (true, memo') =
                rw (some_left, few, new) at h in
              let c =
                try_ops-true (dfs limit ops depth) least mask ops left st 0 mask ops entered memo'
                  refl refl run in
              let fewer =
                count_complete-pending-set c.o mask ops c.i c.can_stand.unmarked
                  c.can_stand.at_index in
              linearize_next mask ops st c.st' c.i c.o c.can_stand (
                dfs-true limit ops depth (set mask c.i true) (left_after c.o left) c.st' c.before
                  c.after (ground (arith, fewer)) c.found)
        ]
      ]
    ]
