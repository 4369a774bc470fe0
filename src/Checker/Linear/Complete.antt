-- ===== src/Checker/Linear/Complete.antt =====
-- A search of checker/linear.go that fails has excluded every linearization.
use raft_sim.Base.{
  ℕ, zero, suc, ◌<◌, ◌≡◌, ◌⊎◌, refl, sym, ap, ◌∙◌, subst, arith, Bool, true, false, List, ◌∷◌, ok,
  length, length-set, set, all, ltb, nat_beq, Bool-cases, inl, inr, elem, bytes_eq, ◌==◌,
  bytes_beq_iff,
}
use raft_sim.Checker.Linear.{
  LinOp, RegState, Memo, min_response, max_int64, count_complete, try_ops, dfs, memo_key,
}
use raft_sim.Checker.Linear.Spec.{Dead, Rises, is_timed}
use raft_sim.Checker.Linear.Loop.{try_ops-false}
use raft_sim.Checker.Linear.Blocked.{Dead-step}
use raft_sim.Checker.Linear.Keys.{memo_key_apart}
use raft_sim.Checker.Linear.Steps.{
  pending, length-pending-set, count_complete-pending-set, left_after,
}

abbrev pub Explained : List LinOp → List (List ℕ) → (List Bool → RegState → Type 0) → Type 0
Explained ops visited P =
    (m : List Bool) (s : RegState)
    → length m ≡ length ops
    → elem (memo_key m s) visited ≡ true
    → Dead s (pending m ops) ⊎ P m s

-- The excused states and the one that is entered.
abbrev Entered :
    (List Bool → RegState → Type 0) → List Bool → RegState → List Bool → RegState → Type 0
Entered P mask st m s = P m s ⊎ ((m ≡ mask) × (s ≡ st))

Explained-cons :
    (ops : List LinOp) (visited : List (List ℕ)) (P : List Bool → RegState → Type 0)
    (mask : List Bool) (st : RegState)
    → length mask ≡ length ops
    → Explained ops visited P
    → Explained ops (memo_key mask st ∷ visited) (Entered P mask st)
Explained-cons ops visited P mask st l ex m s l' h =
    elim (Bool-cases (memo_key mask st == memo_key m s)) [
      | inl same ↦
          let (masks, states) =
            memo_key_apart mask m st s (l ∙ sym l')
              ((bytes_beq_iff (memo_key mask st) (memo_key m s)).0 same) in
          inr (inr (sym masks, sym states))
      | inr other ↦ elim (ex m s l' (ground (arith, h, other))) [
        | inl d ↦ inl d
        | inr p ↦ inr (inl p)
      ]
    ]

Explained-done :
    (ops : List LinOp) (visited : List (List ℕ)) (P : List Bool → RegState → Type 0)
    (mask : List Bool) (st : RegState)
    → Dead st (pending mask ops)
    → Explained ops visited (Entered P mask st)
    → Explained ops visited P
Explained-done ops visited P mask st dead ex m s l h = elim (ex m s l h) [
  | inl d ↦ inl d
  | inr (inl p) ↦ inr p
  | inr (inr (masks, states)) ↦ inl (
      subst (λ x. Dead x (pending m ops)) (sym states)
        (subst (λ x. Dead st (pending x ops)) (sym masks) dead))
]

-- A search that fails, where the visited states are dead or have more left than this one, has
-- excluded every linearization of what is left, and again the visited states are dead or excused.
pub dfs-false :
    (limit : ℕ) (ops : List LinOp) (depth : ℕ) (mask : List Bool) (left : ℕ) (st : RegState)
    (memo memo' : Memo) (P : List Bool → RegState → Type 0)
    → Rises ops
    → all is_timed ops ≡ true
    → length mask ≡ length ops
    → left ≡ count_complete (pending mask ops)
    → ((m : List Bool) (s : RegState) → P m s → length (pending mask ops) < length (pending m ops))
    → Explained ops memo.visited P
    → dfs limit ops depth mask left st memo ≡ ok (false, memo')
    → Dead st (pending mask ops) × Explained ops memo'.visited P
unfolding dfs
dfs-false limit ops zero mask left st memo memo' P rises timed l count longer ex h =
    elim (Bool-cases (nat_beq left 0)) [
      | inl none_left ↦ cc (rw none_left at h)
      | inr some_left ↦ cc (rw some_left at h)
    ]
dfs-false limit ops (suc depth) mask left st memo memo' P rises timed l count longer ex h =
    elim (Bool-cases (nat_beq left 0)) [
      | inl none_left ↦ cc (rw none_left at h)
      | inr some_left ↦ elim (Bool-cases (ltb limit (suc memo.nodes))) [
        | inl many ↦ cc (rw (some_left, many) at h)
        | inr few ↦ elim (Bool-cases (elem (memo_key mask st) memo.visited)) [
          | inl seen ↦ (
            elim (ex mask st l seen) [
              | inl dead ↦ dead
              | inr p ↦ absurd (omega (arith, longer mask st p))
            ],
            let same : ok (false, record memo { nodes = suc memo.nodes }) ≡ ok (false, memo') =
                  rw (some_left, few, seen) at h in
                let kept : memo'.visited ≡ memo.visited = ground (arith, same) in
                subst (λ v. Explained ops v P) (sym kept) ex,
          )
          | inr new ↦
              let entered : Memo = record {
                visited = memo_key mask st ∷ memo.visited;
                nodes = suc memo.nodes;
              } in
              let least = min_response max_int64 mask ops in
              let P' = Entered P mask st in
              let run : try_ops (dfs limit ops depth) least mask left st 0 mask ops entered
                  ≡ ok (false, memo') =
                rw (some_left, few, new) at h in
              let (kept, excluded) =
                try_ops-false (dfs limit ops depth) least mask ops left st
                  (λ m. Explained ops m.visited P')
                  (λ i o st' m m' c inv q.
                    let fewer = count_complete-pending-set o mask ops i c.unmarked c.at_index in
                    let shorter = length-pending-set o mask ops i c.unmarked c.at_index in
                    dfs-false limit ops depth (set mask i true) (left_after o left) st' m m' P'
                      rises timed (length-set mask i true ∙ l) (ground (arith, fewer))
                      (λ x s p. elim p [
                        | inl q' ↦ omega (arith, shorter, longer x s q')
                        | inr (e, _) ↦
                            omega (arith, shorter, ap (λ (y : List Bool). length (pending y ops)) e)
                      ])
                      inv q)
                  0 mask ops entered memo' refl refl rises
                  (Explained-cons ops memo.visited P mask st l ex) run in
              let dead =
                Dead-step mask ops st timed (ground (arith, some_left, count))
                  (λ j o st' c. excluded j o st' (omega arith) c) in
              (dead, Explained-done ops memo'.visited P mask st dead kept)
        ]
      ]
    ]
