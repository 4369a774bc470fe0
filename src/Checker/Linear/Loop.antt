-- ===== src/Checker/Linear/Loop.antt =====
-- The loop over the operations in a state of the search of checker/linear.go.
use raft_sim.Base.{
  all-get_elem?, ℕ, suc, ◌+◌, ◌-◌, ◌≤◌, ◌<◌, ◌≡◌, sym, ap, ◌∙◌, subst, arith, Bool, true, false,
  not, ◌&&◌, ◌||◌, List, [], ◌∷◌, none, some, Outcome, ok, ◌>>=◌, returned, get_elem?,
  get_elem?-drop, drop, set, ltb, leb, if◌then◌else◌, Bool-cases, inl, inr, bytes_eq,
}
use raft_sim.Checker.Linear.{
  LinOp, RegState, Memo, Search, apply_op, output_matches, try_op, try_ops,
}
use raft_sim.Checker.Linear.Spec.{Dead, Rises, is_lost}
use raft_sim.Checker.Linear.Steps.{pending, CanStand, left_after, drop-uncons}

drop-nil {ℓ} : {A : Type ℓ} (i j : ℕ) (xs : List A) → drop i xs ≡ [] → i ≤ j → get_elem? xs j ≡ none
drop-nil i j xs h le =
    ap (get_elem? xs) {x = j} {y = i + (j - i)} (omega arith)
    ∙ sym (get_elem?-drop i xs (j - i))
    ∙ ap (λ ys. get_elem? ys (j - i)) h

drop-cons {ℓ} :
    {A : Type ℓ} (i j : ℕ) (xs rest : List A)
    → drop (suc i) xs ≡ rest
    → i < j
    → get_elem? xs j ≡ get_elem? rest (j - i - 1)
drop-cons i j xs rest h lt =
    ap (get_elem? xs) {x = j} {y = suc i + (j - i - 1)} (omega arith)
    ∙ sym (get_elem?-drop (suc i) xs (j - i - 1))
    ∙ ap (λ ys. get_elem? ys (j - i - 1)) h

module _ (dfs : Search) (least : ℕ) (mask : List Bool) (ops : List LinOp) (left : ℕ) (st : RegState)
    (I : Memo → Type 0) where
  -- No operation from index i on can stand next.
  abbrev Excluded : ℕ → Type 0
  Excluded i =
      (j : ℕ) (o : LinOp) (st' : RegState)
      → i ≤ j
      → CanStand least mask ops st j o st'
      → Dead st' (pending (set mask j true) ops)

  -- A search that fails one operation further excludes it, and keeps what is known of the memo.
  abbrev Fails : Type 0
  Fails =
      (i : ℕ) (o : LinOp) (st' : RegState) (memo memo' : Memo)
      → CanStand least mask ops st i o st'
      → I memo
      → dfs (set mask i true) (left_after o left) st' memo ≡ ok (false, memo')
      → Dead st' (pending (set mask i true) ops) × I memo'

  Excluded-at :
      (i : ℕ) (o : LinOp)
      → get_elem? ops i ≡ some o
      → ((st' : RegState)
          → CanStand least mask ops st i o st'
          → Dead st' (pending (set mask i true) ops))
      → Excluded (suc i)
      → Excluded i
  Excluded-at i o at_i here later j p st' le c = elim (Bool-cases (leb j i)) [
    | inr further ↦ later j p st' (ground arith) c
    | inl same_ ↦
        let same : j ≡ i = ground arith in
        let same_op : p ≡ o = ground (arith, c.at_index, at_i, ap (get_elem? ops) same) in
        subst (λ k. Dead st' (pending (set mask k true) ops)) (sym same)
          (here st' (
            subst (λ k. CanStand least mask ops st k o st') same
              (subst (λ x. CanStand least mask ops st j x st') same_op c)))
  ]

  try_op-false :
      Fails
      → (i : ℕ) (o : LinOp) (rest : Memo → Outcome (Bool × Memo)) (memo memo' : Memo)
      → get_elem? mask i ≡ some false
      → get_elem? ops i ≡ some o
      → o.invoke ≤ least
      → I memo
      → try_op dfs mask left st i o rest memo ≡ ok (false, memo')
      → ((m : Memo) → I m → rest m ≡ ok (false, memo') → I memo' × Excluded (suc i))
      → I memo' × Excluded i
  unfolding try_op
  try_op-false fails i o rest memo memo' un at_i early inv h later =
      let ((next, value, out_ok), a, q) = returned (apply_op st o) _ (false, memo') h in
      let same_next = λ (st' : RegState) (c : CanStand least mask ops st i o st').
        let e : (next ≡ st') × (value ≡ c.value) × (out_ok ≡ c.out_ok) =
          ground (arith, a, c.runs) in
        e in
      elim (Bool-cases (o.complete && not (output_matches o value out_ok))) [
        | inl other ↦
            let (kept, ex) = later memo inv (ground (arith, q, other)) in
            (
              kept,
              Excluded-at i o at_i
                  (λ st' c. absurd (
                    let e = same_next st' c in
                    let bad : (is_lost o || output_matches o value out_ok) ≡ true =
                      subst (λ (r : List ℕ × Bool). (is_lost o || output_matches o r.0 r.1) ≡ true)
                        {x = (c.value, c.out_ok)} {y = (value, out_ok)} (ground (arith, e))
                        c.fits in
                    ground (arith, bad, other)))
                  ex,
            )
        | inr fits ↦
            let run : (dfs (set mask i true) (left_after o left) next memo >>= λ r.
            (if r.0 then ok (true, r.1) else rest r.1))
                ≡ ok (false, memo') =
              ground (arith, q, fits) in
            let ((done, after), b, p) =
              returned (dfs (set mask i true) (left_after o left) next memo) _ (false, memo') run in
            elim (Bool-cases done) [
              | inl yes_ ↦ cc (rw yes_ at p)
              | inr no_ ↦
                  let c : CanStand least mask ops st i o next = record {
                    unmarked = un;
                    at_index = at_i;
                    early = early;
                    value = value;
                    out_ok = out_ok;
                    runs = a;
                    fits = ground (arith, fits);
                  } in
                  let (dead, mid) =
                    fails i o next memo after c inv (b ∙ ap (λ (d : Bool). ok (d, after)) no_) in
                  let (kept, ex) = later after mid (ground (arith, p, no_)) in
                  (
                    kept,
                    Excluded-at i o at_i
                        (λ st' c'.
                          subst (λ s. Dead s (pending (set mask i true) ops)) (same_next st' c').0
                            dead)
                        ex,
                  )
            ]
      ]

  pub try_ops-false :
      Fails
      → (i : ℕ) (bs : List Bool) (os : List LinOp) (memo memo' : Memo) → drop i mask ≡ bs
      → drop i ops ≡ os
      → Rises os
      → I memo
      → try_ops dfs least mask left st i bs os memo ≡ ok (false, memo')
      → I memo' × Excluded i
  unfolding try_ops
  try_ops-false fails i [] os memo memo' hb ho r inv h = (
    subst I (ground arith) inv,
    λ j o st' le c. absurd (let e = drop-nil i j mask hb le in ground (arith, e, c.unmarked)),
  )
  try_ops-false fails i (b ∷ bs) [] memo memo' hb ho r inv h = (
    subst I (ground arith) inv,
    λ j o st' le c. absurd (let e = drop-nil i j ops ho le in ground (arith, e, c.at_index)),
  )
  try_ops-false fails i (b ∷ bs) (o ∷ os) memo memo' hb ho r inv h =
      let (un, hb') = drop-uncons i mask b bs hb in
      let (at_i, ho') = drop-uncons i ops o os ho in
      let later =
        λ (m : Memo) (k : I m)
            (q : try_ops dfs least mask left st (suc i) bs os m ≡ ok (false, memo')).
          try_ops-false fails (suc i) bs os m memo' hb' ho' r.1 k q in
      elim (Bool-cases b) [
        | inl marked ↦
            let (kept, ex) = later memo inv (ground (arith, h, marked)) in
            (
              kept,
              Excluded-at i o at_i (λ st' c. absurd (ground (arith, c.unmarked, un, marked))) ex,
            )
        | inr free ↦ elim (Bool-cases (ltb least o.invoke)) [
          | inl late ↦ (
            subst I (ground (arith, h, free, late)) inv,
            Excluded-at i o at_i (λ st' c. absurd (ground (arith, c.early, late)))
                (λ j p st' le c.
                  let at_j = sym (drop-cons i j ops os ho' (omega (arith, le))) ∙ c.at_index in
                  let above =
                    all-get_elem? (λ a. leb o.invoke a.invoke) os (j - i - 1) p r.0 at_j in
                  absurd (ground (arith, above, c.early, late))),
          )
          | inr early ↦
              try_op-false fails i o (try_ops dfs least mask left st (suc i) bs os) memo memo'
                (un ∙ ap some free) at_i (ground arith) inv (ground (arith, h, free, early)) later
        ]
      ]
