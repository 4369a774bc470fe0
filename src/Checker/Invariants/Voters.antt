-- ===== src/Checker/Invariants/Voters.antt =====
-- symmetricDiff of checker/invariants.go counts the servers by which two configurations differ.
use raft_sim.Base.{
  leb, ℕ, suc, ◌+◌, ◌<◌, ◌≡◌, refl, sym, ap, ◌∙◌, subst, arith, true, false, not, List, [], ◌∷◌,
  nat_beq, nat_beq_iff, ltb, Bool-cases, inl, inr, length,
}
use raft_sim.Raft.Types.{Config, contains, contains_id}
use raft_sim.Raft.Replication.{without}
use raft_sim.Raft.Membership.{insert_sorted}
use raft_sim.Raft.Election.{one_if}
use raft_sim.Raft.Quorum.{
  count_if, Above, Adds, toggled, insert_sorted-Adds, without-Adds, without-Above,
}
use raft_sim.Raft.State.{Node}
use raft_sim.Checker.Track.{NodeTrack, Invariants}
use raft_sim.Checker.Invariants.{diff_at, symmetric_diff, is_empty, check_order, check_voters}

-- How many of the first are not among the second.
abbrev pub missing : List ℕ → List ℕ → ℕ
missing xs ys = count_if (λ x. not (contains_id ys x)) xs

missing-empty : (ys : List ℕ) → missing [] ys ≡ 0
unfolding count_if
missing-empty ys = refl

contains_id-head : (x y : ℕ) (ys : List ℕ) → x ≡ y → contains_id (y ∷ ys) x ≡ true
unfolding contains_id
contains_id-head x y ys h = ground (arith, h)

missing-nil : (xs : List ℕ) → missing xs [] ≡ length xs
unfolding count_if contains_id
missing-nil [] = refl
missing-nil (x ∷ xs) = omega (arith, missing-nil xs)

Above-absent : (k j : ℕ) (xs : List ℕ) → Above k xs → j < suc k → contains_id xs j ≡ false
unfolding contains_id
Above-absent k j [] a le = refl
Above-absent k j (x ∷ xs) a le = ground (arith, a.0, Above-absent x j xs a.1 (omega (arith, a.0)))

-- A number below all of the first is of no account in the second.
missing-below :
    (k j : ℕ) (xs ys : List ℕ) → Above k xs → j < suc k → missing xs (j ∷ ys) ≡ missing xs ys
unfolding count_if contains_id
missing-below k j [] ys a le = refl
missing-below k j (x ∷ xs) ys a le =
    let apart : nat_beq j x ≡ false = ground (arith, a.0) in
    rw apart (
      ap (λ m. one_if (not (contains_id ys x)) + m)
        (missing-below x j xs ys a.1 (omega (arith, a.0))))

missing-absent :
    (x : ℕ) (xs ys : List ℕ) → contains_id ys x ≡ false → missing (x ∷ xs) ys ≡ suc (missing xs ys)
unfolding count_if
missing-absent x xs ys h = ground (arith, h)

missing-present :
    (x : ℕ) (xs ys : List ℕ) → contains_id ys x ≡ true → missing (x ∷ xs) ys ≡ missing xs ys
unfolding count_if
missing-present x xs ys h = ground (arith, h)

-- The loop at an element x of the first list, before xs.
diff_at_lem :
    (k x : ℕ) (xs ys : List ℕ)
    → Above x xs
    → Above k ys
    → ((zs : List ℕ) → Above x zs → symmetric_diff xs zs ≡ missing xs zs + missing zs xs)
    → diff_at x (length xs) (symmetric_diff xs) ys ≡ missing (x ∷ xs) ys + missing ys (x ∷ xs)
unfolding diff_at
diff_at_lem k x xs [] a b rest = omega (arith, missing-nil (x ∷ xs), missing-empty (x ∷ xs))
diff_at_lem k x xs (y ∷ ys) a b rest = elim (Bool-cases (nat_beq x y)) [
  | inl same ↦
      let eq : x ≡ y = (nat_beq_iff x y).0 same in
      rw same (
        omega (
          arith,
          rest ys (subst (λ j. Above j ys) (sym eq) b.1),
          missing-present x xs (y ∷ ys) (contains_id-head x y ys eq),
          missing-below x y xs ys a (omega (arith, eq)),
          missing-present y ys (x ∷ xs) (contains_id-head y x xs (sym eq)),
          missing-below y x ys xs b.1 (omega (arith, eq)),
        ))
  | inr differ ↦ elim (Bool-cases (ltb x y)) [
    | inl less ↦
        let above : Above x (y ∷ ys) = (ground (arith, less), b.1) in
        rw (differ, less)
          (omega (
            arith,
            rest (y ∷ ys) above,
            missing-absent x xs (y ∷ ys) (Above-absent x x (y ∷ ys) above (omega arith)),
            missing-below x x (y ∷ ys) xs above (omega arith),
          ))
    | inr more ↦
        let above : Above y (x ∷ xs) = (ground (arith, differ, more), a) in
        rw (differ, more)
          (omega (
            arith,
            diff_at_lem y x xs ys a b.1 rest,
            missing-absent y ys (x ∷ xs) (Above-absent y y (x ∷ xs) above (omega arith)),
            missing-below y y (x ∷ xs) ys above (omega arith),
          ))
  ]
]

-- On ascending lists symmetricDiff counts the elements that only one of them has.
pub symmetric_diff_lem :
    (k : ℕ) (xs ys : List ℕ)
    → Above k xs
    → Above k ys
    → symmetric_diff xs ys ≡ missing xs ys + missing ys xs
unfolding symmetric_diff
symmetric_diff_lem k [] ys a b = omega (arith, missing-nil ys, missing-empty ys)
symmetric_diff_lem k (x ∷ xs) ys a b =
    diff_at_lem k x xs ys a.1 b (λ zs c. symmetric_diff_lem x xs zs a.1 c)

contains_id-without : (id : ℕ) (vs : List ℕ) → contains_id (without id vs) id ≡ false
unfolding contains_id without
contains_id-without id [] = refl
contains_id-without id (v ∷ vs) = ground (arith, contains_id-without id vs)

missing-members :
    (xs ys : List ℕ)
    → ((j : ℕ) → contains_id xs j ≡ true → contains_id ys j ≡ true)
    → missing xs ys ≡ 0
unfolding count_if contains_id
missing-members [] ys h = refl
missing-members (x ∷ xs) ys h =
    let here : contains_id ys x ≡ true = h x (ground arith) in
    let rest = missing-members xs ys (λ j c. h j (ground (arith, c))) in
    rw here (omega (arith, rest))

-- Voters that a server joins, above 0 and in order, differ from the ones before by one, seen from
-- either side.
Adds-differ :
    (v : ℕ) (vs ws : List ℕ)
    → Above 0 vs
    → contains_id vs v ≡ false
    → Adds 0 v vs ws
    → (symmetric_diff vs ws ≡ 1) × (symmetric_diff ws vs ≡ 1)
Adds-differ v vs ws asc out a =
    let gone : missing vs ws ≡ 0 = missing-members vs ws (λ j c. a.members j ∙ ground (arith, c)) in
    let self : missing vs vs ≡ 0 = missing-members vs vs (λ j c. c) in
    let one : one_if (not (contains_id vs v)) ≡ 1 = rw out refl in
    let new : missing ws vs ≡ 1 =
      a.counts (λ x. not (contains_id vs x)) ∙ omega (arith, one, self) in
    (
      symmetric_diff_lem 0 vs ws asc a.ascends ∙ omega (arith, gone, new),
      symmetric_diff_lem 0 ws vs a.ascends asc ∙ omega (arith, gone, new),
    )

-- A configuration that one server left or joined: in ascending order, and one server apart.
toggled_lem :
    (c : Config) (id : ℕ)
    → Above 0 c.voters
    → 0 < id
    → Above 0 (toggled c id).voters × (symmetric_diff c.voters (toggled c id).voters ≡ 1)
unfolding contains
toggled_lem c id asc pos = elim (Bool-cases (contains_id c.voters id)) [
  | inl inside ↦
      let e : (toggled c id).voters ≡ without id c.voters = ground arith in
      let a = without-Adds 0 c.voters id asc inside in
      let apart =
        Adds-differ id (without id c.voters) c.voters (without-Above 0 id c.voters asc)
          (contains_id-without id c.voters) a in
      subst (λ ws. Above 0 ws × (symmetric_diff c.voters ws ≡ 1)) (sym e)
        (without-Above 0 id c.voters asc, apart.1)
  | inr outside ↦
      let e : (toggled c id).voters ≡ insert_sorted c.voters id = ground arith in
      let a = insert_sorted-Adds c.voters id asc pos outside in
      let apart = Adds-differ id c.voters (insert_sorted c.voters id) asc outside a in
      subst (λ ws. Above 0 ws × (symmetric_diff c.voters ws ≡ 1)) (sym e) (a.ascends, apart.0)
]

check_order-Above :
    (n : Node) (k : ℕ) (vs : List ℕ) (v : Invariants) → Above k vs → check_order n vs v ≡ v
unfolding check_order
check_order-Above n k [] v a = refl
check_order-Above n k (x ∷ []) v a = refl
check_order-Above n k (x ∷ y ∷ rest) v a =
    let up : leb y x ≡ false = ground (arith, a.1.0) in
    rw up (check_order-Above n x (y ∷ rest) v a.1)

-- A change by one server is not reported: where the voters of the last observation are in ascending
-- order above 0, the node's configuration is that one after a server with an id other than 0 left or
-- joined, and it has a voter, what checkNode compares of the voters adds no report and changes nothing,
-- whatever the node's state and term.
pub check_voters-toggled :
    (c : Config) (id : ℕ) (n : Node) (t : NodeTrack) (v : Invariants)
    → Above 0 c.voters
    → 0 < id
    → t.voters ≡ c.voters
    → n.config ≡ toggled c id
    → is_empty (toggled c id).voters ≡ false
    → check_voters n t v ≡ v
unfolding check_voters
check_voters-toggled c id n t v asc pos before after some_left =
    let (up, one) = toggled_lem c id asc pos in
    let now : n.config.voters ≡ (toggled c id).voters = ap (λ (x : Config). x.voters) after in
    let some_ : is_empty n.config.voters ≡ false = ap is_empty now ∙ some_left in
    let ordered : check_order n n.config.voters v ≡ v =
      check_order-Above n 0 n.config.voters v (subst (Above 0) (sym now) up) in
    let apart : symmetric_diff t.voters n.config.voters ≡ 1 =
      ap (λ xs. symmetric_diff xs n.config.voters) before
      ∙ ap (symmetric_diff c.voters) now
      ∙ one in
    let few : ltb 1 (symmetric_diff t.voters n.config.voters) ≡ false = ground (arith, apart) in
    rw (some_, ordered, few) (ground arith)
