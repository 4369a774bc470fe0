-- ===== src/Checker/Linear/Verdicts.antt =====
-- checkKey and CheckLinearizable of checker/linear.go decide whether a history is linearizable.
use mathlib.Core.List.{Perm}
use mathlib.Core.List.Perm
use raft_sim.Base.{
  insert_by-Perm, sort_by-Perm, all-Perm, ℕ, suc, ◌≤◌, ◌≡◌, refl, sym, ap, ◌∙◌, subst, arith, Bool,
  true, false, List, [], ◌∷◌, ok, returned, length, all, leb, nat_beq, if◌then◌else◌, Bool-cases,
  inl, inr, sort_by, insert_by, length-sort_by,
}
use raft_sim.Checker.Linear.{
  LinOp, Memo, new_register, by_invoke, unmarked, empty_memo, node_limit, explore, check_key, dfs,
  count_complete,
}
use raft_sim.Checker.Linear.Spec.{Legal, Linearization}
use raft_sim.Checker.Linear.Steps.{pending}
use raft_sim.Checker.Linear.Sound.{dfs-true}
use raft_sim.Checker.Linear.Spec.{Dead, Rises, is_timed}
use raft_sim.Checker.Linear.Complete.{Explained, dfs-false}
use raft_sim.Checker.Linear.Returns.{is_known, visits, dfs_returns}

-- What an answer of the search says of a history.
abbrev pub Verdict : Bool → List LinOp → Type 0
Verdict true ops = Linearization new_register ops
Verdict false ops = Dead new_register ops

pending-unmarked : (ops : List LinOp) → pending (unmarked ops) ops ≡ ops
pending-unmarked [] = refl
pending-unmarked (o ∷ os) = ap (◌∷◌ o) (pending-unmarked os)

length-unmarked : (ops : List LinOp) → length (unmarked ops) ≡ length ops
length-unmarked [] = refl
length-unmarked (o ∷ os) = ap suc (length-unmarked os)

Explained-nil : (ops : List LinOp) → Explained ops [] (λ m s. ⊥)
Explained-nil ops m s l h = cc

explore_lem :
    (limit : ℕ) (ops : List LinOp) (b : Bool)
    → Rises ops
    → all is_timed ops ≡ true
    → explore limit ops ≡ ok b
    → Verdict b ops
unfolding explore
explore_lem limit ops b rises timed h =
    let ((found, memo), a, q) =
      returned
        (dfs limit ops (length ops) (unmarked ops) (count_complete ops) new_register empty_memo) _ b
        h in
    let same : found ≡ b = ground arith in
    subst (λ (x : Bool). Verdict x ops) same (go found memo a)
  where
    go :
        (found : Bool) (memo : Memo)
        → dfs limit ops (length ops) (unmarked ops) (count_complete ops) new_register empty_memo
          ≡ ok (found, memo)
        → Verdict found ops
    go true memo a = subst (Linearization new_register) (pending-unmarked ops) (
        dfs-true limit ops (length ops) (unmarked ops) (count_complete ops) new_register empty_memo
          memo (ap count_complete (sym (pending-unmarked ops))) a)
    go false memo a =
        subst (Dead new_register) (pending-unmarked ops)
          (dfs-false limit ops (length ops) (unmarked ops) (count_complete ops) new_register
            empty_memo memo (λ m s. ⊥) rises timed (length-unmarked ops)
            (ap count_complete (sym (pending-unmarked ops))) (λ m s p. absurd p) (Explained-nil ops)
            a).0

all-leb_mono :
    (k j : ℕ) (os : List LinOp)
    → j ≤ k
    → all (λ a. leb k a.invoke) os ≡ true
    → all (λ a. leb j a.invoke) os ≡ true
all-leb_mono k j [] le h = refl
all-leb_mono k j (o ∷ os) le h = ground (arith, all-leb_mono k j os)

insert_by-Rises : (o : LinOp) (os : List LinOp) → Rises os → Rises (insert_by by_invoke o os)
unfolding insert_by
insert_by-Rises o [] r = (refl, tt)
insert_by-Rises o (x ∷ os) r = elim (Bool-cases (by_invoke x o)) [
  | inl before ↦ rw before (
    all-Perm (λ a. leb x.invoke a.invoke) (insert_by-Perm by_invoke o os)
        ∙ ground (arith, before, r.0),
    insert_by-Rises o os r.1,
  )
  | inr behind ↦ rw behind (ground (arith, behind, all-leb_mono x.invoke o.invoke os, r.0), r)
]

sort_by-Rises : (os : List LinOp) → Rises (sort_by by_invoke os)
unfolding sort_by
sort_by-Rises [] = tt
sort_by-Rises (o ∷ os) = insert_by-Rises o (sort_by by_invoke os) (sort_by-Rises os)

no_ops : (ops : List LinOp) → length ops ≡ 0 → ops ≡ []
no_ops [] h = refl
no_ops (o ∷ os) h = absurd (omega arith)

pub nothing_Linearization : Linearization new_register []
nothing_Linearization = record {
  order = [];
  lost = [];
  same = Perm.rfl;
  incomplete = refl;
  in_time = tt;
  legal = Legal.done;
}

Linearization-Perm :
    {xs ys : List LinOp}
    → Perm xs ys
    → Linearization new_register xs
    → Linearization new_register ys
Linearization-Perm p l = record {
  order = l.order;
  lost = l.lost;
  same = Perm.trans l.same p;
  incomplete = l.incomplete;
  in_time = l.in_time;
  legal = l.legal;
}

Verdict-Perm : (b : Bool) {xs ys : List LinOp} → Perm xs ys → Verdict b xs → Verdict b ys
Verdict-Perm true p v = Linearization-Perm p v
Verdict-Perm false p v = λ l. v (Linearization-Perm (Perm.symm p) l)

sorted_lem :
    (sorted : List LinOp) (b : Bool)
    → Rises sorted
    → all is_timed sorted ≡ true
    → (if nat_beq (length sorted) 0 then ok true else explore node_limit sorted) ≡ ok b
    → Verdict b sorted
sorted_lem [] true rises timed h = nothing_Linearization
sorted_lem [] false rises timed h = cc
sorted_lem (o ∷ os) b rises timed h =
    explore_lem node_limit (o ∷ os) b rises timed (ground (arith, h))

-- Where checkKey answers, it answers whether the history of the key has a linearization: true comes
-- with one, and false says that there is none. Every operation begins by the greatest int64, and no
-- completed one is over before it begins.
pub check_key_lem :
    (ops : List LinOp) (b : Bool) → all is_timed ops ≡ true → check_key ops ≡ ok b → Verdict b ops
unfolding check_key
check_key_lem ops b timed h = Verdict-Perm b (sort_by-Perm by_invoke ops) (
    sorted_lem (sort_by by_invoke ops) b (sort_by-Rises ops)
      (all-Perm is_timed (sort_by-Perm by_invoke ops) ∙ timed) h)

explore_returns :
    (limit : ℕ) (ops : List LinOp)
    → all is_known ops ≡ true
    → visits (length ops) ≤ limit
    → (b : Bool) × (explore limit ops ≡ ok b)
unfolding explore
explore_returns limit ops known room =
    let same : length (pending (unmarked ops) ops) ≡ length ops =
      ap length (pending-unmarked ops) in
    let counted = ap count_complete (sym (pending-unmarked ops)) in
    let (b, memo, e, n) =
      dfs_returns limit ops (length ops) (unmarked ops) (count_complete ops) new_register empty_memo
        known counted (omega (arith, same)) (omega (arith, room, ap visits same)) in
    (b, rw e refl)

sorted_returns :
    (limit : ℕ) (sorted : List LinOp)
    → all is_known sorted ≡ true
    → visits (length sorted) ≤ limit
    → (b : Bool) × ((if nat_beq (length sorted) 0 then ok true else explore limit sorted) ≡ ok b)
sorted_returns limit [] known room = (true, refl)
sorted_returns limit (o ∷ os) known room =
    let (b, e) = explore_returns limit (o ∷ os) known room in (b, ground (arith, e))

-- checkKey answers, and does not panic, for a history of gets, puts and compare-and-swaps that is
-- short enough for its limit: a search without `visited` enters as many states as `visits` counts.
pub check_key_returns :
    (ops : List LinOp)
    → all is_known ops ≡ true
    → visits (length ops) ≤ node_limit
    → (b : Bool) × (check_key ops ≡ ok b)
unfolding check_key
check_key_returns ops known room =
    let p = sort_by-Perm by_invoke ops in
    sorted_returns node_limit (sort_by by_invoke ops) (all-Perm is_known p ∙ known)
      (subst (λ n. visits n ≤ node_limit) (sym (length-sort_by by_invoke ops)) room)
