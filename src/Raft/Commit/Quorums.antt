-- ===== src/Raft/Commit/Quorums.antt =====
-- The index that the sort in maybeCommit (raft/node.go) picks is the largest that a quorum holds.
use raft_sim.Base.{
  ℕ, zero, suc, ◌+◌, ◌-◌, ◌≤◌, ◌<◌, ◌≡◌, refl, ap, arith, List, [], ◌∷◌, some, ok, leb,
  if◌then◌else◌, length, get_elem?, or_panic, get_elem?-some,
}
use raft_sim.Raft.Types.{quorum}
use raft_sim.Raft.State.{Node}
use raft_sim.Raft.Replication.{insert_down, sort_down, matches, quorum_match}

-- How many of the values are at least k.
pub count_ge : ℕ → List ℕ → ℕ
count_ge k [] = 0
count_ge k (x ∷ xs) = (if leb k x then 1 else 0) + count_ge k xs

count_ge-insert_down : (k x : ℕ) (xs : List ℕ) → count_ge k (insert_down x xs) ≡ count_ge k (x ∷ xs)
unfolding insert_down count_ge
count_ge-insert_down k x [] = refl
count_ge-insert_down k x (y ∷ ys) = ground (arith, count_ge-insert_down k x ys)

count_ge-sort_down :
    (k : ℕ) (xs done : List ℕ) → count_ge k (sort_down done xs) ≡ count_ge k done + count_ge k xs
unfolding sort_down count_ge
count_ge-sort_down k [] done = omega arith
count_ge-sort_down k (x ∷ xs) done =
    omega (arith, count_ge-sort_down k xs (insert_down x done), count_ge-insert_down k x done)

count_ge_mono : (j k : ℕ) (xs : List ℕ) → j ≤ k → count_ge k xs ≤ count_ge j xs
unfolding count_ge
count_ge_mono j k [] h = omega arith
count_ge_mono j k (x ∷ xs) h = ground (arith, count_ge_mono j k xs h)

-- Largest first.
abbrev Falls : List ℕ → Type 0
Falls [] = Unit {0}
Falls (x ∷ xs) = (count_ge (suc x) xs ≡ 0) × Falls xs

insert_down-Falls : (x : ℕ) (xs : List ℕ) → Falls xs → Falls (insert_down x xs)
unfolding insert_down count_ge
insert_down-Falls x [] h = (refl, tt)
insert_down-Falls x (y ∷ ys) h = ground (
  arith,
  h,
  count_ge_mono (suc y) (suc x) ys,
  count_ge-insert_down (suc y) x ys,
  insert_down-Falls x ys h.1,
)

sort_down-Falls : (xs done : List ℕ) → Falls done → Falls (sort_down done xs)
unfolding sort_down
sort_down-Falls [] done h = h
sort_down-Falls (x ∷ xs) done h =
    sort_down-Falls xs (insert_down x done) (insert_down-Falls x done h)

-- In a falling list, the value at a position splits the list by size.
count_ge-at :
    (i c : ℕ) (xs : List ℕ)
    → Falls xs
    → get_elem? xs i ≡ some c
    → (i < count_ge c xs) × (count_ge (suc c) xs ≤ i)
unfolding count_ge
count_ge-at i c [] h e = cc
count_ge-at zero c (x ∷ xs) h e = ground (arith, h.0)
count_ge-at (suc i) c (x ∷ xs) h e =
    ground (arith, h.0, count_ge_mono (suc x) c xs, count_ge-at i c xs h.1 e)

abbrev pub leader_matches : Node → List ℕ
leader_matches n = matches n n.config.voters

-- The index that maybeCommit picks is held by a quorum of the voters, as far as the leader knows, and
-- no larger index is.
pub quorum_match_lem :
    (n : Node) (c : ℕ)
    → quorum_match n ≡ ok c
    → (quorum n.config ≤ count_ge c (leader_matches n))
      × (count_ge (suc c) (leader_matches n) < quorum n.config)
unfolding quorum_match quorum
quorum_match_lem n c h =
    let sorted = sort_down [] (leader_matches n) in
    let at =
      count_ge-at (quorum n.config - 1) c sorted (sort_down-Falls (leader_matches n) [] tt)
        (ground (arith, h)) in
    (
      unfold count_ge in omega (arith, at.0, count_ge-sort_down c (leader_matches n) []),
      unfold count_ge in omega (arith, at.1, count_ge-sort_down (suc c) (leader_matches n) []),
    )

length-matches : (n : Node) (vs : List ℕ) → length (matches n vs) ≡ length vs
unfolding matches
length-matches n [] = refl
length-matches n (v ∷ vs) = omega (arith, length-matches n vs)

length-insert_down : (x : ℕ) (xs : List ℕ) → length (insert_down x xs) ≡ suc (length xs)
unfolding insert_down
length-insert_down x [] = refl
length-insert_down x (y ∷ ys) = ground (arith, length-insert_down x ys)

length-sort_down : (xs done : List ℕ) → length (sort_down done xs) ≡ length done + length xs
unfolding sort_down
length-sort_down [] done = omega arith
length-sort_down (x ∷ xs) done =
    omega (arith, length-sort_down xs (insert_down x done), length-insert_down x done)

-- With a voter, the choice does not panic.
pub quorum_match_total : (n : Node) → 0 < length n.config.voters → (c : ℕ) × (quorum_match n ≡ ok c)
unfolding quorum_match quorum
quorum_match_total n h =
    let sorted = sort_down [] (leader_matches n) in
    let found =
      get_elem?-some sorted (quorum n.config - 1)
        (omega (arith, length-sort_down (leader_matches n) [], length-matches n n.config.voters)) in
    (found.0, ap or_panic found.1)

-- With a voter, the choice of the commit rule returns the index that a quorum of the voters holds, as
-- far as the leader knows, while no quorum holds a larger one.
pub quorum_match_returns :
    (n : Node)
    → 0 < length n.config.voters
    → (c : ℕ) × (quorum_match n ≡ ok c)
      × (quorum n.config ≤ count_ge c (leader_matches n))
      × (count_ge (suc c) (leader_matches n) < quorum n.config)
quorum_match_returns n h =
    let (c, e) = quorum_match_total n h in
    let (held, largest) = quorum_match_lem n c e in (c, e, held, largest)
