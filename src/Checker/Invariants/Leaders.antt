-- ===== src/Checker/Invariants/Leaders.antt =====
-- checkLeaderCompleteness of checker/invariants.go: what a leader has that it lets pass.
use raft_sim.Base.{
  ℕ, zero, suc, ◌≤◌, ◌≡◌, ◌⊎◌, refl, subst, arith, true, ◌||◌, List, [], ◌∷◌, some, lookup, nat_eq,
  nat_beq, ltb, leb, Bool-cases, inl, inr, get_elem?,
}
use raft_sim.Raft.State.{Node, is_leader}
use raft_sim.Raft.Log.{last_index}
use raft_sim.Checker.Track.{CommittedVal, NodeTrack, Invariants}
use raft_sim.Checker.Chain.{term_at}
use raft_sim.Checker.Invariants.{or_zero_val, check_held, check_all_held, check_leader_completeness}
use raft_sim.Checker.Invariants.Checks.{check_all_held-Extends}
use raft_sim.Checker.Invariants.Safety.{earlier, append-not_empty}

-- The leader has no need of a committed entry, or has it: its term is not above that of the commit, its
-- snapshot covers the index, or its log has an entry of the committed term there.
abbrev pub Holds : Node → ℕ → CommittedVal → Type 0
Holds n i c =
    (n.term ≤ c.commit_term_ub)
    ⊎ (i ≤ n.log.snap_index)
    ⊎ ((i ≤ last_index n.log) × (term_at n i ≡ c.term))

check_held-clean :
    (n : Node) (i : ℕ) (c : CommittedVal) (v : Invariants)
    → (check_held n i c v).violations ≡ []
    → Holds n i c
unfolding check_held
check_held-clean n i c v h = elim (Bool-cases (leb n.term c.commit_term_ub)) [
  | inl old ↦ inl (ground arith)
  | inr new ↦ elim (Bool-cases (leb i n.log.snap_index)) [
    | inl covered ↦ inr (inl (ground arith))
    | inr behind ↦ elim (Bool-cases (ltb (last_index n.log) i)) [
      | inl lacks ↦ absurd (append-not_empty v.violations _ (rw (new, behind, lacks) at h))
      | inr has ↦ elim (Bool-cases (nat_beq (term_at n i) c.term)) [
        | inl same ↦ inr (inr (ground (arith, has), ground (arith, same)))
        | inr differs ↦
            absurd (append-not_empty v.violations _ (rw (new, behind, has, differs) at h))
      ]
    ]
  ]
]

committed-check_held :
    (n : Node) (i : ℕ) (c : CommittedVal) (v : Invariants)
    → (check_held n i c v).committed ≡ v.committed
unfolding check_held
committed-check_held n i c v =
    elim (Bool-cases (leb n.term c.commit_term_ub || leb i n.log.snap_index)) [
      | inl old ↦ rw old refl
      | inr new ↦ elim (Bool-cases (ltb (last_index n.log) i)) [
        | inl lacks ↦ rw (new, lacks) refl
        | inr has ↦ elim (Bool-cases (nat_beq (term_at n i) c.term)) [
          | inl same ↦ rw (new, has, same) refl
          | inr differs ↦ rw (new, has, differs) refl
        ]
      ]
    ]

check_all_held-clean :
    (n : Node) (is : List ℕ) (v : Invariants) (k i : ℕ)
    → (check_all_held n is v).violations ≡ []
    → get_elem? is k ≡ some i
    → Holds n i (or_zero_val (lookup i v.committed))
unfolding check_all_held
check_all_held-clean n [] v k i h q = cc
check_all_held-clean n (j ∷ is) v zero i h q =
    let later =
      check_all_held-Extends n is (check_held n j (or_zero_val (lookup j v.committed)) v) in
    subst (λ x. Holds n x (or_zero_val (lookup x v.committed))) {x = j} {y = i} (ground (arith, q))
      (check_held-clean n j (or_zero_val (lookup j v.committed)) v (earlier later h))
check_all_held-clean n (j ∷ is) v (suc k) i h q =
    subst (λ m. Holds n i (or_zero_val (lookup i m)))
      (committed-check_held n j (or_zero_val (lookup j v.committed)) v)
      (check_all_held-clean n is (check_held n j (or_zero_val (lookup j v.committed)) v) k i h q)

-- A leader that checkLeaderCompleteness looks at anew, and lets pass, holds every entry on record as
-- committed: unless the leader's term is not above the least term that the entry was seen committed in,
-- its snapshot covers the index, or its log has an entry of the same term there.
pub check_leader_completeness_lem :
    (n : Node) (t : NodeTrack) (v : Invariants) (k i : ℕ)
    → is_leader n.state ≡ true
    → t.verified ≡ 0
    → (check_leader_completeness n t v).1.violations ≡ []
    → get_elem? v.commit_order k ≡ some i
    → Holds n i (or_zero_val (lookup i v.committed))
unfolding check_leader_completeness
check_leader_completeness_lem n t v k i leads anew h q =
    check_all_held-clean n v.commit_order v k i (rw (leads, anew) at h) q
