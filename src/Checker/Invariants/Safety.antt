-- ===== src/Checker/Invariants/Safety.antt =====
-- What a run that the checker of checker/invariants.go lets pass has: one leader of a term, and one
-- entry applied at an index.
use raft_sim.Base.{
  ℕ, ◌≡◌, ◌⊎◌, refl, sym, ap, ◌∙◌, subst, arith, true, ◌||◌, not, List, [], ◌∷◌, ◌++◌, Option, none,
  some, lookup, lookup-insert, beq_refl, nat_eq, nat_beq, Bool-cases, inl, inr, length,
}
use raft_sim.Raft.Types.{Entry}
use raft_sim.Raft.State.{Node, is_leader}
use raft_sim.Checker.Track.{CommittedVal, Violation, Invariants, new_invariants, entry_hash}
use raft_sim.Checker.Observe.{check_applied, observe_apply}
use raft_sim.Checker.Invariants.{
  lead_term, check_election, check_node, check, is_ok, Observation, observe, observe_all,
}
use raft_sim.Checker.Invariants.Growth.{Extends}
use raft_sim.Checker.Invariants.Runs.{
  check_node-elected, check-Extends, ordered, observe_apply-compared, observe_all-Extends,
}

-- A node is one of those that are checked.
abbrev pub Among : Node → List Node → Type 0
Among n [] = ⊥
Among n (m ∷ ns) = (m ≡ n) ⊎ Among n ns

-- A node is seen in a run; an entry is applied in a run.
abbrev pub SeenBy : Node → Observation → Type 0
SeenBy n (Observation.nodes ns) = Among n ns
SeenBy n _ = ⊥

abbrev pub AppliedBy : Entry → Observation → Type 0
AppliedBy e (Observation.applied id e') = e' ≡ e
AppliedBy e _ = ⊥

abbrev pub Somewhere : (Observation → Type 0) → List Observation → Type 0
Somewhere P [] = ⊥
Somewhere P (o ∷ os) = P o ⊎ Somewhere P os

append-empty {ℓ} : {A : Type ℓ} (xs ys : List A) → xs ++ ys ≡ [] → xs ≡ []
append-empty [] ys h = refl
append-empty (x ∷ xs) ys h = cc

pub append-not_empty {ℓ} : {A : Type ℓ} (xs : List A) (x : A) → xs ++ x ∷ [] ≡ [] → ⊥
append-not_empty [] x h = cc
append-not_empty (y ∷ xs) x h = cc

-- A later state without reports has no earlier one with some.
pub earlier : {v v' : Invariants} → Extends v v' → v'.violations ≡ [] → v.violations ≡ []
earlier {v} {v'} g h = let (more, e) = g.reports in append-empty v.violations more (sym e ∙ h)

lead_term-clean :
    (n : Node) (found : Option ℕ) (v : Invariants)
    → lookup n.term v.leaders ≡ found
    → (lead_term n found v).violations ≡ []
    → lookup n.term (lead_term n found v).leaders ≡ some n.id
lead_term-clean n none v q h =
    lookup-insert n.term n.term n.id v.leaders ∙ rw (beq_refl n.term) refl
lead_term-clean n (some prev) v q h = elim (Bool-cases (nat_beq prev n.id)) [
  | inl same ↦ rw same (lookup-insert n.term n.term n.id v.leaders ∙ rw (beq_refl n.term) refl)
  | inr other ↦
      absurd
        (append-not_empty v.violations (Violation.two_leaders n.term prev n.id) (rw other at h))
]

check_election-clean :
    (n : Node) (v : Invariants)
    → is_leader n.state ≡ true
    → (check_election n v).violations ≡ []
    → lookup n.term (check_election n v).leaders ≡ some n.id
unfolding check_election
check_election-clean n v leads h =
    rw leads (lead_term-clean n (lookup n.term v.leaders) v refl (rw leads at h))

check_node-clean :
    (fnv : List ℕ → ℕ) (n : Node) (v : Invariants)
    → is_leader n.state ≡ true
    → (check_node fnv n v).violations ≡ []
    → lookup n.term (check_node fnv n v).leaders ≡ some n.id
check_node-clean fnv n v leads h =
    let later = check_node-elected fnv n v in
    later.leaders n.term n.id (check_election-clean n _ leads (earlier later h))

check-clean :
    (fnv : List ℕ → ℕ) (n : Node) (ns : List Node) (v : Invariants)
    → Among n ns
    → is_leader n.state ≡ true
    → (check fnv ns v).violations ≡ []
    → lookup n.term (check fnv ns v).leaders ≡ some n.id
unfolding check
check-clean fnv n [] v a leads h = absurd a
check-clean fnv n (m ∷ ns) v (inl same) leads h =
    let later = check-Extends fnv ns (check_node fnv m v) in
    subst
      (λ (k : Node).
        is_leader k.state ≡ true
        → lookup k.term (check fnv ns (check_node fnv m v)).leaders ≡ some k.id)
      same (λ l. later.leaders m.term m.id (check_node-clean fnv m v l (earlier later h))) leads
check-clean fnv n (m ∷ ns) v (inr a) leads h = check-clean fnv n ns (check_node fnv m v) a leads h

seen-clean :
    (fnv : List ℕ → ℕ) (n : Node) (o : Observation) (v : Invariants)
    → SeenBy n o
    → is_leader n.state ≡ true
    → (observe fnv o v).violations ≡ []
    → lookup n.term (observe fnv o v).leaders ≡ some n.id
seen-clean fnv n (Observation.restart id) v s leads h = absurd s
seen-clean fnv n (Observation.applied id e) v s leads h = absurd s
seen-clean fnv n (Observation.restored id x) v s leads h = absurd s
seen-clean fnv n (Observation.nodes ns) v s leads h = check-clean fnv n ns v s leads h

leader_on_record :
    (fnv : List ℕ → ℕ) (n : Node) (os : List Observation) (v : Invariants)
    → Somewhere (SeenBy n) os
    → is_leader n.state ≡ true
    → (observe_all fnv os v).violations ≡ []
    → lookup n.term (observe_all fnv os v).leaders ≡ some n.id
unfolding observe_all
leader_on_record fnv n [] v s leads h = absurd s
leader_on_record fnv n (o ∷ os) v (inl s) leads h =
    let later = observe_all-Extends fnv os (observe fnv o v) in
    later.leaders n.term n.id (seen-clean fnv n o v s leads (earlier later h))
leader_on_record fnv n (o ∷ os) v (inr s) leads h =
    leader_on_record fnv n os (observe fnv o v) s leads h

is_ok-clean : (v : Invariants) → is_ok v ≡ true → v.violations ≡ []
unfolding is_ok
is_ok-clean v h = go v.violations h
  where
    go : (xs : List Violation) → nat_beq (length xs) 0 ≡ true → xs ≡ []
    go [] h = refl
    go (x ∷ xs) h = absurd (ground arith)

-- In a run of observations after which the checker has nothing to report, all leaders of one term that
-- were seen, at whatever times, are one node.
pub one_leader :
    (fnv : List ℕ → ℕ) (os : List Observation) (n m : Node)
    → is_ok (observe_all fnv os new_invariants) ≡ true
    → Somewhere (SeenBy n) os
    → Somewhere (SeenBy m) os
    → is_leader n.state ≡ true
    → is_leader m.state ≡ true
    → n.term ≡ m.term
    → n.id ≡ m.id
one_leader fnv os n m fine s s' leads leads' same =
    let clean = is_ok-clean _ fine in
    let a = leader_on_record fnv n os new_invariants s leads clean in
    let b = leader_on_record fnv m os new_invariants s' leads' clean in
    cc (sym a ∙ ap (λ t. lookup t (observe_all fnv os new_invariants).leaders) same ∙ b)

-- What is on record of an applied entry.
abbrev pub OnRecord : (List ℕ → ℕ) → Entry → Invariants → Type 0
OnRecord fnv e v =
    (c : CommittedVal) × (lookup e.index v.applied ≡ some c)
    × (c.term ≡ e.term)
    × (c.hash ≡ entry_hash fnv e)

check_applied-clean :
    (fnv : List ℕ → ℕ) (e : Entry) (found : Option CommittedVal) (v : Invariants)
    → lookup e.index v.applied ≡ found
    → (check_applied e (entry_hash fnv e) found v).violations ≡ []
    → OnRecord fnv e (check_applied e (entry_hash fnv e) found v)
check_applied-clean fnv e none v q h = (
  record { term = e.term; hash = entry_hash fnv e; commit_term_ub = 0 },
  lookup-insert e.index e.index
        (record { term = e.term; hash = entry_hash fnv e; commit_term_ub = 0 }) v.applied
      ∙ rw (beq_refl e.index) refl,
  refl,
  refl,
)
check_applied-clean fnv e (some prev) v q h =
    elim (Bool-cases
      (not (nat_beq prev.term e.term) || not (nat_beq prev.hash (entry_hash fnv e)))) [
        | inl differs ↦ absurd (
            append-not_empty v.violations (Violation.applied_twice e.index prev.term e.term)
              (rw differs at h))
        | inr fits ↦ rw fits (prev, q, ground (arith, fits), ground (arith, fits))
      ]

observe_apply-clean :
    (fnv : List ℕ → ℕ) (id : ℕ) (e : Entry) (v : Invariants)
    → (observe_apply fnv id e v).violations ≡ []
    → OnRecord fnv e (observe_apply fnv id e v)
observe_apply-clean fnv id e v h =
    let later = observe_apply-compared fnv id e v in
    let (c, q, t, x) = check_applied-clean fnv e _ (ordered fnv id e v) refl (earlier later h) in
    (c, later.applied e.index c q, t, x)

applied-clean :
    (fnv : List ℕ → ℕ) (e : Entry) (o : Observation) (v : Invariants)
    → AppliedBy e o
    → (observe fnv o v).violations ≡ []
    → OnRecord fnv e (observe fnv o v)
applied-clean fnv e (Observation.restart id) v a h = absurd a
applied-clean fnv e (Observation.applied id e') v a h =
    subst (λ x. OnRecord fnv x (observe_apply fnv id e' v)) a (observe_apply-clean fnv id e' v h)
applied-clean fnv e (Observation.restored id x) v a h = absurd a
applied-clean fnv e (Observation.nodes ns) v a h = absurd a

applied-OnRecord :
    (fnv : List ℕ → ℕ) (e : Entry) (os : List Observation) (v : Invariants)
    → Somewhere (AppliedBy e) os
    → (observe_all fnv os v).violations ≡ []
    → OnRecord fnv e (observe_all fnv os v)
unfolding observe_all
applied-OnRecord fnv e [] v a h = absurd a
applied-OnRecord fnv e (o ∷ os) v (inl a) h =
    let later = observe_all-Extends fnv os (observe fnv o v) in
    let (c, q, t, x) = applied-clean fnv e o v a (earlier later h) in
    (c, later.applied e.index c q, t, x)
applied-OnRecord fnv e (o ∷ os) v (inr a) h = applied-OnRecord fnv e os (observe fnv o v) a h

-- In a run of observations after which the checker has nothing to report, the entries applied at one
-- index, by whatever nodes, have the same term and the same hash.
pub one_applied :
    (fnv : List ℕ → ℕ) (os : List Observation) (e e' : Entry)
    → is_ok (observe_all fnv os new_invariants) ≡ true
    → Somewhere (AppliedBy e) os
    → Somewhere (AppliedBy e') os
    → e.index ≡ e'.index
    → (e.term ≡ e'.term) × (entry_hash fnv e ≡ entry_hash fnv e')
one_applied fnv os e e' fine a a' same =
    let clean = is_ok-clean _ fine in
    let v = observe_all fnv os new_invariants in
    let (c, q, t, x) = applied-OnRecord fnv e os new_invariants a clean in
    let (c', q', t', x') = applied-OnRecord fnv e' os new_invariants a' clean in
    let one : some c ≡ some c' = sym q ∙ ap (λ i. lookup i v.applied) same ∙ q' in (cc, cc)
