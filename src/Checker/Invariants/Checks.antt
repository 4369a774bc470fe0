-- ===== src/Checker/Invariants/Checks.antt =====
-- Every part of Check in checker/invariants.go keeps the reports and the records.
use mathlib.Core.List.{append-nil}
use raft_sim.Base.{
  ℕ, zero, suc, ◌-◌, ◌≡◌, refl, sym, ap, ◌∙◌, arith, ◌&&◌, ◌||◌, not, List, [], ◌∷◌, Option, none,
  some, Option-cases, Map, lookup, insert, nat_eq, ltb, leb, nat_beq, if◌then◌else◌, Bool-cases,
  inl, inr, drop,
}
use raft_sim.Raft.State.{Node, is_leader}
use raft_sim.Raft.Log
use raft_sim.Raft.Log.{first_index, last_index}
use raft_sim.Checker.Track.{
  EntryKey, ChainVal, key_eq, CommittedVal, same_entry, NodeTrack, Violation, Invariants, violate,
}
use raft_sim.Checker.Chain.{term_at, match_chain, scan_chain, check_log_chain, same_chain}
use raft_sim.Checker.Invariants.{
  check_monotone, check_order, is_empty, check_voters, symmetric_diff, lead_term, check_election,
  check_last, check_append_only, note_committed, note_all, check_snap, record_committed,
  or_zero_val, check_held, check_all_held, check_leader_completeness,
}
use raft_sim.Checker.Invariants.Growth.{
  Extends, Extends-refl, Extends-trans, Kept, Kept-new, Kept-same, violate-Extends,
  violate_if-Extends, violate_unless-Extends, if-Extends,
}

module _ (n : Node) (t : NodeTrack) (v : Invariants) where
  pub check_monotone-Extends : Extends v (check_monotone n t v)
  unfolding check_monotone
  check_monotone-Extends =
      Extends-trans
        (violate_if-Extends (not t.restarted && ltb n.term t.term)
          (Violation.term_fell n.id t.term n.term) v)
        (violate_if-Extends (not t.restarted && ltb n.commit_index t.commit)
          (Violation.commit_fell n.id t.commit n.commit_index) _)

pub check_order-Extends : (n : Node) (vs : List ℕ) (v : Invariants) → Extends v (check_order n vs v)
unfolding check_order
check_order-Extends n [] v = Extends-refl v
check_order-Extends n (a ∷ []) v = Extends-refl v
check_order-Extends n (a ∷ b ∷ rest) v =
    Extends-trans (violate_if-Extends (leb b a) _ v) (check_order-Extends n (b ∷ rest) _)

module _ (n : Node) (t : NodeTrack) (v : Invariants) where
  pub check_voters-Extends : Extends v (check_voters n t v)
  unfolding check_voters
  check_voters-Extends =
      let d = symmetric_diff t.voters n.config.voters in
      Extends-trans (violate_if-Extends (is_empty n.config.voters) (Violation.no_voters n.id) v) (
        Extends-trans (check_order-Extends n n.config.voters _) (
          violate_if-Extends
            (is_leader n.state
              && nat_beq t.leader_term n.term
              && not (is_empty t.voters)
              && not t.restarted
              && ltb 1 d)
            (Violation.many_changes n.id d t.voters n.config.voters) _))

put_leader-Extends :
    (n : Node) (v : Invariants)
    → Kept v.leaders (insert n.term n.id v.leaders)
    → Extends v (record v { leaders = insert n.term n.id v.leaders })
put_leader-Extends n v kept = record {
  reports = ([], sym (append-nil v.violations));
  leaders = kept;
  chain = λ k y h. h;
  applied = λ k y h. h;
}

lead_term-Extends :
    (n : Node) (found : Option ℕ) (v : Invariants)
    → lookup n.term v.leaders ≡ found
    → Extends v (lead_term n found v)
lead_term-Extends n none v h = put_leader-Extends n v (Kept-new n.term n.id v.leaders h)
lead_term-Extends n (some prev) v h = elim (Bool-cases (nat_beq prev n.id)) [
  | inl same ↦ rw same (
      put_leader-Extends n v (Kept-same n.term n.id v.leaders (h ∙ ap some (ground (arith, same)))))
  | inr other ↦ rw other (violate-Extends (Violation.two_leaders n.term prev n.id) v)
]

pub check_election-Extends : (n : Node) (v : Invariants) → Extends v (check_election n v)
unfolding check_election
check_election-Extends n v = elim (Bool-cases (is_leader n.state)) [
  | inl leads ↦ rw leads (lead_term-Extends n (lookup n.term v.leaders) v refl)
  | inr follows ↦ rw follows (Extends-refl v)
]

pub check_last-Extends :
    (n : Node) (t : NodeTrack) (found : Option ℕ) (v : Invariants)
    → Extends v (check_last n t found v)
check_last-Extends n t none v = Extends-refl v
check_last-Extends n t (some tt) v =
    violate_unless-Extends (nat_beq tt t.leader_last_term)
      (Violation.leader_overwrote n.id t.leader_last t.leader_last_term tt) v

pub check_append_only-Extends :
    (n : Node) (t : NodeTrack) (v : Invariants) → Extends v (check_append_only n t v)
unfolding check_append_only
check_append_only-Extends n t v =
    if-Extends (is_leader n.state && nat_beq t.leader_term n.term && ltb 0 t.leader_last) v _ v
      (if-Extends (ltb (last_index n.log) t.leader_last) v _ _
        (violate-Extends (Violation.leader_shrank n.id n.term t.leader_last (last_index n.log)) v)
        (if-Extends (leb (first_index n.log) t.leader_last) v _ v
          (check_last-Extends n t (Log.term n.log t.leader_last) v) (Extends-refl v)))
      (Extends-refl v)

match_chain-Extends :
    (id : ℕ) (key : EntryKey) (val : ChainVal) (v : Invariants)
    → Extends v (match_chain id key val v)
unfolding match_chain
match_chain-Extends id key val v = go (lookup key v.chain) refl
  where
    go :
        (found : Option ChainVal)
        → lookup key v.chain ≡ found
        → Extends v (elim found [
          | none ↦ record v { chain = insert key val v.chain }
          | some seen ↦
              if same_chain seen val
              then v
              else violate (Violation.log_mismatch key.index key.term id) v
        ])
    go none h = record {
      reports = ([], sym (append-nil v.violations));
      leaders = λ k y g. g;
      chain = Kept-new key val v.chain h;
      applied = λ k y g. g;
    }
    go (some seen) h =
        violate_unless-Extends (same_chain seen val) (Violation.log_mismatch key.index key.term id)
          v

pub scan_chain-Extends :
    (fnv : List ℕ → ℕ) (n : Node) (k i : ℕ) (v : Invariants) → Extends v (scan_chain fnv n k i v).1
unfolding scan_chain
scan_chain-Extends fnv n zero i v = Extends-refl v
scan_chain-Extends fnv n (suc k) i v = elim (Option-cases (Log.entry n.log i)) [
  | inl hole ↦ rw (hole, scan_chain) (violate-Extends (Violation.log_hole n.id i) v)
  | inr (e, at_i) ↦
      rw (at_i, scan_chain)
        (Extends-trans (match_chain-Extends n.id _ _ v) (scan_chain-Extends fnv n k (suc i) _))
]

pub check_log_chain-Extends :
    (fnv : List ℕ → ℕ) (n : Node) (t : NodeTrack) (v : Invariants)
    → Extends v (check_log_chain fnv n t v).1
unfolding check_log_chain
check_log_chain-Extends fnv n t v = scan_chain-Extends fnv n _ _ v

put_committed-Extends :
    (m : Map ℕ CommittedVal) (order : List ℕ) (v : Invariants)
    → Extends v (record v { committed = m; commit_order = order })
put_committed-Extends m order v = record {
  reports = ([], sym (append-nil v.violations));
  leaders = λ k y h. h;
  chain = λ k y h. h;
  applied = λ k y h. h;
}

note_committed-Extends :
    (n : Node) (i : ℕ) (val : CommittedVal) (found : Option CommittedVal) (v : Invariants)
    → Extends v (note_committed n i val found v)
unfolding note_committed
note_committed-Extends n i val none v = put_committed-Extends _ _ v
note_committed-Extends n i val (some exist) v =
    let seen =
      violate_unless-Extends (same_entry exist val)
        (Violation.committed_differs i exist.term val.term n.id) v in
    Extends-trans seen (
      if-Extends (ltb val.commit_term_ub exist.commit_term_ub) _ _ _ (put_committed-Extends _ _ _)
        (Extends-refl _))

note_all-Extends :
    (fnv : List ℕ → ℕ) (n : Node) (k i : ℕ) (v : Invariants) → Extends v (note_all fnv n k i v)
unfolding note_all
note_all-Extends fnv n zero i v = Extends-refl v
note_all-Extends fnv n (suc k) i v = elim (Option-cases (Log.entry n.log i)) [
  | inl hole ↦ rw (hole, note_all) (note_all-Extends fnv n k (suc i) v)
  | inr (e, at_i) ↦
      rw (at_i, note_all)
        (Extends-trans (note_committed-Extends n i _ (lookup i v.committed) v)
          (note_all-Extends fnv n k (suc i) _))
]

pub check_snap-Extends :
    (n : Node) (found : Option CommittedVal) (v : Invariants) → Extends v (check_snap n found v)
check_snap-Extends n none v = Extends-refl v
check_snap-Extends n (some exist) v =
    violate_unless-Extends (nat_beq exist.term n.log.snap_term)
      (Violation.snapshot_differs n.log.snap_index n.log.snap_term exist.term n.id) v

pub record_committed-Extends :
    (fnv : List ℕ → ℕ) (n : Node) (v : Invariants) → Extends v (record_committed fnv n v)
unfolding record_committed
record_committed-Extends fnv n v =
    let noted =
      note_all-Extends fnv n (suc n.commit_index - first_index n.log) (first_index n.log) v in
    if-Extends (ltb (last_index n.log) n.commit_index) v _ _
      (violate-Extends (Violation.commit_past_last n.commit_index (last_index n.log) n.id) v)
      (if-Extends (ltb 0 n.log.snap_index) v _ _ (Extends-trans noted (check_snap-Extends n _ _))
        noted)

pub check_held-Extends :
    (n : Node) (i : ℕ) (c : CommittedVal) (v : Invariants) → Extends v (check_held n i c v)
unfolding check_held
check_held-Extends n i c v =
    if-Extends (leb n.term c.commit_term_ub || leb i n.log.snap_index) v v _ (Extends-refl v) (
      if-Extends (ltb (last_index n.log) i) v _ _
        (violate-Extends (Violation.leader_lacks n.id n.term i) v)
        (violate_unless-Extends (nat_beq (term_at n i) c.term)
          (Violation.leader_differs n.id i (term_at n i) c.term) v))

pub check_all_held-Extends :
    (n : Node) (is : List ℕ) (v : Invariants) → Extends v (check_all_held n is v)
unfolding check_all_held
check_all_held-Extends n [] v = Extends-refl v
check_all_held-Extends n (i ∷ rest) v =
    Extends-trans (check_held-Extends n i (or_zero_val (lookup i v.committed)) v)
      (check_all_held-Extends n rest _)

pub check_leader_completeness-Extends :
    (n : Node) (t : NodeTrack) (v : Invariants) → Extends v (check_leader_completeness n t v).1
unfolding check_leader_completeness
check_leader_completeness-Extends n t v = elim (Bool-cases (is_leader n.state)) [
  | inl leads ↦ rw leads (check_all_held-Extends n (drop t.verified v.commit_order) v)
  | inr follows ↦ rw follows (Extends-refl v)
]
