-- ===== src/Checker/Chain/Incremental.antt =====
-- What checkLogChain of checker/invariants.go passes over: a log with the terms that it had.
use raft_sim.Base.{
  ℕ, zero, suc, ◌+◌, ◌-◌, ◌^◌, ◌≤◌, ◌<◌, ◌≡◌, refl, ap, ◌∙◌, arith, true, List, none, some, ltb,
  nat_beq_iff, length, get_elem?, add64, sub64,
}
use raft_sim.Raft.State.{Node}
use raft_sim.Raft.Log.{first_index, last_index}
use raft_sim.Checker.Track.{NodeTrack, Invariants}
use raft_sim.Checker.Chain.{
  term_at, is_term, first_change, upto, atleast, scan_from, scan_chain, terms_from, check_log_chain,
}

length-terms_from : (n : Node) (k i : ℕ) → length (terms_from n k i) ≡ k
unfolding terms_from
length-terms_from n zero i = refl
length-terms_from n (suc k) i = ap suc (length-terms_from n k (suc i))

get_elem?-terms_from :
    (n : Node) (k i j : ℕ) → j < k → get_elem? (terms_from n k i) j ≡ some (term_at n (i + j))
unfolding terms_from
get_elem?-terms_from n zero i j h = absurd (omega arith)
get_elem?-terms_from n (suc k) i zero h = ap (λ m. some (term_at n m)) (omega arith)
get_elem?-terms_from n (suc k) i (suc j) h =
    get_elem?-terms_from n k (suc i) j (omega arith) ∙ ap (λ m. some (term_at n m)) (omega arith)

is_term_refl : (t : ℕ) → is_term t (some t) ≡ true
is_term_refl t = (nat_beq_iff t t).1 refl

first_change-none :
    (n : Node) (first : ℕ) (terms : List ℕ) (k i : ℕ)
    → ((j : ℕ) → i ≤ j → j < i + k → get_elem? terms (j - first) ≡ some (term_at n j))
    → first_change k i n first terms ≡ none
unfolding first_change
first_change-none n first terms zero i h = refl
first_change-none n first terms (suc k) i h =
    let later =
      first_change-none n first terms k (suc i) (λ j le lt. h j (omega arith) (omega arith)) in
    rw (h i (omega arith) (omega arith), is_term_refl (term_at n i)) later

module _ (n : Node) (bound : n.log.snap_index + length n.log.entries + 1 < 2 ^ 64) where
  first_index-eq : first_index n.log ≡ n.log.snap_index + 1
  unfolding first_index
  first_index-eq = omega arith

  last_index-eq : last_index n.log ≡ n.log.snap_index + length n.log.entries
  unfolding last_index
  last_index-eq = omega arith

  -- The terms that checkLogChain copies.
  abbrev pub copied : List ℕ
  copied = terms_from n (suc (last_index n.log) - first_index n.log) (first_index n.log)

  length-copied : length copied ≡ length n.log.entries
  length-copied =
      length-terms_from n (suc (last_index n.log) - first_index n.log) (first_index n.log)
      ∙ omega (arith, first_index-eq, last_index-eq)

  unchanged :
      (k : ℕ)
      → k ≤ suc (last_index n.log) - first_index n.log
      → first_change k (first_index n.log) n (first_index n.log) copied ≡ none
  unchanged k le = first_change-none n (first_index n.log) copied k (first_index n.log) (λ j h q.
      get_elem?-terms_from n (suc (last_index n.log) - first_index n.log) (first_index n.log)
        (j - first_index n.log) (omega arith)
      ∙ ap (λ m. some (term_at n m)) (omega arith))

  observed_to : sub64 (add64 (first_index n.log) (length copied)) 1 ≡ last_index n.log
  observed_to = omega (arith, first_index-eq, last_index-eq, length-copied)

  atleast-same : atleast (first_index n.log) (first_index n.log) ≡ first_index n.log
  atleast-same = ground arith

  upto-same : upto (last_index n.log) (last_index n.log) ≡ last_index n.log
  upto-same = ground arith

  scan_from-copied : scan_from n (first_index n.log) (some copied) ≡ suc (last_index n.log)
  unfolding scan_from
  scan_from-copied =
      let same = unchanged (suc (last_index n.log) - first_index n.log) (omega arith) in
      let next : add64 (last_index n.log) 1 ≡ suc (last_index n.log) =
        omega (arith, last_index-eq) in
      let back : sub64 (suc (last_index n.log)) 1 ≡ last_index n.log =
        omega (arith, last_index-eq) in
      let behind : ltb (last_index n.log) (suc (last_index n.log)) ≡ true = ground arith in
      rw (observed_to, atleast-same, upto-same, same, next, back)
        (ground (arith, first_index-eq, last_index-eq))

  -- A log that ends below the last uint64 and has the terms that were copied from it is not looked at
  -- again, whatever its entries hold now: nothing is reported and nothing goes on record.
  pub check_log_chain-copied :
      (fnv : List ℕ → ℕ) (t : NodeTrack) (v : Invariants)
      → t.terms ≡ some copied
      → t.log_first ≡ first_index n.log
      → (check_log_chain fnv n t v).1 ≡ v
  unfolding check_log_chain scan_chain
  check_log_chain-copied fnv t v h q =
      let none_left : suc (last_index n.log) - suc (last_index n.log) ≡ 0 = omega arith in
      rw (h, q, scan_from-copied, none_left) refl
