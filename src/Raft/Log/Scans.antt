-- ===== src/Raft/Log/Scans.antt =====
-- The two searches of raft/log.go that the fast backup of AppendEntries uses.
use raft_sim.Base.{
  ℕ, zero, suc, ◌-◌, ◌≤◌, ◌<◌, ◌≡◌, ◌≢◌, refl, ap, subst, arith, some, ◌⊎◌, inl, inr, Bool, true,
  false, ◌&&◌, if◌then◌else◌, ltb, leb, nat_beq, Bool-cases, dec_lt,
}
use raft_sim.Raft.Log.{
  RaftLog, first_index, last_index, term, first_index_of_term, last_index_from, last_index_of_term,
  has_term, term_or_zero,
}
use raft_sim.Raft.Log.Terms.{WellFormed, entry_lem}

-- The result of the first search: the indexes from it to `from` all have the term, and the one before
-- it does not, unless it is the first of the log.
pub record FirstOf (l : RaftLog) (from t r : ℕ) : Type 0 where
  pub le : r ≤ from
  pub all : (j : ℕ) → r ≤ j → j ≤ from → term l j ≡ some t
  pub before : (r ≤ first_index l) ⊎ (term l (r - 1) ≢ some t)

abbrev goes_on : RaftLog → ℕ → ℕ → Bool
goes_on l i t = ltb (first_index l) (suc i) && has_term (term l i) t

first_index_of_term-on :
    (l : RaftLog) (i t : ℕ)
    → goes_on l i t ≡ true
    → first_index_of_term l (suc i) t ≡ first_index_of_term l i t
first_index_of_term-on l i t h = unfold first_index_of_term in ground arith

first_index_of_term-stop :
    (l : RaftLog) (i t : ℕ) → goes_on l i t ≡ false → first_index_of_term l (suc i) t ≡ suc i
first_index_of_term-stop l i t h = unfold first_index_of_term in ground arith

goes_on-term : (l : RaftLog) (i t : ℕ) → goes_on l i t ≡ true → term l i ≡ some t
goes_on-term l i t h = ground arith

goes_on-before :
    (l : RaftLog) (i t : ℕ)
    → goes_on l i t ≡ false
    → (suc i ≤ first_index l) ⊎ (term l (suc i - 1) ≢ some t)
goes_on-before l i t h =
    let e : suc i - 1 ≡ i = omega arith in
    rw e (elim (Bool-cases (ltb (first_index l) (suc i))) [
      | inl lt ↦ inr (λ p. ground arith)
      | inr ge ↦ inl (ground arith)
    ])

-- From an index with term t, the first search returns an index from which on all have the term, up to
-- where it started; the one before has another, or it is not above the first of the log.
pub first_index_of_term_lem :
    (l : RaftLog) (from t : ℕ)
    → term l from ≡ some t
    → FirstOf l from t (first_index_of_term l from t)
first_index_of_term_lem l zero t h =
    let stop : first_index_of_term l 0 t ≡ 0 = unfold first_index_of_term in refl in
    rw stop (record {
      le = omega arith;
      all = λ j lo hi. subst (λ k. term l k ≡ some t) (omega arith) h;
      before = inl (omega arith);
    })
first_index_of_term_lem l (suc i) t h = elim (Bool-cases (goes_on l i t)) [
  | inl on ↦
      let prev = first_index_of_term_lem l i t (goes_on-term l i t on) in
      rw (first_index_of_term-on l i t on) (record {
        le = omega (arith, prev.le);
        all = λ j lo hi. elim (dec_lt i j) [
          | yes p ↦ subst (λ k. term l k ≡ some t) (omega arith) h
          | no p ↦ prev.all j lo (omega arith)
        ];
        before = prev.before;
      })
  | inr stop ↦ rw (first_index_of_term-stop l i t stop) (record {
    le = omega arith;
    all = λ j lo hi. subst (λ k. term l k ≡ some t) (omega arith) h;
    before = goes_on-before l i t stop;
  })
]

-- Terms do not fall along the log.
abbrev pub TermsRise : RaftLog → Type 0
TermsRise l = (i j s t : ℕ) → i ≤ j → term l i ≡ some s → term l j ≡ some t → s ≤ t

pub record LastOf (l : RaftLog) (hi t r : ℕ) : Type 0 where
  pub found : r ≢ 0 → (term l r ≡ some t) × (first_index l ≤ r) × (r ≤ hi)
  pub after : (j : ℕ) → r < j → first_index l ≤ j → j ≤ hi → term l j ≢ some t

term_some :
    (l : RaftLog) (i : ℕ)
    → WellFormed l
    → first_index l ≤ i
    → i ≤ last_index l
    → term l i ≡ some (term_or_zero (term l i))
term_some l i w lo hi = let found = entry_lem l i w lo hi in ground (arith, found.3)

last_index_from-suc :
    (l : RaftLog) (i t : ℕ)
    → last_index_from l (suc i) t ≡ (
        if leb (first_index l) (suc i)
        then (if nat_beq (term_or_zero (term l (suc i))) t
            then suc i
            else if ltb (term_or_zero (term l (suc i))) t
            then 0
            else last_index_from l i t)
        else 0)
last_index_from-suc l i t = unfold last_index_from in refl

module _ (l : RaftLog) (t : ℕ) (w : WellFormed l) (rise : TermsRise l) where
  last_index_from_lem : (i : ℕ) → i ≤ last_index l → LastOf l i t (last_index_from l i t)
  last_index_from_lem zero h =
      let stop : last_index_from l 0 t ≡ 0 = unfold last_index_from in refl in
      rw stop
        (record { found = λ ne. absurd (ne refl); after = λ j lt lo hi. absurd (omega arith) })
  last_index_from_lem (suc i) h =
      let step = last_index_from-suc l i t in
      let prev = last_index_from_lem i (omega arith) in
      let pt = term_or_zero (term l (suc i)) in
      elim (dec_lt (suc i) (first_index l)) [
        | yes out ↦
            let e : last_index_from l (suc i) t ≡ 0 = ground arith in
            rw e (record {
              found = λ ne. absurd (ne refl);
              after = λ j lt lo hi. absurd (omega arith);
            })
        | no here ↦
            let at : term l (suc i) ≡ some pt = term_some l (suc i) w (omega arith) h in
            elim (Bool-cases (nat_beq pt t)) [
              | inl hit ↦
                  let e : last_index_from l (suc i) t ≡ suc i = ground arith in
                  rw e (record {
                    found = λ ne. (ground arith, omega arith, omega arith);
                    after = λ j lt lo hi. absurd (omega arith);
                  })
              | inr miss ↦ elim (Bool-cases (ltb pt t)) [
                | inl low ↦
                    let e : last_index_from l (suc i) t ≡ 0 = ground arith in
                    rw e (record {
                      found = λ ne. absurd (ne refl);
                      after = λ j lt lo hi p. ground (arith, rise j (suc i) t pt hi p at);
                    })
                | inr high ↦
                    let e : last_index_from l (suc i) t ≡ last_index_from l i t = ground arith in
                    rw e (record {
                      found = λ ne. let f = prev.found ne in (f.0, f.1, omega (arith, f.2));
                      after = λ j lt lo hi. elim (dec_lt i j) [
                        | yes last ↦
                            λ p. ground (arith, ap (term l) {x = j} {y = suc i} (omega arith))
                        | no before ↦ prev.after j lt lo (omega arith)
                      ];
                    })
              ]
            ]
      ]

-- With the invariant and with terms that do not fall, the second search returns the last index of the
-- log that has the term, and 0 where no entry has it.
pub last_index_of_term_lem :
    (l : RaftLog) (t : ℕ)
    → WellFormed l
    → TermsRise l
    → LastOf l (last_index l) t (last_index_of_term l t)
unfolding last_index_of_term
last_index_of_term_lem l t w rise = last_index_from_lem l t w rise (last_index l) (omega arith)
