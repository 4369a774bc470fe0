-- ===== src/Checker/Linear/Keys.antt =====
-- The keys of `visited` in checker/linear.go tell the states of the search apart.
use raft_sim.Base.{
  ℕ, zero, suc, ◌+◌, ◌*◌, ◌^◌, ◌<◌, ◌≡◌, refl, ap, arith, Bool, true, false, List, [], ◌∷◌, ◌++◌,
  length, length-append, nat_beq, if◌then◌else◌, Bool-cases, inl, inr,
}
use raft_sim.Checker.Linear.{RegState, bit, pack, digit, memo_key}

pow-suc : (i : ℕ) → 2 ^ suc i ≡ 2 * 2 ^ i
pow-suc i = omega arith

pack-suc :
    (i acc : ℕ) (b : Bool) (bs : List Bool)
    → pack i acc (b ∷ bs) ≡ (
        if nat_beq i 7
        then (acc + bit b * 2 ^ i) ∷ pack 0 0 bs
        else pack (suc i) (acc + bit b * 2 ^ i) bs)
unfolding pack
pack-suc i acc b bs = ground arith

bits_apart :
    (p a a' : ℕ) (b b' : Bool)
    → a < p
    → a' < p
    → a + bit b * p ≡ a' + bit b' * p
    → (a ≡ a') × (b ≡ b')
bits_apart p a a' true true h h' e = (omega arith, refl)
bits_apart p a a' true false h h' e = absurd (omega arith)
bits_apart p a a' false true h h' e = absurd (omega arith)
bits_apart p a a' false false h h' e = (omega arith, refl)

bits_below : (i a : ℕ) (b : Bool) → a < 2 ^ i → a + bit b * 2 ^ i < 2 ^ suc i
bits_below i a true h = omega (arith, pow-suc i)
bits_below i a false h = omega (arith, pow-suc i)

-- Two masks of one length that are packed alike are the same, and so are the bytes begun.
pack_apart :
    (i a a' : ℕ) (xs ys : List Bool)
    → length xs ≡ length ys
    → a < 2 ^ i
    → a' < 2 ^ i
    → pack i a xs ≡ pack i a' ys
    → (a ≡ a') × (xs ≡ ys)
unfolding pack
pack_apart zero a a' [] [] l h h' e = (omega arith, refl)
pack_apart (suc i) a a' [] [] l h h' e = ground arith
pack_apart i a a' [] (y ∷ ys) l h h' e = absurd (omega arith)
pack_apart i a a' (x ∷ xs) [] l h h' e = absurd (omega arith)
pack_apart i a a' (x ∷ xs) (y ∷ ys) l h h' e = elim (Bool-cases (nat_beq i 7)) [
  | inl last ↦
      let heads : a + bit x * 2 ^ i ≡ a' + bit y * 2 ^ i = ground (arith, last, e) in
      let tails : pack 0 0 xs ≡ pack 0 0 ys = ground (arith, last, e) in
      let (same, bits) = bits_apart (2 ^ i) a a' x y h h' heads in
      let (_, rest) = pack_apart 0 0 0 xs ys (omega arith) (omega arith) (omega arith) tails in
      (same, cc)
  | inr more ↦
      let byte = λ (acc : ℕ) (b : Bool). acc + bit b * 2 ^ i in
      let both : pack (suc i) (byte a x) xs ≡ pack (suc i) (byte a' y) ys =
        ground (arith, more, e) in
      let (heads, rest) =
        pack_apart (suc i) (byte a x) (byte a' y) xs ys (omega arith) (bits_below i a x h)
          (bits_below i a' y h') both in
      let (same, bits) = bits_apart (2 ^ i) a a' x y h h' heads in (same, cc)
]

length-pack :
    (i a a' : ℕ) (xs ys : List Bool)
    → length xs ≡ length ys
    → length (pack i a xs) ≡ length (pack i a' ys)
unfolding pack
length-pack i a a' [] [] l = ground arith
length-pack i a a' [] (y ∷ ys) l = absurd (omega arith)
length-pack i a a' (x ∷ xs) [] l = absurd (omega arith)
length-pack i a a' (x ∷ xs) (y ∷ ys) l = ground (
  arith,
  length-pack 0 0 0 xs ys,
  length-pack (suc i) (a + bit x * 2 ^ i) (a' + bit y * 2 ^ i) xs ys,
)

append_apart :
    (xs xs' ys ys' : List ℕ)
    → length xs ≡ length xs'
    → xs ++ ys ≡ xs' ++ ys'
    → (xs ≡ xs') × (ys ≡ ys')
append_apart [] [] ys ys' l e = (refl, e)
append_apart [] (x' ∷ xs') ys ys' l e = absurd (omega arith)
append_apart (x ∷ xs) [] ys ys' l e = absurd (omega arith)
append_apart (x ∷ xs) (x' ∷ xs') ys ys' l e =
    let (same, rest) = append_apart xs xs' ys ys' (omega arith) (ground arith) in
    (ground arith, rest)

digit_apart : (b b' : Bool) → digit b ≡ digit b' → b ≡ b'
digit_apart true true e = refl
digit_apart true false e = absurd (omega arith)
digit_apart false true e = absurd (omega arith)
digit_apart false false e = refl

-- Equal keys of masks over the same operations come from the same state of the search.
pub memo_key_apart :
    (xs ys : List Bool) (st st' : RegState)
    → length xs ≡ length ys
    → memo_key xs st ≡ memo_key ys st'
    → (xs ≡ ys) × (st ≡ st')
unfolding memo_key
memo_key_apart xs ys st st' l e =
    let (masks, rest) =
      append_apart (pack 0 0 xs) (pack 0 0 ys) _ _ (length-pack 0 0 0 xs ys l) e in
    let tails : st.value ++ (0 ∷ digit st.present ∷ [])
        ≡ st'.value ++ (0 ∷ digit st'.present ∷ []) =
      cc in
    let lengths : length st.value ≡ length st'.value = omega (
      arith,
      ap length tails,
      length-append st.value (0 ∷ digit st.present ∷ []),
      length-append st'.value (0 ∷ digit st'.present ∷ []),
    ) in
    let (values, ends) = append_apart st.value st'.value _ _ lengths tails in
    let present : st.present ≡ st'.present =
      digit_apart st.present st'.present (ground (arith, ends)) in
    (
      (pack_apart 0 0 0 xs ys l (omega arith) (omega arith) masks).1,
      ground (arith, values, present),
    )
