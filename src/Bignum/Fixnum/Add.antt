-- ===== src/Bignum/Fixnum/Add.antt =====
-- `sexp_bignum_fxadd` adds a word to the magnitude.
use mathlib.Core.Path.{subst}
use chibi_scheme.Prelude.{
  ℕ, zero, suc, ◌+◌, ◌-◌, ◌≤◌, ◌<◌, ◌≡◌, refl, List, [], ◌∷◌, arith, ◌==◌, ltb, Bool-cases, inl,
  inr, length, word, uint_max, sym, ◌∙◌,
}
use chibi_scheme.Bignum.Digits.{
  Bignum, IsBignum, value, AreWords, ZeroAbove, place, place_zero, value-extended,
  extended-AreWords, length-extended,
}
use chibi_scheme.Bignum.Hi.{bignum_hi, bignum_hi-ZeroAbove, bignum_hi_bounds}
use chibi_scheme.Bignum.Fixnum.{Carried, fxadd_loop, push_carry, bignum_fxadd}

fxadd_loop-value :
    (left c : ℕ) (ds : List ℕ)
    → left < length ds
    → AreWords ds
    → c < word
    → value (fxadd_loop left c ds).0 + place (suc left) (fxadd_loop left c ds).1 ≡ value ds + c
unfolding fxadd_loop place
fxadd_loop-value left c [] h w b = absurd (omega arith)
fxadd_loop-value zero c (n ∷ ds) h w b = ground (arith, w.0)
fxadd_loop-value (suc left) c (n ∷ ds) h w b = elim (Bool-cases (ltb (uint_max - c) n)) [
  | inl e ↦ rw e (
      ground
        (arith, w.0, place_zero left, fxadd_loop-value left 1 ds (omega arith) w.1 (omega arith)))
  | inr e ↦ rw e (ground (arith, w.0, place_zero left))
]

fxadd_loop-ZeroAbove :
    (left c : ℕ) (ds : List ℕ)
    → ZeroAbove (suc left) ds
    → ZeroAbove (suc left) (fxadd_loop left c ds).0
unfolding fxadd_loop
fxadd_loop-ZeroAbove left c [] z = tt
fxadd_loop-ZeroAbove zero c (n ∷ ds) z = z
fxadd_loop-ZeroAbove (suc left) c (n ∷ ds) z = elim (Bool-cases (ltb (uint_max - c) n)) [
  | inl e ↦ rw e (fxadd_loop-ZeroAbove left 1 ds z)
  | inr e ↦ rw e z
]

fxadd_loop-AreWords : (left c : ℕ) (ds : List ℕ) → AreWords ds → AreWords (fxadd_loop left c ds).0
unfolding fxadd_loop
fxadd_loop-AreWords left c [] w = tt
fxadd_loop-AreWords zero c (n ∷ ds) w = (omega arith, w.1)
fxadd_loop-AreWords (suc left) c (n ∷ ds) w = elim (Bool-cases (ltb (uint_max - c) n)) [
  | inl e ↦ rw e (omega arith, fxadd_loop-AreWords left 1 ds w.1)
  | inr e ↦ rw e (omega arith, w.1)
]

fxadd_loop_shape :
    (left c : ℕ) (ds : List ℕ) → c < word → (length (fxadd_loop left c ds).0 ≡ length ds)
unfolding fxadd_loop
fxadd_loop_shape left c [] h = refl
fxadd_loop_shape zero c (n ∷ ds) h = refl
fxadd_loop_shape (suc left) c (n ∷ ds) h = elim (Bool-cases (ltb (uint_max - c) n)) [
  | inl e ↦ rw e (omega (arith, fxadd_loop_shape left 1 ds (omega arith)))
  | inr e ↦ rw e refl
]

fxadd_loop_carry : (left c : ℕ) (ds : List ℕ) → left < length ds → (fxadd_loop left c ds).1 ≤ 1
unfolding fxadd_loop
fxadd_loop_carry left c [] h = absurd (omega arith)
fxadd_loop_carry zero c (n ∷ ds) h = ground arith
fxadd_loop_carry (suc left) c (n ∷ ds) h = elim (Bool-cases (ltb (uint_max - c) n)) [
  | inl e ↦ rw e (fxadd_loop_carry left 1 ds (omega arith))
  | inr e ↦ rw e (omega arith)
]

module _ (a : Bignum) (len : ℕ) (r : Carried) (small : r.1 ≤ 1) where
  pub push_carry-value :
      ZeroAbove len r.0 → value (push_carry a len r).digits ≡ value r.0 + place len r.1
  unfolding push_carry
  push_carry-value z = elim (Bool-cases (r.1 == 0)) [
    | inl e ↦ rw e (ground (arith, place_zero len))
    | inr e ↦ let one : r.1 ≡ 1 = ground arith in rw (e, one) (value-extended r.0 len 1 z)
  ]

  pub push_carry-IsBignum : 0 < length r.0 → AreWords r.0 → IsBignum (push_carry a len r)
  unfolding push_carry
  push_carry-IsBignum h w = elim (Bool-cases (r.1 == 0)) [
    | inl e ↦ rw e (record { nonempty = h; words = w })
    | inr e ↦ rw e (record {
      nonempty = omega (arith, length-extended r.0 len 1);
      words = extended-AreWords r.0 len 1 w (omega arith);
    })
  ]

pub push_carry_sign : (a : Bignum) (len : ℕ) (r : Carried) → (push_carry a len r).sign ≡ a.sign
unfolding push_carry
push_carry_sign a len r = ground arith

fxadd_at :
    (a : Bignum) (b left : ℕ)
    → IsBignum a
    → b < word
    → bignum_hi a ≡ suc left
    → let r = push_carry a (suc left) (fxadd_loop left b a.digits) in
      (value r.digits ≡ value a.digits + b) × (r.sign ≡ a.sign) × IsBignum r
fxadd_at a b left w h len =
    let fits : left < length a.digits = omega (arith, bignum_hi_bounds a w) in
    let zeros : ZeroAbove (suc left) a.digits = rw len at (bignum_hi-ZeroAbove a w) in
    let small = fxadd_loop_carry left b a.digits fits in
    (
      push_carry-value a (suc left) _ small (fxadd_loop-ZeroAbove left b a.digits zeros)
          ∙ fxadd_loop-value left b a.digits fits w.words h,
      push_carry_sign a _ _,
      push_carry-IsBignum a (suc left) _ small
          (omega (arith, w.nonempty, fxadd_loop_shape left b a.digits h))
          (fxadd_loop-AreWords left b a.digits w.words),
    )

-- `sexp_bignum_fxadd` adds the word to the magnitude, whatever carries, and leaves a bignum of the
-- same sign.
pub bignum_fxadd_lem :
    (a : Bignum) (b : ℕ)
    → IsBignum a
    → b < word
    → (value (bignum_fxadd a b).digits ≡ value a.digits + b)
      × ((bignum_fxadd a b).sign ≡ a.sign)
      × IsBignum (bignum_fxadd a b)
unfolding bignum_fxadd
bignum_fxadd_lem a b w h =
    let left = bignum_hi a - 1 in
    let len : bignum_hi a ≡ suc left = omega (arith, bignum_hi_bounds a w) in
    let back : suc left - 1 ≡ left = omega arith in
    subst
      (λ n.
        let r = push_carry a n (fxadd_loop left b a.digits) in
        (value r.digits ≡ value a.digits + b) × (r.sign ≡ a.sign) × IsBignum r)
      (sym len) (fxadd_at a b left w h len)
