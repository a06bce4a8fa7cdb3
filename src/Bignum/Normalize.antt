-- ===== src/Bignum/Normalize.antt =====
-- `sexp_bignum_normalize` of bignum.c: an integer in its smallest representation.
use chibi_scheme.Prelude.{
  ℕ, zero, suc, ◌+◌, ◌-◌, ◌≤◌, ◌<◌, ◌≡◌, refl, ◌↔◌, Bool, true, false, not, ◌&&◌, arith, ◌==◌,
  if◌then◌else◌, Bool-cases, inl, inr, get_or, word, ltb,
}
use chibi_scheme.Prelude.Int.{ℤ, pos, negsuc}
use chibi_scheme.Bignum.Digits.{Sign, plus, minus, Bignum, IsBignum, value, signed, to_ℤ, place}
use chibi_scheme.Bignum.Hi.{
  bignum_hi, bignum_hi-ZeroAbove, bignum_hi_bounds, bignum_hi_top, value-one_digit, place-le-value,
  place_mono,
}

-- SEXP_MAX_FIXNUM on a 64-bit build: 2 ^ 62 - 1.
abbrev pub max_fixnum : ℕ
max_fixnum = 4_611_686_018_427_387_903

-- An exact integer object: an immediate, or a pointer to a bignum.
pub data Integer : Type 0 where
  fixnum : ℤ → Integer
  big : Bignum → Integer

abbrev pub is_fixnum : Integer → Bool
is_fixnum (fixnum z) = true
is_fixnum (big a) = false

abbrev pub integer_value : Integer → ℤ
integer_value (fixnum z) = z
integer_value (big a) = to_ℤ a

-- SEXP_MIN_FIXNUM ≤ z ≤ SEXP_MAX_FIXNUM
abbrev pub FitsFixnum : ℤ → Type 0
FitsFixnum (pos n) = n ≤ max_fixnum
FitsFixnum (negsuc n) = n ≤ max_fixnum

is_minus : Sign → Bool
is_minus plus = false
is_minus minus = true

-- What is done with an object that is a bignum; any other is returned as it is.
unfoldable pub bignum_normalize : Bignum → Integer
unfolding is_minus
bignum_normalize a =
    let low = get_or a.digits 0 0 in
    if ltb 1 (bignum_hi a)
    then big a
    else if ltb max_fixnum low && not (is_minus a.sign && low == max_fixnum + 1)
    then big a
    else fixnum (signed a.sign low)

hi_one : (a : Bignum) → IsBignum a → ltb 1 (bignum_hi a) ≡ false → bignum_hi a ≡ 1
hi_one a w h = ground (arith, bignum_hi_bounds a w)

pub low_digit :
    (a : Bignum) → IsBignum a → ltb 1 (bignum_hi a) ≡ false → value a.digits ≡ get_or a.digits 0 0
low_digit a w h = value-one_digit a.digits (rw (hi_one a w h) at (bignum_hi-ZeroAbove a w))

pub big_magnitude : (a : Bignum) → IsBignum a → 1 < bignum_hi a → word ≤ value a.digits
unfolding place
big_magnitude a w h = omega (
  arith,
  place_mono 1 (bignum_hi a - 1) (omega arith),
  place-le-value (bignum_hi a - 1) a.digits (bignum_hi_top a h),
)

large : (s : Sign) (n : ℕ) → max_fixnum + 1 < n → ¬ FitsFixnum (signed s n)
large plus n h = omega arith
large minus zero h = omega arith
large minus (suc n) h = omega arith

-- The test on the low digit.
keeps_big : Sign → ℕ → Bool
keeps_big s n = ltb max_fixnum n && not (is_minus s && n == max_fixnum + 1)

keeps_big-fits : (s : Sign) (n : ℕ) → keeps_big s n ≡ false → FitsFixnum (signed s n)
unfolding keeps_big is_minus
keeps_big-fits plus n h = ground arith
keeps_big-fits minus zero h = omega arith
keeps_big-fits minus (suc n) h = ground arith

keeps_big-large : (s : Sign) (n : ℕ) → keeps_big s n ≡ true → ¬ FitsFixnum (signed s n)
unfolding keeps_big is_minus
keeps_big-large plus n h = ground arith
keeps_big-large minus zero h = ground arith
keeps_big-large minus (suc n) h = ground arith

-- Normalising keeps the integer, and the result is an immediate exactly if the integer fits one.
pub bignum_normalize_lem :
    (a : Bignum)
    → IsBignum a
    → (integer_value (bignum_normalize a) ≡ to_ℤ a)
      × ((is_fixnum (bignum_normalize a) ≡ true) ↔ FitsFixnum (to_ℤ a))
unfolding bignum_normalize keeps_big
bignum_normalize_lem a w = elim (Bool-cases (ltb 1 (bignum_hi a))) [
  | inl e ↦
      let far = large a.sign (value a.digits) (omega (arith, big_magnitude a w (ground arith))) in
      rw e (refl, ((λ h. cc), λ fits. absurd (far fits)))
  | inr e ↦
      let low = low_digit a w e in
      elim (Bool-cases (keeps_big a.sign (get_or a.digits 0 0))) [
        | inl k ↦
            rw (e, k, low) (refl, ((λ h. cc), λ fits. absurd (keeps_big-large a.sign _ k fits)))
        | inr k ↦ rw (e, k, low) (refl, ((λ h. keeps_big-fits a.sign _ k), λ fits. refl))
      ]
]
