-- ===== src/Bignum/Hi.antt =====
-- `sexp_bignum_hi` (the number of digits in use) and `sexp_bignum_zerop` of bignum.c.
use chibi_scheme.Prelude.{
  ℕ, zero, suc, ◌+◌, ◌-◌, ◌≤◌, ◌<◌, ◌≡◌, refl, ◌↔◌, Bool, true, false, List, [], ◌∷◌, arith, ◌==◌,
  if◌then◌else◌, Bool-cases, inl, inr, length, take, get_or,
}
use chibi_scheme.Bignum.Digits.{
  Bignum, IsBignum, value, AreWords, ZeroAbove, value-ZeroAbove_zero, place,
}

-- while ((i > 0) && ! data[i]) i--; return i + 1;
hi_loop : List ℕ → ℕ → ℕ
hi_loop ds zero = 1
hi_loop ds (suc i) = if get_or ds (suc i) 0 == 0 then hi_loop ds i else suc (suc i)

unfoldable pub bignum_hi : Bignum → ℕ
unfolding hi_loop
bignum_hi a = hi_loop a.digits (length a.digits - 1)

-- for (i = length - 1; i >= 0; i--) if (data[i]) return 0; return 1;
zero_loop : List ℕ → ℕ → Bool
zero_loop ds zero = true
zero_loop ds (suc i) = if get_or ds i 0 == 0 then zero_loop ds i else false

unfoldable pub bignum_zerop : Bignum → Bool
unfolding zero_loop
bignum_zerop a = zero_loop a.digits (length a.digits)

pub ZeroAbove-length : (ds : List ℕ) (n : ℕ) → length ds ≤ n → ZeroAbove n ds
ZeroAbove-length [] n h = tt
ZeroAbove-length (d ∷ ds) zero h = absurd (omega arith)
ZeroAbove-length (d ∷ ds) (suc n) h = ZeroAbove-length ds n (omega arith)

pub ZeroAbove-down :
    (n : ℕ) (ds : List ℕ) → get_or ds n 0 ≡ 0 → ZeroAbove (suc n) ds → ZeroAbove n ds
ZeroAbove-down n [] e z = tt
ZeroAbove-down zero (d ∷ ds) e z = (e, z)
ZeroAbove-down (suc n) (d ∷ ds) e z = ZeroAbove-down n ds e z

hi_loop-ZeroAbove : (ds : List ℕ) (i : ℕ) → ZeroAbove (suc i) ds → ZeroAbove (hi_loop ds i) ds
unfolding hi_loop
hi_loop-ZeroAbove ds zero z = z
hi_loop-ZeroAbove ds (suc i) z = elim (Bool-cases (get_or ds (suc i) 0 == 0)) [
  | inl e ↦ rw e (hi_loop-ZeroAbove ds i (ZeroAbove-down (suc i) ds (ground arith) z))
  | inr e ↦ rw e z
]

hi_loop_bounds : (ds : List ℕ) (i : ℕ) → (1 ≤ hi_loop ds i) × (hi_loop ds i ≤ suc i)
unfolding hi_loop
hi_loop_bounds ds zero = omega arith
hi_loop_bounds ds (suc i) = ground (arith, hi_loop_bounds ds i)

hi_loop_top : (ds : List ℕ) (i : ℕ) → 1 < hi_loop ds i → 0 < get_or ds (hi_loop ds i - 1) 0
unfolding hi_loop
hi_loop_top ds zero h = absurd (omega arith)
hi_loop_top ds (suc i) h = elim (Bool-cases (get_or ds (suc i) 0 == 0)) [
  | inl e ↦ rw e (hi_loop_top ds i (rw e at h))
  | inr e ↦ rw e (ground arith)
]

pub bignum_hi-ZeroAbove : (a : Bignum) → IsBignum a → ZeroAbove (bignum_hi a) a.digits
unfolding bignum_hi
bignum_hi-ZeroAbove a w =
    hi_loop-ZeroAbove a.digits (length a.digits - 1)
      (ZeroAbove-length a.digits _ (omega (arith, w.nonempty)))

pub bignum_hi_bounds :
    (a : Bignum) → IsBignum a → (1 ≤ bignum_hi a) × (bignum_hi a ≤ length a.digits)
unfolding bignum_hi
bignum_hi_bounds a w = omega (arith, w.nonempty, hi_loop_bounds a.digits (length a.digits - 1))

-- The top digit in use is not zero, unless it is the only one.
pub bignum_hi_top : (a : Bignum) → 1 < bignum_hi a → 0 < get_or a.digits (bignum_hi a - 1) 0
unfolding bignum_hi
bignum_hi_top a = hi_loop_top a.digits (length a.digits - 1)

pub value-take-ZeroAbove : (n : ℕ) (ds : List ℕ) → ZeroAbove n ds → value (take n ds) ≡ value ds
value-take-ZeroAbove zero [] z = refl
value-take-ZeroAbove zero (d ∷ ds) z = omega (arith, value-ZeroAbove_zero ds z.1)
value-take-ZeroAbove (suc n) [] z = refl
value-take-ZeroAbove (suc n) (d ∷ ds) z = omega (arith, value-take-ZeroAbove n ds z)

module _ where
  zero_loop_sound : (ds : List ℕ) (i : ℕ) → ZeroAbove i ds → zero_loop ds i ≡ true → value ds ≡ 0
  unfolding zero_loop
  zero_loop_sound ds zero z h = value-ZeroAbove_zero ds z
  zero_loop_sound ds (suc i) z h = elim (Bool-cases (get_or ds i 0 == 0)) [
    | inl e ↦ zero_loop_sound ds i (ZeroAbove-down i ds (ground arith) z) (rw e at h)
    | inr e ↦ absurd (cc)
  ]

  get_or-value_zero : (ds : List ℕ) (i : ℕ) → value ds ≡ 0 → get_or ds i 0 ≡ 0
  get_or-value_zero [] i h = refl
  get_or-value_zero (d ∷ ds) zero h = omega arith
  get_or-value_zero (d ∷ ds) (suc i) h = get_or-value_zero ds i (omega arith)

  zero_loop_complete : (ds : List ℕ) (i : ℕ) → value ds ≡ 0 → zero_loop ds i ≡ true
  unfolding zero_loop
  zero_loop_complete ds zero h = refl
  zero_loop_complete ds (suc i) h =
      ground (arith, get_or-value_zero ds i h, zero_loop_complete ds i h)

-- `sexp_bignum_zerop` answers yes exactly for the magnitude zero.
pub bignum_zerop_iff : (a : Bignum) → (bignum_zerop a ≡ true) ↔ (value a.digits ≡ 0)
unfolding bignum_zerop
bignum_zerop_iff a = (
  zero_loop_sound a.digits _ (ZeroAbove-length a.digits _ (omega arith)),
  zero_loop_complete a.digits _,
)

-- The weight of a digit, and how the digits in use bound the magnitude.
pub place_add : (n a b : ℕ) → place n (a + b) ≡ place n a + place n b
unfolding place
place_add zero a b = refl
place_add (suc n) a b = omega (arith, place_add n a b)

pub place_mono : (n m : ℕ) → n ≤ m → place n 1 ≤ place m 1
unfolding place
place_mono zero zero h = omega arith
place_mono zero (suc m) h = omega (arith, place_mono zero m (omega arith))
place_mono (suc n) zero h = absurd (omega arith)
place_mono (suc n) (suc m) h = omega (arith, place_mono n m (omega arith))

pub value-lt-place : (n : ℕ) (ds : List ℕ) → AreWords ds → ZeroAbove n ds → value ds < place n 1
unfolding place
value-lt-place zero [] w z = omega arith
value-lt-place zero (d ∷ ds) w z = omega (arith, value-ZeroAbove_zero ds z.1)
value-lt-place (suc n) [] w z = omega (arith, value-lt-place n [] tt tt)
value-lt-place (suc n) (d ∷ ds) w z = omega (arith, value-lt-place n ds w.1 z, w.0)

pub place-le-value : (n : ℕ) (ds : List ℕ) → 0 < get_or ds n 0 → place n 1 ≤ value ds
unfolding place
place-le-value n [] h = absurd (omega arith)
place-le-value zero (d ∷ ds) h = omega arith
place-le-value (suc n) (d ∷ ds) h = omega (arith, place-le-value n ds h)

pub value-take-suc :
    (n : ℕ) (ds : List ℕ) → value (take (suc n) ds) ≡ value (take n ds) + place n (get_or ds n 0)
unfolding place
value-take-suc zero [] = omega arith
value-take-suc zero (d ∷ ds) = omega arith
value-take-suc (suc n) [] = omega (arith, value-take-suc n [])
value-take-suc (suc n) (d ∷ ds) = omega (arith, value-take-suc n ds)

pub value-take-lt-place : (n : ℕ) (ds : List ℕ) → AreWords ds → value (take n ds) < place n 1
unfolding place
value-take-lt-place zero ds w = omega arith
value-take-lt-place (suc n) [] w = omega (arith, value-take-lt-place n [] tt)
value-take-lt-place (suc n) (d ∷ ds) w = omega (arith, value-take-lt-place n ds w.1, w.0)

-- The one digit in use is the magnitude.
pub value-one_digit : (ds : List ℕ) → ZeroAbove 1 ds → value ds ≡ get_or ds 0 0
value-one_digit [] z = refl
value-one_digit (d ∷ ds) z = omega (arith, value-ZeroAbove_zero ds z)
