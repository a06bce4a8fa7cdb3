-- ===== src/Bits/Shift.antt =====
-- lib/srfi/151/bit.c: a shift multiplies or divides by a power of two.
use native.Mathlib.Nat.{div-div-eq-div-mul, div-eq_of_lt, mul-le-mul_left}
use chibi_scheme.Prelude.{
  ℕ, zero, suc, ◌+◌, ◌-◌, ◌*◌, ◌/◌, ◌^◌, ◌<◌, ◌≡◌, refl, sym, ap, ◌∙◌, false, List, [], ◌∷◌, ◌++◌,
  ltb, ◌==◌, if◌then◌else◌, arith, Bool-cases, inl, inr, word, take, drop, length, replicate,
  length-append,
}
use chibi_scheme.Prelude.Int.{ℤ, pos, negsuc}
use chibi_scheme.Bignum.Digits.{
  Sign, plus, minus, Bignum, IsBignum, AreWords, AreWords-take, value, place, signed, to_ℤ,
}
use chibi_scheme.Bignum.Hi.{
  bignum_hi, bignum_hi-ZeroAbove, value-take-ZeroAbove, value-take-lt-place, value-lt-place,
  place_mono,
}
use chibi_scheme.Bignum.Normalize.{integer_value, bignum_normalize_lem}
use chibi_scheme.Bignum.Fixnum.{fxmul_loop, fxdiv_loop}
use chibi_scheme.Bignum.Fixnum.Add.{bignum_fxadd_lem}
use chibi_scheme.Bignum.Fixnum.Scale.{
  fxmul_loop-value, fxmul_loop-AreWords, length-fxmul_loop, fxdiv_loop_lem, value-shifted,
  AreWords-append, AreWords-zeros, AreWords-drop, value-append_zeros,
}
use chibi_scheme.Bignum.Product.Parts.{place-mul, value-take-drop}
use chibi_scheme.Bignum.Text.Writing.{pow_add, place_pow}
use chibi_scheme.Bits.{right_loop, shift_left, shift_right, add_if_minus, below_all}
use chibi_scheme.Bits.Loops.{
  left_loop-fxmul_loop, right_loop-fxdiv_loop, two_pow_pos, two_pow_small, division,
}

value-snoc : (ds : List ℕ) (d : ℕ) → value (ds ++ (d ∷ [])) ≡ value ds + place (length ds) d
unfolding place
value-snoc [] d = omega arith
value-snoc (x ∷ ds) d = omega (arith, value-snoc ds d)

-- The number of bits as digits and the bits within one
power_parts : (c : ℕ) → place (c / 64) 1 * 2 ^ (c - c / 64 * 64) ≡ 2 ^ c
power_parts c =
    let e : 64 * (c / 64) + (c - c / 64 * 64) ≡ c = omega arith in
    ap (λ r. r * 2 ^ (c - c / 64 * 64)) (place_pow (c / 64))
    ∙ sym (pow_add 2 (64 * (c / 64)) (c - c / 64 * 64))
    ∙ ap (λ r. 2 ^ r) e

no_carry : (b t : ℕ) → (b ≡ 0 → t ≡ 0) → (if b == 0 then 0 else t) ≡ t
no_carry zero t h = sym (h refl)
no_carry (suc b) t h = let t' : (suc b == 0) ≡ false = ground arith in rw t' refl

one_times : (ds : List ℕ) → AreWords ds → (fxmul_loop 1 0 ds).1 ≡ 0
unfolding fxmul_loop
one_times [] w = refl
one_times (d ∷ ds) w =
    let e : (d * 1 + 0) / word ≡ 0 = omega (arith, w.0) in rw e (one_times ds w.1)

regroup : (p v m q n : ℕ) → q ≡ m * v → p * m ≡ n → p * q ≡ v * n
regroup p v m q n e h = rw e rw⁻¹ h (omega arith)

-- The number that a shift to the left gives, with its sign
pub shift_left_lem :
    (a : Bignum) (c : ℕ)
    → IsBignum a
    → (to_ℤ (shift_left a c) ≡ signed a.sign (value a.digits * 2 ^ c)) × IsBignum (shift_left a c)
unfolding shift_left
shift_left_lem a c w =
    let offset = c / 64 in
    let b = c - offset * 64 in
    let used = take (bignum_hi a) a.digits in
    let words = AreWords-take (bignum_hi a) a.digits w.words in
    let loop = left_loop-fxmul_loop b 0 used (omega arith) (two_pow_pos b) words in
    let product = fxmul_loop-value (2 ^ b) 0 used in
    let fits =
      fxmul_loop-AreWords (2 ^ b) 0 used (two_pow_small b (omega arith)) (omega arith) words in
    let moved = fxmul_loop (2 ^ b) 0 used in
    let top : (if b == 0 then 0 else moved.1) ≡ moved.1 =
      no_carry b moved.1 (λ z. (rw z (one_times used words))) in
    let all = value-take-ZeroAbove (bignum_hi a) a.digits (bignum_hi-ZeroAbove a w) in
    let digits = moved.0 ++ (moved.1 ∷ []) in
    let long = length-fxmul_loop (2 ^ b) 0 used in
    let whole : value digits ≡ 2 ^ b * value a.digits =
      value-snoc moved.0 moved.1
      ∙ ap (λ n. value moved.0 + place n moved.1) long
      ∙ product
      ∙ omega arith
      ∙ ap (λ n. 2 ^ b * n) all in
    let e : value (replicate offset 0 ++ digits) ≡ value a.digits * 2 ^ c =
      value-shifted offset digits
      ∙ place-mul offset (value digits)
      ∙ regroup (place offset 1) (value a.digits) (2 ^ b) (value digits) (2 ^ c) whole
          (power_parts c) in
    rw loop rw top (
      ap (signed a.sign) e,
      record {
        nonempty = omega (
          arith,
          length-append (replicate {A = ℕ} offset 0) digits,
          length-append moved.0 (moved.1 ∷ []),
        );
        words =
            AreWords-append (replicate offset 0) digits (AreWords-zeros offset)
              (AreWords-append moved.0 (moved.1 ∷ []) fits.0 (fits.1, tt));
      },
    )

-- What a shift of a bignum makes of the quotient of its magnitude: below zero 1 is always added.
abbrev pub moved_right : Sign → ℕ → ℤ
moved_right plus n = pos n
moved_right minus n = negsuc n

value-drop : (n : ℕ) (ds : List ℕ) → AreWords ds → value (drop n ds) ≡ value ds / place n 1
value-drop n ds w =
    let e = value-take-drop n ds in
    let l = value-take-lt-place n ds w in
    let m = place-mul n (value (drop n ds)) in
    sym (
      (division (value ds) (value (drop n ds)) (place n 1) (value (take n ds))
        (sym e ∙ omega (arith, m)) l).0)

add_if_minus_lem :
    (s : Sign) (res : Bignum)
    → IsBignum res
    → res.sign ≡ s
    → (to_ℤ (add_if_minus s res) ≡ moved_right s (value res.digits)) × IsBignum (add_if_minus s res)
unfolding add_if_minus
add_if_minus_lem plus res w h = (rw h refl, w)
add_if_minus_lem minus res w h =
    let (e, f, r) = bignum_fxadd_lem res 1 w (omega arith) in
    let g : value res.digits + 1 ≡ suc (value res.digits) = omega arith in
    ((rw e rw f rw h rw g refl), r)

below_all_lem : (s : Sign) → below_all s ≡ moved_right s 0
unfolding below_all
below_all_lem plus = refl
below_all_lem minus = refl

-- Every digit goes out.
nothing_left : (a : Bignum) (c : ℕ) → IsBignum a → bignum_hi a < c / 64 → value a.digits / 2 ^ c ≡ 0
nothing_left a c w h =
    let l = value-lt-place (bignum_hi a) a.digits w.words (bignum_hi-ZeroAbove a w) in
    let m = place_mono (bignum_hi a) (c / 64) (omega arith) in
    let p = power_parts c in
    let t = mul-le-mul_left (place (c / 64) 1) (two_pow_pos (c - c / 64 * 64)) in
    div-eq_of_lt (omega (arith, l, m, p, t))

bits_left :
    (a : Bignum) (c : ℕ)
    → IsBignum a
    → let ds = (right_loop (c - c / 64 * 64) (drop (c / 64) (take (bignum_hi a) a.digits))).0 in
      (value ds ≡ value a.digits / 2 ^ c) × AreWords ds
bits_left a c w =
    let offset = c / 64 in
    let b = c - offset * 64 in
    let used = take (bignum_hi a) a.digits in
    let words = AreWords-take (bignum_hi a) a.digits w.words in
    let kept = drop offset used in
    let kept_words = AreWords-drop offset used words in
    let loop = right_loop-fxdiv_loop b kept (omega arith) kept_words in
    let (e, below, quotient) =
      fxdiv_loop_lem (2 ^ b) kept (two_pow_pos b) (two_pow_small b (omega arith)) kept_words in
    let (q, r) =
      division (value kept) (value (fxdiv_loop (2 ^ b) kept).0) (2 ^ b) _ (sym e) below in
    let all = value-take-ZeroAbove (bignum_hi a) a.digits (bignum_hi-ZeroAbove a w) in
    rw loop (
      sym q
          ∙ ap (λ n. n / 2 ^ b) (value-drop offset used words ∙ ap (λ n. n / place offset 1) all)
          ∙ div-div-eq-div-mul (value a.digits) (place offset 1) (2 ^ b)
          ∙ ap (λ n. value a.digits / n) (power_parts c),
      quotient,
    )

pub shift_right_lem :
    (a : Bignum) (c : ℕ)
    → IsBignum a
    → integer_value (shift_right a c) ≡ moved_right a.sign (value a.digits / 2 ^ c)
unfolding shift_right
shift_right_lem a c w = elim (Bool-cases (ltb (bignum_hi a) (c / 64))) [
  | inl t ↦
      rw t
        (below_all_lem a.sign ∙ ap (moved_right a.sign) (sym (nothing_left a c w (ground arith))))
  | inr t ↦
      let moved = (right_loop (c - c / 64 * 64) (drop (c / 64) (take (bignum_hi a) a.digits))).0 in
      let (e, words) = bits_left a c w in
      let res : Bignum = record { sign = a.sign; digits = moved ++ (0 ∷ []) } in
      let good : IsBignum res = record {
        nonempty = omega (arith, length-append moved (0 ∷ []));
        words = AreWords-append moved (0 ∷ []) words (omega arith, tt);
      } in
      let (f, r) = add_if_minus_lem a.sign res good refl in
      rw t (
        (bignum_normalize_lem (add_if_minus a.sign res) r).0
        ∙ f
        ∙ ap (moved_right a.sign) (value-append_zeros moved (0 ∷ []) refl ∙ e))
]
