-- ===== src/Bignum/Fixnum/Scale.antt =====
-- `sexp_bignum_fxmul` and `sexp_bignum_fxdiv`: the product and the quotient by a word.
use native.Mathlib.Nat.{
  div-lt_iff_lt-mul, mod-eq-sub-div-mul, mod-lt, mod-eq_of_lt, div-add-mod', add-zero, lt_trans,
}
use mathlib.Core.Path.{ap₂}
use chibi_scheme.Prelude.{
  ℕ, zero, suc, ◌+◌, ◌*◌, ◌/◌, ◌%◌, ◌<◌, ◌≡◌, refl, List, [], ◌∷◌, ◌++◌, arith, ◌==◌, Bool-cases,
  inl, inr, length, take, drop, replicate, word, ap, sym, ◌∙◌, length-append, length-take,
  length-replicate,
}
use chibi_scheme.Bignum.Digits.{
  Bignum, IsBignum, value, AreWords, ZeroAbove, place, place_zero, value-extended,
  extended-AreWords, length-extended, AreWords-take, value-ZeroAbove_zero,
}
use chibi_scheme.Bignum.Hi.{
  bignum_hi, bignum_hi-ZeroAbove, bignum_hi_bounds, place_add, ZeroAbove-length,
  value-take-ZeroAbove,
}
use chibi_scheme.Bignum.Fixnum.{
  Dest, dest_sign, fxmul_loop, bignum_fxmul, div_step, fxdiv_loop, bignum_fxdiv,
}

-- A double word holds the product of two words and a carry: nothing is cut off.
pub product_fits : (d b c : ℕ) → d < word → b < word → c < word → d * b + c < word * word
product_fits d b c p q r = grind arith

pub fxmul_loop-value :
    (b c : ℕ) (ds : List ℕ)
    → value (fxmul_loop b c ds).0 + place (length ds) (fxmul_loop b c ds).1 ≡ b * value ds + c
unfolding fxmul_loop place
fxmul_loop-value b c [] = omega arith
fxmul_loop-value b c (d ∷ ds) = omega (arith, fxmul_loop-value b ((d * b + c) / word) ds)

pub fxmul_loop-AreWords :
    (b c : ℕ) (ds : List ℕ)
    → b < word
    → c < word
    → AreWords ds
    → AreWords (fxmul_loop b c ds).0 × ((fxmul_loop b c ds).1 < word)
unfolding fxmul_loop
fxmul_loop-AreWords b c [] p q w = (tt, q)
fxmul_loop-AreWords b c (d ∷ ds) p q w =
    let high : (d * b + c) / word < word = omega (arith, product_fits d b c w.0 p q) in
    let rest = fxmul_loop-AreWords b ((d * b + c) / word) ds p high w.1 in
    ((omega arith, rest.0), rest.1)

pub length-fxmul_loop : (b c : ℕ) (ds : List ℕ) → length (fxmul_loop b c ds).0 ≡ length ds
unfolding fxmul_loop
length-fxmul_loop b c [] = refl
length-fxmul_loop b c (d ∷ ds) = ap suc (length-fxmul_loop b ((d * b + c) / word) ds)

pub value-shifted : (k : ℕ) (ds : List ℕ) → value (replicate k 0 ++ ds) ≡ place k (value ds)
unfolding place
value-shifted zero ds = refl
value-shifted (suc k) ds = omega (arith, value-shifted k ds)

pub place-place : (n m c : ℕ) → place (n + m) c ≡ place m (place n c)
unfolding place
place-place n zero c = ap (λ k. place k c) (add-zero n)
place-place n (suc m) c =
    let e : n + suc m ≡ suc (n + m) = omega arith in rw e (omega (arith, place-place n m c))

-- One digit of the quotient: the double word `r * word + d` divided by `b`, when its quotient fits
-- a word.
module _ (b d r : ℕ) (pos : 0 < b) (small : b < word) (h : r < b) (k : d < word) where
  quotient_fits : (r * word + d) / b < word
  quotient_fits = (div-lt_iff_lt-mul pos).1 (omega arith)

  div_step_lem :
      (qs : List ℕ) → div_step b d (qs, r) ≡ ((r * word + d) / b ∷ qs, (r * word + d) % b)
  unfolding div_step
  div_step_lem qs = rw (
    mod-eq_of_lt quotient_fits,
    ← mod-eq-sub-div-mul (r * word + d) b,
    mod-eq_of_lt (lt_trans (mod-lt (r * word + d) pos) small),
  )

pub fxdiv_loop-nil : (b : ℕ) → fxdiv_loop b [] ≡ ([], 0)
unfolding fxdiv_loop
fxdiv_loop-nil b = refl

pub fxdiv_loop-cons :
    (b d : ℕ) (ds : List ℕ)
    → 0 < b
    → b < word
    → (fxdiv_loop b ds).1 < b
    → d < word
    → let (qs, r) = fxdiv_loop b ds in
      fxdiv_loop b (d ∷ ds) ≡ ((r * word + d) / b ∷ qs, (r * word + d) % b)
unfolding fxdiv_loop
fxdiv_loop-cons b d ds pos small below k =
    div_step_lem b d (fxdiv_loop b ds).1 pos small below k (fxdiv_loop b ds).0

-- The loop divides: quotient digits that are words, and a remainder below the divisor.
pub fxdiv_loop_lem :
    (b : ℕ) (ds : List ℕ)
    → 0 < b
    → b < word
    → AreWords ds
    → (value (fxdiv_loop b ds).0 * b + (fxdiv_loop b ds).1 ≡ value ds)
      × ((fxdiv_loop b ds).1 < b)
      × AreWords (fxdiv_loop b ds).0
fxdiv_loop_lem b [] pos small w = rw (fxdiv_loop-nil b) (omega arith, pos, tt)
fxdiv_loop_lem b (d ∷ ds) pos small w =
    let r = (fxdiv_loop b ds).1 in
    let (eq, below, words) = fxdiv_loop_lem b ds pos small w.1 in
    rw (fxdiv_loop-cons b d ds pos small below w.0) (
      omega (arith, eq, div-add-mod' (r * word + d) b),
      mod-lt _ pos,
      (quotient_fits b d r pos small below w.0, words),
    )

pub length-fxdiv_loop : (b : ℕ) (ds : List ℕ) → length (fxdiv_loop b ds).0 ≡ length ds
unfolding fxdiv_loop div_step
length-fxdiv_loop b [] = refl
length-fxdiv_loop b (d ∷ ds) = ap suc (length-fxdiv_loop b ds)

pub AreWords-append : (xs ys : List ℕ) → AreWords xs → AreWords ys → AreWords (xs ++ ys)
AreWords-append [] ys v w = w
AreWords-append (x ∷ xs) ys v w = (v.0, AreWords-append xs ys v.1 w)

pub AreWords-zeros : (n : ℕ) → AreWords (replicate n 0)
AreWords-zeros zero = tt
AreWords-zeros (suc n) = (omega arith, AreWords-zeros n)

pub value-append_zeros : (xs ys : List ℕ) → value ys ≡ 0 → value (xs ++ ys) ≡ value xs
value-append_zeros [] ys z = z
value-append_zeros (x ∷ xs) ys z = omega (arith, value-append_zeros xs ys z)

value-drop-ZeroAbove : (n : ℕ) (ds : List ℕ) → ZeroAbove n ds → value (drop n ds) ≡ 0
value-drop-ZeroAbove zero ds z = value-ZeroAbove_zero ds z
value-drop-ZeroAbove (suc n) [] z = refl
value-drop-ZeroAbove (suc n) (d ∷ ds) z = value-drop-ZeroAbove n ds z

pub AreWords-drop : (n : ℕ) (ds : List ℕ) → AreWords ds → AreWords (drop n ds)
AreWords-drop zero ds w = w
AreWords-drop (suc n) [] w = tt
AreWords-drop (suc n) (d ∷ ds) w = AreWords-drop n ds w.1

-- `sexp_bignum_fxdiv` at offset 0 divides the magnitude in place by a word: the quotient that it
-- leaves and the remainder that it returns satisfy the division equation, the remainder is below
-- the divisor, and what it leaves is a bignum of the same sign.
pub bignum_fxdiv_lem :
    (a : Bignum) (b : ℕ)
    → IsBignum a
    → 0 < b
    → b < word
    → let (q, r) = bignum_fxdiv a b 0 in
      (value q.digits * b + r ≡ value a.digits) × (r < b) × (q.sign ≡ a.sign) × IsBignum q
unfolding bignum_fxdiv
bignum_fxdiv_lem a b w pos small =
    let len = bignum_hi a in
    let low = take len a.digits in
    let zeros = bignum_hi-ZeroAbove a w in
    let (eq, below, words) = fxdiv_loop_lem b low pos small (AreWords-take len a.digits w.words) in
    let top = value-drop-ZeroAbove len a.digits zeros in
    let quotient = value-append_zeros (fxdiv_loop b low).0 (drop len a.digits) top in
    (
      rw quotient (eq ∙ value-take-ZeroAbove len a.digits zeros),
      below,
      refl,
      record {
        nonempty = omega (
          arith,
          length-append (fxdiv_loop b low).0 (drop len a.digits),
          length-fxdiv_loop b low,
          length-take len a.digits,
          bignum_hi_bounds a w,
        );
        words = AreWords-append _ _ words (AreWords-drop len a.digits w.words);
      },
    )

-- `sexp_bignum_fxmul` multiplies the magnitude by a word and moves it up by `offset` digits; what
-- it returns is a bignum, with the sign 1 if it is a fresh one, and the factor's own sign if the
-- product is written over the factor.
pub bignum_fxmul_lem :
    (dest : Dest) (a : Bignum) (b offset : ℕ)
    → IsBignum a
    → b < word
    → (value (bignum_fxmul dest a b offset).digits ≡ place offset (b * value a.digits))
      × ((bignum_fxmul dest a b offset).sign ≡ dest_sign dest offset a.sign)
      × IsBignum (bignum_fxmul dest a b offset)
unfolding bignum_fxmul
bignum_fxmul_lem dest a b offset w h =
    let ds = (fxmul_loop b 0 a.digits).0 in
    let c = (fxmul_loop b 0 a.digits).1 in
    let n = length a.digits in
    let shifted = replicate offset 0 ++ ds in
    let product = fxmul_loop-value b 0 a.digits in
    let (words, fits) = fxmul_loop-AreWords b 0 a.digits h (omega arith) w.words in
    let long : length shifted ≡ n + offset = omega (
      arith,
      length-append (replicate offset 0) ds,
      length-replicate {A = ℕ} offset 0,
      length-fxmul_loop b 0 a.digits,
    ) in
    let all_words = AreWords-append (replicate offset 0) ds (AreWords-zeros offset) words in
    elim (Bool-cases (c == 0)) [
      | inl e ↦
          let none_left : c ≡ 0 = ground arith in
          let exact : value ds ≡ b * value a.digits =
            omega (arith, product, place_zero n, ap (λ k. place n k) none_left) in
          rw e (
            value-shifted offset ds ∙ ap (λ k. place offset k) exact,
            refl,
            record { nonempty = omega (arith, long, w.nonempty); words = all_words },
          )
      | inr e ↦
          let zeros = ZeroAbove-length shifted (n + offset) (omega (arith, long)) in
          rw e (
            value-extended shifted (n + offset) c zeros
                ∙ ap₂ ◌+◌ (value-shifted offset ds) (place-place n offset c)
                ∙ sym (place_add offset (value ds) (place n c))
                ∙ ap (λ k. place offset k) (product ∙ add-zero _),
            refl,
            record {
              nonempty = omega (arith, length-extended shifted (n + offset) c);
              words = extended-AreWords shifted (n + offset) c all_words fits;
            },
          )
    ]
