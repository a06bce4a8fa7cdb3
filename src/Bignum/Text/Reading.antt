-- ===== src/Bignum/Text/Reading.antt =====
-- The digit loop of `sexp_read_bignum`: each digit is a product and a sum with one word.
use chibi_scheme.Prelude.{
  ℕ, ◌+◌, ◌*◌, ◌≤◌, ◌<◌, ◌≡◌, refl, true, List, [], ◌∷◌, map, ltb, All, arith, ap, ◌∙◌,
}
use chibi_scheme.Bignum.Digits.{Bignum, IsBignum, value, place}
use chibi_scheme.Bignum.Fixnum.{in_place, dest_sign, bignum_fxadd, bignum_fxmul}
use chibi_scheme.Bignum.Fixnum.Add.{bignum_fxadd_lem}
use chibi_scheme.Bignum.Fixnum.Scale.{bignum_fxmul_lem}
use chibi_scheme.Bignum.Text.{hex_digit, is_xdigit, toupper, digit_value, read_loop}

-- Digits read from the highest on, after a number.
abbrev pub horner : ℕ → ℕ → List ℕ → ℕ
horner base n [] = n
horner base n (r ∷ rs) = horner base (base * n + r) rs

digit_lem : (r : ℕ) → r < 16 → (is_xdigit (hex_digit r) ≡ true) × (digit_value (hex_digit r) ≡ r)
unfolding is_xdigit hex_digit digit_value toupper
digit_lem r h = (ground arith, ground arith)

read_step :
    (base r : ℕ) (cs : List ℕ) (res : Bignum)
    → base ≤ 16
    → r < base
    → read_loop base (hex_digit r ∷ cs) res
      ≡ read_loop base cs (bignum_fxadd (bignum_fxmul in_place res base 0) r)
unfolding read_loop
read_step base r cs res h l =
    let (x, d) = digit_lem r (omega arith) in
    let small : ltb r base ≡ true = ground arith in rw (read_loop, d, x, small) refl

scaled :
    (base r : ℕ) (res : Bignum)
    → base ≤ 16
    → r < base
    → IsBignum res
    → let b = bignum_fxadd (bignum_fxmul in_place res base 0) r in
      (value b.digits ≡ base * value res.digits + r) × (b.sign ≡ res.sign) × IsBignum b
unfolding place dest_sign
scaled base r res h l w =
    let (vm, sm, wm) = bignum_fxmul_lem in_place res base 0 w (omega arith) in
    let (va, sa, wa) = bignum_fxadd_lem (bignum_fxmul in_place res base 0) r wm (omega arith) in
    (va ∙ ap (λ n. n + r) vm, sa ∙ sm, wa)

pub read_lem :
    (base : ℕ) (rs : List ℕ) (res : Bignum)
    → base ≤ 16
    → All (λ r. r < base) rs
    → IsBignum res
    → (b : Bignum) × (read_loop base (map hex_digit rs) res ≡ (b, []))
      × (b.sign ≡ res.sign)
      × (value b.digits ≡ horner base (value res.digits) rs)
unfolding read_loop
read_lem base [] res h a w = (res, refl, refl, refl)
read_lem base (r ∷ rs) res h (l, a) w =
    let (v, s, wb) = scaled base r res h l w in
    let (b, e, t, u) =
      read_lem base rs (bignum_fxadd (bignum_fxmul in_place res base 0) r) h a wb in
    (b, read_step base r (map hex_digit rs) res h l ∙ e, t ∙ s, u ∙ ap (λ n. horner base n rs) v)
