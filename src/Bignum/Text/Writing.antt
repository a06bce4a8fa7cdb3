-- ===== src/Bignum/Text/Writing.antt =====
-- The digit loop of `sexp_write_bignum`, and powers, which bound how many digits it writes.
use chibi_scheme.Prelude.{
  ℕ, zero, suc, ◌+◌, ◌*◌, ◌^◌, ◌≤◌, ◌<◌, ◌≡◌, refl, false, Option, some, List, ◌∷◌, map, ltb,
  length, All, Bool-cases, inl, inr, arith, ap, sym, ◌∙◌,
}
use native.Mathlib.Nat.{pow-zero, pow-suc, mul-le-mul_right}
use chibi_scheme.Bignum.Digits.{Bignum, IsBignum, value, place}
use chibi_scheme.Bignum.Hi.{bignum_zerop, bignum_zerop_iff}
use chibi_scheme.Bignum.Fixnum.{bignum_fxdiv}
use chibi_scheme.Bignum.Fixnum.Scale.{bignum_fxdiv_lem}
use chibi_scheme.Bignum.Text.{hex_digit, log2_loop, log2i, write_loop}
use chibi_scheme.Bignum.Text.Reading.{horner}

log2_loop_lem : (left i v : ℕ) → 2 ^ i ≤ v → (2 ^ log2_loop left i v ≤ v) × (i ≤ log2_loop left i v)
unfolding log2_loop
log2_loop_lem zero i v h = (h, omega arith)
log2_loop_lem (suc left) i v h = elim (Bool-cases (ltb v (2 ^ suc i))) [
  | inl q ↦ rw (log2_loop, q) (h, omega arith)
  | inr q ↦
      let (a, b) = log2_loop_lem left (suc i) v (ground arith) in rw (log2_loop, q) (a, omega arith)
]

pub log2i_lem : (v : ℕ) → 2 ≤ v → (2 ^ log2i v ≤ v) × (1 ≤ log2i v)
unfolding log2i log2_loop
log2i_lem v h = let q : ltb v 2 ≡ false = ground arith in rw (log2_loop, q) (log2_loop_lem 31 1 v h)

pub pow_add : (b n m : ℕ) → b ^ (n + m) ≡ b ^ n * b ^ m
pow_add b n zero = let z : n + 0 ≡ n = omega arith in rw (z, pow-zero b) (omega arith)
pow_add b n (suc m) =
    let z : n + suc m ≡ suc (n + m) = omega arith in
    rw (z, pow-suc b (n + m), pow_add b n m, pow-suc b m) (omega arith)

pub pow_mul : (b n m : ℕ) → b ^ (n * m) ≡ (b ^ n) ^ m
pow_mul b n zero = let z : n * 0 ≡ 0 = omega arith in rw z (pow-zero b ∙ sym (pow-zero (b ^ n)))
pow_mul b n (suc m) =
    let z : n * suc m ≡ n * m + n = omega arith in
    rw (z, pow_add b (n * m) n, pow_mul b n m, pow-suc (b ^ n) m) refl

pub place_pow : (n : ℕ) → place n 1 ≡ 2 ^ (64 * n)
unfolding place
place_pow zero = refl
place_pow (suc n) =
    let z : 64 * suc n ≡ 64 + 64 * n = omega arith in
    rw (z, pow_add 2 64 (64 * n), place_pow n) refl

-- What the digit loop gives with `i` free characters and a number below base ^ m: the digits that
-- it writes, and the characters that are left free.
abbrev pub Written : ℕ → ℕ → ℕ → ℕ → List ℕ → Option (ℕ × List ℕ) → Type 0
Written base i m n rs out =
    (j : ℕ) × (ds : List ℕ) × (out ≡ some (j, map hex_digit ds))
    × All (λ r. r < base) ds
    × (horner base 0 ds ≡ horner base n rs)
    × (j + length ds ≡ i + length rs)
    × (length ds ≤ m + length rs)

stop :
    (base i m : ℕ) (b : Bignum) (rs : List ℕ)
    → value b.digits ≡ 0
    → All (λ r. r < base) rs
    → Written base i m (value b.digits) rs (write_loop base i b (map hex_digit rs))
unfolding write_loop
stop base zero m b rs v a =
    (0, rs, rw (write_loop, (bignum_zerop_iff b).1 v) refl, a, rw v refl, refl, omega arith)
stop base (suc i) m b rs v a =
    (suc i, rs, rw (write_loop, (bignum_zerop_iff b).1 v) refl, a, rw v refl, refl, omega arith)

write_step :
    (base i : ℕ) (b : Bignum) (text : List ℕ)
    → bignum_zerop b ≡ false
    → let (q, r) = bignum_fxdiv b base 0 in
      write_loop base (suc i) b text ≡ write_loop base i q (hex_digit r ∷ text)
unfolding write_loop
write_step base i b text z = rw (write_loop, z) refl

quotient_lt : (base i q r n : ℕ) → q * base + r ≡ n → n < base ^ suc i → q < base ^ i
quotient_lt base i q r n e h = elim (Bool-cases (ltb q (base ^ i))) [
  | inl t ↦ ground arith
  | inr t ↦ absurd (
      let le : base ^ i ≤ q = ground arith in
      let big = mul-le-mul_right base le in omega (arith, big, pow-suc base i))
]

one_digit :
    (base i m : ℕ) (b : Bignum) (rs : List ℕ)
    → bignum_zerop b ≡ false
    → let (q, r) = bignum_fxdiv b base 0 in
      Written base i m (value q.digits) (r ∷ rs) (write_loop base i q (map hex_digit (r ∷ rs)))
      → base * value q.digits + r ≡ value b.digits
      → Written base
          (suc i)
          (suc m)
          (value b.digits)
          rs
          (write_loop base (suc i) b (map hex_digit rs))
one_digit base i m b rs z (j, ds, e, a, n, k, t) v = (
  j,
  ds,
  write_step base i b (map hex_digit rs) z ∙ e,
  a,
  n ∙ ap (λ x. horner base x rs) v,
  omega (arith, k),
  omega (arith, t),
)

-- The digits fit the characters that are free: each takes at least one factor of the base.
pub write_lem :
    (base i m : ℕ) (b : Bignum) (rs : List ℕ)
    → 2 ≤ base
    → base ≤ 16
    → m ≤ i
    → IsBignum b
    → value b.digits < base ^ m
    → All (λ r. r < base) rs
    → Written base i m (value b.digits) rs (write_loop base i b (map hex_digit rs))
write_lem base i zero b rs l h k w v a =
    stop base i 0 b rs (let one = pow-zero base in omega (arith, one)) a
write_lem base zero (suc m) b rs l h k w v a = absurd (omega arith)
write_lem base (suc i) (suc m) b rs l h k w v a = elim (Bool-cases (bignum_zerop b)) [
  | inl z ↦ stop base (suc i) (suc m) b rs ((bignum_zerop_iff b).0 z) a
  | inr z ↦
      let (e, below, s, wq) = bignum_fxdiv_lem b base w (omega arith) (omega arith) in
      let q = (bignum_fxdiv b base 0).0 in
      let r = (bignum_fxdiv b base 0).1 in
      one_digit base i m b rs z
        (write_lem base i m q (r ∷ rs) l h (omega arith) wq
          (quotient_lt base m (value q.digits) r _ e v) (below, a))
        (omega (arith, e))
]
