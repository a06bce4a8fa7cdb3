-- ===== src/Bits/Loops.antt =====
-- lib/srfi/151/bit.c: the digit loops of a shift are multiplication and division by a power of two.
use native.Mathlib.Nat.{
  mul-le-mul_left, div-add-mod', mod-lt, mul_comm, div-lt_iff_lt-mul, div-eq_of_lt-le, one-le-pow,
  two-pow-succ,
}
use chibi_scheme.Prelude.{
  ℕ, zero, suc, ◌+◌, ◌-◌, ◌*◌, ◌/◌, ◌%◌, ◌^◌, ◌≤◌, ◌<◌, ◌≡◌, refl, sym, ap, ◌∙◌, false, List, [],
  ◌∷◌, ◌==◌, if◌then◌else◌, arith, word,
}
use chibi_scheme.Bignum.Digits.{AreWords}
use chibi_scheme.Bignum.Fixnum.{under, fxmul_loop, fxdiv_loop}
use chibi_scheme.Bignum.Fixnum.Scale.{fxdiv_loop-nil, fxdiv_loop-cons, fxdiv_loop_lem}
use chibi_scheme.Bignum.Text.Writing.{pow_add}
use chibi_scheme.Bits.{left_loop, right_loop}

-- The two powers that a word is made of
word_parts : (b : ℕ) → b ≤ 64 → 2 ^ b * 2 ^ (64 - b) ≡ word
word_parts b h = let e : b + (64 - b) ≡ 64 = omega arith in sym (pow_add 2 b (64 - b)) ∙ (rw e refl)

by_parts : (P W q r d w : ℕ) → P * W ≡ w → q * W + r ≡ d → d * P ≡ q * w + r * P
by_parts P W q r d w h e = rw (← e, ← h) (omega arith)

room : (P W r tmp w : ℕ) → P * W ≡ w → r < W → tmp < P → r * P + tmp < w
room P W r tmp w h l k = let e = mul-le-mul_left P l in omega (arith, e)

joined : (P W rest p s d w : ℕ) → P * W ≡ w → p * P + s ≡ d → rest * w + d ≡ (rest * W + p) * P + s
joined P W rest p s d w h e = rw (← e, ← h) (omega arith)

pub division : (n q P s : ℕ) → n ≡ q * P + s → s < P → (n / P ≡ q) × (n % P ≡ s)
division n q P s e h =
    let d : n / P ≡ q = div-eq_of_lt-le P (omega (arith, e)) (omega (arith, e)) in
    let m = div-add-mod' n P in (d, omega (arith, e, m, ap (λ k. k * P) d))

-- One digit, cut where P * W makes a word
module _ (P W d : ℕ) (whole : P * W ≡ word) (pos : 0 < W) (large : 0 < P) (k : d < word) where
  moved_up :
      (tmp : ℕ)
      → tmp < P
      → ((d * P + tmp) % word ≡ (d * P % word + tmp) % word) × ((d * P + tmp) / word ≡ d / W)
  moved_up tmp h =
      let q = d / W in
      let r = d % W in
      let cut = div-add-mod' d W in
      let below = mod-lt d pos in
      let e : d * P ≡ q * word + r * P = by_parts P W q r d word whole cut in
      let fits : r * P + tmp < word = room P W r tmp word whole below h in
      (omega (arith, e, fits), omega (arith, e, fits))

  moved_down :
      (rest : ℕ)
      → rest < P
      → ((d / P + rest * W % word) % word ≡ (rest * word + d) / P)
        × ((rest * word + d) % P ≡ d % P)
        × (d * W % word ≡ (d % P) * W)
  moved_down rest h =
      let p = d / P in
      let s = d % P in
      let cut = div-add-mod' d P in
      let below = mod-lt d large in
      let other : W * P ≡ word = mul_comm W P ∙ whole in
      let small : p < W = (div-lt_iff_lt-mul large).1 (rw other k) in
      let sum = room P W rest p word whole in
      let fits : rest * W + p < word = room W P rest p word other h small in
      let down : s * W + 0 < word = room W P s 0 word other below pos in
      let e : d * W ≡ p * word + s * W = by_parts W P p s d word other cut in
      let n : rest * word + d ≡ (rest * W + p) * P + s = joined P W rest p s d word whole cut in
      let (q, r) = division (rest * word + d) (rest * W + p) P s n below in
      (omega (arith, fits) ∙ sym q, r, omega (arith, e, down))

pub two_pow_pos : (b : ℕ) → 0 < 2 ^ b
two_pow_pos b = one-le-pow b 2 (omega arith)

pub two_pow_small : (b : ℕ) → b < 64 → 2 ^ b < word
two_pow_small b h =
    let e = word_parts b (omega arith) in
    let k : 64 - b ≡ suc (63 - b) = omega arith in
    let p = two-pow-succ (63 - b) in
    let q = two_pow_pos (63 - b) in
    let two : 2 ≤ 2 ^ (64 - b) = rw k (omega (arith, p, q)) in
    let m = mul-le-mul_left (2 ^ b) two in omega (arith, e, m, two_pow_pos b)

high_bits : (b d : ℕ) → b < 64 → d < word → d / 2 ^ (64 - b) < 2 ^ b
high_bits b d h k =
    let e = word_parts b (omega arith) in (div-lt_iff_lt-mul (two_pow_pos (64 - b))).1 (rw e k)

carried :
    (b tmp d : ℕ)
    → b < 64
    → tmp < 2 ^ b
    → d < word
    → (if b == 0 then tmp else d / 2 ^ (64 - b)) ≡ d / 2 ^ (64 - b)
carried zero tmp d h k l = omega arith
carried (suc b) tmp d h k l = let t : (suc b == 0) ≡ false = ground arith in rw t refl

carried_down :
    (b rest d : ℕ)
    → b < 64
    → rest < 2 ^ b
    → d < word
    → (if b == 0 then rest * 2 ^ (64 - b) % word else d * 2 ^ (64 - b) % word)
      ≡ (d % 2 ^ b) * 2 ^ (64 - b) % word
carried_down zero rest d h k l = omega arith
carried_down (suc b) rest d h k l =
    let t : (suc b == 0) ≡ false = ground arith in
    let e = word_parts (suc b) (omega arith) in
    let m =
      moved_down (2 ^ suc b) (2 ^ (64 - suc b)) d e (two_pow_pos (64 - suc b)) (two_pow_pos (suc b))
        l rest k in
    rw t (omega (arith, m.2))

-- Moving digits up by b bits multiplies by 2 ^ b.
pub left_loop-fxmul_loop :
    (b tmp : ℕ) (ds : List ℕ)
    → b < 64
    → tmp < 2 ^ b
    → AreWords ds
    → left_loop b tmp ds ≡ fxmul_loop (2 ^ b) tmp ds
unfolding left_loop fxmul_loop
left_loop-fxmul_loop b tmp [] h k w = refl
left_loop-fxmul_loop b tmp (d ∷ ds) h k w =
    let W = 2 ^ (64 - b) in
    let (low, high) =
      moved_up (2 ^ b) W d (word_parts b (omega arith)) (two_pow_pos (64 - b)) (two_pow_pos b) w.0
        tmp k in
    let next : (if b == 0 then tmp else d / W) ≡ d / W = carried b tmp d h k w.0 in
    rw next rw low rw high (
      ap (λ r. under ((d * 2 ^ b % word + tmp) % word) r)
        (left_loop-fxmul_loop b (d / W) ds h (high_bits b d h w.0) w.1))

-- Moving digits down by b bits divides by 2 ^ b; the bits that go out are those of the remainder.
pub right_loop-fxdiv_loop :
    (b : ℕ) (ds : List ℕ)
    → b < 64
    → AreWords ds
    → right_loop b ds ≡ ((fxdiv_loop (2 ^ b) ds).0, (fxdiv_loop (2 ^ b) ds).1 * 2 ^ (64 - b) % word)
unfolding right_loop
right_loop-fxdiv_loop b [] h w =
    let z : 0 * 2 ^ (64 - b) ≡ 0 = omega arith in rw (fxdiv_loop-nil (2 ^ b)) rw z refl
right_loop-fxdiv_loop b (d ∷ ds) h w =
    let P = 2 ^ b in
    let W = 2 ^ (64 - b) in
    let rest = fxdiv_loop P ds in
    let (e, below, words) = fxdiv_loop_lem P ds (two_pow_pos b) (two_pow_small b h) w.1 in
    let (low, same, high) =
      moved_down P W d (word_parts b (omega arith)) (two_pow_pos (64 - b)) (two_pow_pos b) w.0
        rest.1 below in
    let go = right_loop-fxdiv_loop b ds h w.1 in
    let cons = fxdiv_loop-cons P d ds (two_pow_pos b) (two_pow_small b h) below w.0 in
    rw go rw cons rw low rw same
      (ap (λ r. ((rest.1 * word + d) / 2 ^ b ∷ rest.0, r)) (carried_down b rest.1 d h below w.0))
