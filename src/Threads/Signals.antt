-- ===== src/Threads/Signals.antt =====
-- `sexp_pop_signal`: the lowest pending signal, by a de Bruijn table.
use Prim.Native.Nat.{bit_and, bit_and-bitwise}
use chibi_scheme.Prelude.{
  ℕ, zero, suc, ◌+◌, ◌-◌, ◌*◌, ◌/◌, ◌%◌, ◌^◌, ◌≤◌, ◌<◌, ◌≡◌, refl, ◌∙◌, Bool, true, false, ◌&&◌,
  Option, none, some, List, [], ◌∷◌, ◌==◌, if◌then◌else◌, get_or, arith, Bool-cases, ==_iff, ap,
  inl, inr,
}
use chibi_scheme.Prelude.Bits.{lowest_digit}
use native.Mathlib.Nat.{pow-suc}
use mathlib.Core.Path.{subst}

-- sexp_log2_lookup
log2_lookup : List ℕ
log2_lookup =
    0 ∷ 1 ∷ 28 ∷ 2 ∷ 29 ∷ 14 ∷ 24 ∷ 3 ∷ 30 ∷ 22 ∷ 20 ∷ 15 ∷ 25 ∷ 17 ∷ 4 ∷ 8 ∷ 31 ∷ 27 ∷ 13 ∷ 23 ∷ 21
    ∷ 19 ∷ 16 ∷ 7 ∷ 26 ∷ 12 ∷ 18 ∷ 6 ∷ 11 ∷ 5 ∷ 10 ∷ 9 ∷ []

-- The product is an unsigned 32-bit one.
unfoldable pub log2_of_pow2 : ℕ → ℕ
unfolding log2_lookup
log2_of_pow2 n = get_or log2_lookup (n % 2 ^ 32 * 0x077cb531 % 2 ^ 32 / 2 ^ 27) 0

-- The signal, if one is pending, and the signals left.
unfoldable pub pop_signal : ℕ → Option ℕ × ℕ
unfolding log2_of_pow2
pop_signal allsigs =
    if allsigs == 0
    then (none, allsigs)
    else let restsigs = bit_and allsigs (allsigs - 1) in
      (some (log2_of_pow2 (allsigs - restsigs)), restsigs)

same_digits : (n x : ℕ) → x ≤ n → bit_and x x ≡ x
same_digits zero zero h = bit_and-bitwise 0 0
same_digits zero (suc x) h = absurd (omega arith)
same_digits (suc n) zero h = bit_and-bitwise 0 0
same_digits (suc n) (suc x) h =
    omega (arith, lowest_digit (suc x) (suc x), same_digits n (suc x / 2) (omega arith))

twice : (k n : ℕ) → 2 ^ suc k * n ≡ 2 * (2 ^ k * n)
twice k n = rw (pow-suc 2 k) (omega arith)

positive : (k m : ℕ) → 1 ≤ 2 ^ k * (2 * m + 1)
positive zero m = omega arith
positive (suc k) m = omega (arith, twice k (2 * m + 1), positive k m)

-- `x & (x - 1)` clears the lowest one of `x`, which is 2 ^ k with an even rest above.
clear_lowest : (k m x : ℕ) → x ≡ 2 ^ k * (2 * m + 1) → bit_and x (x - 1) ≡ 2 ^ k * (2 * m)
clear_lowest zero m x q =
    let z : 2 ^ 0 * (2 * m) ≡ 2 * m = omega arith in
    let h : x / 2 ≡ m = omega arith in
    let g : (x - 1) / 2 ≡ m = omega arith in
    let d = lowest_digit x (x - 1) in
    rw z (d ∙ rw (h, g) (omega (arith, same_digits m m (omega arith))))
clear_lowest (suc k) m x q =
    let y = 2 ^ k * (2 * m + 1) in
    let e : x ≡ 2 * y = q ∙ twice k (2 * m + 1) in
    let h : x / 2 ≡ y = omega arith in
    let g : (x - 1) / 2 ≡ y - 1 = omega (arith, positive k m) in
    let d = lowest_digit x (x - 1) in
    let r = clear_lowest k m y refl in
    let f : bit_and (x / 2) ((x - 1) / 2) ≡ 2 ^ k * (2 * m) = rw (h, g) r in
    omega (arith, d, f, twice k (2 * m))

checks : ℕ → Bool
checks zero = true
checks (suc k) = (log2_of_pow2 (2 ^ k) == k) && checks k

checks_all : checks 32 ≡ true
unfolding checks log2_of_pow2
checks_all = refl

read_check : (n k : ℕ) → checks n ≡ true → k < n → log2_of_pow2 (2 ^ k) ≡ k
unfolding checks
read_check zero k c h = absurd (omega arith)
read_check (suc n) k c h = elim (Bool-cases (log2_of_pow2 (2 ^ n) == n)) [
  | inl t ↦
      let below : checks n ≡ true = subst (λ b. (b && checks n) ≡ true) t c in
      elim (Bool-cases (k == n)) [
        | inl q ↦ let e : k ≡ n = ground arith in rw e ((==_iff (log2_of_pow2 (2 ^ n)) n).0 t)
        | inr q ↦ read_check n k below (ground arith)
      ]
  | inr t ↦ absurd (let bad : false ≡ true = subst (λ b. (b && checks n) ≡ true) t c in cc)
]

split : (k m : ℕ) → 2 ^ k * (2 * m + 1) ≡ 2 ^ k * (2 * m) + 2 ^ k
split k m = omega arith

-- Of a set of pending signals, below the sign bit of an int, the lowest is popped and all others
-- stay pending.
pub pop_signal_lem :
    (k m : ℕ) → k < 31 → pop_signal (2 ^ k * (2 * m + 1)) ≡ (some k, 2 ^ k * (2 * m))
unfolding pop_signal
pop_signal_lem k m h =
    let x = 2 ^ k * (2 * m + 1) in
    let nonzero : (x == 0) ≡ false = ground (arith, positive k m) in
    let rest : bit_and x (x - 1) ≡ 2 ^ k * (2 * m) = clear_lowest k m x refl in
    let lowest : x - 2 ^ k * (2 * m) ≡ 2 ^ k = omega (arith, split k m) in
    rw (nonzero, rest, lowest)
      (ap (λ s. (some s, 2 ^ k * (2 * m))) (read_check 32 k checks_all (omega arith)))
