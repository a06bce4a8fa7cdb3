-- ===== src/Bits/Length.antt =====
-- lib/srfi/151/bit.c: the table of logarithms, and the length of an integer in bits.
use native.Mathlib.Nat.{mul-le-mul_left}
use chibi_scheme.Prelude.{
  ℕ, zero, suc, ◌+◌, ◌-◌, ◌*◌, ◌/◌, ◌^◌, ◌≤◌, ◌<◌, ◌≡◌, ◌⊎◌, refl, sym, ap, ◌∙◌, Bool, true, ◌&&◌,
  ◌||◌, List, [], ◌∷◌, ltb, leb, ◌==◌, get_or, take, ◌%◌, arith, Bool-cases, inl, inr, word,
}
use chibi_scheme.Prelude.Int.{pos, negsuc}
use chibi_scheme.Bignum.Digits.{Bignum, IsBignum, AreWords, value, place}
use chibi_scheme.Bignum.Hi.{
  bignum_hi, bignum_hi-ZeroAbove, bignum_hi_bounds, bignum_hi_top, value-take-ZeroAbove,
  value-take-suc, value-take-lt-place,
}
use chibi_scheme.Bignum.Normalize.{Integer, fixnum, big, FitsFixnum, low_digit}
use chibi_scheme.Bignum.Product.Parts.{place-mul}
use chibi_scheme.Bignum.Text.Writing.{pow_add, place_pow}
use chibi_scheme.Bits.{log_table_256, half_log2, integer_log2, integer_length}

-- n is 0 for x = 0, and otherwise 2 ^ (n - 1) ≤ x < 2 ^ n.
abbrev pub IsLength : ℕ → ℕ → Type 0
IsLength x n = (x < 2 ^ n) × ((n ≡ 0) ⊎ (2 ^ n ≤ 2 * x))

-- The test of it, for the entries of the table
is_length : ℕ → ℕ → Bool
is_length x n = ltb x (2 ^ n) && ((n == 0) || leb (2 ^ n) (2 * x))

is_length_sound : (x n : ℕ) → is_length x n ≡ true → IsLength x n
unfolding is_length
is_length_sound x n h = elim (Bool-cases (n == 0)) [
  | inl t ↦ (ground arith, inl (ground arith))
  | inr t ↦ (ground arith, inr (ground arith))
]

entries : ℕ → Bool
entries zero = true
entries (suc t) = is_length t (get_or log_table_256 t 0) && entries t

all_entries : entries 256 ≡ true
unfolding entries is_length
all_entries = refl

entry : (n t : ℕ) → entries n ≡ true → t < n → is_length t (get_or log_table_256 t 0) ≡ true
unfolding entries
entry zero t h k = absurd (omega arith)
entry (suc n) t h k = elim (Bool-cases (t == n)) [
  | inl u ↦ let e : t ≡ n = ground arith in rw e (ground arith)
  | inr u ↦ entry n t (ground arith) (ground arith)
]

table_lem : (t : ℕ) → t < 256 → IsLength t (get_or log_table_256 t 0)
table_lem t h = is_length_sound t (get_or log_table_256 t 0) (entry 256 t all_entries h)

-- Low bits below a part that is not zero
above-IsLength :
    (x q low n k : ℕ)
    → 0 < q
    → low < 2 ^ k
    → x ≡ low + 2 ^ k * q
    → IsLength q n
    → IsLength x (k + n)
above-IsLength x q low n k h l e (less, inl z) = absurd (omega (arith, (rw z at less)))
above-IsLength x q low n k h l e (less, inr much) =
    let p = pow_add 2 k n in
    let up : 2 ^ k * suc q ≤ 2 ^ k * 2 ^ n = mul-le-mul_left (2 ^ k) less in
    let down : 2 ^ k * 2 ^ n ≤ 2 ^ k * (2 * q) = mul-le-mul_left (2 ^ k) much in
    rw p (omega (arith, l, e, up), inr (omega (arith, e, down)))

half_log2_lem : (x : ℕ) → x < 2 ^ 32 → IsLength x (half_log2 x)
unfolding half_log2
half_log2_lem x h = elim (Bool-cases (ltb 0 (x / 2 ^ 16))) [
  | inl t ↦ elim (Bool-cases (ltb 0 (x / 2 ^ 16 / 2 ^ 8))) [
    | inl u ↦
        let q = x / 2 ^ 16 / 2 ^ 8 in
        rw (t, u)
          (above-IsLength x q (x % 2 ^ 24) (get_or log_table_256 q 0) 24 (ground arith)
            (omega arith) (omega arith) (table_lem q (omega arith)))
    | inr u ↦
        let q = x / 2 ^ 16 in
        rw (t, u)
          (above-IsLength x q (x % 2 ^ 16) (get_or log_table_256 q 0) 16 (ground arith)
            (omega arith) (omega arith) (table_lem q (ground arith)))
  ]
  | inr t ↦ elim (Bool-cases (ltb 0 (x / 2 ^ 8))) [
    | inl u ↦
        let q = x / 2 ^ 8 in
        rw (t, u)
          (above-IsLength x q (x % 2 ^ 8) (get_or log_table_256 q 0) 8 (ground arith) (omega arith)
            (omega arith) (table_lem q (ground arith)))
    | inr u ↦ rw (t, u) (table_lem x (ground arith))
  ]
]

pub integer_log2_lem : (x : ℕ) → x < word → IsLength x (integer_log2 x)
unfolding integer_log2
integer_log2_lem x h = elim (Bool-cases (ltb 0 (x / 2 ^ 32))) [
  | inl t ↦
      let q = x / 2 ^ 32 in
      let swap : half_log2 q + 32 ≡ 32 + half_log2 q = omega arith in
      rw t rw swap (
        above-IsLength x q (x % 2 ^ 32) (half_log2 q) 32 (ground arith) (omega arith) (omega arith)
          (half_log2_lem q (omega arith)))
  | inr t ↦ rw t (half_log2_lem x (ground arith))
]

get_or-AreWords : (n : ℕ) (ds : List ℕ) → AreWords ds → get_or ds n 0 < word
get_or-AreWords n [] w = omega arith
get_or-AreWords zero (d ∷ ds) w = w.0
get_or-AreWords (suc n) (d ∷ ds) w = get_or-AreWords n ds w.1

bits-IsLength :
    (n d low : ℕ)
    → 0 < d
    → d < word
    → low < place n 1
    → IsLength (low + place n d) (integer_log2 d + 64 * n)
bits-IsLength n d low h k l =
    let p = place_pow n in
    let m = place-mul n d in
    let swap : integer_log2 d + 64 * n ≡ 64 * n + integer_log2 d = omega arith in
    let e : low + place n d ≡ low + 2 ^ (64 * n) * d = ap (λ r. low + r) (m ∙ ap (λ r. r * d) p) in
    rw swap (
      above-IsLength (low + place n d) d low (integer_log2 d) (64 * n) h (rw p at l) e
        (integer_log2_lem d k))

-- The digits in use, the top one at index n
digits-IsLength :
    (n : ℕ) (a : Bignum)
    → IsBignum a
    → bignum_hi a ≡ suc n
    → IsLength (value a.digits) (integer_log2 (get_or a.digits n 0) + 64 * n)
unfolding place
digits-IsLength zero a w h =
    let d = get_or a.digits 0 0 in
    let e : value a.digits ≡ d = low_digit a w (rw h refl) in
    let swap : integer_log2 d + 64 * 0 ≡ integer_log2 d = omega arith in
    rw e rw swap (integer_log2_lem d (get_or-AreWords 0 a.digits w.words))
digits-IsLength (suc n) a w h =
    let d = get_or a.digits (suc n) 0 in
    let j : bignum_hi a - 1 ≡ suc n = omega (arith, h) in
    let top : 0 < d = rw j at (bignum_hi_top a (omega (arith, h))) in
    let z = value-take-ZeroAbove (suc (suc n)) a.digits (rw h at (bignum_hi-ZeroAbove a w)) in
    let e = sym (value-take-suc (suc n) a.digits) in
    let low = value-take-lt-place (suc n) a.digits w.words in
    let r =
      bits-IsLength (suc n) d (value (take (suc n) a.digits)) top
        (get_or-AreWords (suc n) a.digits w.words) low in
    rw (e ∙ z) at r

-- What the sign leaves of an integer: a fixnum below zero has the bits of its complement, and a
-- bignum those of its magnitude.
abbrev pub bits_of : Integer → ℕ
bits_of (fixnum (pos n)) = n
bits_of (fixnum (negsuc n)) = n
bits_of (big a) = value a.digits

-- A fixnum in range, or a bignum
abbrev pub IsInteger : Integer → Type 0
IsInteger (fixnum z) = FitsFixnum z
IsInteger (big a) = IsBignum a

-- `integer-length` is 0 where there are no bits, and otherwise the position of the highest bit: of
-- a fixnum below zero, of its complement; of a bignum, of its magnitude.
pub integer_length_lem : (x : Integer) → IsInteger x → IsLength (bits_of x) (integer_length x)
unfolding integer_length
integer_length_lem (fixnum (pos n)) w = integer_log2_lem n (omega arith)
integer_length_lem (fixnum (negsuc n)) w = integer_log2_lem n (omega arith)
integer_length_lem (big a) w =
    let b = bignum_hi_bounds a w in let n = bignum_hi a - 1 in digits-IsLength n a w (omega arith)
