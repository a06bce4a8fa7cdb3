-- ===== src/Bits.antt =====
-- lib/srfi/151/bit.c: the length of an integer in bits, and arithmetic shifts. The logarithm of a
-- word is read from a table of 256 entries.
pub mod Length
pub mod Loops
pub mod Shift
pub mod Arithmetic
use chibi_scheme.Prelude.{
  ℕ, zero, suc, ◌+◌, ◌-◌, ◌*◌, ◌/◌, ◌^◌, ◌%◌, ◌==◌, word, take, drop, List, [], ◌∷◌, ◌++◌, ltb,
  if◌then◌else◌, get_or, replicate,
}
use chibi_scheme.Prelude.Int.{ℤ, pos, negsuc}
use chibi_scheme.Bignum.Digits.{Sign, plus, minus, Bignum, make_bignum, fixnum_to_bignum}
use chibi_scheme.Bignum.Fixnum.{Carried, under, bignum_fxadd}
use chibi_scheme.Bignum.Hi.{bignum_hi}
use chibi_scheme.Bignum.Normalize.{Integer, fixnum, big, bignum_normalize}
use chibi_scheme.Bignum.Text.{log2_loop}

abbrev pub log_table_256 : List ℕ
log_table_256 =
    (0 ∷ 1 ∷ 2 ∷ 2 ∷ replicate 4 3)
    ++ replicate 8 4
    ++ replicate 16 5
    ++ replicate 32 6
    ++ replicate 64 7
    ++ replicate 128 8

-- What there is when x >> 32 is zero
unfoldable pub half_log2 : ℕ → ℕ
half_log2 x =
    let tt = x / 2 ^ 16 in
    if ltb 0 tt
    then (let t = tt / 2 ^ 8 in
        if ltb 0 t then 24 + get_or log_table_256 t 0 else 16 + get_or log_table_256 tt 0)
    else (let t = x / 2 ^ 8 in
        if ltb 0 t then 8 + get_or log_table_256 t 0 else get_or log_table_256 x 0)

-- On a word the call on x >> 32 finds its upper half zero.
unfoldable pub integer_log2 : ℕ → ℕ
unfolding half_log2
integer_log2 x = let tt = x / 2 ^ 32 in if ltb 0 tt then half_log2 tt + 32 else half_log2 x

-- negsuc n is -n - 1: tmp < 0 ? -tmp-1 : tmp
unfoldable pub integer_length : Integer → ℕ
unfolding integer_log2
integer_length (fixnum (pos n)) = integer_log2 n
integer_length (fixnum (negsuc n)) = integer_log2 n
integer_length (big a) =
    let hi = bignum_hi a in integer_log2 (get_or a.digits (hi - 1) 0) + 64 * (hi - 1)

-- for (i = 0; i < sizeof(v)*8; i++): as in bignum.c, with the rounds for a word
unfoldable pub log2i_word : ℕ → ℕ
unfolding log2_loop
log2i_word v = log2_loop 64 0 v

-- for (j=tmp=0; j<len; j++): the digits moved up by b bits, and what goes beyond them
unfoldable pub left_loop : ℕ → ℕ → List ℕ → Carried
left_loop b tmp [] = ([], tmp)
left_loop b tmp (d ∷ ds) =
    under ((d * 2 ^ b % word + tmp) % word)
      (left_loop b (if b == 0 then tmp else d / 2 ^ (64 - b)) ds)

unfoldable pub shift_left : Bignum → ℕ → Bignum
unfolding left_loop
shift_left a c =
    let offset = c / 64 in
    let bit_shift = c - offset * 64 in
    let (ds, tmp) = left_loop bit_shift 0 (take (bignum_hi a) a.digits) in
    record {
      sign = a.sign;
      digits = replicate offset 0 ++ (ds ++ ((if bit_shift == 0 then 0 else tmp) ∷ []));
    }

-- for (j=len-offset-1, tmp=0; j>=0; j--): the highest digit first, and the bits that go down from it
unfoldable pub right_loop : ℕ → List ℕ → Carried
right_loop b [] = ([], 0)
right_loop b (d ∷ ds) =
    let (rest, tmp) = right_loop b ds in
    ((d / 2 ^ b + tmp) % word ∷ rest, if b == 0 then tmp else d * 2 ^ (64 - b) % word)

below_all : Sign → ℤ
below_all plus = pos 0
below_all minus = negsuc 0

add_if_minus : Sign → Bignum → Bignum
add_if_minus plus res = res
add_if_minus minus res = bignum_fxadd res 1

unfoldable pub shift_right : Bignum → ℕ → Integer
unfolding right_loop add_if_minus below_all
shift_right a c =
    let len = bignum_hi a in
    let offset = c / 64 in
    let bit_shift = c - offset * 64 in
    let moved = (right_loop bit_shift (drop offset (take len a.digits))).0 in
    if ltb len offset
    then fixnum (below_all a.sign)
    else bignum_normalize
        (add_if_minus a.sign (record { sign = a.sign; digits = moved ++ (0 ∷ []) }))

-- A fixnum to the left: below zero, log2i is 63 or more and the bignum is taken.
unfoldable pub fixnum_left : ℤ → ℕ → Integer
unfolding log2i_word shift_left
fixnum_left (pos n) c =
    if ltb (log2i_word n + c + 1) 63
    then fixnum (pos (n * 2 ^ c % word))
    else bignum_normalize (shift_left (fixnum_to_bignum plus n) c)
fixnum_left (negsuc n) c = bignum_normalize (shift_left (fixnum_to_bignum minus (suc n)) c)

unfoldable pub fixnum_right : ℤ → ℕ → ℤ
fixnum_right (pos n) c = if ltb c 64 then pos (n / 2 ^ c) else pos 0
fixnum_right (negsuc n) c = if ltb c 64 then negsuc (n / 2 ^ c) else pos 0

-- The count is c, and negsuc c is -(c + 1).
unfoldable pub arithmetic_shift : Integer → ℤ → Integer
unfolding shift_left shift_right fixnum_left fixnum_right
arithmetic_shift i (pos zero) = i
arithmetic_shift (fixnum z) (pos (suc c)) = fixnum_left z (suc c)
arithmetic_shift (big a) (pos (suc c)) = bignum_normalize (shift_left a (suc c))
arithmetic_shift (fixnum z) (negsuc c) = fixnum (fixnum_right z (suc c))
arithmetic_shift (big a) (negsuc c) = shift_right a (suc c)
