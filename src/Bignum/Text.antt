-- ===== src/Bignum/Text.antt =====
-- The text of bignums: the digit loops of `sexp_read_bignum` and `sexp_write_bignum` of bignum.c. A
-- text is the list of its characters.
pub mod Reading
pub mod Writing
pub mod RoundTrip
use mathlib.Core.Option
use chibi_scheme.Prelude.{
  ℕ, zero, suc, ◌+◌, ◌-◌, ◌*◌, ◌/◌, ◌^◌, Bool, true, false, ◌&&◌, ◌||◌, Option, none, some, List,
  [], ◌∷◌, ltb, leb, if◌then◌else◌, length,
}
use chibi_scheme.Bignum.Digits.{Sign, plus, minus, Bignum, copy_bignum}
use chibi_scheme.Bignum.Hi.{bignum_zerop}
use chibi_scheme.Bignum.Fixnum.{in_place, bignum_fxadd, bignum_fxmul, bignum_fxdiv}

unfoldable pub hex_digit : ℕ → ℕ
hex_digit n = if leb n 9 then 48 + n else 65 + n - 10

-- A hexadecimal digit in either case.
unfoldable pub is_xdigit : ℕ → Bool
is_xdigit c = (leb 48 c && leb c 57) || (leb 65 c && leb c 70) || (leb 97 c && leb c 102)

toupper : ℕ → ℕ
toupper c = if leb 97 c && leb c 122 then c - 32 else c

-- On a character from '0' on.
unfoldable pub digit_value : ℕ → ℕ
unfolding toupper
digit_value c = if leb c 57 then c - 48 else toupper c - 65 + 10

-- The number read, and the characters from the one that ended it on.
pub read_loop : ℕ → List ℕ → Bignum → Bignum × List ℕ
unfolding is_xdigit digit_value
read_loop base [] res = (res, [])
read_loop base (c ∷ cs) res =
    let rest =
      read_loop base cs (bignum_fxadd (bignum_fxmul in_place res base 0) (digit_value c)) in
    if is_xdigit c && ltb (digit_value c) base then rest else (res, c ∷ cs)

-- A bignum of SEXP_INIT_BIGNUM_SIZE digits, of which the lowest is the number read so far.
unfoldable pub read_bignum : List ℕ → ℕ → Sign → ℕ → Bignum × List ℕ
unfolding read_loop
read_bignum cs init sign base = read_loop base cs (record { sign = sign; digits = init ∷ 0 ∷ [] })

-- for (i = 0; i < 32; i++) if ((1<<(i+1)) > v) break;
unfoldable pub log2_loop : ℕ → ℕ → ℕ → ℕ
log2_loop zero i v = i
log2_loop (suc left) i v =
    let rest = log2_loop left (suc i) v in if ltb v (2 ^ suc i) then i else rest

unfoldable pub log2i : ℕ → ℕ
unfolding log2_loop
log2i v = log2_loop 32 0 v

-- The digits are written from the end of the buffer, which has `i` free characters in front of
-- them; `none` is a write before its start.
pub write_loop : ℕ → ℕ → Bignum → List ℕ → Option (ℕ × List ℕ)
unfolding hex_digit
write_loop base zero b text = if bignum_zerop b then some (0, text) else none
write_loop base (suc i) b text =
    let (q, r) = bignum_fxdiv b base 0 in
    let rest = write_loop base i q (hex_digit r ∷ text) in
    if bignum_zerop b then some (suc i, text) else rest

-- A zero for an empty text, or a minus sign.
finish : Sign → ℕ × List ℕ → Option (List ℕ)
finish s (zero, []) = none
finish s (suc i, []) = some (48 ∷ [])
finish plus (i, d ∷ text) = some (d ∷ text)
finish minus (zero, d ∷ text) = none
finish minus (suc i, d ∷ text) = some (45 ∷ d ∷ text)

then_finish : Sign → Option (ℕ × List ℕ) → Option (List ℕ)
unfolding finish
then_finish s none = none
then_finish s (some r) = finish s r

-- With the base-2 logarithm of the base, rounded down; `none` is an error.
write_with : ℕ → Bignum → ℕ → Option (List ℕ)
unfolding write_loop then_finish
write_with lg a base =
    let b = record (copy_bignum none a 0) { sign = plus } in
    if ltb lg 1
    then none
    else then_finish a.sign (write_loop base ((length b.digits * 64 + lg - 1) / lg + 1) b [])

unfoldable pub write_bignum : Bignum → ℕ → Option (List ℕ)
unfolding write_with log2i
write_bignum a base = write_with (log2i base) a base
