-- ===== src/Tests/Bits.antt =====
-- Runs of bit.c, and instances of the results about it.
use chibi_scheme.Prelude.{◌^◌, ◌≡◌, refl, [], ◌∷◌, arith}
use chibi_scheme.Prelude.Int.{pos, negsuc}
use chibi_scheme.Bignum.Digits.{minus, Bignum, IsBignum}
use chibi_scheme.Bignum.Normalize.{Integer, fixnum, big, integer_value}
use chibi_scheme.Bits.{integer_length, arithmetic_shift}
use chibi_scheme.Bits.Length.{IsLength, bits_of, integer_length_lem}

-- -2 ^ 64
abbrev below : Bignum
below = record { sign = minus; digits = 0 ∷ 1 ∷ [] }

below-IsBignum : IsBignum below
below-IsBignum = record { nonempty = omega arith; words = (omega arith, (omega arith, tt)) }

integer_length_lem_example : IsLength (bits_of (big below)) (integer_length (big below))
integer_length_lem_example = integer_length_lem (big below) below-IsBignum

-- The length is 65, where -2 ^ 64 has 64 bits beside its sign.
length_runs : integer_length (big below) ≡ 65
unfolding integer_length chibi_scheme.Bignum.Hi.bignum_hi
length_runs = refl

-- Half of -2 ^ 64 comes out as -2 ^ 63 - 1.
half_runs : integer_value (arithmetic_shift (big below) (negsuc 0)) ≡ negsuc (2 ^ 63)
unfolding arithmetic_shift chibi_scheme.Bignum.Hi.bignum_hi
    chibi_scheme.Bignum.Normalize.bignum_normalize chibi_scheme.Bignum.Fixnum.bignum_fxadd
half_runs = refl

-- -1 to the right by 64 bits comes out as 0.
minus_one_runs : arithmetic_shift (fixnum (negsuc 0)) (negsuc 63) ≡ fixnum (pos 0)
unfolding arithmetic_shift
minus_one_runs = refl
