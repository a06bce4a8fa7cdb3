-- ===== src/Bits/Arithmetic.antt =====
-- lib/srfi/151/bit.c: shifts of any integer, fixnums and bignums.
use chibi_scheme.Prelude.{zero, suc, ◌*◌, ◌/◌, ◌^◌, ltb, if◌then◌else◌}
use chibi_scheme.Prelude.Int.{ℤ, pos, negsuc}
use chibi_scheme.Bignum.Digits.{minus, value, signed}
use chibi_scheme.Bignum.Normalize.{Integer, fixnum, big, integer_value}
use chibi_scheme.Bits.Shift.{moved_right}

-- What a shift to the left by a count, or to the right by a count below zero, is to give
abbrev pub shifted : Integer → ℤ → ℤ
shifted i (pos zero) = integer_value i
shifted (fixnum (pos n)) (pos (suc c)) = pos (n * 2 ^ suc c)
shifted (fixnum (negsuc n)) (pos (suc c)) = signed minus (suc n * 2 ^ suc c)
shifted (big a) (pos (suc c)) = signed a.sign (value a.digits * 2 ^ suc c)
shifted (fixnum (pos n)) (negsuc c) = pos (n / 2 ^ suc c)
shifted (fixnum (negsuc n)) (negsuc c) = if ltb (suc c) 64 then negsuc (n / 2 ^ suc c) else pos 0
shifted (big a) (negsuc c) = moved_right a.sign (value a.digits / 2 ^ suc c)
