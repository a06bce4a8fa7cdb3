-- ===== src/Tests/Bignum.antt =====
-- bignum.c at concrete numbers.
use chibi_scheme.Prelude.{◌+◌, ◌*◌, ◌^◌, ◌<◌, ◌≡◌, refl, true, ◌↔◌, some, [], ◌∷◌, arith}
use chibi_scheme.Prelude.Int.{pos, ◌+ℤ◌, ◌-ℤ◌, ◌*ℤ◌}
use chibi_scheme.Bignum.Product.{mul_loop, bignum_mul, bignum_expt}
use chibi_scheme.Bignum.Product.Recursion.{bignum_mul_lem}
use chibi_scheme.Bignum.Product.Power.{power_sign, bignum_expt_lem}
use chibi_scheme.Bignum.Digits.{plus, minus, Bignum, IsBignum, value, signed, to_ℤ, extended}
use chibi_scheme.Bignum.Hi.{bignum_hi}
use chibi_scheme.Bignum.Compare.{
  bignum_compare, bignum_compare-Orders, bignum_compare_abs, Orders_ℤ,
}
use chibi_scheme.Bignum.Normalize.{
  bignum_normalize, bignum_normalize_lem, integer_value, is_fixnum, FitsFixnum,
}
use chibi_scheme.Bignum.Fixnum.{push_carry, bignum_fxadd, bignum_fxsub, bignum_fxmul, bignum_fxdiv}
use chibi_scheme.Bignum.Fixnum.Sub.{bignum_fxsub_lem}
use chibi_scheme.Bignum.Fixnum.Scale.{bignum_fxdiv_lem}
use chibi_scheme.Bignum.Sum.{
  bignum_sub_digits, bignum_add, bignum_add_digits, bignum_sub, bignum_add_fixnum,
}
use chibi_scheme.Bignum.Sum.Signed.{bignum_sub_lem, bignum_add_fixnum_lem}

-- 2 ^ 128 - 1, and -(2 ^ 64 + 1).
abbrev full : Bignum
full = record { sign = plus; digits = 18_446_744_073_709_551_615 ∷ 18_446_744_073_709_551_615 ∷ [] }

abbrev owed : Bignum
owed = record { sign = minus; digits = 1 ∷ 1 ∷ [] }

full-IsBignum : IsBignum full
full-IsBignum = omega arith

owed-IsBignum : IsBignum owed
owed-IsBignum = omega arith

-- A carry through every digit makes a new one.
fxadd_carries : (bignum_fxadd full 1).digits ≡ 0 ∷ 0 ∷ 1 ∷ []
unfolding bignum_fxadd bignum_hi extended
fxadd_carries = refl

add_cancels :
    (bignum_add full owed).digits ≡ 18_446_744_073_709_551_614 ∷ 18_446_744_073_709_551_614 ∷ []
unfolding bignum_add bignum_sub_digits bignum_hi bignum_compare_abs
add_cancels = refl

fxdiv_runs : (bignum_fxdiv full 10 0).1 ≡ 5
unfolding bignum_fxdiv bignum_hi
fxdiv_runs = refl

bignum_sub_lem_example :
    (to_ℤ (bignum_sub owed full) ≡ to_ℤ owed -ℤ to_ℤ full) × IsBignum (bignum_sub owed full)
bignum_sub_lem_example = bignum_sub_lem owed full owed-IsBignum full-IsBignum

bignum_add_fixnum_lem_example :
    (r : Bignum) × (bignum_add_fixnum owed plus 3 ≡ some r)
    × (to_ℤ r ≡ to_ℤ owed +ℤ pos 3)
    × IsBignum r
bignum_add_fixnum_lem_example = bignum_add_fixnum_lem owed plus 3 owed-IsBignum (omega arith)

bignum_compare-Orders_example : Orders_ℤ (bignum_compare owed full) (to_ℤ owed) (to_ℤ full)
bignum_compare-Orders_example =
    bignum_compare-Orders owed full owed-IsBignum full-IsBignum (omega arith)

bignum_normalize_lem_example :
    (integer_value (bignum_normalize owed) ≡ to_ℤ owed)
    × ((is_fixnum (bignum_normalize owed) ≡ true) ↔ FitsFixnum (to_ℤ owed))
bignum_normalize_lem_example = bignum_normalize_lem owed owed-IsBignum

bignum_fxsub_lem_example :
    (r : Bignum) × (bignum_fxsub owed 2 ≡ some r)
    × (to_ℤ r ≡ to_ℤ owed -ℤ signed minus 2)
    × IsBignum r
bignum_fxsub_lem_example = bignum_fxsub_lem owed 2 owed-IsBignum (omega arith)

bignum_fxdiv_lem_example :
    let (q, r) = bignum_fxdiv full 10 0 in
    (value q.digits * 10 + r ≡ value full.digits) × (r < 10) × (q.sign ≡ plus) × IsBignum q
bignum_fxdiv_lem_example = bignum_fxdiv_lem full 10 full-IsBignum (omega arith) (omega arith)

-- (2^64 + 1) * -(2^64 + 1)
mul_runs :
    mul_loop 5 (record { sign = plus; digits = 1 ∷ 1 ∷ [] }) owed
    ≡ some (record { sign = minus; digits = 1 ∷ 2 ∷ 1 ∷ 0 ∷ [] })
unfolding mul_loop bignum_hi bignum_fxmul bignum_add bignum_sub bignum_compare_abs bignum_add_digits
    push_carry bignum_sub_digits
mul_runs = refl

bignum_mul_lem_example :
    (r : Bignum) × (bignum_mul full owed ≡ some r) × (to_ℤ r ≡ to_ℤ full *ℤ to_ℤ owed) × IsBignum r
bignum_mul_lem_example = bignum_mul_lem full owed full-IsBignum owed-IsBignum

bignum_expt_lem_example :
    (r : Bignum) × (bignum_expt owed 3 ≡ some r)
    × (to_ℤ r ≡ signed (power_sign owed.sign 3) (value owed.digits ^ 3))
    × IsBignum r
bignum_expt_lem_example = bignum_expt_lem owed 3 owed-IsBignum
