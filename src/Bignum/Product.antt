-- ===== src/Bignum/Product.antt =====
-- The product of two bignums and a power: `sexp_bignum_split`, `sexp_bignum_shift`,
-- `sexp_bignum_mul` and `sexp_bignum_expt` of bignum.c. The destination of a product is NULL, the
-- only one that the code passes.
pub mod Parts
pub mod Karatsuba
pub mod Recursion
pub mod Power
use chibi_scheme.Prelude.{
  ℕ, zero, suc, ◌+◌, ◌-◌, ◌*◌, ◌/◌, ◌%◌, Bool, true, false, Option, none, some, List, [], ◌∷◌, ◌++◌,
  ◌==◌, ltb, if◌then◌else◌, ◌>>=◌, take, drop, replicate, get_or,
}
use chibi_scheme.Bignum.Digits.{
  Sign, plus, minus, Bignum, value, fit, copy_bignum, fixnum_to_bignum,
}
use chibi_scheme.Bignum.Hi.{bignum_hi}
use chibi_scheme.Bignum.Fixnum.{Dest, fresh, bignum_fxmul}
use chibi_scheme.Bignum.Sum.{bignum_add, bignum_sub}

-- The product of two signs
unfoldable pub mul_sign : Sign → Sign → Sign
mul_sign plus t = t
mul_sign minus plus = minus
mul_sign minus minus = plus

-- a[0..k-1], and a[k..] with a zero on top
unfoldable pub split_low : Bignum → ℕ → Bignum
unfolding fit
split_low a k = record { sign = plus; digits = fit k (take k a.digits) }

unfoldable pub split_high : Bignum → ℕ → Bignum
unfolding fit
split_high a k =
    let alen = bignum_hi a in
    record { sign = plus; digits = fit (alen - k + 1) (drop k (take alen a.digits)) }

unfoldable pub bignum_shift : Bignum → ℕ → Bignum
unfolding fit
bignum_shift a k =
    let alen = bignum_hi a in
    record { sign = plus; digits = replicate k 0 ++ fit (alen + 1) (take alen a.digits) }

-- z2 B^2k + z1 B^k + z0, where z1 is what is left of the product of the sums
unfoldable pub karatsuba_sum : ℕ → Bignum → Bignum → Bignum → Bignum
unfolding bignum_shift
karatsuba_sum k z1 z0 z2 =
    let middle = bignum_sub (bignum_sub z1 z0) z2 in
    bignum_add (bignum_add (bignum_shift middle k) z0) (bignum_shift z2 (2 * k))

unfoldable pub karatsuba : (Bignum → Bignum → Option Bignum) → Bignum → Bignum → Option Bignum
unfolding split_low split_high karatsuba_sum
karatsuba mul a b =
    let k = bignum_hi b / 2 in
    mul (bignum_add (split_high b k) (split_low b k)) (bignum_add (split_high a k) (split_low a k))
    >>= λ z1. mul (split_low a k) (split_low b k) >>= λ z0.
        mul (split_high a k) (split_high b k) >>= λ z2. some (karatsuba_sum k z1 z0 z2)

-- `a` has at least as many digits.
unfoldable pub mul_ordered : (Bignum → Bignum → Option Bignum) → Bignum → Bignum → Option Bignum
unfolding karatsuba mul_sign
mul_ordered mul a b =
    (if bignum_hi b == 1
      then some (bignum_fxmul fresh a (get_or b.digits 0 0) 0)
      else karatsuba mul a b)
    >>= λ z1. some (record z1 { sign = mul_sign a.sign b.sign })

-- The recursion, on fuel; the call with the operands exchanged comes back to the other branch.
unfoldable pub mul_loop : ℕ → Bignum → Bignum → Option Bignum
unfolding mul_ordered
mul_loop zero a b = none
mul_loop (suc fuel) a b =
    if ltb (bignum_hi a) (bignum_hi b)
    then mul_ordered (mul_loop fuel) b a
    else mul_ordered (mul_loop fuel) a b

-- The sum of the magnitudes gets smaller with each call.
unfoldable pub bignum_mul : Bignum → Bignum → Option Bignum
unfolding mul_loop
bignum_mul a b = mul_loop (suc (value a.digits + value b.digits)) a b

-- for (; abs_e; abs_e >>= 1, acc = acc * acc), with fuel for its rounds
unfoldable pub expt_loop : ℕ → ℕ → Bignum → Bignum → Option Bignum
unfolding bignum_mul
expt_loop zero e res acc = none
expt_loop (suc fuel) e res acc =
    if e == 0
    then some res
    else (if e % 2 == 1 then bignum_mul res acc else some res) >>= λ res'.
        bignum_mul acc acc >>= λ acc'. expt_loop fuel (e / 2) res' acc'

-- For an exponent that is not negative, and before the result is normalised
unfoldable pub bignum_expt : Bignum → ℕ → Option Bignum
unfolding expt_loop
bignum_expt a e = expt_loop (suc e) e (fixnum_to_bignum plus 1) (copy_bignum none a 0)
