-- ===== src/Bignum/Sum.antt =====
-- Sums and differences of two bignums: `sexp_bignum_add_digits`, `sexp_bignum_sub_digits`,
-- `sexp_bignum_add`, `sexp_bignum_sub` and `sexp_bignum_add_fixnum` of bignum.c. The destination is
-- NULL or the first operand, the only ones that bignum.c passes; either way the digits of the longer
-- operand are where the result starts, so it is no argument here.
pub mod Loops
pub mod Digits
pub mod Signed
use mathlib.Core.Option
use chibi_scheme.Prelude.{
  ℕ, zero, suc, ◌+◌, ◌-◌, ◌%◌, Bool, true, false, ◌&&◌, ◌||◌, Option, none, some, List, [], ◌∷◌,
  ◌==◌, ltb, leb, if◌then◌else◌, word, uint_max,
}
use chibi_scheme.Prelude.Int.{ℤ, pos, negsuc, ltb_ℤ}
use chibi_scheme.Bignum.Digits.{Sign, plus, minus, negate_sign, same_sign, Bignum, copy_bignum}
use chibi_scheme.Bignum.Hi.{bignum_hi}
use chibi_scheme.Bignum.Compare.{bignum_compare_abs}
use chibi_scheme.Bignum.Fixnum.{Carried, under, push_carry, bignum_fxadd, bignum_fxsub}

-- for ( ; carry && (i < alen); i++), with `left` rounds left.
carry_loop : ℕ → ℕ → List ℕ → Carried
carry_loop zero carry xs = (xs, carry)
carry_loop (suc left) carry [] = ([], carry)
carry_loop (suc left) carry (x ∷ xs) =
    if carry == 0
    then (x ∷ xs, carry)
    else under ((x + 1) % word) (carry_loop left (if x == uint_max then 1 else 0) xs)

-- for (i = 0; i < blen; i++), with `shared` rounds left; then the loop above.
pub add_loop : ℕ → ℕ → ℕ → List ℕ → List ℕ → Carried
unfolding carry_loop
add_loop zero left carry xs ys = carry_loop left carry xs
add_loop (suc shared) left carry [] ys = ([], carry)
add_loop (suc shared) left carry (x ∷ xs) [] = (x ∷ xs, carry)
add_loop (suc shared) left carry (x ∷ xs) (y ∷ ys) =
    let p_sum = (x + y) % word in
    let carry' : ℕ =
      (if ltb (uint_max - y) x then 1 else 0) + (if ltb (uint_max - carry) p_sum then 1 else 0) in
    under ((p_sum + carry) % word) (add_loop shared left carry' xs ys)

-- `a` has at least as many digits in use.
add_ordered : Bignum → Bignum → Bignum
unfolding add_loop
add_ordered a b =
    let alen = bignum_hi a in
    let blen = bignum_hi b in push_carry a alen (add_loop blen (alen - blen) 0 a.digits b.digits)

unfoldable pub bignum_add_digits : Bignum → Bignum → Bignum
unfolding add_ordered
bignum_add_digits a b = if ltb (bignum_hi a) (bignum_hi b) then add_ordered b a else add_ordered a b

-- for ( ; borrow && (i < alen); i++), with `left` rounds left.
borrow_loop : ℕ → ℕ → List ℕ → List ℕ
borrow_loop zero borrow xs = xs
borrow_loop (suc left) borrow [] = []
borrow_loop (suc left) borrow (x ∷ xs) =
    if borrow == 0
    then x ∷ xs
    else (x + word - 1) % word ∷ borrow_loop left (if x == 0 then 1 else 0) xs

-- A digit of the difference and the borrow, by the two branches of the loop body.
sub_step : ℕ → ℕ → ℕ → ℕ × ℕ
sub_step x y borrow =
    if ltb y x || (x == y && borrow == 0)
    then (x - y - borrow, 0)
    else ((((uint_max - y + 1) % word + word - borrow) % word + x) % word, 1)

pub sub_loop : ℕ → ℕ → ℕ → List ℕ → List ℕ → List ℕ
unfolding borrow_loop sub_step
sub_loop zero left borrow xs ys = borrow_loop left borrow xs
sub_loop (suc shared) left borrow [] ys = []
sub_loop (suc shared) left borrow (x ∷ xs) [] = x ∷ xs
sub_loop (suc shared) left borrow (x ∷ xs) (y ∷ ys) =
    let (d, borrow') = sub_step x y borrow in d ∷ sub_loop shared left borrow' xs ys

-- `a` has the magnitude that is not smaller.
sub_ordered : Bignum → Bignum → Bignum
unfolding sub_loop
sub_ordered a b =
    let alen = bignum_hi a in
    let blen = bignum_hi b in record a { digits = sub_loop blen (alen - blen) 0 a.digits b.digits }

unfoldable pub bignum_sub_digits : Bignum → Bignum → Bignum
unfolding sub_ordered
bignum_sub_digits a b =
    let alen = bignum_hi a in
    let blen = bignum_hi b in
    if ltb alen blen || (alen == blen && ltb_ℤ (bignum_compare_abs a b) (pos 0))
    then sub_ordered b a
    else sub_ordered a b

pub is_nonneg : ℤ → Bool
is_nonneg (pos n) = true
is_nonneg (negsuc n) = false

unfoldable pub bignum_add : Bignum → Bignum → Bignum
unfolding same_sign is_nonneg
bignum_add a b =
    if same_sign a.sign b.sign
    then record (bignum_add_digits a b) { sign = a.sign }
    else record (bignum_sub_digits a b) {
      sign = if is_nonneg (bignum_compare_abs a b) then a.sign else b.sign;
    }

unfoldable pub bignum_sub : Bignum → Bignum → Bignum
unfolding same_sign is_nonneg negate_sign
bignum_sub a b =
    if same_sign a.sign b.sign
    then record (bignum_sub_digits a b) {
      sign = if is_nonneg (bignum_compare_abs a b) then a.sign else negate_sign a.sign;
    }
    else record (bignum_add_digits a b) { sign = a.sign }

-- The fixnum is its sign and magnitude; the bignum is copied first.
unfoldable pub bignum_add_fixnum : Bignum → Sign → ℕ → Option Bignum
unfolding same_sign
bignum_add_fixnum a s abs =
    let c = copy_bignum none a 0 in
    if same_sign c.sign s then some (bignum_fxadd c abs) else bignum_fxsub c abs
