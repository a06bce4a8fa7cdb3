-- ===== src/Bignum/Fixnum.antt =====
-- A bignum with one machine word: `sexp_bignum_fxadd`, `sexp_bignum_fxsub`, `sexp_bignum_fxmul` and
-- `sexp_bignum_fxdiv` of bignum.c.
pub mod Add
pub mod Scale
pub mod Sub
use mathlib.Core.Option
use chibi_scheme.Prelude.{
  ℕ, zero, suc, ◌+◌, ◌-◌, ◌*◌, ◌/◌, ◌%◌, ◌≤◌, ◌<◌, ◌≡◌, refl, Bool, true, false, ◌&&◌, ◌||◌, Option,
  none, some, List, [], ◌∷◌, ◌++◌, arith, ◌==◌, ltb, leb, if◌then◌else◌, Bool-cases, inl, inr,
  length, replicate, take, drop, set, get_or, word, uint_max, ap, sym, ◌∙◌,
}
use chibi_scheme.Prelude.Int.{ℤ, pos, negsuc, sub_ℕ, ◌+ℤ◌, ◌-ℤ◌}
use chibi_scheme.Bignum.Digits.{
  Sign, plus, minus, negate_sign, Bignum, IsBignum, value, signed, to_ℤ, AreWords, ZeroAbove, place,
  make_bignum, copy_bignum, extended, fit, value-set-fit, value-fit, length-fit,
  value-ZeroAbove_zero, take-all,
}
use chibi_scheme.Bignum.Hi.{
  bignum_hi, bignum_hi-ZeroAbove, bignum_hi_bounds, bignum_hi_top, place-le-value,
  value-take-ZeroAbove, place_mono,
}

-- What a digit loop leaves: the array, and the carry or borrow.
abbrev pub Carried : Type 0
Carried = List ℕ × ℕ

abbrev pub under : ℕ → Carried → Carried
under d (ds, c) = (d ∷ ds, c)

-- do { n = data[i]; data[i] += carry; carry = (n > MAX - carry); } while (++i < len && carry)
-- with `len - i - 1` rounds left behind this one.
fxadd_loop : ℕ → ℕ → List ℕ → Carried
fxadd_loop left carry [] = ([], carry)
fxadd_loop zero carry (n ∷ ds) =
    ((n + carry) % word ∷ ds, if ltb (uint_max - carry) n then 1 else 0)
fxadd_loop (suc left) carry (n ∷ ds) =
    if ltb (uint_max - carry) n
    then under ((n + carry) % word) (fxadd_loop left 1 ds)
    else ((n + carry) % word ∷ ds, 0)

-- The carry, if one is left, becomes a new top digit of a longer copy.
unfoldable pub push_carry : Bignum → ℕ → Carried → Bignum
push_carry a len (ds, carry) =
    if carry == 0 then record a { digits = ds } else record a { digits = extended ds len 1 }

unfoldable pub bignum_fxadd : Bignum → ℕ → Bignum
unfolding fxadd_loop push_carry
bignum_fxadd a b = let len = bignum_hi a in push_carry a len (fxadd_loop (len - 1) b a.digits)

-- for (borrow = b; borrow; i++): no bound on i. `none` is a write past the array.
fxsub_loop : ℕ → List ℕ → Option (List ℕ)
fxsub_loop borrow [] = if borrow == 0 then some [] else none
fxsub_loop borrow (n ∷ ds) =
    if borrow == 0
    then some (n ∷ ds)
    else Option.map (λ (r : List ℕ). (n + word - borrow) % word ∷ r)
        (fxsub_loop (if ltb n borrow then 1 else 0) ds)

unfoldable pub bignum_fxsub : Bignum → ℕ → Option Bignum
unfolding fxsub_loop negate_sign
bignum_fxsub a b =
    let low = get_or a.digits 0 0 in
    if (bignum_hi a == 1) && ltb low b
    then some (record { sign = negate_sign a.sign; digits = set a.digits 0 (b - low) })
    else Option.map (λ (ds : List ℕ). record { sign = a.sign; digits = ds }) (fxsub_loop b a.digits)

-- n = adata[i] * b + carry, a double word; its halves are stored and carried.
unfoldable pub fxmul_loop : ℕ → ℕ → List ℕ → Carried
fxmul_loop b carry [] = ([], carry)
fxmul_loop b carry (d ∷ ds) = let n = d * b + carry in under (n % word) (fxmul_loop b (n / word) ds)

-- Where a product goes: `d` is NULL, or `d` is the factor itself, the two ways it is called. The
-- factor is long enough only at offset 0.
pub data Dest : Type 0 where
  fresh in_place : Dest

unfoldable pub dest_sign : Dest → ℕ → Sign → Sign
dest_sign fresh offset s = plus
dest_sign in_place zero s = s
dest_sign in_place (suc offset) s = plus

-- The product, its digits moved up by `offset`.
unfoldable pub bignum_fxmul : Dest → Bignum → ℕ → ℕ → Bignum
unfolding fxmul_loop dest_sign
bignum_fxmul dest a b offset =
    let (ds, carry) = fxmul_loop b 0 a.digits in
    let top = length a.digits + offset in
    let d : Bignum = record {
      sign = dest_sign dest offset a.sign;
      digits = replicate offset 0 ++ ds;
    } in
    if carry == 0 then d else record d { digits = extended d.digits top carry }

-- for (i = len - 1; i >= offset; i--): the digits from `offset` on, highest first; the remainder
-- so far is the high word of the next double word.
div_step : ℕ → ℕ → Carried → Carried
div_step b d (qs, r) = let n = r * word + d in let q = n / b % word in (q ∷ qs, (n - q * b) % word)

unfoldable pub fxdiv_loop : ℕ → List ℕ → Carried
unfolding div_step
fxdiv_loop b [] = ([], 0)
fxdiv_loop b (d ∷ ds) = div_step b d (fxdiv_loop b ds)

-- The quotient replaces the digits; the remainder is returned.
unfoldable pub bignum_fxdiv : Bignum → ℕ → ℕ → Bignum × ℕ
unfolding fxdiv_loop
bignum_fxdiv a b offset =
    let len = bignum_hi a in
    let (qs, r) = fxdiv_loop b (drop offset (take len a.digits)) in
    (record a { digits = take offset a.digits ++ qs ++ drop len a.digits }, r)
