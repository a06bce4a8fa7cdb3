-- ===== src/Bignum/Digits.antt =====
-- The bignum object of bignum.c and sexp.h, what its digits stand for, `sexp_make_bignum`,
-- `sexp_fixnum_to_bignum` and `sexp_copy_bignum`.
use native.Mathlib.Numerals.{add-one}
use chibi_scheme.Prelude.{
  length-set, ap, ◌∙◌, ℕ, zero, suc, ◌+◌, ◌*◌, ◌≤◌, ◌<◌, ◌≡◌, refl, Bool, true, false, Option, none,
  some, List, [], ◌∷◌, arith, ltb, if◌then◌else◌, length, take, set, replicate, word, All,
}
use chibi_scheme.Prelude.Int.{ℤ, pos, negsuc}

-- 1 and -1, the values of `sexp_bignum_sign`.
pub data Sign : Type 0 where
  plus minus : Sign

unfoldable pub negate_sign : Sign → Sign
negate_sign plus = minus
negate_sign minus = plus

unfoldable pub same_sign : Sign → Sign → Bool
same_sign plus plus = true
same_sign minus minus = true
same_sign plus minus = false
same_sign minus plus = false

-- `digits` is `sexp_bignum_data`, least significant first; its length is `sexp_bignum_length`.
pub record Bignum : Type 0 where
  pub sign : Sign
  pub digits : List ℕ

-- What the digits stand for.
abbrev pub value : List ℕ → ℕ
value [] = 0
value (d ∷ ds) = d + word * value ds

abbrev pub signed : Sign → ℕ → ℤ
signed plus n = pos n
signed minus zero = pos 0
signed minus (suc n) = negsuc n

abbrev pub to_ℤ : Bignum → ℤ
to_ℤ a = signed a.sign (value a.digits)

abbrev pub AreWords : List ℕ → Type 0
AreWords ds = All (λ d. d < word) ds

-- Every digit is a word, and there is at least one.
pub record IsBignum (a : Bignum) : Type 0 where
  pub nonempty : 0 < length a.digits
  pub words : AreWords a.digits

unfoldable pub make_bignum : ℕ → Bignum
make_bignum len = record { sign = plus; digits = replicate len 0 }

-- The number that a fixnum boxes, as sign and magnitude.
unfoldable pub fixnum_to_bignum : Sign → ℕ → Bignum
fixnum_to_bignum s abs = record { sign = s; digits = abs ∷ [] }

-- The digits of `src` in an array of `len` digits: `memset` and `memmove`.
unfoldable pub fit : ℕ → List ℕ → List ℕ
fit zero ds = []
fit (suc len) [] = 0 ∷ fit len []
fit (suc len) (d ∷ ds) = d ∷ fit len ds

copy_size : Option Bignum → ℕ → ℕ
copy_size none len = len
copy_size (some d) len = if ltb (length d.digits) len then len else length d.digits

-- `dst` is reused if it is there and long enough, and then keeps its length.
unfoldable pub copy_bignum : Option Bignum → Bignum → ℕ → Bignum
unfolding fit copy_size
copy_bignum dst a len0 =
    let len = if ltb 0 len0 then len0 else length a.digits in
    record { sign = a.sign; digits = fit (copy_size dst len) (take len a.digits) }

pub length-fit : (len : ℕ) (ds : List ℕ) → length (fit len ds) ≡ len
unfolding fit
length-fit zero ds = refl
length-fit (suc len) [] = omega (arith, length-fit len [])
length-fit (suc len) (d ∷ ds) = omega (arith, length-fit len ds)

pub fit-AreWords : (len : ℕ) (ds : List ℕ) → AreWords ds → AreWords (fit len ds)
unfolding fit
fit-AreWords zero ds w = tt
fit-AreWords (suc len) [] w = (omega arith, fit-AreWords len [] w)
fit-AreWords (suc len) (d ∷ ds) w = (w.0, fit-AreWords len ds w.1)

pub value-fit-nil : (len : ℕ) → value (fit len []) ≡ 0
unfolding fit
value-fit-nil zero = refl
value-fit-nil (suc len) = omega (arith, value-fit-nil len)

pub value-fit : (len : ℕ) (ds : List ℕ) → length ds ≤ len → value (fit len ds) ≡ value ds
unfolding fit
value-fit zero [] h = refl
value-fit zero (d ∷ ds) h = absurd (omega arith)
value-fit (suc len) [] h = omega (arith, value-fit-nil len)
value-fit (suc len) (d ∷ ds) h = omega (arith, value-fit len ds (omega arith))

pub take-all {ℓ} : {A : Type ℓ} (xs : List A) (n : ℕ) → length xs ≤ n → take n xs ≡ xs
take-all [] zero h = refl
take-all [] (suc n) h = refl
take-all (x ∷ xs) zero h = absurd (omega arith)
take-all (x ∷ xs) (suc n) h = rw (take-all xs n (omega arith))

-- The digits above `n` are zero.
abbrev pub ZeroAbove : ℕ → List ℕ → Type 0
ZeroAbove n [] = Unit
ZeroAbove zero (d ∷ ds) = (d ≡ 0) × ZeroAbove zero ds
ZeroAbove (suc n) (d ∷ ds) = ZeroAbove n ds

pub value-ZeroAbove_zero : (ds : List ℕ) → ZeroAbove 0 ds → value ds ≡ 0
value-ZeroAbove_zero [] z = refl
value-ZeroAbove_zero (d ∷ ds) z = omega (arith, value-ZeroAbove_zero ds z.1)

-- Extending by a fresh top digit, as the callers do after a carry.
unfoldable pub place : ℕ → ℕ → ℕ
place zero c = c
place (suc n) c = word * place n c

pub place_zero : (n : ℕ) → place n 0 ≡ 0
unfolding place
place_zero zero = refl
place_zero (suc n) = omega (arith, place_zero n)

pub AreWords-take : (n : ℕ) (ds : List ℕ) → AreWords ds → AreWords (take n ds)
AreWords-take zero ds w = tt
AreWords-take (suc n) [] w = tt
AreWords-take (suc n) (d ∷ ds) w = (w.0, AreWords-take n ds w.1)

pub AreWords-set : (n v : ℕ) (ds : List ℕ) → v < word → AreWords ds → AreWords (set ds n v)
AreWords-set n v [] h w = tt
AreWords-set zero v (d ∷ ds) h w = (h, w.1)
AreWords-set (suc n) v (d ∷ ds) h w = (w.0, AreWords-set n v ds h w.1)

pub value-set-fit :
    (n c : ℕ) (ds : List ℕ)
    → ZeroAbove n ds
    → value (set (fit (suc n) (take (suc n) ds)) n c) ≡ value ds + place n c
unfolding fit place
value-set-fit zero c [] z = omega arith
value-set-fit zero c (d ∷ ds) z = omega (arith, value-ZeroAbove_zero ds z.1)
value-set-fit (suc n) c [] z = omega (arith, value-set-fit n c [] tt)
value-set-fit (suc n) c (d ∷ ds) z = omega (arith, value-set-fit n c ds z)

-- A copy one digit longer than the digits in use, with `c` written on top.
unfoldable pub extended : List ℕ → ℕ → ℕ → List ℕ
unfolding fit copy_bignum
extended ds n c = set (copy_bignum none (record { sign = plus; digits = ds }) (n + 1)).digits n c

extended_lem : (ds : List ℕ) (n c : ℕ) → extended ds n c ≡ set (fit (suc n) (take (suc n) ds)) n c
unfolding extended
extended_lem ds n c =
    let some_length : ltb 0 (suc n) ≡ true = ground arith in rw (add-one, some_length)

pub value-extended :
    (ds : List ℕ) (n c : ℕ) → ZeroAbove n ds → value (extended ds n c) ≡ value ds + place n c
value-extended ds n c z = rw (extended_lem ds n c) (value-set-fit n c ds z)

pub extended-AreWords :
    (ds : List ℕ) (n c : ℕ) → AreWords ds → c < word → AreWords (extended ds n c)
extended-AreWords ds n c w h =
    rw (extended_lem ds n c)
      (AreWords-set n c _ h (fit-AreWords (suc n) _ (AreWords-take (suc n) ds w)))

pub length-extended : (ds : List ℕ) (n c : ℕ) → length (extended ds n c) ≡ suc n
length-extended ds n c =
    rw (extended_lem ds n c) (length-set _ n c ∙ length-fit (suc n) (take (suc n) ds))

fit_self : (ds : List ℕ) → fit (length ds) (take (length ds) ds) ≡ ds
unfolding fit
fit_self [] = refl
fit_self (d ∷ ds) = ap (λ r. d ∷ r) (fit_self ds)

-- A copy of no stated length into no destination is the same number in as many digits.
pub copy_bignum_self : (a : Bignum) → copy_bignum none a 0 ≡ a
unfolding copy_bignum
copy_bignum_self a = λ i. record { sign = a.sign; digits = fit_self a.digits i }
