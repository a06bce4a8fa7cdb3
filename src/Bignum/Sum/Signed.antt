-- ===== src/Bignum/Sum/Signed.antt =====
-- `sexp_bignum_add`, `sexp_bignum_sub` and `sexp_bignum_add_fixnum` are integer arithmetic.
use chibi_scheme.Prelude.{
  ℕ, zero, suc, ◌+◌, ◌≤◌, ◌<◌, ◌≡◌, refl, Bool, true, false, not, some, if◌then◌else◌, Bool-cases,
  inl, inr, word, arith, ap, sym, ◌∙◌,
}
use chibi_scheme.Prelude.Int.{ℤ, pos, negsuc, ◌+ℤ◌, ◌-ℤ◌}
use chibi_scheme.Bignum.Digits.{
  Sign, plus, minus, negate_sign, same_sign, Bignum, IsBignum, value, signed, to_ℤ,
  copy_bignum_self,
}
use chibi_scheme.Bignum.Compare.{bignum_compare_abs, bignum_compare_abs-Orders, Orders}
use chibi_scheme.Bignum.Fixnum.{bignum_fxadd}
use chibi_scheme.Bignum.Fixnum.Add.{bignum_fxadd_lem}
use chibi_scheme.Bignum.Fixnum.Sub.{bignum_fxsub_lem}
use chibi_scheme.Bignum.Sum.{
  is_nonneg, bignum_add_digits, bignum_sub_digits, bignum_add, bignum_sub, bignum_add_fixnum,
}
use chibi_scheme.Bignum.Sum.Digits.{bignum_add_digits_lem, bignum_sub_digits_lem}

signed-sum :
    (s t : Sign) (r m n : ℕ)
    → same_sign s t ≡ true
    → r ≡ m + n
    → signed s r ≡ signed s m +ℤ signed t n
unfolding same_sign ◌+ℤ◌
signed-sum plus plus r m n h e = ground arith
signed-sum plus minus r m n h e = absurd (cc)
signed-sum minus plus r m n h e = absurd (cc)
signed-sum minus minus r m n h e = ground arith

-- The sign of a sum of opposite signs is that of the larger magnitude.
signed-gap :
    (s t : Sign) (c : ℤ) (r m n : ℕ)
    → same_sign s t ≡ false
    → Orders c m n
    → (n ≤ m → r + n ≡ m)
    → (m ≤ n → r + m ≡ n)
    → signed (if is_nonneg c then s else t) r ≡ signed s m +ℤ signed t n
unfolding same_sign ◌+ℤ◌ is_nonneg
signed-gap plus plus c r m n h o f g = absurd (cc)
signed-gap minus minus c r m n h o f g = absurd (cc)
signed-gap plus minus (pos zero) r m n h o f g = ground (arith, f (omega arith))
signed-gap plus minus (pos (suc k)) r m n h o f g = ground (arith, f (omega arith))
signed-gap plus minus (negsuc k) r m n h o f g = ground (arith, g (omega arith))
signed-gap minus plus (pos zero) r m n h o f g = ground (arith, f (omega arith))
signed-gap minus plus (pos (suc k)) r m n h o f g = ground (arith, f (omega arith))
signed-gap minus plus (negsuc k) r m n h o f g = ground (arith, g (omega arith))

signed-negate : (t : Sign) (x : ℤ) (n : ℕ) → x +ℤ signed (negate_sign t) n ≡ x -ℤ signed t n
unfolding negate_sign ◌+ℤ◌ ◌-ℤ◌
signed-negate plus x n = ground arith
signed-negate minus x n = ground arith

same_sign-negate : (s t : Sign) (b : Bool) → same_sign s t ≡ b → same_sign s (negate_sign t) ≡ not b
unfolding same_sign negate_sign
same_sign-negate plus plus b h = ap not h
same_sign-negate plus minus b h = ap not h
same_sign-negate minus plus b h = ap not h
same_sign-negate minus minus b h = ap not h

same_sign-eq : (s t : Sign) → same_sign s t ≡ true → s ≡ t
unfolding same_sign
same_sign-eq plus plus h = refl
same_sign-eq plus minus h = absurd (cc)
same_sign-eq minus plus h = absurd (cc)
same_sign-eq minus minus h = refl

module _ (a b : Bignum) (v : IsBignum a) (w : IsBignum b) where
  sum : value (bignum_add_digits a b).digits ≡ value a.digits + value b.digits
  sum = (bignum_add_digits_lem a b v w).0

  sum-IsBignum : IsBignum (bignum_add_digits a b)
  sum-IsBignum = (bignum_add_digits_lem a b v w).1

  pub bignum_add_lem : (to_ℤ (bignum_add a b) ≡ to_ℤ a +ℤ to_ℤ b) × IsBignum (bignum_add a b)
  unfolding bignum_add
  bignum_add_lem =
      let (down, up, is) = bignum_sub_digits_lem a b v w in
      elim (Bool-cases (same_sign a.sign b.sign)) [
        | inl e ↦ rw e (
          signed-sum a.sign b.sign _ _ _ e sum,
          record { nonempty = sum-IsBignum.nonempty; words = sum-IsBignum.words },
        )
        | inr e ↦ rw e (
          signed-gap a.sign b.sign (bignum_compare_abs a b) _ _ _ e
              (bignum_compare_abs-Orders a b v w) down up,
          record { nonempty = is.nonempty; words = is.words },
        )
      ]

  -- `sexp_bignum_sub` is the difference of the integers, and a bignum.
  pub bignum_sub_lem : (to_ℤ (bignum_sub a b) ≡ to_ℤ a -ℤ to_ℤ b) × IsBignum (bignum_sub a b)
  unfolding bignum_sub
  bignum_sub_lem =
      let (down, up, is) = bignum_sub_digits_lem a b v w in
      elim (Bool-cases (same_sign a.sign b.sign)) [
        | inl e ↦
            let s : a.sign ≡ b.sign = same_sign-eq a.sign b.sign e in
            rw e (
              ap
                    (λ t.
                      signed (if is_nonneg (bignum_compare_abs a b) then a.sign else negate_sign t)
                        (value (bignum_sub_digits a b).digits))
                    s
                  ∙ signed-gap a.sign (negate_sign b.sign) (bignum_compare_abs a b) _ _ _
                      (same_sign-negate a.sign b.sign true e) (bignum_compare_abs-Orders a b v w)
                      down up
                  ∙ signed-negate b.sign _ _,
              record { nonempty = is.nonempty; words = is.words },
            )
        | inr e ↦ rw e (
          signed-sum a.sign (negate_sign b.sign) _ _ _ (same_sign-negate a.sign b.sign false e) sum
              ∙ signed-negate b.sign _ _,
          record { nonempty = sum-IsBignum.nonempty; words = sum-IsBignum.words },
        )
      ]

-- `sexp_bignum_add_fixnum` is the sum of the bignum and the fixnum, of either sign, and a bignum.
pub bignum_add_fixnum_lem :
    (a : Bignum) (s : Sign) (abs : ℕ)
    → IsBignum a
    → abs < word
    → (r : Bignum) × (bignum_add_fixnum a s abs ≡ some r)
      × (to_ℤ r ≡ to_ℤ a +ℤ signed s abs)
      × IsBignum r
unfolding bignum_add_fixnum same_sign negate_sign
bignum_add_fixnum_lem a s abs w h = elim (Bool-cases (same_sign a.sign s)) [
  | inl e ↦
      let (total, kept, is) = bignum_fxadd_lem a abs w h in
      (
        bignum_fxadd a abs,
        rw (copy_bignum_self a, e) refl,
        ap (λ t. signed t (value (bignum_fxadd a abs).digits)) kept
            ∙ signed-sum a.sign s _ _ _ e total,
        is,
      )
  | inr e ↦
      let (r, eq, total, is) = bignum_fxsub_lem a abs w h in
      let opposite : s ≡ negate_sign a.sign = differ a.sign s e in
      (
        r,
        rw (copy_bignum_self a, e) eq,
        total ∙ sym (signed-negate a.sign _ _) ∙ ap (λ t. to_ℤ a +ℤ signed t abs) (sym opposite),
        is,
      )
]
  where
    differ : (s t : Sign) → same_sign s t ≡ false → t ≡ negate_sign s
    differ plus plus e = absurd (cc)
    differ minus minus e = absurd (cc)
    differ plus minus e = refl
    differ minus plus e = refl
