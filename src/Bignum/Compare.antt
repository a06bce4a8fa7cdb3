-- ===== src/Bignum/Compare.antt =====
-- `sexp_bignum_compare_abs` and `sexp_bignum_compare` of bignum.c.
use chibi_scheme.Prelude.{
  ℕ, zero, suc, ◌+◌, ◌-◌, ◌≤◌, ◌<◌, ◌≡◌, ◌≢◌, refl, true, false, not, List, arith, ◌∙◌, ap, sym,
  ◌==◌, if◌then◌else◌, Bool-cases, inl, inr, take, get_or, ltb, leb,
}
use chibi_scheme.Prelude.Int.{ℤ, pos, negsuc, sub_ℕ, ◌<ℤ◌}
use chibi_scheme.Bignum.Digits.{
  Sign, plus, minus, same_sign, Bignum, IsBignum, value, signed, to_ℤ, AreWords, ZeroAbove, place,
}
use chibi_scheme.Bignum.Hi.{
  bignum_hi, bignum_hi-ZeroAbove, bignum_hi_bounds, bignum_hi_top, value-take-ZeroAbove, place_mono,
  value-lt-place, place-le-value, value-take-suc, value-take-lt-place,
}

-- for (--ai; ai >= 0; ai--), with `ai` rounds left.
compare_loop : List ℕ → List ℕ → ℕ → ℤ
compare_loop xs ys zero = pos 0
compare_loop xs ys (suc i) =
    if ltb (get_or ys i 0) (get_or xs i 0)
    then pos 1
    else if ltb (get_or xs i 0) (get_or ys i 0)
    then negsuc 0
    else compare_loop xs ys i

unfoldable pub bignum_compare_abs : Bignum → Bignum → ℤ
unfolding compare_loop
bignum_compare_abs a b =
    let ai = bignum_hi a in
    let bi = bignum_hi b in
    if not (ai == bi) then sub_ℕ ai bi else compare_loop a.digits b.digits ai

unfoldable pub negate : ℤ → ℤ
negate (pos zero) = pos 0
negate (pos (suc n)) = negsuc n
negate (negsuc n) = pos (suc n)

unfoldable pub sign_value : Sign → ℤ
sign_value plus = pos 1
sign_value minus = negsuc 0

unfoldable pub bignum_compare : Bignum → Bignum → ℤ
unfolding same_sign negate sign_value
bignum_compare a b =
    if not (same_sign a.sign b.sign)
    then sign_value a.sign
    else elim a.sign [ minus ↦ negate (bignum_compare_abs a b) | plus ↦ bignum_compare_abs a b ]

-- What a comparison's result says of two magnitudes, and of two integers.
abbrev pub Orders : ℤ → ℕ → ℕ → Type 0
Orders (pos zero) m n = m ≡ n
Orders (pos (suc k)) m n = n < m
Orders (negsuc k) m n = m < n

abbrev pub Orders_ℤ : ℤ → ℤ → ℤ → Type 0
Orders_ℤ (pos zero) x y = x ≡ y
Orders_ℤ (pos (suc k)) x y = y <ℤ x
Orders_ℤ (negsuc k) x y = x <ℤ y

place-lt : (i x y : ℕ) → x < y → place i x + place i 1 ≤ place i y
unfolding place
place-lt zero x y h = omega arith
place-lt (suc i) x y h = omega (arith, place-lt i x y h)

Orders-add : (r : ℤ) (m n k m' n' : ℕ) → m' ≡ m + k → n' ≡ n + k → Orders r m n → Orders r m' n'
Orders-add (pos zero) m n k m' n' p q h = omega arith
Orders-add (pos (suc _)) m n k m' n' p q h = omega arith
Orders-add (negsuc _) m n k m' n' p q h = omega arith

compare_loop-Orders :
    (xs ys : List ℕ) (i : ℕ)
    → AreWords xs
    → AreWords ys
    → Orders (compare_loop xs ys i) (value (take i xs)) (value (take i ys))
unfolding compare_loop
compare_loop-Orders xs ys zero v w = refl
compare_loop-Orders xs ys (suc i) v w =
    let low_a = value-take-lt-place i xs v in
    let low_b = value-take-lt-place i ys w in
    let top_a = value-take-suc i xs in
    let top_b = value-take-suc i ys in
    elim (Bool-cases (ltb (get_or ys i 0) (get_or xs i 0))) [
      | inl e ↦ rw e (omega (arith, place-lt i (get_or ys i 0) (get_or xs i 0) (ground arith)))
      | inr e ↦ elim (Bool-cases (ltb (get_or xs i 0) (get_or ys i 0))) [
        | inl f ↦
            rw (e, f) (omega (arith, place-lt i (get_or xs i 0) (get_or ys i 0) (ground arith)))
        | inr f ↦
            let same : get_or ys i 0 ≡ get_or xs i 0 = ground arith in
            rw (e, f)
              (Orders-add _ _ _ (place i (get_or xs i 0)) _ _ top_a
                (top_b ∙ ap (λ d. value (take i ys) + place i d) same)
                (compare_loop-Orders xs ys i v w))
      ]
    ]

-- More digits in use make a larger magnitude.
pub hi-lt-value :
    (a b : Bignum)
    → IsBignum a
    → IsBignum b
    → bignum_hi a < bignum_hi b
    → value a.digits < value b.digits
hi-lt-value a b v w h =
    let bounds = bignum_hi_bounds a v in
    omega (
      arith,
      value-lt-place (bignum_hi a) a.digits v.words (bignum_hi-ZeroAbove a v),
      place_mono (bignum_hi a) (bignum_hi b - 1) (omega arith),
      place-le-value (bignum_hi b - 1) b.digits (bignum_hi_top b (omega arith)),
    )

sub_ℕ-Orders : (x y m n : ℕ) → x ≢ y → (x < y → m < n) → (y < x → n < m) → Orders (sub_ℕ x y) m n
sub_ℕ-Orders x y m n ne f g = elim (Bool-cases (leb y x)) [
  | inl e ↦ rw e (rw (above x y (ground arith) ne) (g (ground arith)))
  | inr e ↦ rw e (f (ground arith))
]
  where
    above : (x y : ℕ) → y ≤ x → x ≢ y → x - y ≡ suc (x - y - 1)
    above x y h ne = omega arith

-- `sexp_bignum_compare_abs` is 0 exactly at equal magnitudes, positive exactly if the first is
-- larger, and negative exactly if the second is.
pub bignum_compare_abs-Orders :
    (a b : Bignum)
    → IsBignum a
    → IsBignum b
    → Orders (bignum_compare_abs a b) (value a.digits) (value b.digits)
unfolding bignum_compare_abs
bignum_compare_abs-Orders a b v w = elim (Bool-cases (bignum_hi a == bignum_hi b)) [
  | inl e ↦
      let same : bignum_hi b ≡ bignum_hi a = ground arith in
      let za = bignum_hi-ZeroAbove a v in
      let zb : ZeroAbove (bignum_hi a) b.digits = rw (← same) (bignum_hi-ZeroAbove b w) in
      rw e (
        Orders-add _ _ _ 0 _ _ (omega (arith, value-take-ZeroAbove (bignum_hi a) a.digits za))
          (omega (arith, value-take-ZeroAbove (bignum_hi a) b.digits zb))
          (compare_loop-Orders a.digits b.digits (bignum_hi a) v.words w.words))
  | inr e ↦ rw e (
      sub_ℕ-Orders (bignum_hi a) (bignum_hi b) _ _ (ground arith) (hi-lt-value a b v w)
        (hi-lt-value b a w v))
]

negate-Orders : (r : ℤ) (m n : ℕ) → Orders r m n → Orders (negate r) n m
unfolding negate
negate-Orders (pos zero) m n h = sym h
negate-Orders (pos (suc k)) m n h = h
negate-Orders (negsuc k) m n h = h

plus-Orders : (r : ℤ) (m n : ℕ) → Orders r m n → Orders_ℤ r (signed plus m) (signed plus n)
plus-Orders (pos zero) m n h = ap pos h
plus-Orders (pos (suc k)) m n h = ground arith
plus-Orders (negsuc k) m n h = ground arith

minus-Orders : (r : ℤ) (m n : ℕ) → Orders r n m → Orders_ℤ r (signed minus m) (signed minus n)
minus-Orders (pos zero) m n h = ap (signed minus) (sym h)
minus-Orders (pos (suc k)) m n h = ground arith
minus-Orders (negsuc k) m n h = ground arith

opposite-Orders :
    (s t : Sign) (m n : ℕ)
    → same_sign s t ≡ false
    → 0 < m + n
    → Orders_ℤ (sign_value s) (signed s m) (signed t n)
unfolding same_sign sign_value
opposite-Orders plus plus m n e h = absurd (cc)
opposite-Orders minus minus m n e h = absurd (cc)
opposite-Orders plus minus m zero e h = omega arith
opposite-Orders plus minus m (suc n) e h = omega arith
opposite-Orders minus plus zero n e h = omega arith
opposite-Orders minus plus (suc m) n e h = omega arith

same_sign-Orders :
    (s t : Sign) (m n : ℕ) (r : ℤ)
    → same_sign s t ≡ true
    → Orders r m n
    → Orders_ℤ (elim s [ minus ↦ negate r | plus ↦ r ]) (signed s m) (signed t n)
unfolding same_sign
same_sign-Orders plus plus m n r e h = plus-Orders r m n h
same_sign-Orders plus minus m n r e h = absurd (cc)
same_sign-Orders minus plus m n r e h = absurd (cc)
same_sign-Orders minus minus m n r e h = minus-Orders (negate r) m n (negate-Orders r m n h)

-- `sexp_bignum_compare` orders two bignums, not both zero, as the integers that they stand for:
-- 0 exactly at equal ones, positive exactly if the first is larger, else negative.
pub bignum_compare-Orders :
    (a b : Bignum)
    → IsBignum a
    → IsBignum b
    → 0 < value a.digits + value b.digits
    → Orders_ℤ (bignum_compare a b) (to_ℤ a) (to_ℤ b)
unfolding bignum_compare
bignum_compare-Orders a b v w h = elim (Bool-cases (same_sign a.sign b.sign)) [
  | inl e ↦ rw e (
      same_sign-Orders a.sign b.sign _ _ (bignum_compare_abs a b) e
        (bignum_compare_abs-Orders a b v w))
  | inr e ↦ rw e (opposite-Orders a.sign b.sign _ _ e h)
]
