-- ===== src/Bignum/Sum/Digits.antt =====
-- `sexp_bignum_add_digits` and `sexp_bignum_sub_digits`: sums and differences of magnitudes.
use mathlib.Core.Path.{subst}
use native.Mathlib.Nat.{add_comm}
use chibi_scheme.Prelude.{
  ℕ, zero, suc, ◌+◌, ◌-◌, ◌≤◌, ◌<◌, ◌≡◌, Bool, true, false, ◌&&◌, ◌||◌, List, [], ◌∷◌, ◌==◌, ltb,
  Bool-cases, inl, inr, arith, take, drop, ap, sym, ◌∙◌,
}
use chibi_scheme.Prelude.Int.{ℤ, pos, negsuc, ltb_ℤ}
use chibi_scheme.Bignum.Digits.{Bignum, IsBignum, value, ZeroAbove, place}
use chibi_scheme.Bignum.Hi.{bignum_hi, bignum_hi-ZeroAbove, bignum_hi_bounds, value-take-ZeroAbove}
use chibi_scheme.Bignum.Compare.{bignum_compare_abs, bignum_compare_abs-Orders, hi-lt-value, Orders}
use chibi_scheme.Bignum.Fixnum.Scale.{place-place}
use chibi_scheme.Bignum.Fixnum.Add.{push_carry-value, push_carry-IsBignum}
use chibi_scheme.Bignum.Sum.Loops.{
  add_loop-value, add_loop-IsCarried, sub_loop-value, sub_loop_shape,
}
use chibi_scheme.Bignum.Sum.{
  add_loop, add_ordered, bignum_add_digits, sub_ordered, bignum_sub_digits,
}

ZeroAbove-drop : (k m : ℕ) (ds : List ℕ) → ZeroAbove (k + m) ds → ZeroAbove m (drop k ds)
ZeroAbove-drop zero m ds z = let e : m ≡ 0 + m = omega arith in rw e z
ZeroAbove-drop (suc k) m [] z = tt
ZeroAbove-drop (suc k) m (d ∷ ds) z =
    let e : suc k + m ≡ suc (k + m) = omega arith in ZeroAbove-drop k m ds (rw e at z)

ZeroAbove-undrop : (k m : ℕ) (ds : List ℕ) → ZeroAbove m (drop k ds) → ZeroAbove (k + m) ds
ZeroAbove-undrop zero m ds z = let e : 0 + m ≡ m = omega arith in rw e z
ZeroAbove-undrop (suc k) m [] z = tt
ZeroAbove-undrop (suc k) m (d ∷ ds) z =
    let e : suc k + m ≡ suc (k + m) = omega arith in rw e (ZeroAbove-undrop k m ds z)

module _ (a b : Bignum) (v : IsBignum a) (w : IsBignum b) (longer : bignum_hi b ≤ bignum_hi a) where
  abbrev rest : ℕ
  rest = bignum_hi a - bignum_hi b

  split : bignum_hi b + rest ≡ bignum_hi a
  split = omega arith

  swapped : rest + bignum_hi b ≡ bignum_hi a
  swapped = omega arith

  upper_zeros : ZeroAbove rest (drop (bignum_hi b) a.digits)
  upper_zeros = ZeroAbove-drop (bignum_hi b) rest a.digits (rw split (bignum_hi-ZeroAbove a v))

  magnitude_b : value (take (bignum_hi b) b.digits) ≡ value b.digits
  magnitude_b = value-take-ZeroAbove (bignum_hi b) b.digits (bignum_hi-ZeroAbove b w)

  add_ordered_lem :
      (value (add_ordered a b).digits ≡ value a.digits + value b.digits)
      × IsBignum (add_ordered a b)
  unfolding add_ordered
  add_ordered_lem =
      let (_, in_b) = bignum_hi_bounds b w in
      let (_, in_a) = bignum_hi_bounds a v in
      let k = bignum_hi b in
      let r = add_loop k rest 0 a.digits b.digits in
      let shape =
        add_loop-IsCarried k rest 0 a.digits b.digits (omega arith) in_b v.words w.words
          upper_zeros in
      let zeros : ZeroAbove (bignum_hi a) r.0 =
        subst (λ n. ZeroAbove n r.0) split (ZeroAbove-undrop k rest r.0 shape.zeros) in
      let weight : place (bignum_hi a) r.1 ≡ place k (place rest r.1) =
        ap (λ n. place n r.1) (sym swapped) ∙ place-place rest k r.1 in
      let total =
        add_loop-value k rest 0 a.digits b.digits (omega arith) (omega arith) in_b v.words
          w.words in
      (
        push_carry-value a (bignum_hi a) r shape.bit zeros
            ∙ omega (arith, weight, total, magnitude_b),
        push_carry-IsBignum a (bignum_hi a) r shape.bit
            (omega (arith, shape.same_length, v.nonempty)) shape.words,
      )

  sub_ordered-value :
      value b.digits ≤ value a.digits
      → value (sub_ordered a b).digits + value b.digits ≡ value a.digits
  unfolding sub_ordered
  sub_ordered-value le =
      let (_, in_b) = bignum_hi_bounds b w in
      let (_, in_a) = bignum_hi_bounds a v in
      let m = magnitude_b in
      omega (
        arith,
        m,
        sub_loop-value (bignum_hi b) rest 0 a.digits b.digits (omega arith) (omega arith) in_b
            v.words w.words upper_zeros (omega arith),
      )

  sub_ordered-IsBignum : IsBignum (sub_ordered a b)
  unfolding sub_ordered
  sub_ordered-IsBignum =
      let (_, in_b) = bignum_hi_bounds b w in
      let (_, in_a) = bignum_hi_bounds a v in
      let shape =
        sub_loop_shape (bignum_hi b) rest 0 a.digits b.digits (omega arith) (omega arith) in_b
          v.words w.words in
      record { nonempty = omega (arith, shape.1, v.nonempty); words = shape.0 }

Orders-below : (r : ℤ) (m n : ℕ) → Orders r m n → ltb_ℤ r (pos 0) ≡ true → m < n
Orders-below (pos zero) m n o h = absurd (ground arith)
Orders-below (pos (suc k)) m n o h = absurd (ground arith)
Orders-below (negsuc k) m n o h = o

Orders-above : (r : ℤ) (m n : ℕ) → Orders r m n → ltb_ℤ r (pos 0) ≡ false → n ≤ m
Orders-above (pos zero) m n o h = omega arith
Orders-above (pos (suc k)) m n o h = omega arith
Orders-above (negsuc k) m n o h = absurd (ground arith)

-- The test for the recursive call with the operands swapped.
swaps : Bignum → Bignum → Bool
swaps a b =
    ltb (bignum_hi a) (bignum_hi b)
    || (bignum_hi a == bignum_hi b && ltb_ℤ (bignum_compare_abs a b) (pos 0))

module _ (a b : Bignum) (v : IsBignum a) (w : IsBignum b) where
  swaps-true : swaps a b ≡ true → (bignum_hi a ≤ bignum_hi b) × (value a.digits < value b.digits)
  unfolding swaps
  swaps-true h = elim (Bool-cases (ltb (bignum_hi a) (bignum_hi b))) [
    | inl e ↦ (ground arith, hi-lt-value a b v w (ground arith))
    | inr e ↦ (
      ground arith,
      Orders-below (bignum_compare_abs a b) _ _ (bignum_compare_abs-Orders a b v w) (ground arith),
    )
  ]

  swaps-false : swaps a b ≡ false → (bignum_hi b ≤ bignum_hi a) × (value b.digits ≤ value a.digits)
  unfolding swaps
  swaps-false h = elim (Bool-cases (bignum_hi a == bignum_hi b)) [
    | inl e ↦ (
      ground arith,
      Orders-above (bignum_compare_abs a b) _ _ (bignum_compare_abs-Orders a b v w) (ground arith),
    )
    | inr e ↦
        let order : bignum_hi b < bignum_hi a = ground arith in
        (omega arith, omega (arith, hi-lt-value b a w v order))
  ]

module _ (a b : Bignum) (v : IsBignum a) (w : IsBignum b) where
  -- The digits of the sum of the magnitudes.
  pub bignum_add_digits_lem :
      (value (bignum_add_digits a b).digits ≡ value a.digits + value b.digits)
      × IsBignum (bignum_add_digits a b)
  unfolding bignum_add_digits
  bignum_add_digits_lem = elim (Bool-cases (ltb (bignum_hi a) (bignum_hi b))) [
    | inl e ↦
        let (sum, is) = add_ordered_lem b a w v (ground arith) in rw e (sum ∙ add_comm _ _, is)
    | inr e ↦ rw e (add_ordered_lem a b v w (ground arith))
  ]

  -- A difference of magnitudes: the larger is split into the other and the result.
  abbrev pub IsGap : Bignum → Type 0
  IsGap c =
      (value b.digits ≤ value a.digits → value c.digits + value b.digits ≡ value a.digits)
      × (value a.digits ≤ value b.digits → value c.digits + value a.digits ≡ value b.digits)
      × IsBignum c

  pub bignum_sub_digits_lem : IsGap (bignum_sub_digits a b)
  unfolding bignum_sub_digits swaps
  bignum_sub_digits_lem = elim (Bool-cases (swaps a b)) [
    | inl e ↦
        let (order, below) = swaps-true a b v w e in
        rw e (
          (λ le. absurd (omega arith)),
          (λ le. sub_ordered-value b a w v order (omega arith)),
          sub_ordered-IsBignum b a w v order,
        )
    | inr e ↦
        let (order, below) = swaps-false a b v w e in
        rw e (
          (λ le. sub_ordered-value a b v w order le),
          (λ le.
              let same : value a.digits ≡ value b.digits = omega arith in
              omega (arith, sub_ordered-value a b v w order below)),
          sub_ordered-IsBignum a b v w order,
        )
  ]
