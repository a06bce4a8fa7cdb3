-- ===== src/Bignum/Product/Recursion.antt =====
-- `sexp_bignum_mul` as a whole.
use chibi_scheme.Prelude.{
  ℕ, zero, suc, ◌+◌, ◌*◌, ◌/◌, ◌≤◌, ◌<◌, ◌≡◌, refl, ap, ◌∙◌, Option, some, List, [], ◌∷◌, ◌==◌, ltb,
  Bool-cases, inl, inr, arith, word, get_or,
}
use chibi_scheme.Prelude.Int.{pos, ◌*ℤ◌}
use chibi_scheme.Bignum.Digits.{
  Sign, plus, minus, Bignum, IsBignum, value, signed, to_ℤ, place, ZeroAbove, AreWords,
}
use chibi_scheme.Bignum.Hi.{bignum_hi, bignum_hi-ZeroAbove, bignum_hi_bounds, value-one_digit}
use chibi_scheme.Bignum.Fixnum.{fresh, bignum_fxmul}
use chibi_scheme.Bignum.Fixnum.Scale.{bignum_fxmul_lem}
use chibi_scheme.Bignum.Sum.{bignum_add}
use chibi_scheme.Bignum.Product.{
  mul_sign, split_low, split_high, karatsuba_sum, karatsuba, mul_ordered, mul_loop, bignum_mul,
}
use chibi_scheme.Bignum.Product.Parts.{
  place-ge, value-split, split_low-IsBignum, split_high-IsBignum, split_high_pos,
}
use chibi_scheme.Bignum.Product.Karatsuba.{
  signed-mul, pos-mul, Stands, Stands-value, Stands-add, karatsuba_sum_lem, products,
}

abbrev pub Product : (Bignum → Bignum → Option Bignum) → Bignum → Bignum → Type 0
Product mul a b =
    (r : Bignum) × (mul a b ≡ some r)
    × (value r.digits ≡ value a.digits * value b.digits)
    × (r.sign ≡ mul_sign a.sign b.sign)
    × IsBignum r

signed_product :
    (a b r : Bignum)
    → value r.digits ≡ value a.digits * value b.digits
    → r.sign ≡ mul_sign a.sign b.sign
    → to_ℤ r ≡ to_ℤ a *ℤ to_ℤ b
signed_product a b r h k =
    ap (λ s. signed s (value r.digits)) k
    ∙ ap (λ n. signed (mul_sign a.sign b.sign) n) h
    ∙ signed-mul a.sign b.sign (value a.digits) (value b.digits)

abbrev Multiplies : (Bignum → Bignum → Option Bignum) → ℕ → Type 0
Multiplies mul fuel =
    (a b : Bignum)
    → IsBignum a
    → IsBignum b
    → value a.digits + value b.digits < fuel
    → Product mul a b

Stands-mul :
    (mul : Bignum → Bignum → Option Bignum) (fuel : ℕ) (a b : Bignum) (m n : ℕ)
    → Multiplies mul fuel
    → Stands a m
    → Stands b n
    → m + n < fuel
    → (r : Bignum) × (mul a b ≡ some r) × Stands r (m * n)
Stands-mul mul fuel a b m n h (e, v) (f, w) l =
    let i = Stands-value a m (e, v) in
    let j = Stands-value b n (f, w) in
    let (r, run, g, s, u) = h a b v w (omega arith) in
    (r, run, (signed_product a b r g s ∙ (rw e rw f (pos-mul m n)), u))

-- A half is smaller than the whole, and so is the sum of the halves.
smaller :
    (a : Bignum) (k : ℕ)
    → IsBignum a
    → 0 < k
    → k < bignum_hi a
    → value (split_high a k).digits + value (split_low a k).digits < value a.digits
smaller a k w least h =
    let e = value-split a k w (omega arith) in
    let f = split_high_pos a k w least h in
    let g = place-ge k (value (split_high a k).digits) least in omega arith

karatsuba_lem :
    (mul : Bignum → Bignum → Option Bignum) (fuel : ℕ) (a b : Bignum)
    → Multiplies mul fuel
    → IsBignum a
    → IsBignum b
    → value a.digits + value b.digits ≤ fuel
    → 1 < bignum_hi b
    → bignum_hi b ≤ bignum_hi a
    → (r : Bignum) × (karatsuba mul a b ≡ some r) × Stands r (value a.digits * value b.digits)
unfolding karatsuba
karatsuba_lem mul fuel a b h v w l two long =
    let k = bignum_hi b / 2 in
    let a0 = split_low a k in
    let a1 = split_high a k in
    let b0 = split_low b k in
    let b1 = split_high b k in
    let m0 = value a0.digits in
    let m1 = value a1.digits in
    let n0 = value b0.digits in
    let n1 = value b1.digits in
    let sa = smaller a k v (omega arith) (omega arith) in
    let sb = smaller b k w (omega arith) (omega arith) in
    let s0 : Stands a0 m0 = (refl, split_low-IsBignum a k v (omega arith)) in
    let s1 : Stands a1 m1 = (refl, split_high-IsBignum a k v) in
    let t0 : Stands b0 n0 = (refl, split_low-IsBignum b k w (omega arith)) in
    let t1 : Stands b1 n1 = (refl, split_high-IsBignum b k w) in
    let (z1, e1, u1) =
      Stands-mul mul fuel (bignum_add b1 b0) (bignum_add a1 a0) (n1 + n0) (m1 + m0) h
        (Stands-add b1 b0 n1 n0 t1 t0) (Stands-add a1 a0 m1 m0 s1 s0) (omega arith) in
    let (z0, e0, u0) = Stands-mul mul fuel a0 b0 m0 n0 h s0 t0 (omega arith) in
    let (z2, e2, u2) = Stands-mul mul fuel a1 b1 m1 n1 h s1 t1 (omega arith) in
    let sum =
      karatsuba_sum_lem k z1 z0 z2 ((n1 + n0) * (m1 + m0)) (m0 * n0) (m1 * n1) (m1 * n0 + m0 * n1)
        u1 u0 u2 (omega arith) in
    let whole = products k m0 m1 n0 n1 in
    let va = value-split a k v (omega arith) in
    let vb = value-split b k w (omega arith) in
    (
      karatsuba_sum k z1 z0 z2,
      (rw e1 rw e0 rw e2 refl),
      (sum.0 ∙ ap pos (whole ∙ (rw va rw vb refl)), sum.1),
    )

low_digit : (b : Bignum) → IsBignum b → get_or b.digits 0 0 < word
low_digit b w = first_word b.digits w.words
  where
    first_word : (ds : List ℕ) → AreWords ds → get_or ds 0 0 < word
    first_word [] h = omega arith
    first_word (d ∷ ds) h = h.0

single :
    (a b : Bignum)
    → value b.digits ≡ get_or b.digits 0 0
    → place 0 (get_or b.digits 0 0 * value a.digits) ≡ value a.digits * value b.digits
unfolding place
single a b e = rw e omega arith

mul_ordered_lem :
    (mul : Bignum → Bignum → Option Bignum) (fuel : ℕ) (a b : Bignum)
    → Multiplies mul fuel
    → IsBignum a
    → IsBignum b
    → value a.digits + value b.digits ≤ fuel
    → bignum_hi b ≤ bignum_hi a
    → Product (mul_ordered mul) a b
unfolding mul_ordered
mul_ordered_lem mul fuel a b h v w l long = elim (Bool-cases (bignum_hi b == 1)) [
  | inl t ↦
      let one : bignum_hi b ≡ 1 = ground arith in
      let zeros : ZeroAbove 1 b.digits = rw one at (bignum_hi-ZeroAbove b w) in
      let low = value-one_digit b.digits zeros in
      let (e, s, u) = bignum_fxmul_lem fresh a (get_or b.digits 0 0) 0 v (low_digit b w) in
      (
        record (bignum_fxmul fresh a (get_or b.digits 0 0) 0) { sign = mul_sign a.sign b.sign },
        (rw (mul_ordered, t) refl),
        e ∙ single a b low,
        refl,
        record { nonempty = u.nonempty; words = u.words },
      )
  | inr t ↦
      let (lower, upper) = bignum_hi_bounds b w in
      let two : 1 < bignum_hi b = ground arith in
      let (r, e, s) = karatsuba_lem mul fuel a b h v w l two long in
      (
        record r { sign = mul_sign a.sign b.sign },
        (rw (mul_ordered, t) rw e refl),
        Stands-value r (value a.digits * value b.digits) s,
        refl,
        record { nonempty = s.1.nonempty; words = s.1.words },
      )
]

mul_sign_comm : (s t : Sign) → mul_sign s t ≡ mul_sign t s
unfolding mul_sign
mul_sign_comm plus plus = refl
mul_sign_comm plus minus = refl
mul_sign_comm minus plus = refl
mul_sign_comm minus minus = refl

mul_loop_lem : (fuel : ℕ) → Multiplies (mul_loop fuel) fuel
unfolding mul_loop
mul_loop_lem zero a b v w l = absurd (omega arith)
mul_loop_lem (suc fuel) a b v w l = elim (Bool-cases (ltb (bignum_hi a) (bignum_hi b))) [
  | inl t ↦
      let short : bignum_hi a < bignum_hi b = ground arith in
      let (r, e, n, s, u) =
        mul_ordered_lem (mul_loop fuel) fuel b a (mul_loop_lem fuel) w v (omega arith)
          (omega arith) in
      (r, (rw (mul_loop, t) e), omega arith, s ∙ mul_sign_comm b.sign a.sign, u)
  | inr t ↦
      let long : bignum_hi b ≤ bignum_hi a = ground arith in
      let (r, e, n, s, u) =
        mul_ordered_lem (mul_loop fuel) fuel a b (mul_loop_lem fuel) v w (omega arith) long in
      (r, (rw (mul_loop, t) e), n, s, u)
]

pub bignum_mul-Product : (a b : Bignum) → IsBignum a → IsBignum b → Product bignum_mul a b
unfolding bignum_mul
bignum_mul-Product a b v w =
    mul_loop_lem (suc (value a.digits + value b.digits)) a b v w (omega arith)

-- The recursion of the product comes to its end, and what it gives is the product of the integers,
-- and a bignum.
pub bignum_mul_lem :
    (a b : Bignum)
    → IsBignum a
    → IsBignum b
    → (r : Bignum) × (bignum_mul a b ≡ some r) × (to_ℤ r ≡ to_ℤ a *ℤ to_ℤ b) × IsBignum r
bignum_mul_lem a b v w =
    let (r, e, n, s, u) = bignum_mul-Product a b v w in (r, e, signed_product a b r n s, u)
