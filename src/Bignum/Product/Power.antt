-- ===== src/Bignum/Product/Power.antt =====
-- `sexp_bignum_expt` for an exponent that is not negative.
use native.Mathlib.Nat.{pow-zero, pow-suc}
use chibi_scheme.Prelude.{
  ℕ, zero, suc, ◌*◌, ◌/◌, ◌%◌, ◌^◌, ◌<◌, ◌≡◌, refl, sym, ap, ◌∙◌, false, some, ◌==◌, if◌then◌else◌,
  Bool-cases, inl, inr, arith,
}
use chibi_scheme.Bignum.Digits.{
  Sign, plus, minus, Bignum, IsBignum, value, signed, to_ℤ, fixnum_to_bignum, copy_bignum_self,
}
use chibi_scheme.Bignum.Product.{mul_sign, expt_loop, bignum_expt}
use chibi_scheme.Bignum.Product.Recursion.{bignum_mul-Product}

-- The sign of a power
abbrev pub power_sign : Sign → ℕ → Sign
power_sign s e = if e % 2 == 1 then s else plus

square-pow : (n j : ℕ) → (n * n) ^ j ≡ n ^ (2 * j)
square-pow n zero = let z : 2 * 0 ≡ 0 = omega arith in rw (z, pow-zero (n * n), pow-zero n) refl
square-pow n (suc j) =
    let f : 2 * suc j ≡ suc (suc (2 * j)) = omega arith in
    rw (f, pow-suc (n * n) j, square-pow n j, pow-suc n (suc (2 * j)), pow-suc n (2 * j))
      (omega arith)

-- An odd power and an even one from the power of the square
odd_pow : (m n e : ℕ) → e % 2 ≡ 1 → m * n * (n * n) ^ (e / 2) ≡ m * n ^ e
odd_pow m n e h =
    let f : e ≡ suc (2 * (e / 2)) = omega arith in
    let g : n ^ e ≡ n ^ (2 * (e / 2)) * n = ap (λ k. n ^ k) f ∙ pow-suc n (2 * (e / 2)) in
    rw (square-pow n (e / 2), g) (omega arith)

even_pow : (m n e : ℕ) → e % 2 ≡ 0 → m * (n * n) ^ (e / 2) ≡ m * n ^ e
even_pow m n e h = let f : 2 * (e / 2) ≡ e = omega arith in rw (square-pow n (e / 2), f) refl

mul_sign_self : (s : Sign) → mul_sign s s ≡ plus
unfolding mul_sign
mul_sign_self plus = refl
mul_sign_self minus = refl

mul_sign-plus : (s : Sign) → mul_sign s plus ≡ s
unfolding mul_sign
mul_sign-plus plus = refl
mul_sign-plus minus = refl

power_sign-plus : (e : ℕ) → power_sign plus e ≡ plus
power_sign-plus e = elim (Bool-cases (e % 2 == 1)) [ inl t ↦ rw t refl | inr t ↦ rw t refl ]

abbrev Powers : Bignum → Bignum → ℕ → Bignum → Type 0
Powers res acc e r =
    (value r.digits ≡ value res.digits * value acc.digits ^ e)
    × (r.sign ≡ mul_sign res.sign (power_sign acc.sign e))
    × IsBignum r

-- After a round the square takes the place of the factor.
squared_sign : (s : Sign) (t : Sign) (e : ℕ) → t ≡ mul_sign s s → power_sign t e ≡ plus
squared_sign s t e h = ap (λ u. power_sign u e) (h ∙ mul_sign_self s) ∙ power_sign-plus e

expt_loop_lem :
    (fuel e : ℕ) (res acc : Bignum)
    → e < fuel
    → IsBignum res
    → IsBignum acc
    → (r : Bignum) × (expt_loop fuel e res acc ≡ some r) × Powers res acc e r
unfolding expt_loop
expt_loop_lem zero e res acc l v w = absurd (omega arith)
expt_loop_lem (suc fuel) zero res acc l v w =
    (res, refl, ((rw (pow-zero (value acc.digits)) (omega arith)), sym (mul_sign-plus res.sign), v))
expt_loop_lem (suc fuel) (suc e) res acc l v w =
    let (acc', run', n', s', w') = bignum_mul-Product acc acc w w in
    let c = value acc.digits in
    let z : (suc e == 0) ≡ false = ground arith in
    elim (Bool-cases (suc e % 2 == 1)) [
      | inl t ↦
          let odd : suc e % 2 ≡ 1 = ground arith in
          let (res', run, n, s, v') = bignum_mul-Product res acc v w in
          let (r, loop, (m, u, x)) = expt_loop_lem fuel (suc e / 2) res' acc' (omega arith) v' w' in
          let d : value r.digits ≡ value res.digits * c * (c * c) ^ (suc e / 2) =
            m ∙ (rw n rw n' refl) in
          (
            r,
            (rw (expt_loop, z, t) rw run rw run' loop),
            (
              d ∙ odd_pow (value res.digits) c (suc e) odd,
              u
                  ∙ ap (λ k. mul_sign res'.sign k) (squared_sign acc.sign acc'.sign (suc e / 2) s')
                  ∙ mul_sign-plus res'.sign
                  ∙ s
                  ∙ (rw t refl),
              x,
            ),
          )
      | inr t ↦
          let even : suc e % 2 ≡ 0 = ground arith in
          let (r, loop, (m, u, x)) = expt_loop_lem fuel (suc e / 2) res acc' (omega arith) v w' in
          let d : value r.digits ≡ value res.digits * (c * c) ^ (suc e / 2) = m ∙ (rw n' refl) in
          (
            r,
            (rw (expt_loop, z, t) rw run' loop),
            (
              d ∙ even_pow (value res.digits) c (suc e) even,
              u
                  ∙ ap (λ k. mul_sign res.sign k) (squared_sign acc.sign acc'.sign (suc e / 2) s')
                  ∙ (rw t refl),
              x,
            ),
          )
    ]

-- For an exponent that is not negative the loop comes to its end. It gives the power of the
-- magnitude, with the sign of the base if the exponent is odd, and a bignum.
pub bignum_expt_lem :
    (a : Bignum) (e : ℕ)
    → IsBignum a
    → (r : Bignum) × (bignum_expt a e ≡ some r)
      × (to_ℤ r ≡ signed (power_sign a.sign e) (value a.digits ^ e))
      × IsBignum r
unfolding bignum_expt fixnum_to_bignum mul_sign
bignum_expt_lem a e w =
    let one = fixnum_to_bignum plus 1 in
    let v : IsBignum one = record { nonempty = omega arith; words = (omega arith, tt) } in
    let (r, run, (m, s, u)) = expt_loop_lem (suc e) e one a (omega arith) v w in
    (
      r,
      (rw (copy_bignum_self a) run),
      ap (λ t. signed t (value r.digits)) s
          ∙ ap (λ n. signed (power_sign a.sign e) n) (m ∙ omega arith),
      u,
    )
