-- ===== src/Bignum/Product/Karatsuba.antt =====
-- The sums and shifts of `sexp_bignum_mul`, on bignums that stand for natural numbers.
use chibi_scheme.Prelude.{ℕ, zero, suc, ◌+◌, ◌-◌, ◌*◌, ◌<◌, ◌≡◌, refl, ap, ◌∙◌, arith}
use chibi_scheme.Prelude.Int.{pos, negsuc, ◌+ℤ◌, ◌-ℤ◌, ◌*ℤ◌}
use chibi_scheme.Bignum.Digits.{Sign, plus, minus, Bignum, IsBignum, value, signed, to_ℤ, place}
use chibi_scheme.Bignum.Fixnum.Scale.{place-place}
use chibi_scheme.Bignum.Sum.{bignum_add, bignum_sub}
use chibi_scheme.Bignum.Sum.Signed.{bignum_add_lem, bignum_sub_lem}
use chibi_scheme.Bignum.Product.{mul_sign, bignum_shift, karatsuba_sum}
use chibi_scheme.Bignum.Product.Parts.{place-mul, value-bignum_shift, bignum_shift-IsBignum}

pub signed-pos : (s : Sign) (m n : ℕ) → signed s m ≡ pos n → m ≡ n
signed-pos plus m n h = ground arith
signed-pos minus zero n h = ground arith
signed-pos minus (suc m) n h = cc

signed-minus : (m : ℕ) → 0 < m → signed minus m ≡ negsuc (m - 1)
signed-minus zero h = absurd (omega arith)
signed-minus (suc m) h = ground arith

pub signed-mul : (s t : Sign) (m n : ℕ) → signed (mul_sign s t) (m * n) ≡ signed s m *ℤ signed t n
unfolding mul_sign ◌*ℤ◌
signed-mul plus plus m n = ground arith
signed-mul plus minus m zero = ground arith
signed-mul plus minus zero (suc n) = ground arith
signed-mul plus minus (suc m) (suc n) = signed-minus (suc m * suc n) (omega arith) ∙ ground arith
signed-mul minus plus zero n = ground arith
signed-mul minus plus (suc m) zero = ground arith
signed-mul minus plus (suc m) (suc n) = signed-minus (suc m * suc n) (omega arith) ∙ ground arith
signed-mul minus minus zero n = ground arith
signed-mul minus minus (suc m) zero = ground arith
signed-mul minus minus (suc m) (suc n) = ground arith

pos-add : (m n : ℕ) → pos m +ℤ pos n ≡ pos (m + n)
unfolding ◌+ℤ◌
pos-add m n = ground arith

pos-sub : (m n k : ℕ) → m ≡ n + k → pos m -ℤ pos n ≡ pos k
unfolding ◌-ℤ◌
pos-sub m n k h = ground arith

pub pos-mul : (m n : ℕ) → pos m *ℤ pos n ≡ pos (m * n)
unfolding ◌*ℤ◌
pos-mul m n = ground arith

-- A bignum that stands for a natural number
abbrev pub Stands : Bignum → ℕ → Type 0
Stands a n = (to_ℤ a ≡ pos n) × IsBignum a

pub Stands-value : (a : Bignum) (n : ℕ) → Stands a n → value a.digits ≡ n
Stands-value a n (e, w) = signed-pos a.sign (value a.digits) n e

pub Stands-add :
    (a b : Bignum) (m n : ℕ) → Stands a m → Stands b n → Stands (bignum_add a b) (m + n)
Stands-add a b m n (e, v) (f, w) =
    let (g, u) = bignum_add_lem a b v w in (g ∙ (rw e rw f (pos-add m n)), u)

Stands-sub :
    (a b : Bignum) (m n k : ℕ) → Stands a m → Stands b n → m ≡ n + k → Stands (bignum_sub a b) k
Stands-sub a b m n k (e, v) (f, w) h =
    let (g, u) = bignum_sub_lem a b v w in (g ∙ (rw e rw f (pos-sub m n k h)), u)

Stands-shift : (a : Bignum) (k n : ℕ) → Stands a n → Stands (bignum_shift a k) (place k n)
unfolding bignum_shift
Stands-shift a k n (e, w) = (
  ap pos (value-bignum_shift a k w ∙ ap (λ v. place k v) (Stands-value a n (e, w))),
  bignum_shift-IsBignum a k w,
)

pub karatsuba_sum_lem :
    (k : ℕ) (z1 z0 z2 : Bignum) (n1 n0 n2 mid : ℕ)
    → Stands z1 n1
    → Stands z0 n0
    → Stands z2 n2
    → n1 ≡ n0 + (n2 + mid)
    → Stands (karatsuba_sum k z1 z0 z2) (place k mid + n0 + place (2 * k) n2)
unfolding karatsuba_sum
karatsuba_sum_lem k z1 z0 z2 n1 n0 n2 mid s1 s0 s2 h =
    let inner = bignum_sub z1 z0 in
    let middle = bignum_sub inner z2 in
    let m =
      Stands-sub inner z2 (n2 + mid) n2 mid (Stands-sub z1 z0 n1 n0 (n2 + mid) s1 s0 h) s2 refl in
    Stands-add (bignum_add (bignum_shift middle k) z0) (bignum_shift z2 (2 * k)) (place k mid + n0)
      (place (2 * k) n2)
      (Stands-add (bignum_shift middle k) z0 (place k mid) n0 (Stands-shift middle k mid m) s0)
      (Stands-shift z2 (2 * k) n2 s2)

place_twice : (k n : ℕ) → place (2 * k) n ≡ place k (place k n)
place_twice k n = (let e : 2 * k ≡ k + k = omega arith in rw e refl) ∙ place-place k k n

-- (a1 B^k + a0) (b1 B^k + b0)
pub products :
    (k a0 a1 b0 b1 : ℕ)
    → place k (a1 * b0 + a0 * b1) + a0 * b0 + place (2 * k) (a1 * b1)
      ≡ (a0 + place k a1) * (b0 + place k b1)
products k a0 a1 b0 b1 =
    rw
      (
        place_twice k (a1 * b1),
        place-mul k (a1 * b0 + a0 * b1),
        place-mul k (place k (a1 * b1)),
        place-mul k (a1 * b1),
        place-mul k a1,
        place-mul k b1,
      )
      omega arith
