-- ===== src/Bignum/Product/Parts.antt =====
-- `sexp_bignum_split` and `sexp_bignum_shift` on magnitudes.
use chibi_scheme.Prelude.{
  ℕ, zero, suc, ◌+◌, ◌-◌, ◌*◌, ◌≤◌, ◌<◌, ◌≡◌, refl, sym, ap, ◌∙◌, List, [], ◌∷◌, ◌++◌, arith, take,
  drop, replicate, length-take, length-drop, length-append,
}
use chibi_scheme.Bignum.Digits.{
  Bignum, IsBignum, value, AreWords, AreWords-take, place, place_zero, fit, value-fit, length-fit,
  fit-AreWords,
}
use chibi_scheme.Bignum.Hi.{
  bignum_hi, bignum_hi-ZeroAbove, bignum_hi_top, value-take-ZeroAbove, place_mono, place-le-value,
  value-take-lt-place,
}
use chibi_scheme.Bignum.Fixnum.Scale.{value-shifted}
use chibi_scheme.Bignum.Product.{split_low, split_high, bignum_shift}

pub place-mul : (k n : ℕ) → place k n ≡ place k 1 * n
unfolding place
place-mul zero n = omega arith
place-mul (suc k) n = omega (arith, place-mul k n)

pub place-ge : (k n : ℕ) → 0 < k → 2 * n ≤ place k n
unfolding place
place-ge zero n h = absurd (omega arith)
place-ge (suc zero) n h = omega arith
place-ge (suc (suc k)) n h = omega (arith, place-ge (suc k) n (omega arith))

pub value-take-drop :
    (k : ℕ) (ds : List ℕ) → value (take k ds) + place k (value (drop k ds)) ≡ value ds
unfolding place
value-take-drop zero ds = omega arith
value-take-drop (suc k) [] = omega (arith, place_zero (suc k))
value-take-drop (suc k) (d ∷ ds) = omega (arith, value-take-drop k ds)

drop-AreWords : (k : ℕ) (ds : List ℕ) → AreWords ds → AreWords (drop k ds)
drop-AreWords zero ds w = w
drop-AreWords (suc k) [] w = tt
drop-AreWords (suc k) (d ∷ ds) w = drop-AreWords k ds w.1

take-take : (k n : ℕ) (ds : List ℕ) → k ≤ n → take k (take n ds) ≡ take k ds
take-take zero n ds h = refl
take-take (suc k) zero ds h = absurd (omega arith)
take-take (suc k) (suc n) [] h = refl
take-take (suc k) (suc n) (d ∷ ds) h = ap (λ r. d ∷ r) (take-take k n ds (omega arith))

value-split_low : (a : Bignum) (k : ℕ) → value (split_low a k).digits ≡ value (take k a.digits)
unfolding split_low
value-split_low a k = value-fit k (take k a.digits) (omega (arith, length-take k a.digits))

value-split_high :
    (a : Bignum) (k : ℕ)
    → value (split_high a k).digits ≡ value (drop k (take (bignum_hi a) a.digits))
unfolding split_high
value-split_high a k =
    value-fit (bignum_hi a - k + 1) (drop k (take (bignum_hi a) a.digits)) (
      omega
        (arith, length-drop k (take (bignum_hi a) a.digits), length-take (bignum_hi a) a.digits))

-- The halves make up the number.
pub value-split :
    (a : Bignum) (k : ℕ)
    → IsBignum a
    → k ≤ bignum_hi a
    → value (split_low a k).digits + place k (value (split_high a k).digits) ≡ value a.digits
value-split a k w h =
    let ds = take (bignum_hi a) a.digits in
    let e = value-split_low a k ∙ ap value (sym (take-take k (bignum_hi a) a.digits h)) in
    let f = ap (λ v. place k v) (value-split_high a k) in
    let g = value-take-drop k ds in
    let i = value-take-ZeroAbove (bignum_hi a) a.digits (bignum_hi-ZeroAbove a w) in omega arith

pub split_low-IsBignum : (a : Bignum) (k : ℕ) → IsBignum a → 0 < k → IsBignum (split_low a k)
unfolding split_low
split_low-IsBignum a k w h = record {
  nonempty = omega (arith, length-fit k (take k a.digits));
  words = fit-AreWords k (take k a.digits) (AreWords-take k a.digits w.words);
}

pub split_high-IsBignum : (a : Bignum) (k : ℕ) → IsBignum a → IsBignum (split_high a k)
unfolding split_high
split_high-IsBignum a k w =
    let ds = drop k (take (bignum_hi a) a.digits) in
    record {
      nonempty = omega (arith, length-fit (bignum_hi a - k + 1) ds);
      words = fit-AreWords (bignum_hi a - k + 1) ds (
          drop-AreWords k (take (bignum_hi a) a.digits)
            (AreWords-take (bignum_hi a) a.digits w.words));
    }

-- The upper half is not zero when the cut is below the top digit.
pub split_high_pos :
    (a : Bignum) (k : ℕ) → IsBignum a → 0 < k → k < bignum_hi a → 0 < value (split_high a k).digits
unfolding place
split_high_pos a k w pos h =
    let n = bignum_hi a in
    let e = value-split a k w (omega arith) in
    let low = value-take-lt-place k a.digits w.words in
    let f = value-split_low a k in
    let g = place-le-value (n - 1) a.digits (bignum_hi_top a (omega arith)) in
    let m = place_mono k (n - 1) (omega arith) in
    let p = place-mul k (value (split_high a k).digits) in
    positive (value (split_high a k).digits) (place k 1) p (omega arith)
  where
    positive : (v c : ℕ) → place k v ≡ c * v → 0 < place k v → 0 < v
    positive zero c p h = absurd (omega arith)
    positive (suc v) c p h = omega arith

zeros-AreWords : (k : ℕ) (ds : List ℕ) → AreWords ds → AreWords (replicate k 0 ++ ds)
zeros-AreWords zero ds w = w
zeros-AreWords (suc k) ds w = (omega arith, zeros-AreWords k ds w)

pub value-bignum_shift :
    (a : Bignum) (k : ℕ) → IsBignum a → value (bignum_shift a k).digits ≡ place k (value a.digits)
unfolding bignum_shift
value-bignum_shift a k w =
    let n = bignum_hi a in
    value-shifted k (fit (n + 1) (take n a.digits))
    ∙ ap (λ v. place k v)
        (value-fit (n + 1) (take n a.digits) (omega (arith, length-take n a.digits))
          ∙ value-take-ZeroAbove n a.digits (bignum_hi-ZeroAbove a w))

pub bignum_shift-IsBignum : (a : Bignum) (k : ℕ) → IsBignum a → IsBignum (bignum_shift a k)
unfolding bignum_shift
bignum_shift-IsBignum a k w =
    let n = bignum_hi a in
    let ds = fit (n + 1) (take n a.digits) in
    record {
      nonempty =
          omega (arith, length-append (replicate k 0) ds, length-fit (n + 1) (take n a.digits));
      words =
          zeros-AreWords k ds
            (fit-AreWords (n + 1) (take n a.digits) (AreWords-take n a.digits w.words));
    }
