-- ===== src/Bignum/Fixnum/Sub.antt =====
-- `sexp_bignum_fxsub` takes a word off the magnitude, and never writes past the digits.
use chibi_scheme.Prelude.{
  ℕ, ◌+◌, ◌-◌, ◌%◌, ◌≤◌, ◌<◌, ◌≡◌, refl, Bool, true, false, ◌&&◌, some, List, [], ◌∷◌, arith, ◌==◌,
  ltb, if◌then◌else◌, Bool-cases, inl, inr, length, set, get_or, word, length-set,
}
use chibi_scheme.Prelude.Int.{◌-ℤ◌}
use chibi_scheme.Bignum.Digits.{
  Sign, plus, minus, negate_sign, Bignum, IsBignum, value, signed, to_ℤ, AreWords, AreWords-set,
}
use chibi_scheme.Bignum.Hi.{bignum_hi, bignum_hi_bounds}
use chibi_scheme.Bignum.Normalize.{big_magnitude, low_digit}
use chibi_scheme.Bignum.Fixnum.{fxsub_loop, bignum_fxsub}

-- What the loop leaves in `ds` less `b`.
record IsDifference (b : ℕ) (ds rs : List ℕ) : Type 0 where
  total : value rs + b ≡ value ds
  words : AreWords rs
  same_length : length rs ≡ length ds

fxsub_loop_lem :
    (b : ℕ) (ds : List ℕ)
    → AreWords ds
    → b < word
    → b ≤ value ds
    → (rs : List ℕ) × (fxsub_loop b ds ≡ some rs) × IsDifference b ds rs
unfolding fxsub_loop
fxsub_loop_lem b [] w h le =
    let done : b ≡ 0 = omega arith in
    ([], ground arith, record { total = omega arith; words = tt; same_length = refl })
fxsub_loop_lem b (n ∷ ds) w h le = elim (Bool-cases (b == 0)) [
  | inl e ↦ (n ∷ ds, rw e refl, record { total = ground arith; words = w; same_length = refl })
  | inr e ↦
      let c : ℕ = if ltb n b then 1 else 0 in
      let enough : c ≤ value ds = ground arith in
      let small : c < word = ground arith in
      let (rs, eq, d) = fxsub_loop_lem c ds w.1 small enough in
      let t = d.total in
      (
        (n + word - b) % word ∷ rs,
        rw (e, eq) refl,
        record {
          total = ground (arith, w.0, t);
          words = (omega arith, d.words);
          same_length = omega (arith, d.same_length);
        },
      )
]

signed-sub : (s : Sign) (r m b : ℕ) → r + b ≡ m → signed s r ≡ signed s m -ℤ signed s b
unfolding ◌-ℤ◌
signed-sub plus r m b h = ground arith
signed-sub minus r m b h = ground arith

signed-sub_flipped :
    (s : Sign) (r m b : ℕ) → r + m ≡ b → signed (negate_sign s) r ≡ signed s m -ℤ signed s b
unfolding ◌-ℤ◌ negate_sign
signed-sub_flipped plus r m b h = ground arith
signed-sub_flipped minus r m b h = ground arith

set_low-value :
    (ds : List ℕ) (v : ℕ) → 0 < length ds → value ds ≡ get_or ds 0 0 → value (set ds 0 v) ≡ v
set_low-value [] v h e = absurd (omega arith)
set_low-value (d ∷ ds) v h e = omega arith

-- `sexp_bignum_fxsub` moves the magnitude down by the word, through zero to the other sign where
-- the word is larger; its unbounded borrow loop stays inside the digits.
pub bignum_fxsub_lem :
    (a : Bignum) (b : ℕ)
    → IsBignum a
    → b < word
    → (r : Bignum) × (bignum_fxsub a b ≡ some r) × (to_ℤ r ≡ to_ℤ a -ℤ signed a.sign b) × IsBignum r
unfolding bignum_fxsub
bignum_fxsub_lem a b w h =
    let low = get_or a.digits 0 0 in
    elim (Bool-cases ((bignum_hi a == 1) && ltb low b)) [
      | inl e ↦
          let one = low_digit a w (ground arith) in
          let below : low < b = ground arith in
          let len = length-set a.digits 0 (b - low) in
          (
            record { sign = negate_sign a.sign; digits = set a.digits 0 (b - low) },
            rw e refl,
            signed-sub_flipped a.sign _ _ b
                (omega (arith, one, set_low-value a.digits (b - low) w.nonempty one)),
            record {
              nonempty = omega (arith, len, w.nonempty);
              words = AreWords-set 0 (b - low) a.digits (omega arith) w.words;
            },
          )
      | inr e ↦
          let enough : b ≤ value a.digits = fits (ltb 1 (bignum_hi a)) refl e in
          let (rs, eq, d) = fxsub_loop_lem b a.digits w.words h enough in
          (
            record { sign = a.sign; digits = rs },
            rw (e, eq) refl,
            signed-sub a.sign _ _ b d.total,
            record { nonempty = omega (arith, d.same_length, w.nonempty); words = d.words },
          )
    ]
  where
    fits :
        (t : Bool)
        → ltb 1 (bignum_hi a) ≡ t
        → ((bignum_hi a == 1) && ltb (get_or a.digits 0 0) b) ≡ false
        → b ≤ value a.digits
    fits true p e = omega (arith, big_magnitude a w (ground arith))
    fits false p e = ground (arith, low_digit a w p, bignum_hi_bounds a w)
