-- ===== src/Bignum/Sum/Loops.antt =====
-- The digit loops of bignum sums and differences: carries and borrows.
use chibi_scheme.Prelude.{
  ℕ, zero, suc, ◌+◌, ◌-◌, ◌*◌, ◌%◌, ◌≤◌, ◌<◌, ◌≡◌, refl, List, [], ◌∷◌, ◌==◌, ltb, if◌then◌else◌,
  Bool-cases, inl, inr, word, uint_max, arith, length, take, drop, ap,
}
use chibi_scheme.Bignum.Digits.{value, AreWords, ZeroAbove, place, place_zero, value-ZeroAbove_zero}
use chibi_scheme.Bignum.Fixnum.{Carried}
use chibi_scheme.Bignum.Sum.{carry_loop, add_loop, borrow_loop, sub_step, sub_loop}

carry_loop-value :
    (left c : ℕ) (xs : List ℕ)
    → c ≤ 1
    → left ≤ length xs
    → AreWords xs
    → value (carry_loop left c xs).0 + place left (carry_loop left c xs).1 ≡ value xs + c
unfolding carry_loop place
carry_loop-value zero c xs h k w = refl
carry_loop-value (suc left) c [] h k w = absurd (omega arith)
carry_loop-value (suc left) c (x ∷ xs) h k w = elim (Bool-cases (c == 0)) [
  | inl e ↦ rw e (ground (arith, place_zero left))
  | inr e ↦
      let c' : ℕ = if x == uint_max then 1 else 0 in
      let ih = carry_loop-value left c' xs (ground arith) (omega arith) w.1 in
      rw e (ground (arith, w.0, ih))
]

pub add_loop-value :
    (k m c : ℕ) (xs ys : List ℕ)
    → c ≤ 1
    → k + m ≤ length xs
    → k ≤ length ys
    → AreWords xs
    → AreWords ys
    → value (add_loop k m c xs ys).0 + place k (place m (add_loop k m c xs ys).1)
      ≡ value xs + value (take k ys) + c
unfolding add_loop place
add_loop-value zero m c xs ys h p q v w = omega (arith, carry_loop-value m c xs h (omega arith) v)
add_loop-value (suc k) m c [] ys h p q v w = absurd (omega arith)
add_loop-value (suc k) m c (x ∷ xs) [] h p q v w = absurd (omega arith)
add_loop-value (suc k) m c (x ∷ xs) (y ∷ ys) h p q v w =
    let s = (x + y) % word in
    let c' : ℕ =
      (if ltb (uint_max - y) x then 1 else 0) + (if ltb (uint_max - c) s then 1 else 0) in
    let digit : (s + c) % word + word * c' ≡ x + y + c = ground (arith, v.0, w.0) in
    let small : c' ≤ 1 = ground (arith, v.0, w.0) in
    omega (arith, digit, add_loop-value k m c' xs ys small (omega arith) (omega arith) v.1 w.1)

borrow_loop-value :
    (left b : ℕ) (xs : List ℕ)
    → b ≤ 1
    → b ≤ value xs
    → AreWords xs
    → ZeroAbove left xs
    → value (borrow_loop left b xs) + b ≡ value xs
unfolding borrow_loop
borrow_loop-value zero b xs h k w z = omega (arith, value-ZeroAbove_zero xs z)
borrow_loop-value (suc left) b [] h k w z = omega arith
borrow_loop-value (suc left) b (x ∷ xs) h k w z = elim (Bool-cases (b == 0)) [
  | inl e ↦ rw e (ground arith)
  | inr e ↦
      let b' : ℕ = if x == 0 then 1 else 0 in
      let ih = borrow_loop-value left b' xs (ground arith) (ground arith) w.1 z in
      rw e (ground (arith, w.0, ih))
]

sub_step_lem :
    (x y b : ℕ)
    → x < word
    → y < word
    → b ≤ 1
    → let (d, b') = sub_step x y b in (d + y + b ≡ x + word * b') × (b' ≤ 1) × (d < word)
unfolding sub_step
sub_step_lem x y b p q h = ground arith

pub sub_loop-value :
    (k m b : ℕ) (xs ys : List ℕ)
    → b ≤ 1
    → k ≤ length xs
    → k ≤ length ys
    → AreWords xs
    → AreWords ys
    → ZeroAbove m (drop k xs)
    → value (take k ys) + b ≤ value xs
    → value (sub_loop k m b xs ys) + value (take k ys) + b ≡ value xs
unfolding sub_loop
sub_loop-value zero m b xs ys h p q v w z le =
    omega (arith, borrow_loop-value m b xs h (omega arith) v z)
sub_loop-value (suc k) m b [] ys h p q v w z le = absurd (omega arith)
sub_loop-value (suc k) m b (x ∷ xs) [] h p q v w z le = absurd (omega arith)
sub_loop-value (suc k) m b (x ∷ xs) (y ∷ ys) h p q v w z le =
    let (digit, small, fits) = sub_step_lem x y b v.0 w.0 h in
    let enough : value (take k ys) + (sub_step x y b).1 ≤ value xs = omega arith in
    omega (
      arith,
      sub_loop-value k m (sub_step x y b).1 xs ys small (omega arith) (omega arith) v.1 w.1 z
          enough,
    )

borrow_loop_shape :
    (left b : ℕ) (xs : List ℕ)
    → AreWords xs
    → AreWords (borrow_loop left b xs) × (length (borrow_loop left b xs) ≡ length xs)
unfolding borrow_loop
borrow_loop_shape zero b xs w = (w, refl)
borrow_loop_shape (suc left) b [] w = (tt, refl)
borrow_loop_shape (suc left) b (x ∷ xs) w = elim (Bool-cases (b == 0)) [
  | inl e ↦ rw e (w, refl)
  | inr e ↦
      let ih = borrow_loop_shape left (if x == 0 then 1 else 0) xs w.1 in
      rw e ((omega arith, ih.0), ap suc ih.1)
]

pub sub_loop_shape :
    (k m b : ℕ) (xs ys : List ℕ)
    → b ≤ 1
    → k ≤ length xs
    → k ≤ length ys
    → AreWords xs
    → AreWords ys
    → AreWords (sub_loop k m b xs ys) × (length (sub_loop k m b xs ys) ≡ length xs)
unfolding sub_loop
sub_loop_shape zero m b xs ys h p q v w = borrow_loop_shape m b xs v
sub_loop_shape (suc k) m b [] ys h p q v w = absurd (omega arith)
sub_loop_shape (suc k) m b (x ∷ xs) [] h p q v w = absurd (omega arith)
sub_loop_shape (suc k) m b (x ∷ xs) (y ∷ ys) h p q v w =
    let (digit, small, fits) = sub_step_lem x y b v.0 w.0 h in
    let ih =
      sub_loop_shape k m (sub_step x y b).1 xs ys small (omega arith) (omega arith) v.1 w.1 in
    ((fits, ih.0), ap suc ih.1)

-- What a loop leaves besides the value: words, the same length, zeros above, and a carry of a bit.
pub record IsCarried (len m k : ℕ) (r : Carried) : Type 0 where
  pub words : AreWords r.0
  pub same_length : length r.0 ≡ len
  pub zeros : ZeroAbove m (drop k r.0)
  pub bit : r.1 ≤ 1

carry_loop-IsCarried :
    (left c : ℕ) (xs : List ℕ)
    → c ≤ 1
    → AreWords xs
    → ZeroAbove left xs
    → IsCarried (length xs) left 0 (carry_loop left c xs)
unfolding carry_loop
carry_loop-IsCarried zero c xs h w z = record { words = w; same_length = refl; zeros = z; bit = h }
carry_loop-IsCarried (suc left) c [] h w z = record {
  words = tt;
  same_length = refl;
  zeros = tt;
  bit = h;
}
carry_loop-IsCarried (suc left) c (x ∷ xs) h w z = elim (Bool-cases (c == 0)) [
  | inl e ↦ rw e (record { words = w; same_length = refl; zeros = z; bit = h })
  | inr e ↦
      let c' : ℕ = if x == uint_max then 1 else 0 in
      let ih = carry_loop-IsCarried left c' xs (ground arith) w.1 z in
      rw e (record {
        words = (omega arith, ih.words);
        same_length = ap suc ih.same_length;
        zeros = ih.zeros;
        bit = ih.bit;
      })
]

pub add_loop-IsCarried :
    (k m c : ℕ) (xs ys : List ℕ)
    → c ≤ 1
    → k ≤ length ys
    → AreWords xs
    → AreWords ys
    → ZeroAbove m (drop k xs)
    → IsCarried (length xs) m k (add_loop k m c xs ys)
unfolding add_loop
add_loop-IsCarried zero m c xs ys h q v w z = carry_loop-IsCarried m c xs h v z
add_loop-IsCarried (suc k) m c [] ys h q v w z = record {
  words = tt;
  same_length = refl;
  zeros = tt;
  bit = h;
}
add_loop-IsCarried (suc k) m c (x ∷ xs) [] h q v w z = absurd (omega arith)
add_loop-IsCarried (suc k) m c (x ∷ xs) (y ∷ ys) h q v w z =
    let s = (x + y) % word in
    let c' : ℕ =
      (if ltb (uint_max - y) x then 1 else 0) + (if ltb (uint_max - c) s then 1 else 0) in
    let ih = add_loop-IsCarried k m c' xs ys (ground (arith, v.0, w.0)) (omega arith) v.1 w.1 z in
    record {
      words = (omega arith, ih.words);
      same_length = ap suc ih.same_length;
      zeros = ih.zeros;
      bit = ih.bit;
    }
