-- ===== src/Prelude/Bits.antt =====
-- `&` with a mask of low bits, as a remainder.
use Prim.Native.Nat.{ℕ, zero, suc, ◌+◌, ◌*◌, ◌/◌, ◌%◌, ◌≤◌, min, bit_and, digits, bit_and-bitwise}
use mathlib.Core.Path.{◌≡◌, refl}
use native.Mathlib.Omega.{arith}

-- The recursion on binary digits behind `bit_and` does not depend on its spare rounds.
spare_rounds : (x y n m : ℕ) → x ≤ n → x ≤ m → digits (λ k. 0) min n x y ≡ digits (λ k. 0) min m x y
spare_rounds zero y zero zero h g = refl
spare_rounds zero y zero (suc m) h g = refl
spare_rounds zero y (suc n) zero h g = refl
spare_rounds zero y (suc n) (suc m) h g = refl
spare_rounds (suc x) y zero m h g = absurd (omega arith)
spare_rounds (suc x) y (suc n) zero h g = absurd (omega arith)
spare_rounds (suc x) y (suc n) (suc m) h g =
    omega (arith, spare_rounds (suc x / 2) (y / 2) n m (omega arith) (omega arith))

pub lowest_digit : (x y : ℕ) → bit_and x y ≡ bit_and (x / 2) (y / 2) * 2 + min (x % 2) (y % 2)
lowest_digit zero y = omega (arith, bit_and-bitwise 0 y, bit_and-bitwise 0 (y / 2))
lowest_digit (suc x) y =
    let half = suc x / 2 in
    omega (
      arith,
      bit_and-bitwise (suc x) y,
      bit_and-bitwise half (y / 2),
      spare_rounds half (y / 2) x half (omega arith) (omega arith),
    )

none_left : (n x : ℕ) → x ≤ n → bit_and x 0 ≡ 0
none_left n zero h = bit_and-bitwise 0 0
none_left zero (suc x) h = absurd (omega arith)
none_left (suc n) (suc x) h =
    omega (arith, lowest_digit (suc x) 0, none_left n (suc x / 2) (omega arith))

-- From the mask of k ones to that of k + 1.
pub mask_1 : (x : ℕ) → bit_and x 0x1 ≡ x % 2
mask_1 x = omega (arith, lowest_digit x 1, none_left (x / 2) (x / 2) (omega arith))

mask_2 : (x : ℕ) → bit_and x 0x3 ≡ x % 4
mask_2 x = omega (arith, lowest_digit x 3, mask_1 (x / 2))

mask_3 : (x : ℕ) → bit_and x 0x7 ≡ x % 8
mask_3 x = omega (arith, lowest_digit x 7, mask_2 (x / 2))

pub mask_4 : (x : ℕ) → bit_and x 0xf ≡ x % 16
mask_4 x = omega (arith, lowest_digit x 15, mask_3 (x / 2))

pub mask_5 : (x : ℕ) → bit_and x 0x1f ≡ x % 32
mask_5 x = omega (arith, lowest_digit x 31, mask_4 (x / 2))

pub mask_6 : (x : ℕ) → bit_and x 0x3f ≡ x % 64
mask_6 x = omega (arith, lowest_digit x 63, mask_5 (x / 2))
