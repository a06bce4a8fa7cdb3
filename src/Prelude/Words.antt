-- ===== src/Prelude/Words.antt =====
-- `sexp_uint_t` on a 64-bit build, and a predicate that holds of every entry of a list.
use Prim.Native.Nat.{ℕ}
use mathlib.Core.List.{List, [], ◌∷◌}

-- 2 ^ 64
abbrev pub word : ℕ
word = 18_446_744_073_709_551_616

-- SEXP_UINT_T_MAX
abbrev pub uint_max : ℕ
uint_max = 18_446_744_073_709_551_615

abbrev pub All {ℓ κ} : {A : Type ℓ} → (A → Type κ) → List A → Type κ
All P [] = Unit
All P (x ∷ xs) = P x × All P xs
