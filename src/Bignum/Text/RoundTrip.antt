-- ===== src/Bignum/Text/RoundTrip.antt =====
-- A bignum that is written and read again, and the size of the buffer that it is written to.
use chibi_scheme.Prelude.{ℕ, ◌≡◌, ◌⊎◌, List, [], ◌∷◌}
use chibi_scheme.Bignum.Digits.{Sign, minus, Bignum, value}
use chibi_scheme.Bignum.Text.{read_bignum}

-- Behind a minus sign, if the number is negative and not zero.
abbrev pub Shape : Sign → List ℕ → List ℕ → Type 0
Shape s text digits = (text ≡ digits) ⊎ ((text ≡ 45 ∷ digits) × (s ≡ minus))

-- The digits of a text, and the bignum that reading them with a sign gives.
pub record Reads (base : ℕ) (a : Bignum) (s : Sign) (text : List ℕ) : Type 0 where
  pub digits : List ℕ
  pub shape : Shape a.sign text digits
  pub result : Bignum
  pub read : read_bignum digits 0 s base ≡ (result, [])
  pub read_sign : result.sign ≡ s
  pub magnitude : value result.digits ≡ value a.digits
