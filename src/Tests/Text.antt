-- ===== src/Tests/Text.antt =====
-- The text of bignums: 2 ^ 64 + 1 and its negation.
use chibi_scheme.Prelude.{◌≡◌, refl, some, [], ◌∷◌}
use chibi_scheme.Bignum.Digits.{plus, minus, Bignum, copy_bignum}
use chibi_scheme.Bignum.Hi.{bignum_hi, bignum_zerop}
use chibi_scheme.Bignum.Fixnum.{bignum_fxadd, bignum_fxmul, bignum_fxdiv}
use chibi_scheme.Bignum.Text.{write_bignum, read_bignum}

abbrev owed : Bignum
owed = record { sign = minus; digits = 1 ∷ 1 ∷ [] }

-- -10000000000000001 in base 16
in_hex :
    write_bignum owed 16
    ≡ some (
        45 ∷ 49 ∷ 48 ∷ 48 ∷ 48 ∷ 48 ∷ 48 ∷ 48 ∷ 48 ∷ 48 ∷ 48 ∷ 48 ∷ 48 ∷ 48 ∷ 48 ∷ 48 ∷ 48 ∷ 49
        ∷ [])
unfolding write_bignum copy_bignum bignum_zerop bignum_fxdiv bignum_hi
in_hex = refl

-- ff) in base 16, up to the parenthesis
from_hex :
    read_bignum (102 ∷ 70 ∷ 41 ∷ []) 0 plus 16
    ≡ (record { sign = plus; digits = 255 ∷ 0 ∷ [] }, 41 ∷ [])
unfolding read_bignum bignum_fxadd bignum_fxmul bignum_hi
from_hex = refl
