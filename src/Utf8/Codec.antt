-- ===== src/Utf8/Codec.antt =====
-- Encoding one character, and reading it back at a cursor.
use chibi_scheme.Prelude.{
  ℕ, ◌+◌, ◌/◌, ◌%◌, ◌≤◌, ◌<◌, ◌≡◌, inl, inr, some, List, [], ◌∷◌, ◌++◌, ltb, length, get_or, arith,
  Bool-cases,
}
use chibi_scheme.Prelude.Bits.{mask_1, mask_4, mask_5, mask_6}
use chibi_scheme.Utf8.{
  utf8_initial_byte_count, utf8_char_byte_count, utf8_encode_char, encode, string_utf8_ref,
}

abbrev two : ℕ → List ℕ
two c = (192 + c / 64) ∷ (128 + c % 64) ∷ []

abbrev three : ℕ → List ℕ
three c = (224 + c / 4096) ∷ (128 + c / 64 % 64) ∷ (128 + c % 64) ∷ []

abbrev four : ℕ → List ℕ
four c = (240 + c / 262144) ∷ (128 + c / 4096 % 64) ∷ (128 + c / 64 % 64) ∷ (128 + c % 64) ∷ []

-- The encoding in arithmetic, by the number of bytes.
pub encode-one : (c : ℕ) → c < 0x80 → encode c ≡ c ∷ []
unfolding encode utf8_encode_char utf8_char_byte_count
encode-one c h = ground arith

pub encode-two : (c : ℕ) → 0x80 ≤ c → c < 0x800 → encode c ≡ two c
unfolding encode utf8_encode_char utf8_char_byte_count
encode-two c l h = ground (arith, mask_6 c)

pub encode-three : (c : ℕ) → 0x800 ≤ c → c < 0x10000 → encode c ≡ three c
unfolding encode utf8_encode_char utf8_char_byte_count
encode-three c l h = ground (arith, mask_6 c, mask_6 (c / 64))

pub encode-four : (c : ℕ) → 0x10000 ≤ c → c < 0x200000 → encode c ≡ four c
unfolding encode utf8_encode_char utf8_char_byte_count
encode-four c l h = ground (arith, mask_6 c, mask_6 (c / 64), mask_6 (c / 4096))

-- The four ranges of a character.
pub data Width (c : ℕ) : Type 0 where
  one : c < 0x80 → Width c
  two_bytes : 0x80 ≤ c → c < 0x800 → Width c
  three_bytes : 0x800 ≤ c → c < 0x10000 → Width c
  four_bytes : 0x10000 ≤ c → c < 0x200000 → Width c

pub width : (c : ℕ) → c < 0x200000 → Width c
width c h = elim (Bool-cases (ltb c 0x80)) [
  | inl e ↦ one (ground arith)
  | inr e ↦ elim (Bool-cases (ltb c 0x800)) [
    | inl f ↦ two_bytes (ground arith) (ground arith)
    | inr f ↦ elim (Bool-cases (ltb c 0x10000)) [
      | inl g ↦ three_bytes (ground arith) (ground arith)
      | inr g ↦ four_bytes (ground arith) h
    ]
  ]
]

decoded : (c : ℕ) (rest : List ℕ) → Width c → string_utf8_ref (encode c ++ rest) ≡ some c
unfolding string_utf8_ref
decoded c rest (one h) = rw (encode-one c h) (ground arith)
decoded c rest (two_bytes l h) =
    rw (encode-two c l h) (ground (arith, mask_6 (192 + c / 64), mask_6 (128 + c % 64)))
decoded c rest (three_bytes l h) =
    rw (encode-three c l h)
      (ground (arith, mask_5 (224 + c / 4096), mask_6 (128 + c / 64 % 64), mask_6 (128 + c % 64)))
decoded c rest (four_bytes l h) = rw (encode-four c l h) (
    ground (
      arith,
      mask_4 (240 + c / 262144),
      mask_6 (128 + c / 4096 % 64),
      mask_6 (128 + c / 64 % 64),
      mask_6 (128 + c % 64),
    ))

pub counted :
    (c : ℕ) → Width c → utf8_initial_byte_count (get_or (encode c) 0 0) ≡ length (encode c)
unfolding utf8_initial_byte_count
counted c (one h) = rw (encode-one c h) (ground arith)
counted c (two_bytes l h) = rw (encode-two c l h) (ground arith)
counted c (three_bytes l h) =
    rw (encode-three c l h) (ground (arith, mask_1 ((224 + c / 4096) / 16)))
counted c (four_bytes l h) =
    rw (encode-four c l h) (ground (arith, mask_1 ((240 + c / 262144) / 16)))

-- Every character of up to 21 bits is read back from its encoding, whatever follows it, and the
-- byte count that the first byte announces is the length of the encoding.
pub string_utf8_ref-encode :
    (c : ℕ) (rest : List ℕ)
    → c < 0x200000
    → (string_utf8_ref (encode c ++ rest) ≡ some c)
      × (utf8_initial_byte_count (get_or (encode c) 0 0) ≡ length (encode c))
string_utf8_ref-encode c rest h = (decoded c rest (width c h), counted c (width c h))
