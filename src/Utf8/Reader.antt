-- ===== src/Utf8/Reader.antt =====
-- The reader's decoder against the encoder.
use chibi_scheme.Prelude.{ℕ, ◌+◌, ◌*◌, ◌/◌, ◌%◌, ◌≤◌, ◌<◌, ◌≡◌, refl, ◌⊎◌, inl, inr, some, arith}
use chibi_scheme.Prelude.Bits.{mask_4, mask_5, mask_6}
use chibi_scheme.Utf8.{encode, decode_utf8_char}
use chibi_scheme.Utf8.Codec.{
  Width, one, two_bytes, three_bytes, four_bytes, width, encode-two, encode-three, encode-four,
}

-- What the decoder makes of a character: itself in two or three bytes, too little in four.
abbrev pub Decoded : ℕ → ℕ → Type 0
Decoded c r = ((c < 0x10000) × (r ≡ c)) ⊎ ((0x10000 ≤ c) × (r < c))

read : (c : ℕ) → 0x80 ≤ c → Width c → (r : ℕ) × (decode_utf8_char (encode c) ≡ some r) × Decoded c r
unfolding decode_utf8_char
read c g (one h) = absurd (omega arith)
read c g (two_bytes l h) = (
  c,
  rw (encode-two c l h) (ground (arith, mask_6 (192 + c / 64), mask_6 (128 + c % 64))),
  inl (omega arith, refl),
)
read c g (three_bytes l h) = (
  c,
  rw (encode-three c l h)
      (ground (arith, mask_5 (224 + c / 4096), mask_6 (128 + c / 64 % 64), mask_6 (128 + c % 64))),
  inl (omega arith, refl),
)
read c g (four_bytes l h) = (
  c / 262144 * 65536 + c / 4096 % 64 * 64 + c / 64 % 64 * 64 + c % 64,
  rw (encode-four c l h) (
      ground (
        arith,
        mask_4 (240 + c / 262144),
        mask_6 (128 + c / 4096 % 64),
        mask_6 (128 + c / 64 % 64),
        mask_6 (128 + c % 64),
      )),
  inr (l, omega arith),
)

-- The decoder accepts the encoding of every character from 0x80 up to 21 bits; the result is the
-- character if that is below 0x10000, and is smaller than the character from there on.
pub decode_utf8_char-encode :
    (c : ℕ)
    → 0x80 ≤ c
    → c < 0x200000
    → (r : ℕ) × (decode_utf8_char (encode c) ≡ some r) × Decoded c r
decode_utf8_char-encode c l h = read c l (width c h)
