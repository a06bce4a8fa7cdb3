-- ===== src/Tests/Utf8.antt =====
-- The UTF-8 codec of sexp.c on the characters λ and U+1F600.
use chibi_scheme.Prelude.{ℕ, ◌≡◌, refl, some, [], ◌∷◌, ◌++◌, length, get_or, arith}
use chibi_scheme.Utf8.{
  encode, string_utf8_ref, utf8_initial_byte_count, string_utf8_length, decode_utf8_char,
}
use chibi_scheme.Utf8.Codec.{string_utf8_ref-encode}
use chibi_scheme.Utf8.Strings.{encode_all, string_utf8_length-encode_all}
use chibi_scheme.Utf8.Reader.{Decoded, decode_utf8_char-encode}

-- U+1F600 in four bytes, and what the reader makes of them.
misread : decode_utf8_char (0xf0 ∷ 0x9f ∷ 0x98 ∷ 0x80 ∷ []) ≡ some 0xdc0
unfolding decode_utf8_char
misread = refl

string_utf8_ref-encode_example :
    (string_utf8_ref (encode 0x1f600 ++ 65 ∷ []) ≡ some 0x1f600)
    × (utf8_initial_byte_count (get_or (encode 0x1f600) 0 0) ≡ length (encode 0x1f600))
string_utf8_ref-encode_example = string_utf8_ref-encode 0x1f600 (65 ∷ []) (omega arith)

string_utf8_length-encode_all_example : string_utf8_length (encode_all (955 ∷ 0x1f600 ∷ [])) ≡ 2
string_utf8_length-encode_all_example =
    string_utf8_length-encode_all (955 ∷ 0x1f600 ∷ []) (omega arith, (omega arith, tt))

decode_utf8_char-encode_example :
    (r : ℕ) × (decode_utf8_char (encode 0x1f600) ≡ some r) × Decoded 0x1f600 r
decode_utf8_char-encode_example = decode_utf8_char-encode 0x1f600 (omega arith) (omega arith)
