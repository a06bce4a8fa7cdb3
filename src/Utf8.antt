-- ===== src/Utf8.antt =====
-- The UTF-8 codec of sexp.c: byte counts, encoding, decoding, lengths and the reader's decoder.
-- A string is the list of its bytes.
pub mod Codec
pub mod Strings
pub mod Reader
use Prim.Native.Nat.{bit_and}
use chibi_scheme.Prelude.{
  ℕ, zero, suc, ◌+◌, ◌-◌, ◌*◌, ◌/◌, ◌%◌, Bool, true, false, ◌&&◌, ◌||◌, Option, none, some, List,
  [], ◌∷◌, ◌++◌, ◌==◌, ltb, leb, if◌then◌else◌, length, get_or, drop,
}

unfoldable pub utf8_initial_byte_count : ℕ → ℕ
utf8_initial_byte_count c =
    if ltb c 0xc0 then 1 else if ltb c 0xe0 then 2 else bit_and (c / 16) 1 + 3

unfoldable pub utf8_char_byte_count : ℕ → ℕ
utf8_char_byte_count c =
    if ltb c 0x80 then 1 else if ltb c 0x800 then 2 else if ltb c 0x10000 then 3 else 4

-- The bytes written at `p`, each cut off to an unsigned char.
unfoldable pub utf8_encode_char : ℕ → ℕ → List ℕ
utf8_encode_char len c =
    if len == 4
    then (0xf0 + c / 262144) % 256
      ∷ (0x80 + bit_and (c / 4096) 0x3f) % 256
      ∷ (0x80 + bit_and (c / 64) 0x3f) % 256
      ∷ (0x80 + bit_and c 0x3f) % 256
      ∷ []
    else if len == 3
    then (0xe0 + c / 4096) % 256
      ∷ (0x80 + bit_and (c / 64) 0x3f) % 256
      ∷ (0x80 + bit_and c 0x3f) % 256
      ∷ []
    else if len == 2
    then (0xc0 + c / 64) % 256 ∷ (0x80 + bit_and c 0x3f) % 256 ∷ []
    else c % 256 ∷ []

-- The bytes that `sexp_write_utf8_char` puts out.
unfoldable pub encode : ℕ → List ℕ
encode c = utf8_encode_char (utf8_char_byte_count c) c

-- The character at a cursor; `none` is the exception "invalid utf8 byte". Bytes past the end are
-- the terminating 0.
unfoldable pub string_utf8_ref : List ℕ → Option ℕ
string_utf8_ref p =
    let p0 = get_or p 0 0 in
    let p1 = get_or p 1 0 in
    let p2 = get_or p 2 0 in
    let p3 = get_or p 3 0 in
    if ltb p0 0x80
    then some p0
    else if ltb p0 0xc0 || ltb 0xf7 p0
    then none
    else if ltb p0 0xe0
    then some (bit_and p0 0x3f * 64 + bit_and p1 0x3f)
    else if ltb p0 0xf0
    then some (bit_and p0 0x1f * 4096 + bit_and p1 0x3f * 64 + bit_and p2 0x3f)
    else some
        (bit_and p0 0x0f * 262144 + bit_and p1 0x3f * 4096 + bit_and p2 0x3f * 64 + bit_and p3 0x3f)

-- for (i = 0; p < q; i++) p += sexp_utf8_initial_byte_count(*p); the byte count is positive, so the
-- rounds left, one for each byte, are enough.
length_loop : ℕ → List ℕ → ℕ
length_loop left [] = 0
length_loop zero (b ∷ p) = 0
length_loop (suc left) (b ∷ p) = suc (length_loop left (drop (utf8_initial_byte_count b) (b ∷ p)))

unfoldable pub string_utf8_length : List ℕ → ℕ
unfolding length_loop utf8_initial_byte_count
string_utf8_length p = length_loop (length p) p

-- while ((*--p)>>6 == 2); over the bytes before `p`, nearest first: how far it goes back.
unfoldable pub string_utf8_prev : List ℕ → ℕ
string_utf8_prev [] = 0
string_utf8_prev (b ∷ before) = if b / 64 == 2 then suc (string_utf8_prev before) else 1

-- The reader's decoder of a whole token; `none` is its -1.
unfoldable pub decode_utf8_char : List ℕ → Option ℕ
decode_utf8_char s =
    let i = get_or s 0 0 in
    let s1 = get_or s 1 0 in
    let s2 = get_or s 2 0 in
    let s3 = get_or s 3 0 in
    let len = length s in
    if leb 0xc0 i && leb i 0xf7 && s1 / 64 == 2
    then if ltb i 0xe0 && len == 2
      then some (bit_and i 0x3f * 64 + bit_and s1 0x3f)
      else if ltb i 0xf0 && len == 3 && s2 / 64 == 2
      then some (bit_and i 0x1f * 4096 + bit_and s1 0x3f * 64 + bit_and s2 0x3f)
      else if len == 4 && s2 / 64 == 2 && s3 / 64 == 2
      then some
          (bit_and i 0x0f * 65536 + bit_and s1 0x3f * 64 + bit_and s2 0x3f * 64 + bit_and s3 0x3f)
      else none
    else none
