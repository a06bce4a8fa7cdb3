-- ===== src/Utf8/Strings.antt =====
-- Lengths and steps in a string of encoded characters.
use mathlib.Core.List.{reverse}
use chibi_scheme.Prelude.{
  ℕ, zero, suc, ◌+◌, ◌/◌, ◌%◌, ◌≤◌, ◌<◌, ◌≡◌, refl, List, [], ◌∷◌, ◌++◌, length, drop, arith, All,
  length-append, ap, ◌∙◌,
}
use chibi_scheme.Utf8.{
  utf8_initial_byte_count, encode, length_loop, string_utf8_length, string_utf8_prev,
}
use chibi_scheme.Utf8.Codec.{
  Width, one, two_bytes, three_bytes, four_bytes, width, encode-one, encode-two, encode-three,
  encode-four, counted,
}

-- The bytes of a string of characters.
abbrev pub encode_all : List ℕ → List ℕ
encode_all [] = []
encode_all (c ∷ cs) = encode c ++ encode_all cs

drop-length-append : (xs ys : List ℕ) → drop (length xs) (xs ++ ys) ≡ ys
drop-length-append [] ys = refl
drop-length-append (x ∷ xs) ys = drop-length-append xs ys

step :
    (left b : ℕ) (p rest : List ℕ)
    → utf8_initial_byte_count b ≡ length (b ∷ p)
    → length_loop (suc left) (b ∷ p ++ rest) ≡ suc (length_loop left rest)
unfolding length_loop
step left b p rest e = rw e (ap (λ q. suc (length_loop left q)) (drop-length-append (b ∷ p) rest))

one_more :
    (left c : ℕ) (rest : List ℕ)
    → Width c
    → length_loop (suc left) (encode c ++ rest) ≡ suc (length_loop left rest)
one_more left c rest (one h) =
    rw (encode-one c h) (step left c [] rest (rw (encode-one c h) at (counted c (one h))))
one_more left c rest (two_bytes l h) = rw (encode-two c l h) (
    step left (192 + c / 64) ((128 + c % 64) ∷ []) rest
      (rw (encode-two c l h) at (counted c (two_bytes l h))))
one_more left c rest (three_bytes l h) = rw (encode-three c l h) (
    step left (224 + c / 4096) ((128 + c / 64 % 64) ∷ (128 + c % 64) ∷ []) rest
      (rw (encode-three c l h) at (counted c (three_bytes l h))))
one_more left c rest (four_bytes l h) = rw (encode-four c l h) (
    step left (240 + c / 262144) ((128 + c / 4096 % 64) ∷ (128 + c / 64 % 64) ∷ (128 + c % 64) ∷ [])
      rest (rw (encode-four c l h) at (counted c (four_bytes l h))))

positive : (c : ℕ) → Width c → 1 ≤ length (encode c)
positive c (one h) = rw (encode-one c h) (omega arith)
positive c (two_bytes l h) = rw (encode-two c l h) (omega arith)
positive c (three_bytes l h) = rw (encode-three c l h) (omega arith)
positive c (four_bytes l h) = rw (encode-four c l h) (omega arith)

length_loop-encode_all :
    (left : ℕ) (cs : List ℕ)
    → All (λ c. c < 0x200000) cs
    → length (encode_all cs) ≤ left
    → length_loop left (encode_all cs) ≡ length cs
unfolding length_loop
length_loop-encode_all left [] h fuel = refl
length_loop-encode_all zero (c ∷ cs) h fuel =
    absurd (omega (arith, positive c (width c h.0), length-append (encode c) (encode_all cs)))
length_loop-encode_all (suc left) (c ∷ cs) h fuel =
    let w = width c h.0 in
    let room : length (encode_all cs) ≤ left =
      omega (arith, positive c w, length-append (encode c) (encode_all cs)) in
    one_more left c (encode_all cs) w ∙ ap suc (length_loop-encode_all left cs h.1 room)

-- `sexp_string_utf8_length` counts the characters of an encoded string.
pub string_utf8_length-encode_all :
    (cs : List ℕ) → All (λ c. c < 0x200000) cs → string_utf8_length (encode_all cs) ≡ length cs
unfolding string_utf8_length
string_utf8_length-encode_all cs h = length_loop-encode_all _ cs h (omega arith)

-- `sexp_string_utf8_prev` goes back over exactly the bytes of the character before the cursor.
pub string_utf8_prev-encode :
    (c : ℕ) (before : List ℕ)
    → c < 0x200000
    → string_utf8_prev (reverse (encode c) ++ before) ≡ length (encode c)
unfolding string_utf8_prev
string_utf8_prev-encode c before h = back (width c h)
  where
    back : Width c → string_utf8_prev (reverse (encode c) ++ before) ≡ length (encode c)
    back (one k) = rw (encode-one c k) (ground arith)
    back (two_bytes l k) = rw (encode-two c l k) (ground arith)
    back (three_bytes l k) = rw (encode-three c l k) (ground arith)
    back (four_bytes l k) = rw (encode-four c l k) (ground arith)
