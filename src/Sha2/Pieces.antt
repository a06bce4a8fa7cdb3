-- ===== src/Sha2/Pieces.antt =====
-- lib/chibi/crypto/sha2.c: data that comes when the buffer holds part of a chunk.
use Prim.Native.Nat.{min}
use chibi_scheme.Prelude.{
  ℕ, zero, suc, ◌+◌, ◌-◌, ◌%◌, ◌^◌, ◌≤◌, ◌<◌, ◌≡◌, ◌⊎◌, refl, sym, ap, ◌∙◌, true, false, List, [],
  ◌∷◌, ◌++◌, ◌==◌, leb, length, take, drop, arith, Bool-cases, inl, inr, length-append, length-take,
}
use chibi_scheme.Sha2.Round.{sha_224_256_round}
use chibi_scheme.Sha2.{Sha, initial, put_bytes, add_chunks, add_bytes}
use chibi_scheme.Sha2.Blocks.{absorb, absorb_short, absorb_chunk, absorb-append, length-absorb}
use chibi_scheme.Sha2.Stream.{
  Represents, length-put_bytes, take-put_bytes, take-put_bytes_above, take_self, drop_self,
  add_bytes_whole,
}

put_bytes-nil : (offset : ℕ) (buffer : List ℕ) → put_bytes offset [] buffer ≡ buffer
unfolding put_bytes
put_bytes-nil zero buffer = refl
put_bytes-nil (suc offset) [] = refl
put_bytes-nil (suc offset) (x ∷ buffer) = ap (λ r. x ∷ r) (put_bytes-nil offset buffer)

not_leb : (a b : ℕ) → b < a → leb a b ≡ false
not_leb a b h = ground arith

eq_of_test : (a b : ℕ) → (a == b) ≡ true → a ≡ b
eq_of_test a b h = ground arith

lt_of_test : (a b : ℕ) → (a == b) ≡ false → a ≤ b → a < b
lt_of_test a b h k = ground arith

-- Data that fills the chunk at most
add_bytes_part :
    (sha : Sha) (msg src : List ℕ)
    → Represents sha msg
    → length msg + length src < 2 ^ 64
    → 0 < length msg % 64
    → length msg % 64 + length src ≤ 64
    → Represents (add_bytes sha src) (msg ++ src)
unfolding add_bytes add_chunks
add_bytes_part sha msg src r fits some_held small =
    let init = initial sha.kind in
    let n = length msg % 64 in
    let offset : sha.len % 64 ≡ n = ap (λ k. k % 64) r.counted in
    let t : (n == 0) ≡ false = ground arith in
    let filled : min (64 - n) (length src) ≡ length src = omega arith in
    let whole : take (length src) src ≡ src = take_self (length src) src (omega arith) in
    let buffer = put_bytes n src sha.buffer in
    let l = length-append msg src in
    let room = r.room in
    let same = length-put_bytes n src sha.buffer (omega arith) in
    let old = (absorb msg init).0 in
    let taken : absorb (msg ++ src) init ≡ absorb (old ++ src) sha.hash =
      absorb-append (length msg) msg src init (omega arith)
      ∙ ap (λ x. absorb (old ++ src) x) (sym r.hashed) in
    let k = length-absorb (length msg) msg init (omega arith) in
    let m = length-append old src in
    let bytes : take (n + length src) buffer ≡ old ++ src =
      take-put_bytes (n + length src) n src sha.buffer refl (omega arith)
      ∙ ap (λ x. x ++ src) r.held in
    let counted : (sha.len + length src) % 2 ^ 64 ≡ length (msg ++ src) =
      omega (arith, r.counted) in
    elim (Bool-cases (n + length src == 64)) [
      | inl u ↦
          let full = eq_of_test (n + length src) 64 u in
          let chunk : take 64 buffer ≡ old ++ src = ap (λ x. take x buffer) (sym full) ∙ bytes in
          let none : drop (length src) src ≡ [] = drop_self (length src) src (omega arith) in
          let v = not_leb 64 (length src) (omega arith) in
          let done : absorb (msg ++ src) init ≡ ([], sha_224_256_round (old ++ src) sha.hash) =
            taken ∙ absorb_chunk (old ++ src) sha.hash (omega arith) in
          let zero_held : length (msg ++ src) % 64 ≡ 0 = omega arith in
          rw offset rw (add_bytes, t) rw filled rw u rw whole rw none rw v rw
            (put_bytes-nil 64 buffer)
            (record {
              unsealed = r.unsealed;
              counted = counted;
              hashed =
                  ap (λ x. sha_224_256_round x sha.hash) chunk
                  ∙ ap (λ (x : List ℕ × List ℕ). x.1) (sym done);
              held =
                  ap (λ x. take x buffer) zero_held ∙ ap (λ (x : List ℕ × List ℕ). x.0) (sym done);
              room = same ∙ room;
            })
      | inr u ↦
          let less = lt_of_test (n + length src) 64 u small in
          let done : absorb (msg ++ src) init ≡ (old ++ src, sha.hash) =
            taken ∙ absorb_short (old ++ src) sha.hash (omega arith) in
          let more : length (msg ++ src) % 64 ≡ n + length src = omega arith in
          rw offset rw (add_bytes, t) rw filled rw u rw whole
            (record {
              unsealed = r.unsealed;
              counted = counted;
              hashed = ap (λ (x : List ℕ × List ℕ). x.1) (sym done);
              held =
                  ap (λ x. take x buffer) more
                  ∙ bytes
                  ∙ ap (λ (x : List ℕ × List ℕ). x.0) (sym done);
              room = same ∙ room;
            })
    ]

-- Each piece starts at a chunk, or does not go beyond the chunk that is being filled.
abbrev pub IsAligned : ℕ → List (List ℕ) → Type 0
IsAligned n [] = Unit
IsAligned n (p ∷ pieces) =
    ((n % 64 ≡ 0) ⊎ (n % 64 + length p ≤ 64)) × IsAligned (n + length p) pieces

abbrev pub concat : List (List ℕ) → List ℕ
concat [] = []
concat (p ∷ pieces) = p ++ concat pieces

abbrev pub add_all : Sha → List (List ℕ) → Sha
add_all sha [] = sha
add_all sha (p ∷ pieces) = add_all (add_bytes sha p) pieces

pub add_bytes-Represents :
    (sha : Sha) (msg src : List ℕ)
    → Represents sha msg
    → length msg + length src < 2 ^ 64
    → ((length msg % 64 ≡ 0) ⊎ (length msg % 64 + length src ≤ 64))
    → Represents (add_bytes sha src) (msg ++ src)
add_bytes-Represents sha msg src r fits (inl h) = add_bytes_whole sha msg src r fits h
add_bytes-Represents sha msg src r fits (inr h) = elim (Bool-cases (length msg % 64 == 0)) [
  | inl t ↦ add_bytes_whole sha msg src r fits (ground arith)
  | inr t ↦ add_bytes_part sha msg src r fits (ground arith) h
]

-- A context that has part of a chunk is given data beyond that chunk. The first 64 bytes of its
-- buffer, where the next call reads, then are the chunk that has been hashed, and not what is left
-- of the data.
pub add_bytes_stale :
    (sha : Sha) (src : List ℕ)
    → length sha.buffer ≡ 128
    → 0 < sha.len % 64
    → 64 < sha.len % 64 + length src
    → take 64 (add_bytes sha src).buffer
      ≡ take (sha.len % 64) sha.buffer ++ take (64 - sha.len % 64) src
unfolding add_bytes add_chunks
add_bytes_stale sha src room some_held big =
    let n = sha.len % 64 in
    let t : (n == 0) ≡ false = ground arith in
    let filled : min (64 - n) (length src) ≡ 64 - n = omega arith in
    let u : (n + (64 - n) == 64) ≡ true = ground arith in
    let part = take (64 - n) src in
    let l = length-take (64 - n) src in
    rw (add_bytes, t) rw filled rw u
      (take-put_bytes_above 64 _ (put_bytes n part sha.buffer)
        ∙ take-put_bytes 64 n part sha.buffer (omega arith) (omega arith))
