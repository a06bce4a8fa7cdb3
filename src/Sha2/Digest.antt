-- ===== src/Sha2/Digest.antt =====
-- lib/chibi/crypto/sha2.c: the digest of a message, whose padding the context makes in its buffer.
use Prim.Native.Nat.{min}
use mathlib.Core.List.{append_assoc, append-nil}
use chibi_scheme.Prelude.{
  ℕ, zero, suc, ◌+◌, ◌-◌, ◌*◌, ◌/◌, ◌%◌, ◌^◌, ◌≤◌, ◌<◌, ◌≡◌, refl, sym, ap, ◌∙◌, List, [], ◌∷◌,
  ◌++◌, ◌==◌, leb, if◌then◌else◌, length, take, replicate, arith, Bool-cases, inl, inr,
  length-append, length-replicate,
}
use chibi_scheme.Sha2.Round.{sha_224_256_round}
use chibi_scheme.Sha2.{
  ShaType, Sha, add_bytes, add_chunks, length_bytes, sha_224_256_remainder, initial, start_sha,
  seal, hash_string, words_of, get_sha,
}
use chibi_scheme.Sha2.Blocks.{absorb, absorb_chunk, absorb-append, length-absorb, take-length}
use chibi_scheme.Sha2.Stream.{Represents, start_sha-Represents}
use chibi_scheme.Sha2.Pieces.{IsAligned, concat, add_all, add_bytes-Represents}

-- What RFC 6234 puts behind a message of n bytes: a 1 bit, zeros up to 8 bytes before the end of a
-- chunk, and the length in bits.
abbrev pub padding : ℕ → List ℕ
padding n =
    0x80
    ∷ (replicate (if leb 56 (n % 64) then 119 - n % 64 else 55 - n % 64) 0
        ++ length_bytes 8 (n * 8) [])

abbrev pub sha_digest : ShaType → List ℕ → List ℕ
sha_digest t msg =
    hash_string (take (words_of t) (absorb (msg ++ padding (length msg)) (initial t)).1)

length-length_bytes :
    (left n : ℕ) (bytes : List ℕ) → length (length_bytes left n bytes) ≡ left + length bytes
unfolding length_bytes
length-length_bytes zero n bytes = omega arith
length-length_bytes (suc left) n bytes =
    omega (arith, length-length_bytes left (n / 256) (n % 256 ∷ bytes))

replicate-append : (n m : ℕ) → replicate n 0 ++ replicate m 0 ≡ replicate {A = ℕ} (n + m) 0
replicate-append zero m = ap (λ k. replicate {A = ℕ} k 0) (omega arith)
replicate-append (suc n) m =
    let e : suc n + m ≡ suc (n + m) = omega arith in rw e (ap (λ r. 0 ∷ r) (replicate-append n m))

-- A 1 bit and z zeros behind what is left
abbrev marked : List ℕ → ℕ → List ℕ
marked rest z = rest ++ (0x80 ∷ replicate z 0)

length-marked : (rest : List ℕ) (z : ℕ) → length (marked rest z) ≡ length rest + suc z
length-marked rest z =
    omega (arith, length-append rest (0x80 ∷ replicate z 0), length-replicate {A = ℕ} z 0)

marked-append :
    (rest more : List ℕ) (z y : ℕ)
    → rest ++ (0x80 ∷ (replicate (z + y) 0 ++ more)) ≡ marked rest z ++ (replicate y 0 ++ more)
marked-append rest more z y =
    let e = sym (replicate-append z y) in
    let f = append_assoc (replicate z 0) (replicate y 0) more in
    ap (λ l. rest ++ (0x80 ∷ (l ++ more))) e
    ∙ ap (λ l. rest ++ (0x80 ∷ l)) f
    ∙ sym (append_assoc rest (0x80 ∷ replicate z 0) (replicate y 0 ++ more))

marked_zeros : (rest : List ℕ) (z y : ℕ) → marked rest (z + y) ≡ marked rest z ++ replicate y 0
marked_zeros rest z y =
    ap (λ l. rest ++ (0x80 ∷ l)) (sym (replicate-append z y))
    ∙ sym (append_assoc rest (0x80 ∷ replicate z 0) (replicate y 0))

long_rest :
    (rest hash tail : List ℕ)
    → length rest < 64
    → 56 ≤ length rest
    → length tail ≡ 8
    → sha_224_256_round
        (replicate 56 0 ++ tail)
        (sha_224_256_round (marked rest (64 - length rest - 1)) hash)
      ≡ (absorb (rest ++ (0x80 ∷ (replicate (119 - length rest) 0 ++ tail))) hash).1
long_rest rest hash tail h k l =
    let z = 64 - length rest - 1 in
    let last = replicate 56 0 ++ tail in
    let e : 119 - length rest ≡ z + 56 = omega arith in
    let f = ap (λ n. rest ++ (0x80 ∷ (replicate n 0 ++ tail))) e ∙ marked-append rest tail z 56 in
    let m = length-marked rest z in
    let first = absorb_chunk (marked rest z) hash (omega arith) in
    let n = length-append (replicate {A = ℕ} 56 0) tail in
    let o = length-replicate {A = ℕ} 56 0 in
    let second = absorb_chunk last (sha_224_256_round (marked rest z) hash) (omega arith) in
    let g = absorb-append (length (marked rest z)) (marked rest z) last hash (omega arith) in
    sym (
      ap (λ x. (absorb x hash).1) f
      ∙ ap (λ (x : List ℕ × List ℕ). x.1) g
      ∙ ap (λ (x : List ℕ × List ℕ). (absorb (x.0 ++ last) x.1).1) first
      ∙ ap (λ (x : List ℕ × List ℕ). x.1) second)

short_rest :
    (rest hash tail : List ℕ)
    → length rest < 56
    → length tail ≡ 8
    → sha_224_256_round (take 56 (marked rest (64 - length rest - 1)) ++ tail) hash
      ≡ (absorb (rest ++ (0x80 ∷ (replicate (55 - length rest) 0 ++ tail))) hash).1
short_rest rest hash tail h l =
    let z = 55 - length rest in
    let e : 64 - length rest - 1 ≡ z + 8 = omega arith in
    let m = length-marked rest z in
    let n : 56 ≡ length (marked rest z) = omega arith in
    let f : take 56 (marked rest (64 - length rest - 1)) ≡ marked rest z =
      ap (λ k. take 56 (marked rest k)) e
      ∙ ap (λ x. take 56 x) (marked_zeros rest z 8)
      ∙ ap (λ k. take k (marked rest z ++ replicate 8 0)) n
      ∙ take-length (marked rest z) (replicate 8 0) in
    let o = length-append (marked rest z) tail in
    let g = append_assoc rest (0x80 ∷ replicate z 0) tail in
    ap (λ x. sha_224_256_round (x ++ tail) hash) f
    ∙ sym (
        ap (λ (x : List ℕ × List ℕ). x.1) (absorb_chunk (marked rest z ++ tail) hash (omega arith)))
    ∙ ap (λ x. (absorb x hash).1) g

remainder_lem :
    (chunk rest hash : List ℕ) (n bits : ℕ)
    → take n chunk ≡ rest
    → length rest ≡ n
    → n < 64
    → sha_224_256_remainder chunk n bits hash
      ≡ (absorb
          (rest
            ++ (0x80
                ∷ (replicate (if leb 56 n then 119 - n else 55 - n) 0 ++ length_bytes 8 bits [])))
          hash).1
unfolding sha_224_256_remainder
remainder_lem chunk rest hash n bits e h k =
    let tail = length_bytes 8 bits [] in
    let l = length-length_bytes 8 bits [] in
    elim (Bool-cases (leb 56 n)) [
      | inl t ↦
          let m : 56 ≤ n = ground arith in
          rw e rw (sha_224_256_remainder, t) rw⁻¹ h
            (long_rest rest hash tail (omega arith) (omega arith) (omega arith))
      | inr t ↦
          let m : n < 56 = ground arith in
          rw e rw (sha_224_256_remainder, t) rw⁻¹ h
            (short_rest rest hash tail (omega arith) (omega arith))
    ]

-- A context that has taken in a message of less than 2 ^ 61 bytes is sealed with the hash of the
-- padded message.
seal-hash :
    (sha : Sha) (msg : List ℕ)
    → Represents sha msg
    → length msg < 2 ^ 61
    → (seal sha).hash ≡ (absorb (msg ++ padding (length msg)) (initial sha.kind)).1
unfolding seal
seal-hash sha msg r small =
    let init = initial sha.kind in
    let n = length msg % 64 in
    let offset : sha.len % 64 ≡ n = ap (λ k. k % 64) r.counted in
    let bits : sha.len * 8 % 2 ^ 64 ≡ length msg * 8 = omega (arith, r.counted) in
    let k = length-absorb (length msg) msg init (omega arith) in
    let u = r.unsealed in
    let whole = absorb-append (length msg) msg (padding (length msg)) init (omega arith) in
    let e =
      remainder_lem sha.buffer (absorb msg init).0 sha.hash n (length msg * 8) r.held k
        (omega arith) in
    (rw (seal, u) rw offset rw bits e)
    ∙ ap (λ x. (absorb ((absorb msg init).0 ++ padding (length msg)) x).1) r.hashed
    ∙ ap (λ (x : List ℕ × List ℕ). x.1) (sym whole)

add_bytes_kind : (sha : Sha) (src : List ℕ) → (add_bytes sha src).kind ≡ sha.kind
unfolding add_bytes add_chunks
add_bytes_kind sha src = elim (Bool-cases (sha.len % 64 == 0)) [
  | inl t ↦ rw (add_bytes, t) refl
  | inr t ↦ elim (Bool-cases (sha.len % 64 + min (64 - sha.len % 64) (length src) == 64)) [
    | inl u ↦ rw (add_bytes, t, u) refl
    | inr u ↦ rw (add_bytes, t, u) refl
  ]
]

seal_kind : (sha : Sha) → (seal sha).kind ≡ sha.kind
unfolding seal
seal_kind sha = elim (Bool-cases sha.sealed) [
  | inl t ↦ rw (seal, t) refl
  | inr t ↦ rw (seal, t) refl
]

add_all-Represents :
    (sha : Sha) (msg : List ℕ) (pieces : List (List ℕ))
    → Represents sha msg
    → IsAligned (length msg) pieces
    → length msg + length (concat pieces) < 2 ^ 64
    → Represents (add_all sha pieces) (msg ++ concat pieces)
      × ((add_all sha pieces).kind ≡ sha.kind)
add_all-Represents sha msg [] r al fits = ((rw (append-nil msg) r), refl)
add_all-Represents sha msg (p ∷ pieces) r (al, als) fits =
    let l = length-append p (concat pieces) in
    let m = length-append msg p in
    let r' = add_bytes-Represents sha msg p r (omega arith) al in
    let als' : IsAligned (length (msg ++ p)) pieces = rw m als in
    let (q, k) = add_all-Represents (add_bytes sha p) (msg ++ p) pieces r' als' (omega arith) in
    let e = append_assoc msg p (concat pieces) in ((rw e at q), k ∙ add_bytes_kind sha p)

-- Let a message of less than 2 ^ 61 bytes come in pieces, each of which starts at a multiple of 64
-- bytes or does not go beyond the next one. Then the string is the digest of the whole message,
-- padded as RFC 6234 says.
pub get_sha-sha_digest :
    (t : ShaType) (pieces : List (List ℕ))
    → IsAligned 0 pieces
    → length (concat pieces) < 2 ^ 61
    → (get_sha (add_all (start_sha t) pieces)).1 ≡ sha_digest t (concat pieces)
unfolding get_sha start_sha
get_sha-sha_digest t pieces al small =
    let (r, k) =
      add_all-Represents (start_sha t) [] pieces (start_sha-Represents t) al (omega arith) in
    let sha = add_all (start_sha t) pieces in
    let h = seal-hash sha (concat pieces) r small in
    let s = seal_kind sha ∙ k in
    let last : ShaType → List ℕ =
      λ x. (absorb (concat pieces ++ padding (length (concat pieces))) (initial x)).1 in
    ap (λ x. hash_string (take (words_of x) (seal sha).hash)) s
    ∙ ap (λ x. hash_string (take (words_of t) x)) (h ∙ ap last k)
