-- ===== src/Sha2/Stream.antt =====
-- lib/chibi/crypto/sha2.c: what a context stands for, data that is added, and the digest.
use chibi_scheme.Prelude.{
  ℕ, zero, suc, ◌+◌, ◌%◌, ◌^◌, ◌≤◌, ◌<◌, ◌≡◌, refl, sym, ap, ◌∙◌, true, false, List, [], ◌∷◌, ◌++◌,
  ◌==◌, leb, if◌then◌else◌, length, take, drop, arith, Bool-cases, inl, inr, length-append,
  length-replicate,
}
use chibi_scheme.Sha2.{
  ShaType, Sha, initial, start_sha, put_bytes, chunk_loop, add_chunks, add_bytes,
}
use chibi_scheme.Sha2.Blocks.{absorb, absorb_short, absorb-append, length-absorb}

-- The context has taken in the message.
pub record Represents (sha : Sha) (msg : List ℕ) : Type 0 where
  pub unsealed : sha.sealed ≡ false
  pub counted : sha.len ≡ length msg
  pub hashed : sha.hash ≡ (absorb msg (initial sha.kind)).1
  pub held : take (length msg % 64) sha.buffer ≡ (absorb msg (initial sha.kind)).0
  pub room : length sha.buffer ≡ 128

pub length-put_bytes :
    (offset : ℕ) (bytes buffer : List ℕ)
    → offset + length bytes ≤ length buffer
    → length (put_bytes offset bytes buffer) ≡ length buffer
unfolding put_bytes
length-put_bytes zero [] buffer h = refl
length-put_bytes zero (b ∷ bytes) [] h = absurd (omega arith)
length-put_bytes zero (b ∷ bytes) (x ∷ buffer) h =
    ap suc (length-put_bytes zero bytes buffer (omega arith))
length-put_bytes (suc offset) bytes [] h = absurd (omega arith)
length-put_bytes (suc offset) bytes (x ∷ buffer) h =
    ap suc (length-put_bytes offset bytes buffer (omega arith))

pub take-put_bytes :
    (n offset : ℕ) (bytes buffer : List ℕ)
    → n ≡ offset + length bytes
    → n ≤ length buffer
    → take n (put_bytes offset bytes buffer) ≡ take offset buffer ++ bytes
unfolding put_bytes
take-put_bytes zero zero [] buffer e h = refl
take-put_bytes zero zero (b ∷ bytes) buffer e h = absurd (omega arith)
take-put_bytes zero (suc offset) bytes buffer e h = absurd (omega arith)
take-put_bytes (suc n) zero [] buffer e h = absurd (omega arith)
take-put_bytes (suc n) zero (b ∷ bytes) [] e h = absurd (omega arith)
take-put_bytes (suc n) zero (b ∷ bytes) (x ∷ buffer) e h =
    ap (λ r. b ∷ r) (take-put_bytes n zero bytes buffer (omega arith) (omega arith))
take-put_bytes (suc n) (suc offset) bytes [] e h = absurd (omega arith)
take-put_bytes (suc n) (suc offset) bytes (x ∷ buffer) e h =
    ap (λ r. x ∷ r) (take-put_bytes n offset bytes buffer (omega arith) (omega arith))

-- Bytes written from n on leave the first n.
pub take-put_bytes_above :
    (n : ℕ) (bytes buffer : List ℕ) → take n (put_bytes n bytes buffer) ≡ take n buffer
unfolding put_bytes
take-put_bytes_above zero bytes buffer = refl
take-put_bytes_above (suc n) bytes [] = refl
take-put_bytes_above (suc n) bytes (x ∷ buffer) =
    ap (λ r. x ∷ r) (take-put_bytes_above n bytes buffer)

pub take_self : (n : ℕ) (xs : List ℕ) → length xs ≤ n → take n xs ≡ xs
take_self zero [] h = refl
take_self zero (x ∷ xs) h = absurd (omega arith)
take_self (suc n) [] h = refl
take_self (suc n) (x ∷ xs) h = ap (λ r. x ∷ r) (take_self n xs (omega arith))

pub drop_self : (n : ℕ) (xs : List ℕ) → length xs ≤ n → drop n xs ≡ []
drop_self zero [] h = refl
drop_self zero (x ∷ xs) h = absurd (omega arith)
drop_self (suc n) [] h = refl
drop_self (suc n) (x ∷ xs) h = drop_self n xs (omega arith)

pub length-zero : (xs : List ℕ) → length xs ≡ 0 → xs ≡ []
length-zero [] h = refl
length-zero (x ∷ xs) h = absurd (omega arith)

pub start_sha-Represents : (t : ShaType) → Represents (start_sha t) []
unfolding start_sha chunk_loop
start_sha-Represents t = record {
  unsealed = refl;
  counted = refl;
  hashed = refl;
  held = refl;
  room = length-replicate {A = ℕ} 128 0;
}

-- The loop over chunks with its guard
guarded :
    (src hash : List ℕ)
    → (if leb 64 (length src) then chunk_loop (length src) src hash else (src, hash))
      ≡ absorb src hash
guarded src hash = elim (Bool-cases (leb 64 (length src))) [
  | inl t ↦ rw t refl
  | inr t ↦ rw t (sym (absorb_short src hash (ground arith)))
]

pub add_bytes_whole :
    (sha : Sha) (msg src : List ℕ)
    → Represents sha msg
    → length msg + length src < 2 ^ 64
    → length msg % 64 ≡ 0
    → Represents (add_bytes sha src) (msg ++ src)
unfolding add_bytes add_chunks
add_bytes_whole sha msg src r fits aligned =
    let init = initial sha.kind in
    let t : (sha.len % 64 == 0) ≡ true = ground (arith, r.counted) in
    let l = length-append msg src in
    let none_left = length-absorb (length msg) msg init (omega arith) in
    let e : (absorb msg init).0 ≡ [] = length-zero (absorb msg init).0 (omega arith) in
    let taken : absorb (msg ++ src) init ≡ absorb src sha.hash =
      absorb-append (length msg) msg src init (omega arith)
      ∙ ap (λ x. absorb (x ++ src) (absorb msg init).1) e
      ∙ ap (λ x. absorb src x) (sym r.hashed) in
    let g = guarded src sha.hash in
    let m = length-absorb (length src) src sha.hash (omega arith) in
    let small : length (absorb src sha.hash).0 ≤ 63 = omega arith in
    let room = r.room in
    let counted : (sha.len + length src) % 2 ^ 64 ≡ length (msg ++ src) =
      omega (arith, r.counted) in
    rw (add_bytes, t) rw g
      (record {
        unsealed = r.unsealed;
        counted = counted;
        hashed = ap (λ (x : List ℕ × List ℕ). x.1) (sym taken);
        held =
            take-put_bytes (length (msg ++ src) % 64) 0 (absorb src sha.hash).0 sha.buffer
              (omega arith) (omega arith)
            ∙ ap (λ (x : List ℕ × List ℕ). x.0) (sym taken);
        room = length-put_bytes 0 (absorb src sha.hash).0 sha.buffer (omega arith) ∙ room;
      })
