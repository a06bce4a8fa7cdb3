-- ===== src/Sha2/Blocks.antt =====
-- lib/chibi/crypto/sha2.c: the loop over whole chunks, and what is left after it.
use chibi_scheme.Prelude.{
  ℕ, zero, suc, ◌%◌, ◌≤◌, ◌<◌, ◌≡◌, refl, sym, ap, ◌∙◌, true, false, List, [], ◌∷◌, ◌++◌, leb,
  length, take, drop, arith, Bool-cases, inl, inr, length-append, length-drop,
}
use chibi_scheme.Sha2.Round.{sha_224_256_round}
use chibi_scheme.Sha2.{chunk_loop}

-- A message taken in chunk by chunk: what is left, and the hash
abbrev pub absorb : List ℕ → List ℕ → List ℕ × List ℕ
absorb msg hash = chunk_loop (length msg) msg hash

pub take-append : (n : ℕ) (xs ys : List ℕ) → n ≤ length xs → take n (xs ++ ys) ≡ take n xs
take-append zero xs ys h = refl
take-append (suc n) [] ys h = absurd (omega arith)
take-append (suc n) (x ∷ xs) ys h = ap (λ r. x ∷ r) (take-append n xs ys (omega arith))

drop-append : (n : ℕ) (xs ys : List ℕ) → n ≤ length xs → drop n (xs ++ ys) ≡ drop n xs ++ ys
drop-append zero xs ys h = refl
drop-append (suc n) [] ys h = absurd (omega arith)
drop-append (suc n) (x ∷ xs) ys h = drop-append n xs ys (omega arith)

pub take-length : (xs ys : List ℕ) → take (length xs) (xs ++ ys) ≡ xs
take-length [] ys = refl
take-length (x ∷ xs) ys = ap (λ r. x ∷ r) (take-length xs ys)

drop-length : (xs : List ℕ) → drop (length xs) xs ≡ []
drop-length [] = refl
drop-length (x ∷ xs) = drop-length xs

take_whole : (xs : List ℕ) → take (length xs) xs ≡ xs
take_whole [] = refl
take_whole (x ∷ xs) = ap (λ r. x ∷ r) (take_whole xs)

-- More fuel than bytes changes nothing.
pub chunk_loop_fuel :
    (n m : ℕ) (msg hash : List ℕ)
    → length msg ≤ n
    → length msg ≤ m
    → chunk_loop n msg hash ≡ chunk_loop m msg hash
unfolding chunk_loop
chunk_loop_fuel zero zero msg hash h k = refl
chunk_loop_fuel zero (suc m) [] hash h k = refl
chunk_loop_fuel zero (suc m) (x ∷ msg) hash h k = absurd (omega arith)
chunk_loop_fuel (suc n) zero [] hash h k = refl
chunk_loop_fuel (suc n) zero (x ∷ msg) hash h k = absurd (omega arith)
chunk_loop_fuel (suc n) (suc m) msg hash h k = elim (Bool-cases (leb 64 (length msg))) [
  | inl t ↦
      let d = length-drop 64 msg in
      rw (chunk_loop, t)
        (chunk_loop_fuel n m (drop 64 msg) (sha_224_256_round (take 64 msg) hash) (ground arith)
          (ground arith))
  | inr t ↦ rw (chunk_loop, t) refl
]

pub absorb_short : (msg hash : List ℕ) → length msg < 64 → absorb msg hash ≡ (msg, hash)
unfolding chunk_loop
absorb_short [] hash h = refl
absorb_short (x ∷ msg) hash h =
    let t : leb 64 (suc (length msg)) ≡ false = ground arith in rw (chunk_loop, t) refl

absorb_step :
    (msg hash : List ℕ)
    → 64 ≤ length msg
    → absorb msg hash ≡ absorb (drop 64 msg) (sha_224_256_round (take 64 msg) hash)
unfolding chunk_loop
absorb_step [] hash h = absurd (omega arith)
absorb_step (x ∷ msg) hash h =
    let t : leb 64 (suc (length msg)) ≡ true = ground arith in
    let d = length-drop 64 (x ∷ msg) in
    rw (chunk_loop, t)
      (chunk_loop_fuel (length msg) (length (drop 64 (x ∷ msg))) (drop 64 (x ∷ msg))
        (sha_224_256_round (take 64 (x ∷ msg)) hash) (omega arith) (omega arith))

pub absorb_chunk :
    (msg hash : List ℕ) → length msg ≡ 64 → absorb msg hash ≡ ([], sha_224_256_round msg hash)
unfolding chunk_loop
absorb_chunk msg hash h =
    let e : drop 64 msg ≡ [] = ap (λ n. drop n msg) (sym h) ∙ drop-length msg in
    let f : take 64 msg ≡ msg = ap (λ n. take n msg) (sym h) ∙ take_whole msg in
    absorb_step msg hash (omega arith) ∙ (rw e rw f refl)

abbrev absorb_then : List ℕ × List ℕ → List ℕ → List ℕ × List ℕ
absorb_then (rest, hash) more = absorb (rest ++ more) hash

-- The pieces of a message can be taken in one after the other, with what is left in front.
pub absorb-append :
    (fuel : ℕ) (msg more hash : List ℕ)
    → length msg ≤ fuel
    → absorb (msg ++ more) hash ≡ absorb_then (absorb msg hash) more
unfolding chunk_loop
absorb-append zero [] more hash h = refl
absorb-append zero (x ∷ msg) more hash h = absurd (omega arith)
absorb-append (suc fuel) msg more hash h = elim (Bool-cases (leb 64 (length msg))) [
  | inl t ↦
      let k : 64 ≤ length msg = ground arith in
      let d = length-drop 64 msg in
      let l = length-append msg more in
      let e = take-append 64 msg more k in
      let f = drop-append 64 msg more k in
      absorb_step (msg ++ more) hash (omega arith)
      ∙ ap (λ x. absorb x (sha_224_256_round (take 64 (msg ++ more)) hash)) f
      ∙ ap (λ x. absorb (drop 64 msg ++ more) (sha_224_256_round x hash)) e
      ∙ absorb-append fuel (drop 64 msg) more (sha_224_256_round (take 64 msg) hash) (omega arith)
      ∙ ap (λ x. absorb_then x more) (sym (absorb_step msg hash k))
  | inr t ↦ ap (λ x. absorb_then x more) (sym (absorb_short msg hash (ground arith)))
]

-- Less than a chunk is left, and whole chunks are taken.
pub length-absorb :
    (fuel : ℕ) (msg hash : List ℕ)
    → length msg ≤ fuel
    → length (absorb msg hash).0 ≡ length msg % 64
unfolding chunk_loop
length-absorb zero [] hash h = refl
length-absorb zero (x ∷ msg) hash h = absurd (omega arith)
length-absorb (suc fuel) msg hash h = elim (Bool-cases (leb 64 (length msg))) [
  | inl t ↦
      let k : 64 ≤ length msg = ground arith in
      let d = length-drop 64 msg in
      ap (λ (x : List ℕ × List ℕ). length x.0) (absorb_step msg hash k)
      ∙ length-absorb fuel (drop 64 msg) (sha_224_256_round (take 64 msg) hash) (omega arith)
      ∙ omega arith
  | inr t ↦
      ap (λ (x : List ℕ × List ℕ). length x.0) (absorb_short msg hash (ground arith)) ∙ ground arith
]
