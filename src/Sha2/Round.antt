-- ===== src/Sha2/Round.antt =====
-- lib/chibi/crypto/sha2.c: one round on a chunk of 64 bytes, `sha_224_256_round`.
use Prim.Native.Nat.{bit_and, bit_or, bit_xor}
use chibi_scheme.Prelude.{
  ℕ, zero, suc, ◌+◌, ◌-◌, ◌*◌, ◌/◌, ◌%◌, ◌^◌, List, [], ◌∷◌, ◌++◌, length, drop, get_or,
}

abbrev pub h224 : List ℕ
h224 =
    0xc1059ed8 ∷ 0x367cd507 ∷ 0x3070dd17 ∷ 0xf70e5939 ∷ 0xffc00b31 ∷ 0x68581511 ∷ 0x64f98fa7
    ∷ 0xbefa4fa4 ∷ []

abbrev pub h256 : List ℕ
h256 =
    0x6a09e667 ∷ 0xbb67ae85 ∷ 0x3c6ef372 ∷ 0xa54ff53a ∷ 0x510e527f ∷ 0x9b05688c ∷ 0x1f83d9ab
    ∷ 0x5be0cd19 ∷ []

abbrev pub k256 : List ℕ
k256 =
    0x428a2f98 ∷ 0x71374491 ∷ 0xb5c0fbcf ∷ 0xe9b5dba5 ∷ 0x3956c25b ∷ 0x59f111f1 ∷ 0x923f82a4
    ∷ 0xab1c5ed5 ∷ 0xd807aa98 ∷ 0x12835b01 ∷ 0x243185be ∷ 0x550c7dc3 ∷ 0x72be5d74 ∷ 0x80deb1fe
    ∷ 0x9bdc06a7 ∷ 0xc19bf174 ∷ 0xe49b69c1 ∷ 0xefbe4786 ∷ 0x0fc19dc6 ∷ 0x240ca1cc ∷ 0x2de92c6f
    ∷ 0x4a7484aa ∷ 0x5cb0a9dc ∷ 0x76f988da ∷ 0x983e5152 ∷ 0xa831c66d ∷ 0xb00327c8 ∷ 0xbf597fc7
    ∷ 0xc6e00bf3 ∷ 0xd5a79147 ∷ 0x06ca6351 ∷ 0x14292967 ∷ 0x27b70a85 ∷ 0x2e1b2138 ∷ 0x4d2c6dfc
    ∷ 0x53380d13 ∷ 0x650a7354 ∷ 0x766a0abb ∷ 0x81c2c92e ∷ 0x92722c85 ∷ 0xa2bfe8a1 ∷ 0xa81a664b
    ∷ 0xc24b8b70 ∷ 0xc76c51a3 ∷ 0xd192e819 ∷ 0xd6990624 ∷ 0xf40e3585 ∷ 0x106aa070 ∷ 0x19a4c116
    ∷ 0x1e376c08 ∷ 0x2748774c ∷ 0x34b0bcb5 ∷ 0x391c0cb3 ∷ 0x4ed8aa4a ∷ 0x5b9cca4f ∷ 0x682e6ff3
    ∷ 0x748f82ee ∷ 0x78a5636f ∷ 0x84c87814 ∷ 0x8cc70208 ∷ 0x90befffa ∷ 0xa4506ceb ∷ 0xbef9a3f7
    ∷ 0xc67178f2 ∷ []

abbrev pub word32 : ℕ
word32 = 4294967296

unfoldable pub ror32 : ℕ → ℕ → ℕ
ror32 v a = bit_or (v / 2 ^ a) (v * 2 ^ (32 - a) % word32)

unfoldable pub xor3 : ℕ → ℕ → ℕ → ℕ
xor3 x y z = bit_xor (bit_xor x y) z

-- w[0] to w[15], four bytes each
unfoldable pub first_words : ℕ → List ℕ → List ℕ
first_words zero chunk = []
first_words (suc n) chunk =
    bit_or (bit_or (get_or chunk 0 0 * 2 ^ 24) (get_or chunk 1 0 * 2 ^ 16))
      (bit_or (get_or chunk 2 0 * 2 ^ 8) (get_or chunk 3 0))
    ∷ first_words n (drop 4 chunk)

-- w[i] for the next i, which is the number of words so far
unfoldable pub next_word : List ℕ → ℕ
unfolding ror32 xor3
next_word w =
    let i = length w in
    let w15 = get_or w (i - 15) 0 in
    let w2 = get_or w (i - 2) 0 in
    (get_or w (i - 16) 0
      + xor3 (ror32 w15 7) (ror32 w15 18) (w15 / 2 ^ 3)
      + get_or w (i - 7) 0
      + xor3 (ror32 w2 17) (ror32 w2 19) (w2 / 2 ^ 10))
    % word32

unfoldable pub schedule : ℕ → List ℕ → List ℕ
unfolding next_word
schedule zero w = w
schedule (suc left) w = schedule left (w ++ (next_word w ∷ []))

-- a to h
pub record Working : Type 0 where
  pub a : ℕ
  pub b : ℕ
  pub c : ℕ
  pub d : ℕ
  pub e : ℕ
  pub f : ℕ
  pub g : ℕ
  pub h : ℕ

-- ~v & w
unfoldable pub and_not : ℕ → ℕ → ℕ
and_not v w = bit_and (word32 - 1 - v) w

unfoldable pub main_step : ℕ → ℕ → Working → Working
unfolding ror32 xor3 and_not
main_step k w v =
    let tmp1 =
      (v.h
        + xor3 (ror32 v.e 6) (ror32 v.e 11) (ror32 v.e 25)
        + bit_xor (bit_and v.e v.f) (and_not v.e v.g)
        + k
        + w)
      % word32 in
    let tmp2 =
      (xor3 (ror32 v.a 2) (ror32 v.a 13) (ror32 v.a 22)
        + xor3 (bit_and v.a v.b) (bit_and v.a v.c) (bit_and v.b v.c))
      % word32 in
    record {
      a = (tmp1 + tmp2) % word32;
      b = v.a;
      c = v.b;
      d = v.c;
      e = (v.d + tmp1) % word32;
      f = v.e;
      g = v.f;
      h = v.g;
    }

unfoldable pub main_loop : List ℕ → List ℕ → Working → Working
unfolding main_step
main_loop [] ws v = v
main_loop (k ∷ ks) [] v = v
main_loop (k ∷ ks) (w ∷ ws) v = main_loop ks ws (main_step k w v)

-- hash[0] += a, and so on
unfoldable pub add_words : List ℕ → Working → List ℕ
add_words hash v =
    (get_or hash 0 0 + v.a) % word32
    ∷ (get_or hash 1 0 + v.b) % word32
    ∷ (get_or hash 2 0 + v.c) % word32
    ∷ (get_or hash 3 0 + v.d) % word32
    ∷ (get_or hash 4 0 + v.e) % word32
    ∷ (get_or hash 5 0 + v.f) % word32
    ∷ (get_or hash 6 0 + v.g) % word32
    ∷ (get_or hash 7 0 + v.h) % word32
    ∷ []

unfoldable pub working : List ℕ → Working
working hash = record {
  a = get_or hash 0 0;
  b = get_or hash 1 0;
  c = get_or hash 2 0;
  d = get_or hash 3 0;
  e = get_or hash 4 0;
  f = get_or hash 5 0;
  g = get_or hash 6 0;
  h = get_or hash 7 0;
}

unfoldable pub sha_224_256_round : List ℕ → List ℕ → List ℕ
unfolding first_words schedule main_loop add_words working
sha_224_256_round chunk hash =
    add_words hash (main_loop k256 (schedule 48 (first_words 16 chunk)) (working hash))
