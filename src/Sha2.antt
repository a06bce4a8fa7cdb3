-- ===== src/Sha2.antt =====
-- lib/chibi/crypto/sha2.c: SHA-224 and SHA-256 on data that comes in pieces. Words are numbers below
-- 2 ^ 32, bytes below 2 ^ 8; a chunk, the buffer and the data are lists of bytes.
pub mod Round
pub mod Blocks
pub mod Stream
pub mod Pieces
pub mod Digest
use Prim.Native.Nat.{min}
use chibi_scheme.Prelude.{
  ℕ, zero, suc, ◌+◌, ◌-◌, ◌*◌, ◌/◌, ◌%◌, ◌^◌, Bool, true, false, Option, none, some, List, [], ◌∷◌,
  ◌++◌, ◌==◌, ltb, leb, if◌then◌else◌, length, take, drop, replicate,
}
use chibi_scheme.Sha2.Round.{h224, h256, sha_224_256_round}

pub data ShaType : Type 0 where
  sha_224 : ShaType
  sha_256 : ShaType

-- struct sha_context
pub record Sha : Type 0 where
  pub kind : ShaType
  pub sealed : Bool
  pub len : ℕ
  pub hash : List ℕ
  pub buffer : List ℕ

-- for (i = 63; i >= 56; i--): the low byte of the length goes to the front of those written.
unfoldable pub length_bytes : ℕ → ℕ → List ℕ → List ℕ
length_bytes zero len_bits bytes = bytes
length_bytes (suc left) len_bits bytes = length_bytes left (len_bits / 256) (len_bits % 256 ∷ bytes)

unfoldable pub sha_224_256_remainder : List ℕ → ℕ → ℕ → List ℕ → List ℕ
unfolding length_bytes
sha_224_256_remainder chunk offset len_bits hash =
    let padded = take offset chunk ++ (0x80 ∷ replicate (64 - offset - 1) 0) in
    if leb 56 offset
    then sha_224_256_round (replicate 56 0 ++ length_bytes 8 len_bits [])
        (sha_224_256_round padded hash)
    else sha_224_256_round (take 56 padded ++ length_bytes 8 len_bits []) hash

unfoldable pub initial : ShaType → List ℕ
initial sha_224 = h224
initial sha_256 = h256

unfoldable pub start_sha : ShaType → Sha
unfolding initial
start_sha t = record {
  kind = t;
  sealed = false;
  len = 0;
  hash = initial t;
  buffer = replicate 128 0;
}

-- The bytes are written over those from `offset` on.
unfoldable pub put_bytes : ℕ → List ℕ → List ℕ → List ℕ
put_bytes zero [] buffer = buffer
put_bytes zero (b ∷ bytes) [] = []
put_bytes zero (b ∷ bytes) (x ∷ buffer) = b ∷ put_bytes zero bytes buffer
put_bytes (suc offset) bytes [] = []
put_bytes (suc offset) bytes (x ∷ buffer) = x ∷ put_bytes offset bytes buffer

-- for ( ; src_offset <= (len - 64); src_offset += 64), on what is left of the data, with fuel
unfoldable pub chunk_loop : ℕ → List ℕ → List ℕ → List ℕ × List ℕ
chunk_loop zero rest hash = (rest, hash)
chunk_loop (suc fuel) rest hash =
    let more = chunk_loop fuel (drop 64 rest) (sha_224_256_round (take 64 rest) hash) in
    if leb 64 (length rest) then more else (rest, hash)

-- From the whole chunks on, with buf_offset as it is then
unfoldable pub add_chunks : ℕ → ℕ → List ℕ → Sha → Sha
unfolding chunk_loop put_bytes
add_chunks buf_offset len rest sha =
    let left = if leb 64 len then chunk_loop len rest sha.hash else (rest, sha.hash) in
    record sha { hash = left.1; buffer = put_bytes buf_offset left.0 sha.buffer }

unfoldable pub add_bytes : Sha → List ℕ → Sha
unfolding add_chunks put_bytes
add_bytes sha src =
    let len = length src in
    let buf_offset = sha.len % 64 in
    let filled = min (64 - buf_offset) len in
    let buffer = put_bytes buf_offset (take filled src) sha.buffer in
    let len' = (sha.len + len) % 2 ^ 64 in
    if buf_offset == 0
    then add_chunks 0 len src (record sha { len = len' })
    else (if buf_offset + filled == 64
        then add_chunks 64 len (drop filled src) (record sha {
          len = len';
          hash = sha_224_256_round (take 64 buffer) sha.hash;
          buffer = buffer;
        })
        else record sha { len = len'; buffer = buffer })

-- `none` is the exception for a sealed context.
unfoldable pub add_sha_data : Sha → List ℕ → Option Sha
unfolding add_bytes
add_sha_data sha src = if sha.sealed then none else some (add_bytes sha src)

unfoldable pub seal : Sha → Sha
unfolding sha_224_256_remainder
seal sha = if sha.sealed then sha else record sha {
  sealed = true;
  hash = sha_224_256_remainder sha.buffer (sha.len % 64) (sha.len * 8 % 2 ^ 64) sha.hash;
}

-- The nibbles of a word, the highest first
unfoldable pub hex_word : ℕ → ℕ → List ℕ → List ℕ
hex_word zero next digits = digits
hex_word (suc left) next digits =
    hex_word left (next / 16)
      ((if ltb (next % 16) 10 then 48 + next % 16 else 87 + next % 16) ∷ digits)

unfoldable pub hash_string : List ℕ → List ℕ
unfolding hex_word
hash_string [] = []
hash_string (next ∷ hash) = hex_word 8 next [] ++ hash_string hash

unfoldable pub words_of : ShaType → ℕ
words_of sha_224 = 7
words_of sha_256 = 8

-- The context after it, and the string
unfoldable pub get_sha : Sha → Sha × List ℕ
unfolding seal hash_string words_of
get_sha sha = let done = seal sha in (done, hash_string (take (words_of done.kind) done.hash))
