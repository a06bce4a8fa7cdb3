-- ===== src/HashTable/Strings.antt =====
-- `string-hash` and `string-ci-hash` of lib/srfi/69/hash.c: 64-bit FNV. A string is the list of its
-- bytes, of which a zero ends it.
use Prim.Native.Nat.{bit_xor}
use chibi_scheme.Prelude.{
  ℕ, ◌+◌, ◌-◌, ◌*◌, ◌%◌, ◌<◌, ◌≡◌, refl, ◌&&◌, Option, none, some, List, [], ◌∷◌, ◌==◌, ltb, leb,
  if◌then◌else◌, map, All, word, Bool-cases, inl, inr, arith, ap,
}
use native.Mathlib.Nat.{mod-lt}

abbrev fnv_prime : ℕ
fnv_prime = 16777619

abbrev fnv_offset_basis : ℕ
fnv_offset_basis = 2166136261

-- A char is signed: a byte from 128 on is negative, with its sign extended to the 64 bits.
extend : ℕ → ℕ
extend c = if ltb c 128 then c else word - 256 + c

unfoldable pub tolower : ℕ → ℕ
tolower c = if leb 65 c && leb c 90 then c + 32 else c

-- acc *= FNV_PRIME; acc ^= c
mix : ℕ → ℕ → ℕ
mix acc c = bit_xor (acc * fnv_prime % word) c

hash_loop : ℕ → List ℕ → ℕ
unfolding mix extend
hash_loop acc [] = acc
hash_loop acc (c ∷ str) =
    let rest = hash_loop (mix acc (extend c)) str in if c == 0 then acc else rest

ci_loop : ℕ → List ℕ → ℕ
unfolding mix
ci_loop acc [] = acc
ci_loop acc (c ∷ str) = let rest = ci_loop (mix acc (tolower c)) str in if c == 0 then acc else rest

-- An argument that is a string or not, a bound that is a fixnum, from 0 on, or not; `none` is a type
-- error. A bound of 0 divides by zero in C.
unfoldable pub string_hash : Option (List ℕ) → Option ℕ → Option ℕ
unfolding hash_loop
string_hash none bound = none
string_hash (some str) none = none
string_hash (some str) (some bound) = some (hash_loop fnv_offset_basis str % bound)

unfoldable pub string_ci_hash : Option (List ℕ) → Option ℕ → Option ℕ
unfolding ci_loop
string_ci_hash none bound = none
string_ci_hash (some str) none = none
string_ci_hash (some str) (some bound) = some (ci_loop fnv_offset_basis str % bound)

-- Bytes that are ASCII, and pairs of strings that are equal but for case.
abbrev pub IsAscii : List ℕ → Type 0
IsAscii str = All (λ c. c < 128) str

lower_lem : (c : ℕ) → c < 128 → ((tolower c == 0) ≡ (c == 0)) × (extend (tolower c) ≡ tolower c)
unfolding tolower extend
lower_lem c h = (ground arith, ground arith)

ci_loop_lem :
    (str : List ℕ) (acc : ℕ) → IsAscii str → ci_loop acc str ≡ hash_loop acc (map tolower str)
unfolding ci_loop hash_loop
ci_loop_lem [] acc h = refl
ci_loop_lem (c ∷ str) acc (h, a) =
    let (z, e) = lower_lem c h in
    rw (hash_loop, z, e)
      (elim (Bool-cases (c == 0)) [
        | inl q ↦ rw (ci_loop, q) refl
        | inr q ↦ rw (ci_loop, q) (ci_loop_lem str (mix acc (tolower c)) a)
      ])

-- On ASCII strings, `string-ci-hash` is `string-hash` of the string in lower case: two strings that
-- are equal but for case hash alike. The hash is below the bound.
pub string_ci_hash-string_hash :
    (str : List ℕ) (bound : ℕ)
    → IsAscii str
    → 0 < bound
    → (string_ci_hash (some str) (some bound) ≡ string_hash (some (map tolower str)) (some bound))
      × ((h : ℕ) × (string_ci_hash (some str) (some bound) ≡ some h) × (h < bound))
unfolding string_hash string_ci_hash
string_ci_hash-string_hash str bound a pos =
    (ap (λ n. some (n % bound)) (ci_loop_lem str fnv_offset_basis a), (_, refl, mod-lt _ pos))
