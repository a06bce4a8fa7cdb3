-- ===== src/Tests/Sha2.antt =====
-- Runs of sha2.c, and instances of the results about it.
use chibi_scheme.Prelude.{
  ℕ, ◌-◌, ◌%◌, ◌≡◌, refl, inl, inr, List, [], ◌∷◌, ◌++◌, length, take, replicate, arith,
  length-replicate,
}
use chibi_scheme.Sha2.Round.{sha_224_256_round}
use chibi_scheme.Sha2.{sha_256, Sha, start_sha, add_bytes, get_sha}
use chibi_scheme.Sha2.Pieces.{IsAligned, concat, add_all, add_bytes_stale}
use chibi_scheme.Sha2.Digest.{sha_digest, get_sha-sha_digest}

-- "abc" in two pieces
abbrev pieces : List (List ℕ)
pieces = (97 ∷ 98 ∷ []) ∷ (99 ∷ []) ∷ []

pieces-IsAligned : IsAligned 0 pieces
pieces-IsAligned = (inl refl, (inr (omega arith), tt))

get_sha-sha_digest_example :
    (get_sha (add_all (start_sha sha_256) pieces)).1 ≡ sha_digest sha_256 (concat pieces)
get_sha-sha_digest_example = get_sha-sha_digest sha_256 pieces pieces-IsAligned (omega arith)

-- A context with 60 bytes, to which ten are added
abbrev sixty : Sha
sixty = record (start_sha sha_256) { len = 60 }

sixty_room : length sixty.buffer ≡ 128
unfolding start_sha
sixty_room = length-replicate {A = ℕ} 128 0

add_bytes_stale_example :
    take 64 (add_bytes sixty (replicate 10 7)).buffer
    ≡ take (60 % 64) sixty.buffer ++ take (64 - 60 % 64) (replicate 10 7)
add_bytes_stale_example =
    add_bytes_stale sixty (replicate 10 7) sixty_room (omega arith) (omega arith)

abc_runs :
    take 8 (get_sha (add_all (start_sha sha_256) pieces)).1
    ≡ 98 ∷ 97 ∷ 55 ∷ 56 ∷ 49 ∷ 54 ∷ 98 ∷ 102 ∷ []
unfolding get_sha start_sha add_bytes sha_224_256_round
abc_runs = refl
