-- ===== src/Tests/HashTable.antt =====
-- lib/srfi/69/hash.c with fixnums for keys and for values.
use chibi_scheme.Prelude.{
  ℕ, map, ◌<◌, List, ◌+◌, ◌%◌, ◌≡◌, refl, true, false, none, some, [], ◌∷◌, ◌==◌, arith,
}
use native.Mathlib.Nat.{mod-lt}
use chibi_scheme.HashTable.{
  Objects, general, by_equal, Table, scan_bucket, get_bucket, same_key, regrow, hash_table_cell,
  hash_table_delete,
}
use chibi_scheme.HashTable.Buckets.{IsEquality, or_else, scan}
use chibi_scheme.HashTable.Growth.{entries, lookup}
use chibi_scheme.HashTable.Cells.{
  IsLawful, IsValid, contents, Updates, regrow_lem, hash_table_cell_lem,
}
use chibi_scheme.HashTable.Strings.{
  tolower, string_hash, string_ci_hash, string_ci_hash-string_hash,
}
use chibi_scheme.HashTable.Deletion.{held, hash_table_delete_lem}

abbrev fixnums : Objects ℕ
fixnums = record {
  bits = λ k. k;
  is_pointer = λ k. false;
  is_symbol = λ k. false;
  is_fixnum = λ k. true;
  equalp = λ a b. a == b;
  hash = λ k len. k % len;
}

-- Two buckets, with the keys 4 and 7.
abbrev small : Table ℕ ℕ
small = record {
  buckets = ((4, 40) ∷ []) ∷ ((7, 70) ∷ []) ∷ [];
  size = 2;
  hash_fn = general;
  eq_fn = by_equal;
}

fixnums-IsEquality : IsEquality (same_key fixnums by_equal)
unfolding same_key
fixnums-IsEquality = record {
  self = λ a. ground arith;
  symm = λ a b h. ground arith;
  trans = λ a b c h k. ground arith;
}

agrees :
    (len a b : ℕ)
    → same_key fixnums by_equal a b ≡ true
    → get_bucket fixnums general len a ≡ get_bucket fixnums general len b
unfolding same_key get_bucket
agrees len a b h = let e : a ≡ b = ground arith in rw e

fixnums-IsLawful : IsLawful fixnums general by_equal
fixnums-IsLawful = record {
  equality = fixnums-IsEquality;
  agree = agrees;
  bounded = λ k len pos. mod-lt k pos;
}

small-IsValid : IsValid fixnums small
unfolding entries get_bucket same_key
small-IsValid = record {
  nonempty = omega arith;
  placed = ((refl, tt), (tt, tt), ((refl, tt), (tt, tt), tt));
  counted = refl;
}

-- A new key in a crowded table: it grows, and the old keys are still there.
grows : contents fixnums (hash_table_cell fixnums true small 9 (some 90)).0 7 ≡ some (7, 70)
unfolding hash_table_cell lookup scan scan_bucket get_bucket same_key
grows = refl

hash_table_cell_lem_example :
    let (t', c) = hash_table_cell fixnums true small 9 (some 90) in
    (c ≡ or_else (contents fixnums small 9) (some (9, 90)))
    × Updates fixnums small t' 9 c
    × IsValid fixnums t'
hash_table_cell_lem_example =
    hash_table_cell_lem fixnums true small fixnums-IsLawful small-IsValid 9 90

hash_table_delete_lem_example :
    let t' = hash_table_delete fixnums small 7 in
    Updates fixnums small t' 7 none
    × IsValid fixnums t'
    × (2 ≡ t'.size + held (contents fixnums small 7))
hash_table_delete_lem_example = hash_table_delete_lem fixnums small fixnums-IsLawful small-IsValid 7

regrow_lem_example :
    ((k : ℕ) → contents fixnums (regrow fixnums true small) k ≡ contents fixnums small k)
    × ((regrow fixnums true small).size ≡ 2)
    × IsValid fixnums (regrow fixnums true small)
regrow_lem_example = regrow_lem fixnums true small fixnums-IsLawful small-IsValid

-- The strings AbZ and a with bound 1000.
abbrev mixed : List ℕ
mixed = 65 ∷ 98 ∷ 90 ∷ []

fnv : string_hash (some (97 ∷ [])) (some 1000000) ≡ some 142654
unfolding string_hash
fnv = refl

string_ci_hash-string_hash_example :
    (string_ci_hash (some mixed) (some 1000) ≡ string_hash (some (map tolower mixed)) (some 1000))
    × ((h : ℕ) × (string_ci_hash (some mixed) (some 1000) ≡ some h) × (h < 1000))
string_ci_hash-string_hash_example =
    string_ci_hash-string_hash mixed 1000 (omega arith, (omega arith, (omega arith, tt)))
      (omega arith)
