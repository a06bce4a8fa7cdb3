-- ===== src/Tests/Sort.antt =====
-- `sort!` of lib/srfi/95/qsort.c on numbers, with 0 for void.
use chibi_scheme.Prelude.{
  get_or, length, ℕ, ◌≡◌, ◌⊎◌, inr, refl, Bool, false, none, List, [], ◌∷◌, ltb, replicate, arith,
}
use chibi_scheme.Sort.{merge_sort, merge_sort_less, vector_nreverse, if_is_less}
use chibi_scheme.Sort.Merge.{IsOrder}
use chibi_scheme.Sort.Fallible.{merge_sort_less-merge_sort}
use chibi_scheme.Sort.Reversal.{vector_nreverse_lem}
use chibi_scheme.Sort.Entry.{
  vector, list, comparison, applies, key_of, returned, sort_x, SortOf, merge_sort-SortOf,
  sort_x-vector, sort_x-list, sort_x-replicate,
}

ltb-IsOrder : IsOrder ltb
ltb-IsOrder = record { asym = λ a b h. ground arith; above = λ a b c h k. ground arith }

abbrev asks : ℕ → ℕ → ℕ ⊎ Bool
asks a b = inr (ltb a b)

answers : (a b : ℕ) → if_is_less 0 none asks a b ≡ inr (ltb a b)
unfolding if_is_less
answers a b = refl

abbrev five : List ℕ
five = 5 ∷ 1 ∷ 4 ∷ 2 ∷ 3 ∷ []

ascending : (merge_sort 0 ltb 5 five five 0 4).0 ≡ 1 ∷ 2 ∷ 3 ∷ 4 ∷ 5 ∷ []
unfolding merge_sort
ascending = refl

backwards : vector_nreverse 0 five ≡ 3 ∷ 2 ∷ 4 ∷ 1 ∷ 5 ∷ []
unfolding vector_nreverse
backwards = refl

merge_sort_less-merge_sort_example :
    merge_sort_less 0 none asks 5 five five 0 4 ≡ (none, merge_sort 0 ltb 5 five five 0 4)
merge_sort_less-merge_sort_example =
    merge_sort_less-merge_sort 0 none asks ltb answers 5 five five 0 4

sort_x-vector_example :
    (ys : List ℕ) × (sort_x {E = ℕ} 0 ltb (comparison false asks) (key_of none) (vector five)
      ≡ (returned (vector ys), vector ys))
    × SortOf 0 ltb ltb-IsOrder five ys
sort_x-vector_example =
    sort_x-vector 0 ltb ltb-IsOrder (comparison false asks) asks 5 (1 ∷ 4 ∷ 2 ∷ 3 ∷ []) (inr refl)

sort_x-list_example :
    (ys : List ℕ) × (sort_x 0 ltb (applies asks) (key_of none) (list five)
      ≡ (returned (list ys), list ys))
    × SortOf 0 ltb ltb-IsOrder five ys
sort_x-list_example = sort_x-list 0 ltb none asks ltb answers ltb-IsOrder 5 (1 ∷ 4 ∷ 2 ∷ 3 ∷ [])

sort_x-replicate_example :
    (ys : List ℕ) × (sort_x 0 ltb (applies asks) (key_of none) (vector (3 ∷ 1 ∷ []))
      ≡ (returned (vector (replicate 2 0)), vector ys))
    × SortOf 0 ltb ltb-IsOrder (3 ∷ 1 ∷ []) ys
sort_x-replicate_example =
    sort_x-replicate 0 ltb none asks ltb answers ltb-IsOrder (3 ∷ 1 ∷ []) (omega arith)
      (omega arith)

merge_sort-SortOf_example :
    SortOf 0 ltb ltb-IsOrder five (merge_sort 0 ltb 5 five (replicate 5 0) 0 4).0
merge_sort-SortOf_example = merge_sort-SortOf 0 ltb ltb-IsOrder five (omega arith)

vector_nreverse_lem_example :
    (length (vector_nreverse 0 five) ≡ 5) × (get_or (vector_nreverse 0 five) 1 0 ≡ get_or five 3 0)
vector_nreverse_lem_example = vector_nreverse_lem 0 five 1 3 (omega arith)
