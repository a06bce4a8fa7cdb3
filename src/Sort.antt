-- ===== src/Sort.antt =====
-- lib/srfi/95/qsort.c: the merge sorts of `sort!`. An array is a list; a read out of bounds is the
-- parameter `d`. The comparison is a parameter: `sexp_object_compare` below zero, or the procedure
-- `less` applied to the keys, which may raise.
pub mod Merge
pub mod Segment
pub mod Puts
pub mod Small
pub mod Sorted
pub mod Fallible
pub mod Entry
pub mod Reversal
use chibi_scheme.Prelude.{
  ℕ, zero, suc, ◌+◌, ◌-◌, ◌/◌, Bool, true, false, not, ◌&&◌, ◌||◌, Option, none, some, ◌⊎◌, inl,
  inr, List, [], ◌∷◌, ltb, if◌then◌else◌, length, get_or, set, replicate,
}

module _ {ℓ} {A : Type ℓ} (d : A) where
  unfoldable pub swap : List A → ℕ → ℕ → List A
  swap vec i j = set (set vec i (get_or vec j d)) j (get_or vec i d)

  -- memcpy of `n` items from `src` to `dest`, both at index `k`
  unfoldable pub memcpy : ℕ → List A → List A → ℕ → List A
  memcpy zero dest src k = dest
  memcpy (suc n) dest src k = memcpy n (set dest k (get_or src k d)) src (suc k)

  module _ (less : A → A → Bool) where
    -- if (compare(vec[i], vec[j]) < 0) swap(tmp, vec[i], vec[j])
    unfoldable pub order : List A → ℕ → ℕ → List A
    unfolding swap
    order vec i j = if less (get_or vec i d) (get_or vec j d) then swap vec i j else vec

    -- case 1, into which case 2 falls through
    unfoldable pub case_one : List A → ℕ → Bool → List A
    unfolding order swap
    case_one vec lo wide =
        if less (get_or vec (lo + 1) d) (get_or vec lo d)
        then if wide then order (swap vec (lo + 1) lo) (lo + 2) (lo + 1) else swap vec (lo + 1) lo
        else vec

    -- i > mid, or j <= hi and the second head is less
    unfoldable pub from_second : List A → ℕ → ℕ → ℕ → ℕ → Bool
    from_second vec i j mid hi =
        ltb mid i || (not (ltb hi j) && less (get_or vec j d) (get_or vec i d))

    -- for (k=lo, i = lo, j = mid+1; k <= hi; ++k), with `left` rounds left
    unfoldable pub merge_loop : ℕ → List A → List A → ℕ → ℕ → ℕ → ℕ → ℕ → List A
    unfolding from_second
    merge_loop zero vec scratch k i j mid hi = scratch
    merge_loop (suc left) vec scratch k i j mid hi =
        let second = from_second vec i j mid hi in
        merge_loop left vec (set scratch k (get_or vec (if second then j else i) d)) (suc k)
          (if second then i else suc i) (if second then suc j else j) mid hi

    unfoldable pub merge_sort : ℕ → List A → List A → ℕ → ℕ → List A × List A
    unfolding order case_one memcpy merge_loop
    merge_sort zero vec scratch lo hi = (vec, scratch)
    merge_sort (suc fuel) vec scratch lo hi = elim (hi - lo) [
      | zero ↦ (vec, set scratch lo (get_or vec lo d))
      | suc zero ↦ (case_one vec lo false, scratch)
      | suc (suc zero) ↦ (case_one (order vec hi (hi - 1)) lo true, scratch)
      | suc (suc (suc n)) ↦
          let mid = (hi + lo) / 2 in
          let (vec1, scratch1) = merge_sort fuel vec scratch lo mid in
          let (vec2, scratch2) = merge_sort fuel vec1 scratch1 (suc mid) hi in
          let merged = merge_loop (suc hi - lo) vec2 scratch2 lo lo (suc mid) mid hi in
          (memcpy (suc hi - lo) vec2 merged lo, merged)
    ]

  -- Applications that may raise: the value of `key`, and whether `less` answers a true value.
  module _ {κ} {E : Type κ} (key : Option (A → E ⊎ A)) (less : A → A → E ⊎ Bool) where
    keyed : A → E ⊎ A
    keyed x = elim key [ none ↦ inr x | some f ↦ f x ]

    -- if_is_less
    unfoldable pub if_is_less : A → A → E ⊎ Bool
    unfolding keyed
    if_is_less x y = elim (keyed x) [
      | inl e ↦ inl e
      | inr a ↦ elim (keyed y) [ inl e ↦ inl e | inr b ↦ less a b ]
    ]

    unfoldable pub order_less : List A → ℕ → ℕ → Option E × List A
    unfolding if_is_less swap
    order_less vec i j = elim (if_is_less (get_or vec i d) (get_or vec j d)) [
      | inl e ↦ (some e, vec)
      | inr true ↦ (none, swap vec i j)
      | inr false ↦ (none, vec)
    ]

    unfoldable pub case_one_less : List A → ℕ → Bool → Option E × List A
    unfolding if_is_less order_less swap
    case_one_less vec lo wide = elim (if_is_less (get_or vec (lo + 1) d) (get_or vec lo d)) [
      | inl e ↦ (some e, vec)
      | inr true ↦
          if wide
          then order_less (swap vec (lo + 1) lo) (lo + 2) (lo + 1)
          else (none, swap vec (lo + 1) lo)
      | inr false ↦ (none, vec)
    ]

    unfoldable pub from_second_less : List A → ℕ → ℕ → ℕ → ℕ → E ⊎ Bool
    unfolding if_is_less
    from_second_less vec i j mid hi =
        if ltb mid i
        then inr true
        else if ltb hi j
        then inr false
        else if_is_less (get_or vec j d) (get_or vec i d)

    unfoldable pub merge_loop_less : ℕ → List A → List A → ℕ → ℕ → ℕ → ℕ → ℕ → Option E × List A
    unfolding from_second_less
    merge_loop_less zero vec scratch k i j mid hi = (none, scratch)
    merge_loop_less (suc left) vec scratch k i j mid hi = elim (from_second_less vec i j mid hi) [
      | inl e ↦ (some e, scratch)
      | inr second ↦
          merge_loop_less left vec (set scratch k (get_or vec (if second then j else i) d)) (suc k)
            (if second then i else suc i) (if second then suc j else j) mid hi
    ]

    -- An exception in a step leaves the rest undone.
    unfoldable pub then_case_one : ℕ → Option E × List A → Option E × List A
    unfolding case_one_less
    then_case_one lo (some e, vec) = (some e, vec)
    then_case_one lo (none, vec) = case_one_less vec lo true

    unfoldable pub then_copy : ℕ → ℕ → List A → Option E × List A → Option E × (List A × List A)
    unfolding memcpy
    then_copy lo hi vec (some e, merged) = (some e, (vec, merged))
    then_copy lo hi vec (none, merged) = (none, (memcpy (suc hi - lo) vec merged lo, merged))

    unfoldable pub then_merge :
        ℕ → ℕ → ℕ → Option E × (List A × List A) → Option E × (List A × List A)
    unfolding then_copy merge_loop_less
    then_merge lo mid hi (some e, (vec, scratch)) = (some e, (vec, scratch))
    then_merge lo mid hi (none, (vec, scratch)) =
        then_copy lo hi vec (merge_loop_less (suc hi - lo) vec scratch lo lo (suc mid) mid hi)

    -- The exception, if one was raised, and the two arrays.
    unfoldable pub merge_sort_less : ℕ → List A → List A → ℕ → ℕ → Option E × (List A × List A)
    unfolding order_less case_one_less then_case_one then_merge
    merge_sort_less zero vec scratch lo hi = (none, (vec, scratch))
    merge_sort_less (suc fuel) vec scratch lo hi = elim (hi - lo) [
      | zero ↦ (none, (vec, set scratch lo (get_or vec lo d)))
      | suc zero ↦ let (res, vec1) = case_one_less vec lo false in (res, (vec1, scratch))
      | suc (suc zero) ↦
          let (res, vec1) = then_case_one lo (order_less vec hi (hi - 1)) in (res, (vec1, scratch))
      | suc (suc (suc n)) ↦
          let mid = (hi + lo) / 2 in
          let (res, (vec1, scratch1)) = merge_sort_less fuel vec scratch lo mid in
          elim res [
            | some e ↦ (some e, (vec1, scratch1))
            | none ↦ then_merge lo mid hi (merge_sort_less fuel vec1 scratch1 (suc mid) hi)
          ]
    ]

  -- `sexp_vector_nreverse`: for (i=0, j=len-1; i<j; i++, j--)
  unfoldable pub nreverse_loop : ℕ → List A → ℕ → ℕ → List A
  unfolding swap
  nreverse_loop zero vec i j = vec
  nreverse_loop (suc left) vec i j =
      let rest = nreverse_loop left (swap vec i j) (suc i) (j - 1) in if ltb i j then rest else vec

  unfoldable pub vector_nreverse : List A → List A
  unfolding nreverse_loop
  vector_nreverse vec = nreverse_loop (length vec) vec 0 (length vec - 1)
