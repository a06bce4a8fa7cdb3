-- ===== src/Sort/Fallible.antt =====
-- The sort with applications, where none of them raises: `sexp_merge_sort` with the answers.
use chibi_scheme.Prelude.{
  ℕ, zero, suc, ◌+◌, ◌-◌, ◌/◌, ◌≡◌, ◌⊎◌, refl, Bool, true, false, Option, none, List, get_or,
  Bool-cases, inl, inr, ltb, if◌then◌else◌,
}
use chibi_scheme.Sort.{
  swap, order, case_one, from_second, merge_loop, merge_sort, if_is_less, order_less, case_one_less,
  from_second_less, merge_loop_less, then_case_one, then_copy, then_merge, merge_sort_less,
}

module _ {ℓ κ} {A : Type ℓ} {E : Type κ} (d : A) (key : Option (A → E ⊎ A))
    (less : A → A → E ⊎ Bool) (lt : A → A → Bool)
    (answers : (a b : A) → if_is_less d key less a b ≡ inr (lt a b)) where
  order_less-order : (v : List A) (i j : ℕ) → order_less d key less v i j ≡ (none, order d lt v i j)
  unfolding order_less order
  order_less-order v i j = elim (Bool-cases (lt (get_or v i d) (get_or v j d))) [
    | inl t ↦ rw (order_less, answers (get_or v i d) (get_or v j d), t) refl
    | inr t ↦ rw (order_less, answers (get_or v i d) (get_or v j d), t) refl
  ]

  swapped :
      (v : List A) (lo : ℕ) (b : Bool)
      → (if b
          then order_less d key less (swap d v (lo + 1) lo) (lo + 2) (lo + 1)
          else (none, swap d v (lo + 1) lo))
        ≡ (
          none,
          (if b then order d lt (swap d v (lo + 1) lo) (lo + 2) (lo + 1) else swap d v (lo + 1) lo),
        )
  swapped v lo true = order_less-order (swap d v (lo + 1) lo) (lo + 2) (lo + 1)
  swapped v lo false = refl

  case_one_less-case_one :
      (v : List A) (lo : ℕ) (wide : Bool)
      → case_one_less d key less v lo wide ≡ (none, case_one d lt v lo wide)
  unfolding case_one_less case_one
  case_one_less-case_one v lo wide = elim (Bool-cases (lt (get_or v (lo + 1) d) (get_or v lo d))) [
    | inl t ↦
        rw (case_one_less, answers (get_or v (lo + 1) d) (get_or v lo d), t) (swapped v lo wide)
    | inr t ↦ rw (case_one_less, answers (get_or v (lo + 1) d) (get_or v lo d), t) refl
  ]

  from_second_less-from_second :
      (v : List A) (i j mid hi : ℕ)
      → from_second_less d key less v i j mid hi ≡ inr (from_second d lt v i j mid hi)
  unfolding from_second_less from_second
  from_second_less-from_second v i j mid hi = elim (Bool-cases (ltb mid i)) [
    | inl t ↦ rw t refl
    | inr t ↦ elim (Bool-cases (ltb hi j)) [
      | inl u ↦ rw (t, u) refl
      | inr u ↦ rw (t, u) (answers (get_or v j d) (get_or v i d))
    ]
  ]

  merge_loop_less-merge_loop :
      (left : ℕ) (v scratch : List A) (k i j mid hi : ℕ)
      → merge_loop_less d key less left v scratch k i j mid hi
        ≡ (none, merge_loop d lt left v scratch k i j mid hi)
  unfolding merge_loop_less merge_loop
  merge_loop_less-merge_loop zero v scratch k i j mid hi = refl
  merge_loop_less-merge_loop (suc left) v scratch k i j mid hi =
      rw (merge_loop_less, from_second_less-from_second v i j mid hi)
        (merge_loop_less-merge_loop left v _ (suc k) _ _ mid hi)

  by_size :
      (fuel : ℕ) (v scratch : List A) (lo hi : ℕ)
      → ((w s : List A) (a b : ℕ)
          → merge_sort_less d key less fuel w s a b ≡ (none, merge_sort d lt fuel w s a b))
      → (n : ℕ) → hi - lo ≡ n
      → merge_sort_less d key less (suc fuel) v scratch lo hi
        ≡ (none, merge_sort d lt (suc fuel) v scratch lo hi)
  unfolding merge_sort_less merge_sort then_case_one then_copy then_merge
  by_size fuel v scratch lo hi ih zero q = rw (q, merge_sort_less, merge_sort) refl
  by_size fuel v scratch lo hi ih (suc zero) q =
      rw (q, merge_sort_less, merge_sort, case_one_less-case_one v lo false) refl
  by_size fuel v scratch lo hi ih (suc (suc zero)) q =
      rw
        (
          q,
          merge_sort_less,
          merge_sort,
          order_less-order v hi (hi - 1),
          case_one_less-case_one (order d lt v hi (hi - 1)) lo true,
        )
        refl
  by_size fuel v scratch lo hi ih (suc (suc (suc n))) q =
      let mid = (hi + lo) / 2 in
      let one = merge_sort d lt fuel v scratch lo mid in
      let two = merge_sort d lt fuel one.0 one.1 (suc mid) hi in
      let first = ih v scratch lo mid in
      let second = ih one.0 one.1 (suc mid) hi in
      let merged = merge_loop_less-merge_loop (suc hi - lo) two.0 two.1 lo lo (suc mid) mid hi in
      rw (q, merge_sort_less, merge_sort, first, first, second, merged) refl

  -- Where no key and no comparison raises, `sexp_merge_sort_less` raises nothing and leaves in both
  -- arrays what `sexp_merge_sort` leaves in them with the answers as its comparison.
  pub merge_sort_less-merge_sort :
      (fuel : ℕ) (v scratch : List A) (lo hi : ℕ)
      → merge_sort_less d key less fuel v scratch lo hi
        ≡ (none, merge_sort d lt fuel v scratch lo hi)
  unfolding merge_sort_less merge_sort
  merge_sort_less-merge_sort zero v scratch lo hi = refl
  merge_sort_less-merge_sort (suc fuel) v scratch lo hi =
      by_size fuel v scratch lo hi (merge_sort_less-merge_sort fuel) (hi - lo) refl
