-- ===== src/Sort/Reversal.antt =====
-- `sexp_vector_nreverse`, which `sort!` calls for an inverse comparison.
use chibi_scheme.Prelude.{
  ℕ, zero, suc, ◌+◌, ◌-◌, ◌≤◌, ◌<◌, ◌≡◌, ◌≢◌, ◌⊎◌, inl, inr, refl, ◌∙◌, List, length, get_or, set,
  length-set, get_or-set_self, get_or-set_ne, ltb, ◌==◌, Bool-cases, arith,
}
use chibi_scheme.Sort.{swap, nreverse_loop, vector_nreverse}

module _ {ℓ} {A : Type ℓ} (d : A) where
  length-swap : (v : List A) (i j : ℕ) → length (swap d v i j) ≡ length v
  unfolding swap
  length-swap v i j = length-set (set v i (get_or v j d)) j _ ∙ length-set v i _

  swap_second : (v : List A) (i j : ℕ) → j < length v → get_or (swap d v i j) j d ≡ get_or v i d
  unfolding swap
  swap_second v i j h =
      get_or-set_self (set v i (get_or v j d)) j _ d (omega (arith, length-set v i (get_or v j d)))

  swap_first :
      (v : List A) (i j : ℕ) → i < length v → i < j → get_or (swap d v i j) i d ≡ get_or v j d
  unfolding swap
  swap_first v i j h l =
      get_or-set_ne (set v i (get_or v j d)) j i _ d (λ z. omega arith) ∙ get_or-set_self v i _ d h

  swap_other : (v : List A) (i j t : ℕ) → i ≢ t → j ≢ t → get_or (swap d v i j) t d ≡ get_or v t d
  unfolding swap
  swap_other v i j t p q =
      get_or-set_ne (set v i (get_or v j d)) j t _ d q ∙ get_or-set_ne v i t _ d p

  -- From i to j the items are mirrored, and the others are left.
  record Mirrored (v v' : List A) (i j : ℕ) : Type ℓ where
    size : length v' ≡ length v
    inside : (t u : ℕ) → i ≤ t → t ≤ j → t + u ≡ i + j → get_or v' t d ≡ get_or v u d
    outside : (t : ℕ) → (t < i) ⊎ (j < t) → get_or v' t d ≡ get_or v t d

  nreverse_lem :
      (left : ℕ) (v : List A) (i j : ℕ)
      → j < length v
      → j ≤ i + left
      → Mirrored v (nreverse_loop d left v i j) i j
  unfolding nreverse_loop
  nreverse_lem zero v i j h k = record {
    size = refl;
    inside = λ t u a b s. let e : t ≡ u = omega arith in rw e refl;
    outside = λ t o. refl;
  }
  nreverse_lem (suc left) v i j h k = elim (Bool-cases (ltb i j)) [
    | inr q ↦
        rw (nreverse_loop, q)
          (record {
            size = refl;
            inside = λ t u a b s. let e : t ≡ u = ground arith in rw e refl;
            outside = λ t o. refl;
          })
    | inl q ↦
        let l : i < j = ground arith in
        let w = swap d v i j in
        let r =
          nreverse_lem left w (suc i) (j - 1) (omega (arith, length-swap v i j)) (omega arith) in
        rw (nreverse_loop, q)
          (record {
            size = r.size ∙ length-swap v i j;
            inside =
                λ t u a b s. mirror v i j (nreverse_loop d left w (suc i) (j - 1)) l h r t u a b s;
            outside = λ t o.
                r.outside t (ground arith)
                ∙ swap_other v i j t (λ z. ground arith) (λ z. ground arith);
          })
  ]
    where
      mirror :
          (v : List A) (i j : ℕ) (v' : List A)
          → i < j
          → j < length v
          → Mirrored (swap d v i j) v' (suc i) (j - 1)
          → (t u : ℕ) → i ≤ t
          → t ≤ j
          → t + u ≡ i + j
          → get_or v' t d ≡ get_or v u d
      mirror v i j v' l h r t u a b s = elim (Bool-cases (t == i)) [
        | inl p ↦
            let e : t ≡ i = ground arith in
            let f : u ≡ j = omega arith in
            rw (e, f) (r.outside i (inl (omega arith)) ∙ swap_first v i j (omega arith) l)
        | inr p ↦ elim (Bool-cases (t == j)) [
          | inl p2 ↦
              let e : t ≡ j = ground arith in
              let f : u ≡ i = omega arith in
              rw (e, f) (r.outside j (inr (omega arith)) ∙ swap_second v i j h)
          | inr p2 ↦
              r.inside t u (ground arith) (ground arith) (omega arith)
              ∙ swap_other v i j u (λ z. ground arith) (λ z. ground arith)
        ]
      ]

  -- `sexp_vector_nreverse` keeps the length and puts each item at the mirrored index: two indices
  -- that are as far from the two ends have changed items.
  pub vector_nreverse_lem :
      (v : List A) (t u : ℕ)
      → t + suc u ≡ length v
      → (length (vector_nreverse d v) ≡ length v)
        × (get_or (vector_nreverse d v) t d ≡ get_or v u d)
  unfolding vector_nreverse
  vector_nreverse_lem v t u h =
      let r = nreverse_lem (length v) v 0 (length v - 1) (omega arith) (omega arith) in
      (r.size, r.inside t u (omega arith) (omega arith) (omega arith))
