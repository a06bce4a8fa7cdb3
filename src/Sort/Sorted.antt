-- ===== src/Sort/Sorted.antt =====
-- `sexp_merge_sort` by halves, for any number of items.
use mathlib.Core.List.Perm
use mathlib.Core.Path.{subst}
use chibi_scheme.Prelude.{
  ℕ, zero, suc, ◌+◌, ◌-◌, ◌/◌, ◌≤◌, ◌≡◌, refl, sym, ◌∙◌, Bool, List, [], ◌∷◌, ◌++◌, length,
  length-append, length-set, get_or, take, drop, take-append-drop, length-take, length-drop, inl,
  inr, arith,
}
use chibi_scheme.Sort.{memcpy, merge_loop, merge_sort}
use chibi_scheme.Sort.Segment.{
  write, At, At-split, At-append, At-agree, memcpy-write, At-write_self, length-write,
}
use chibi_scheme.Sort.Merge.{
  IsOrder, Sorted, Sorted-Merged, Perm-Merged, length-Merged, merge_loop-Merged,
}
use chibi_scheme.Sort.Small.{Sorts, two, three, Sorts_after}
use chibi_scheme.Sort.Puts.{Puts, Puts-none, Puts-trans, Puts-before, Puts-behind, Puts-write}

module _ {ℓ} {A : Type ℓ} (d : A) (less : A → A → Bool) (o : IsOrder less) where
  -- The merge of two sorted neighbours, copied back.
  join :
      (v scratch : List A) (lo mid hi : ℕ) (xs ys : List A)
      → suc mid ≡ lo + length xs
      → suc hi ≡ suc mid + length ys
      → suc hi ≤ length v
      → length v ≤ length scratch
      → At d v lo xs
      → At d v (suc mid) ys
      → Sorted less xs
      → Sorted less ys
      → let merged = merge_loop d less (suc hi - lo) v scratch lo lo (suc mid) mid hi in
        Sorts d less o v (memcpy d (suc hi - lo) v merged lo) lo (xs ++ ys)
        × (length merged ≡ length scratch)
  join v scratch lo mid hi xs ys p q h g a b s t =
      let (zs, m, e) =
        merge_loop-Merged d less (suc hi - lo) v scratch lo lo (suc mid) mid hi xs ys (omega arith)
          p q a b in
      let perm = Perm-Merged m in
      let n : length zs ≡ length (xs ++ ys) = omega (arith, length-Merged m, length-append xs ys) in
      let k : suc hi - lo ≡ length zs = omega (arith, length-append xs ys) in
      let written = At-write_self d scratch lo zs (omega arith) in
      let copied : memcpy d (length zs) v (write scratch lo zs) lo ≡ write v lo zs =
        memcpy-write d zs v (write scratch lo zs) lo written in
      (
        record {
          ys = zs;
          puts =
              rw (e, k, copied)
                (Puts-write d v lo (xs ++ ys) zs n (omega (arith, length-append xs ys)));
          sorted = Sorted-Merged o m s t;
          perm = perm;
        },
        rw e (length-write d scratch lo zs),
      )

  -- What a call on `xs` does, for any bounds that hold them.
  abbrev pub Works : ℕ → Type ℓ
  Works fuel =
      (v scratch : List A) (lo hi : ℕ) (xs : List A)
      → 1 ≤ length xs
      → length xs ≤ fuel
      → suc hi ≡ lo + length xs
      → suc hi ≤ length v
      → length v ≤ length scratch
      → At d v lo xs
      → Sorts d less o v (merge_sort d less fuel v scratch lo hi).0 lo xs
        × (length (merge_sort d less fuel v scratch lo hi).1 ≡ length scratch)

  -- Both calls, on the stretch in two parts.
  parts :
      (fuel : ℕ) (works : Works fuel) (v scratch : List A) (lo mid hi : ℕ) (xs ys : List A)
      → suc mid ≡ lo + length xs
      → suc hi ≡ suc mid + length ys
      → 1 ≤ length xs
      → 1 ≤ length ys
      → length xs ≤ fuel
      → length ys ≤ fuel
      → suc hi ≤ length v
      → length v ≤ length scratch
      → At d v lo xs
      → At d v (suc mid) ys
      → let (v1, s1) = merge_sort d less fuel v scratch lo mid in
        let (v2, s2) = merge_sort d less fuel v1 s1 (suc mid) hi in
        let merged = merge_loop d less (suc hi - lo) v2 s2 lo lo (suc mid) mid hi in
        Sorts d less o v (memcpy d (suc hi - lo) v2 merged lo) lo (xs ++ ys)
        × (length merged ≡ length scratch)
  parts fuel works v scratch lo mid hi xs ys p q l1 l2 f1 f2 h g a b =
      let (sx, n1) = works v scratch lo mid xs l1 f1 p (omega arith) g a in
      let px = sx.puts in
      let v1 = (merge_sort d less fuel v scratch lo mid).0 in
      let s1 = (merge_sort d less fuel v scratch lo mid).1 in
      let b1 : At d v1 (suc mid) ys =
        At-agree d v v1 (suc mid) ys (λ i l k. px.frame i (inr (omega arith))) b in
      let (sy, n2) =
        works v1 s1 (suc mid) hi ys l2 f2 q (omega (arith, px.total)) (omega (arith, px.total, n1))
          b1 in
      let py = sy.puts in
      let v2 = (merge_sort d less fuel v1 s1 (suc mid) hi).0 in
      let a2 : At d v2 lo sx.ys =
        At-agree d v1 v2 lo sx.ys (λ i l k. py.frame i (inl (omega (arith, px.size)))) px.here in
      let both : Puts d v v2 lo (xs ++ ys) (sx.ys ++ sy.ys) =
        Puts-trans d (Puts-behind d ys (At-append d v xs ys lo (suc mid) p a b) px) (
          Puts-before d sx.ys (omega (arith, px.size))
            (At-append d v1 sx.ys ys lo (suc mid) (omega (arith, px.size)) px.here b1) py) in
      let (r, n3) =
        join v2 (merge_sort d less fuel v1 s1 (suc mid) hi).1 lo mid hi sx.ys sy.ys
          (omega (arith, px.size)) (omega (arith, py.size)) (omega (arith, px.total, py.total))
          (omega (arith, px.total, py.total, n1, n2)) a2 py.here sx.sorted sy.sorted in
      (Sorts_after d less o both (Perm.append sx.perm sy.perm) r, n3 ∙ n2 ∙ n1)

  same_items :
      {v v' : List A} {k : ℕ} {xs ys : List A}
      → xs ≡ ys
      → Sorts d less o v v' k ys
      → Sorts d less o v v' k xs
  same_items {v} {v'} {k} e s = subst (λ zs. Sorts d less o v v' k zs) (sym e) s

  halves :
      (fuel : ℕ) (works : Works fuel) (v scratch : List A) (lo hi : ℕ) (xs : List A)
      → 4 ≤ length xs
      → length xs ≤ suc fuel
      → suc hi ≡ lo + length xs
      → suc hi ≤ length v
      → length v ≤ length scratch
      → At d v lo xs
      → let mid = (hi + lo) / 2 in
        let (v1, s1) = merge_sort d less fuel v scratch lo mid in
        let (v2, s2) = merge_sort d less fuel v1 s1 (suc mid) hi in
        let merged = merge_loop d less (suc hi - lo) v2 s2 lo lo (suc mid) mid hi in
        Sorts d less o v (memcpy d (suc hi - lo) v2 merged lo) lo xs
        × (length merged ≡ length scratch)
  halves fuel works v scratch lo hi xs l f q h g a =
      let mid = (hi + lo) / 2 in
      let n = suc mid - lo in
      let as' = take n xs in
      let bs = drop n xs in
      let la = length-take n xs in
      let lb = length-drop n xs in
      let e : xs ≡ as' ++ bs = sym (take-append-drop n xs) in
      let (a1, a2) =
        At-split d v as' bs lo (suc mid) (omega (arith, la)) (subst (λ zs. At d v lo zs) e a) in
      let (r, m) =
        parts fuel works v scratch lo mid hi as' bs (omega (arith, la)) (omega (arith, lb))
          (omega (arith, la)) (omega (arith, lb)) (omega (arith, la)) (omega (arith, lb)) h g a1
          a2 in
      (same_items e r, m)

  pub merge_sort-Sorts : (fuel : ℕ) → Works fuel
  unfolding merge_sort
  merge_sort-Sorts fuel v scratch lo hi [] l f q h g a = absurd (omega arith)
  merge_sort-Sorts zero v scratch lo hi (x ∷ xs) l f q h g a = absurd (omega arith)
  merge_sort-Sorts (suc fuel) v scratch lo hi (x ∷ []) l f q h g a =
      let n : hi - lo ≡ 0 = omega arith in
      rw (n, merge_sort)
        (
          record {
            ys = x ∷ [];
            puts = Puts-none d v lo (x ∷ []) a;
            sorted = (tt, tt);
            perm = Perm.refl _;
          },
          length-set scratch lo (get_or v lo d),
        )
  merge_sort-Sorts (suc fuel) v scratch lo hi (x ∷ y ∷ []) l f q h g a =
      let n : hi - lo ≡ 1 = omega arith in
      rw (n, merge_sort) (two d less o v lo x y (omega arith) a, refl)
  merge_sort-Sorts (suc fuel) v scratch lo hi (x ∷ y ∷ z ∷ []) l f q h g a =
      let n : hi - lo ≡ 2 = omega arith in
      rw (n, merge_sort) (three d less o v lo hi x y z (omega arith) (omega arith) a, refl)
  merge_sort-Sorts (suc fuel) v scratch lo hi (x ∷ y ∷ z ∷ w ∷ xs) l f q h g a =
      let n : hi - lo ≡ suc (suc (suc (length xs))) = omega arith in
      rw (n, merge_sort)
        (halves fuel (merge_sort-Sorts fuel) v scratch lo hi (x ∷ y ∷ z ∷ w ∷ xs) (omega arith) f q
          h g a)
