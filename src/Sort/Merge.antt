-- ===== src/Sort/Merge.antt =====
-- The merge loop against a relation between two lists and their stable merge.
use mathlib.Core.List.{Perm, perm_middle}
use mathlib.Core.List.Perm
use chibi_scheme.Prelude.{
  ℕ, zero, suc, ◌+◌, ◌≡◌, refl, Bool, true, false, List, [], ◌∷◌, ◌++◌, length, get_or, set, All,
  Bool-cases, inl, inr, arith,
}
use chibi_scheme.Sort.{from_second, merge_loop}
use chibi_scheme.Sort.Segment.{write, At}

-- What the comparison has to be for sorting: a strict weak order.
pub record IsOrder {ℓ} {A : Type ℓ} (less : A → A → Bool) : Type ℓ where
  pub asym : (a b : A) → less a b ≡ true → less b a ≡ false
  pub above : (a b c : A) → less b a ≡ false → less c b ≡ false → less c a ≡ false

module _ {ℓ} {A : Type ℓ} (less : A → A → Bool) where
  -- No item is less than one before it.
  abbrev pub Sorted : List A → Type ℓ
  Sorted [] = Unit
  Sorted (x ∷ xs) = All (λ y. less y x ≡ false) xs × Sorted xs

  -- The second list's head goes first only where it is less.
  pub data Merged : List A → List A → List A → Type ℓ where
    both_end : Merged [] [] []
    rest_second : {y : A} {ys zs : List A} → Merged [] ys zs → Merged [] (y ∷ ys) (y ∷ zs)
    rest_first : {x : A} {xs zs : List A} → Merged xs [] zs → Merged (x ∷ xs) [] (x ∷ zs)
    take_second :
        {x y : A} {xs ys zs : List A}
        → less y x ≡ true
        → Merged (x ∷ xs) ys zs
        → Merged (x ∷ xs) (y ∷ ys) (y ∷ zs)
    take_first :
        {x y : A} {xs ys zs : List A}
        → less y x ≡ false
        → Merged xs (y ∷ ys) zs
        → Merged (x ∷ xs) (y ∷ ys) (x ∷ zs)

module _ {ℓ κ} {A : Type ℓ} (P : A → Type κ) where
  All-weaken : (Q : A → Type κ) (xs : List A) → ((x : A) → P x → Q x) → All P xs → All Q xs
  All-weaken Q [] f a = tt
  All-weaken Q (x ∷ xs) f (p, a) = (f x p, All-weaken Q xs f a)

  All-Merged :
      {less : A → A → Bool} {xs ys zs : List A}
      → Merged less xs ys zs
      → All P xs
      → All P ys
      → All P zs
  All-Merged both_end a b = tt
  All-Merged (rest_second m) a (p, b) = (p, All-Merged m a b)
  All-Merged (rest_first m) (p, a) b = (p, All-Merged m a b)
  All-Merged (take_second e m) a (p, b) = (p, All-Merged m a b)
  All-Merged (take_first e m) (p, a) b = (p, All-Merged m a b)

module _ {ℓ} {A : Type ℓ} {less : A → A → Bool} where
  pub Sorted-Merged :
      (o : IsOrder less) {xs ys zs : List A}
      → Merged less xs ys zs
      → Sorted less xs
      → Sorted less ys
      → Sorted less zs
  Sorted-Merged o both_end s t = tt
  Sorted-Merged o (rest_second m) s (b, t) = (All-Merged _ m tt b, Sorted-Merged o m tt t)
  Sorted-Merged o (rest_first m) (a, s) t = (All-Merged _ m a tt, Sorted-Merged o m s tt)
  Sorted-Merged o (take_second {x} {y} {xs} e m) (a, s) (b, t) =
      let h = o.asym y x e in
      (
        All-Merged _ m (h, All-weaken _ _ xs (λ z k. o.above y x z h k) a) b,
        Sorted-Merged o m (a, s) t,
      )
  Sorted-Merged o (take_first {x} {y} {xs} {ys} e m) (a, s) (b, t) = (
    All-Merged _ m a (e, All-weaken _ _ ys (λ z k. o.above x y z e k) b),
    Sorted-Merged o m s (b, t),
  )

  pub Perm-Merged : {xs ys zs : List A} → Merged less xs ys zs → Perm (xs ++ ys) zs
  Perm-Merged both_end = Perm.refl []
  Perm-Merged (rest_second m) = Perm.cons _ (Perm-Merged m)
  Perm-Merged (rest_first m) = Perm.cons _ (Perm-Merged m)
  Perm-Merged (take_second {x} {y} {xs} {ys} e m) =
      Perm.trans (perm_middle (x ∷ xs) ys) (Perm.cons _ (Perm-Merged m))
  Perm-Merged (take_first e m) = Perm.cons _ (Perm-Merged m)

module _ {ℓ} {A : Type ℓ} {less : A → A → Bool} where
  pub length-Merged : {xs ys zs : List A} → Merged less xs ys zs → length zs ≡ length xs + length ys
  length-Merged both_end = refl
  length-Merged (rest_second m) = omega (arith, length-Merged m)
  length-Merged (rest_first m) = omega (arith, length-Merged m)
  length-Merged (take_second e m) = omega (arith, length-Merged m)
  length-Merged (take_first e m) = omega (arith, length-Merged m)

-- The loop writes a merge of the two stretches, the second of which starts at `mid + 1`.
module _ {ℓ} {A : Type ℓ} (d : A) (less : A → A → Bool) where
  -- What the loop leaves in the scratch array.
  abbrev pub Fills : List A → List A → List A → ℕ → List A → Type ℓ
  Fills xs ys scratch k out = (zs : List A) × Merged less xs ys zs × (out ≡ write scratch k zs)

  -- One round, by the array that the item comes from.
  round_second :
      (left : ℕ) (vec scratch : List A) (k i j mid hi : ℕ) (xs ys xs' : List A) (y : A)
      → from_second d less vec i j mid hi ≡ true
      → get_or vec j d ≡ y
      → ((zs : List A) → Merged less xs' ys zs → Merged less xs (y ∷ ys) (y ∷ zs))
      → Fills xs' ys
          (set scratch k y)
          (suc k)
          (merge_loop d less left vec (set scratch k y) (suc k) i (suc j) mid hi)
      → Fills xs (y ∷ ys) scratch k (merge_loop d less (suc left) vec scratch k i j mid hi)
  unfolding merge_loop
  round_second left vec scratch k i j mid hi xs ys xs' y t e f (zs, m, h) =
      (y ∷ zs, f zs m, rw (t, e) h)

  round_first :
      (left : ℕ) (vec scratch : List A) (k i j mid hi : ℕ) (xs ys ys' : List A) (x : A)
      → from_second d less vec i j mid hi ≡ false
      → get_or vec i d ≡ x
      → ((zs : List A) → Merged less xs ys' zs → Merged less (x ∷ xs) ys (x ∷ zs))
      → Fills xs ys'
          (set scratch k x)
          (suc k)
          (merge_loop d less left vec (set scratch k x) (suc k) (suc i) j mid hi)
      → Fills (x ∷ xs) ys scratch k (merge_loop d less (suc left) vec scratch k i j mid hi)
  unfolding merge_loop
  round_first left vec scratch k i j mid hi xs ys ys' x t e f (zs, m, h) =
      (x ∷ zs, f zs m, rw (t, e) h)

  pub merge_loop-Merged :
      (left : ℕ) (vec scratch : List A) (k i j mid hi : ℕ) (xs ys : List A)
      → left ≡ length xs + length ys
      → suc mid ≡ i + length xs
      → suc hi ≡ j + length ys
      → At d vec i xs
      → At d vec j ys
      → Fills xs ys scratch k (merge_loop d less left vec scratch k i j mid hi)
  unfolding merge_loop from_second
  merge_loop-Merged zero vec scratch k i j mid hi [] [] n p q a b = ([], both_end, refl)
  merge_loop-Merged zero vec scratch k i j mid hi (x ∷ xs) ys n p q a b = absurd (omega arith)
  merge_loop-Merged zero vec scratch k i j mid hi [] (y ∷ ys) n p q a b = absurd (omega arith)
  merge_loop-Merged (suc left) vec scratch k i j mid hi [] [] n p q a b = absurd (omega arith)
  merge_loop-Merged (suc left) vec scratch k i j mid hi [] (y ∷ ys) n p q a (e, b) =
      round_second left vec scratch k i j mid hi [] ys [] y (ground arith) e (λ zs m. rest_second m)
        (merge_loop-Merged left vec (set scratch k y) (suc k) i (suc j) mid hi [] ys (omega arith) p
          (omega arith) a b)
  merge_loop-Merged (suc left) vec scratch k i j mid hi (x ∷ xs) [] n p q (e, a) b =
      round_first left vec scratch k i j mid hi xs [] [] x (ground arith) e (λ zs m. rest_first m)
        (merge_loop-Merged left vec (set scratch k x) (suc k) (suc i) j mid hi xs [] (omega arith)
          (omega arith) q a b)
  merge_loop-Merged (suc left) vec scratch k i j mid hi (x ∷ xs) (y ∷ ys) n p q (e, a) (f, b) =
      elim (Bool-cases (less y x)) [
        | inl t ↦
            round_second left vec scratch k i j mid hi (x ∷ xs) ys (x ∷ xs) y
              (rw (e, f, t) (ground arith)) f (λ zs m. take_second t m)
              (merge_loop-Merged left vec (set scratch k y) (suc k) i (suc j) mid hi (x ∷ xs) ys
                (omega arith) p (omega arith) (e, a) b)
        | inr t ↦
            round_first left vec scratch k i j mid hi xs (y ∷ ys) (y ∷ ys) x
              (rw (e, f, t) (ground arith)) e (λ zs m. take_first t m)
              (merge_loop-Merged left vec (set scratch k x) (suc k) (suc i) j mid hi xs (y ∷ ys)
                (omega arith) (omega arith) q a (f, b))
      ]
