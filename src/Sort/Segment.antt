-- ===== src/Sort/Segment.antt =====
-- Stretches of an array: what stands from an index on, and what writes leave of it.
use chibi_scheme.Prelude.{
  ℕ, zero, suc, ◌+◌, ◌≤◌, ◌<◌, ◌≡◌, ◌⊎◌, inl, refl, ◌∙◌, List, [], ◌∷◌, ◌++◌, length, get_or, set,
  length-set, get_or-set_self, get_or-set_ne, arith,
}
use chibi_scheme.Sort.{memcpy}

-- The writes of a loop that fills an array from an index on.
abbrev pub write {ℓ} : {A : Type ℓ} → List A → ℕ → List A → List A
write v k [] = v
write v k (x ∷ xs) = write (set v k x) (suc k) xs

module _ {ℓ} {A : Type ℓ} (d : A) where
  abbrev pub At : List A → ℕ → List A → Type ℓ
  At v k [] = Unit
  At v k (x ∷ xs) = (get_or v k d ≡ x) × At v (suc k) xs

  pub length-write : (v : List A) (k : ℕ) (xs : List A) → length (write v k xs) ≡ length v
  length-write v k [] = refl
  length-write v k (x ∷ xs) = length-write (set v k x) (suc k) xs ∙ length-set v k x

  -- An index before the written ones, or after them.
  pub get_or-write :
      (v : List A) (k : ℕ) (xs : List A) (i : ℕ)
      → (i < k) ⊎ (k + length xs ≤ i)
      → get_or (write v k xs) i d ≡ get_or v i d
  get_or-write v k [] i h = refl
  get_or-write v k (x ∷ xs) i h =
      get_or-write (set v k x) (suc k) xs i (ground arith) ∙ get_or-set_ne v k i x d (ground arith)

  pub At-write_self :
      (v : List A) (k : ℕ) (xs : List A) → k + length xs ≤ length v → At (write v k xs) k xs
  At-write_self v k [] h = tt
  At-write_self v k (x ∷ xs) h = (
    get_or-write (set v k x) (suc k) xs k (inl (omega arith))
        ∙ get_or-set_self v k x d (omega arith),
    At-write_self (set v k x) (suc k) xs (omega (arith, length-set v k x)),
  )

  -- Arrays that agree from an index on, for some length.
  pub At-agree :
      (v w : List A) (k : ℕ) (xs : List A)
      → ((i : ℕ) → k ≤ i → i < k + length xs → get_or w i d ≡ get_or v i d)
      → At v k xs
      → At w k xs
  At-agree v w k [] h a = tt
  At-agree v w k (x ∷ xs) h (e, a) = (
    h k (omega arith) (omega arith) ∙ e,
    At-agree v w (suc k) xs (λ i l g. h i (omega arith) (omega arith)) a,
  )

  -- Copying a stretch writes it.
  pub memcpy-write :
      (xs dest src : List A) (k : ℕ)
      → At src k xs
      → memcpy d (length xs) dest src k ≡ write dest k xs
  unfolding memcpy
  memcpy-write [] dest src k a = refl
  memcpy-write (x ∷ xs) dest src k (e, a) =
      rw (e, memcpy) (memcpy-write xs (set dest k x) src (suc k) a)

  -- An array is the stretch that fills it.
  pub At-all : (v xs : List A) → length xs ≡ length v → At v 0 xs → v ≡ xs
  At-all v xs h a = whole v xs h (λ i l. read xs 0 i i a l (omega arith))
    where
      read :
          (xs : List A) (k i j : ℕ)
          → At v k xs
          → i < length xs
          → j ≡ k + i
          → get_or v j d ≡ get_or xs i d
      read [] k i j a l q = absurd (omega arith)
      read (x ∷ xs) k zero j (e, a) l q = let z : j ≡ k = omega arith in rw z e
      read (x ∷ xs) k (suc i) j (e, a) l q = read xs (suc k) i j a (omega arith) (omega arith)

      whole :
          (v xs : List A)
          → length xs ≡ length v
          → ((i : ℕ) → i < length xs → get_or v i d ≡ get_or xs i d)
          → v ≡ xs
      whole [] [] h g = refl
      whole [] (x ∷ xs) h g = absurd (omega arith)
      whole (y ∷ v) [] h g = absurd (omega arith)
      whole (y ∷ v) (x ∷ xs) h g =
          rw (g 0 (omega arith), whole v xs (omega arith) (λ i l. g (suc i) (omega arith))) refl

  -- What stands from an index on, as a list.
  pub At-reads :
      (v xs : List A) (k : ℕ)
      → ((i j : ℕ) → i < length xs → j ≡ k + i → get_or v j d ≡ get_or xs i d)
      → At v k xs
  At-reads v [] k h = tt
  At-reads v (x ∷ xs) k h = (
    h 0 k (omega arith) (omega arith),
    At-reads v xs (suc k) (λ i j l q. h (suc i) j (omega arith) (omega arith)),
  )

  pub At-self : (v : List A) → At v 0 v
  At-self v = At-reads v v 0 (λ i j l q. let z : j ≡ i = omega arith in rw z refl)

  -- A stretch in two parts.
  pub At-append :
      (v xs ys : List A) (k j : ℕ) → j ≡ k + length xs → At v k xs → At v j ys → At v k (xs ++ ys)
  At-append v [] ys k j q a b = let z : k ≡ j = omega arith in rw z b
  At-append v (x ∷ xs) ys k j q (e, a) b = (e, At-append v xs ys (suc k) j (omega arith) a b)

  pub At-split :
      (v xs ys : List A) (k j : ℕ) → j ≡ k + length xs → At v k (xs ++ ys) → At v k xs × At v j ys
  At-split v [] ys k j q a = (tt, let z : j ≡ k = omega arith in rw z a)
  At-split v (x ∷ xs) ys k j q (e, a) =
      let (b, c) = At-split v xs ys (suc k) j (omega arith) a in ((e, b), c)
