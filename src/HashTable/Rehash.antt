-- ===== src/HashTable/Rehash.antt =====
-- `sexp_regrow_hash_table` and what the table holds.
use chibi_scheme.Prelude.{
  ℕ, zero, suc, ◌+◌, ◌≤◌, ◌<◌, ◌≡◌, ◌≢◌, refl, Bool, false, Option, none, some, List, [], ◌∷◌, ◌++◌,
  if◌then◌else◌, length, get_or, replicate, get_or-replicate, length-replicate, Bool-cases, inl,
  inr, arith, ap, sym, ◌∙◌, All, length-append,
}
use chibi_scheme.HashTable.{Bucket, push, push_bucket, push_all}
use chibi_scheme.HashTable.Buckets.{
  IsEquality, or_else, flatten, scan, find_last, find_last-none, Distinct, find_last-scan,
}
use chibi_scheme.HashTable.Growth.{
  IsPlacing, entries, PlacedFrom, lookup, lookup-push_bucket, length-push_bucket,
  push_bucket-PlacedFrom, entries-push_bucket,
}

module _ {K V : Type 0} (place : K → ℕ) where
  push_bucket-append :
      (xs ys : Bucket K V) (bs : List (Bucket K V))
      → push_bucket place (xs ++ ys) bs ≡ push_bucket place ys (push_bucket place xs bs)
  unfolding push_bucket
  push_bucket-append [] ys bs = refl
  push_bucket-append (x ∷ xs) ys bs = push_bucket-append xs ys (push place x bs)

  push_all-flatten :
      (old bs : List (Bucket K V)) → push_all place old bs ≡ push_bucket place (flatten old) bs
  unfolding push_all push_bucket
  push_all-flatten [] bs = refl
  push_all-flatten (b ∷ old) bs =
      push_all-flatten old (push_bucket place b bs) ∙ sym (push_bucket-append b (flatten old) bs)

length-flatten : {K V : Type 0} (bs : List (Bucket K V)) → length (flatten bs) ≡ entries bs
unfolding entries
length-flatten [] = refl
length-flatten (b ∷ bs) = omega (arith, length-append b (flatten bs), length-flatten bs)

entries-replicate : (K V : Type 0) (n : ℕ) → entries (replicate {A = Bucket K V} n []) ≡ 0
unfolding entries
entries-replicate K V zero = refl
entries-replicate K V (suc n) = omega (arith, entries-replicate K V n)

All-append {ℓ κ} :
    {A : Type ℓ} (P : A → Type κ) (xs ys : List A) → All P xs → All P ys → All P (xs ++ ys)
All-append P [] ys h g = g
All-append P (x ∷ xs) ys h g = (h.0, All-append P xs ys h.1 g)

pub apart :
    {K : Type 0} {test : K → K → Bool} {place : K → ℕ} {n : ℕ}
    → IsPlacing test place n
    → (k obj : K) → place k ≢ place obj
    → test k obj ≡ false
apart {test} p k obj ne = elim (Bool-cases (test k obj)) [
  | inl t ↦ absurd (ne (p.same k obj t))
  | inr t ↦ t
]

module _ {K V : Type 0} (test : K → K → Bool) where
  find_last-append :
      (xs ys : Bucket K V) (obj : K)
      → find_last test (xs ++ ys) obj ≡ or_else (find_last test ys obj) (find_last test xs obj)
  unfolding find_last
  find_last-append [] ys obj = regroup (find_last test ys obj)
    where
      regroup : (o : Option (K × V)) → o ≡ or_else o none
      regroup none = refl
      regroup (some x) = refl
  find_last-append (x ∷ xs) ys obj =
      ap (λ o. or_else o (if test x.0 obj then some x else none)) (find_last-append xs ys obj)
      ∙ regroup (find_last test ys obj)
    where
      regroup :
          (o : Option (K × V))
          → or_else (or_else o (find_last test xs obj)) (if test x.0 obj then some x else none)
            ≡ or_else o (or_else (find_last test xs obj) (if test x.0 obj then some x else none))
      regroup none = refl
      regroup (some y) = refl

  Distinct-append :
      (xs ys : Bucket K V)
      → Distinct test xs
      → Distinct test ys
      → All (λ x. All (λ y. test y.0 x.0 ≡ false) ys) xs
      → Distinct test (xs ++ ys)
  Distinct-append [] ys d e h = e
  Distinct-append (x ∷ xs) ys d e h =
      (All-append (λ y. test y.0 x.0 ≡ false) xs ys d.0 h.0, Distinct-append xs ys d.1 e h.1)

  module _ (place : K → ℕ) (n : ℕ) (p : IsPlacing test place n) where
    apart-All :
        (i : ℕ) (obj : K) (ls : Bucket K V)
        → i ≢ place obj
        → All (λ e. place e.0 ≡ i) ls
        → All (λ e. test e.0 obj ≡ false) ls
    apart-All i obj [] ne h = tt
    apart-All i obj (e ∷ ls) ne h =
        (apart p e.0 obj (λ s. ne (sym h.0 ∙ s)), apart-All i obj ls ne h.1)

    above :
        (i : ℕ) (bs : List (Bucket K V))
        → PlacedFrom test place i bs
        → All (λ e. i ≤ place e.0) (flatten bs)
    above i [] w = tt
    above i (b ∷ bs) w =
        All-append (λ e. i ≤ place e.0) b (flatten bs) (here b w.0)
          (later (flatten bs) (above (suc i) bs w.2))
      where
        here : (ls : Bucket K V) → All (λ e. place e.0 ≡ i) ls → All (λ e. i ≤ place e.0) ls
        here [] h = tt
        here (e ∷ ls) h = (omega arith, here ls h.1)

        later : (ls : Bucket K V) → All (λ e. suc i ≤ place e.0) ls → All (λ e. i ≤ place e.0) ls
        later [] h = tt
        later (e ∷ ls) h = (omega arith, later ls h.1)

    Distinct-flatten :
        (i : ℕ) (bs : List (Bucket K V)) → PlacedFrom test place i bs → Distinct test (flatten bs)
    Distinct-flatten i [] w = tt
    Distinct-flatten i (b ∷ bs) w =
        Distinct-append b (flatten bs) w.1 (Distinct-flatten (suc i) bs w.2)
          (cross b w.0 (flatten bs) (above (suc i) bs w.2))
      where
        far :
            (k : K)
            → place k ≡ i
            → (ls : Bucket K V) → All (λ e. suc i ≤ place e.0) ls
            → All (λ y. test y.0 k ≡ false) ls
        far k h [] g = tt
        far k h (e ∷ ls) g = (apart p e.0 k (omega arith), far k h ls g.1)

        cross :
            (xs : Bucket K V)
            → All (λ e. place e.0 ≡ i) xs
            → (ls : Bucket K V) → All (λ e. suc i ≤ place e.0) ls
            → All (λ x. All (λ y. test y.0 x.0 ≡ false) ls) xs
        cross [] h ls g = tt
        cross (x ∷ xs) h ls g = (far x.0 h.0 ls g, cross xs h.1 ls g)

    find_last-flatten_low :
        (i : ℕ) (bs : List (Bucket K V)) (obj : K)
        → PlacedFrom test place i bs
        → place obj < i
        → find_last test (flatten bs) obj ≡ none
    unfolding find_last
    find_last-flatten_low i [] obj w h = refl
    find_last-flatten_low i (b ∷ bs) obj w h = rw (
      find_last-append b (flatten bs) obj,
      find_last-flatten_low (suc i) bs obj w.2 (omega arith),
      find_last-none test b obj (apart-All i obj b (omega arith) w.0),
    )

    -- The last match among all entries is the first match in the key's bucket.
    find_last-flatten :
        IsEquality test
        → (i q : ℕ) (bs : List (Bucket K V)) (obj : K) → PlacedFrom test place i bs
        → place obj ≡ i + q
        → find_last test (flatten bs) obj ≡ scan test (get_or bs q []) obj
    unfolding find_last scan
    find_last-flatten eq i q [] obj w h = refl
    find_last-flatten eq i zero (b ∷ bs) obj w h =
        rw
          (
            find_last-append b (flatten bs) obj,
            find_last-flatten_low (suc i) bs obj w.2 (omega arith),
          )
          (find_last-scan test eq b obj w.1)
    find_last-flatten eq i (suc q) (b ∷ bs) obj w h =
        rw
          (
            find_last-append b (flatten bs) obj,
            find_last-flatten eq (suc i) q bs obj w.2 (omega arith),
            find_last-none test b obj (apart-All i obj b (omega arith) w.0),
          )
          (regroup (scan test (get_or bs q []) obj))
      where
        regroup : (o : Option (K × V)) → or_else o none ≡ o
        regroup none = refl
        regroup (some x) = refl

-- An empty array.
module _ {K : Type 0} (V : Type 0) (test : K → K → Bool) (place : K → ℕ) where
  replicate-PlacedFrom : (m i : ℕ) → PlacedFrom test place i (replicate {A = Bucket K V} m [])
  replicate-PlacedFrom zero i = tt
  replicate-PlacedFrom (suc m) i = (tt, tt, replicate-PlacedFrom m (suc i))

  fresh_in_empty :
      (m : ℕ) (ls : Bucket K V)
      → All (λ e. lookup test place (replicate {A = Bucket K V} m []) e.0 ≡ none) ls
  unfolding lookup scan
  fresh_in_empty m [] = tt
  fresh_in_empty m (e ∷ ls) =
      (rw (get_or-replicate {A = Bucket K V} m (place e.0) []), fresh_in_empty m ls)

-- Pushing every entry of a well-placed array into an empty one, by another placing.
module _ {K V : Type 0} (test : K → K → Bool) (eq : IsEquality test) (place place' : K → ℕ)
    (n n' : ℕ) (p : IsPlacing test place n) (p' : IsPlacing test place' n')
    (old : List (Bucket K V)) (w : PlacedFrom test place 0 old) where
  abbrev grown : List (Bucket K V)
  grown = push_all place' old (replicate n' [])

  pub lookup-push_all : (obj : K) → lookup test place' grown obj ≡ lookup test place old obj
  unfolding lookup scan
  lookup-push_all obj =
      ap (λ bs. lookup test place' bs obj) (push_all-flatten place' old (replicate n' []))
      ∙ lookup-push_bucket test place' n' p' (flatten old) (replicate n' []) obj
          (length-replicate n' [])
      ∙ ap (λ ls. or_else (find_last test (flatten old) obj) (scan test ls obj))
          (get_or-replicate n' (place' obj) [])
      ∙ or_else-none _
      ∙ find_last-flatten test place n p eq 0 (place obj) old obj w (omega arith)
    where
      or_else-none : (o : Option (K × V)) → or_else o none ≡ o
      or_else-none none = refl
      or_else-none (some x) = refl

  pub push_all-PlacedFrom : PlacedFrom test place' 0 grown
  push_all-PlacedFrom = rw (push_all-flatten place' old (replicate n' [])) (
      push_bucket-PlacedFrom test place' n' p' eq (flatten old) (replicate n' [])
        (length-replicate n' []) (replicate-PlacedFrom V test place' n' 0)
        (Distinct-flatten test place n p 0 old w) (fresh_in_empty V test place' n' (flatten old)))

  pub length-push_all : length grown ≡ n'
  length-push_all =
      ap length (push_all-flatten place' old (replicate n' []))
      ∙ length-push_bucket test place' n' p' (flatten old) (replicate n' [])
      ∙ length-replicate n' []

  pub entries-push_all : entries grown ≡ entries old
  entries-push_all =
      ap entries (push_all-flatten place' old (replicate n' []))
      ∙ entries-push_bucket test place' n' p' (flatten old) (replicate n' [])
          (length-replicate n' [])
      ∙ omega (arith, length-flatten old, entries-replicate K V n')
