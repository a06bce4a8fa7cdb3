-- ===== src/Sort/Entry.antt =====
-- `sort!`: the sequence it is given, the choice between the two sorts, and what it returns.
use mathlib.Core.List.{Perm}
use chibi_scheme.Prelude.{
  ◌-◌, ◌≤◌, ◌≡◌, ◌⊎◌, inl, inr, refl, ap, Bool, false, Option, none, some, List, [], ◌∷◌, length,
  replicate, length-replicate, arith, if◌then◌else◌,
}
use chibi_scheme.Sort.{merge_sort, merge_sort_less, if_is_less, vector_nreverse}
use chibi_scheme.Sort.Segment.{At-self, At-all}
use chibi_scheme.Sort.Merge.{IsOrder, Sorted}
use chibi_scheme.Sort.Sorted.{merge_sort-Sorts}
use chibi_scheme.Sort.Fallible.{merge_sort_less-merge_sort}

pub data Seq {ℓ} (A : Type ℓ) : Type ℓ where
  null other : Seq A
  vector list : List A → Seq A

-- The argument `less`: #f, an opcode of class ARITHMETIC_CMP by whether it is inverse and by its
-- application, another opcode or a procedure, or anything else.
pub data Less {ℓ κ} (A : Type ℓ) (E : Type κ) : Type (ℓ ⊔ κ) where
  no_less not_applicable : Less A E
  comparison : Bool → (A → A → E ⊎ Bool) → Less A E
  applies : (A → A → E ⊎ Bool) → Less A E

-- #f, a procedure, or anything else.
pub data Key {ℓ κ} (A : Type ℓ) (E : Type κ) : Type (ℓ ⊔ κ) where
  bad_key : Key A E
  key_of : Option (A → E ⊎ A) → Key A E

-- What is returned; the second part of a result is the argument after the call.
pub data Result {ℓ κ} (A : Type ℓ) (E : Type κ) : Type (ℓ ⊔ κ) where
  returned : Seq A → Result A E
  type_error : Result A E
  raised : E → Result A E

-- sexp_merge_sort on the whole vector
unfoldable pub sort_vector {ℓ} : {A : Type ℓ} → A → (A → A → Bool) → List A → List A
sort_vector void compare vec =
    (merge_sort void compare (length vec) vec (replicate (length vec) void) 0 (length vec - 1)).0

module _ {ℓ κ} {A : Type ℓ} {E : Type κ} where
  -- A list is filled anew from the vector; for a vector the result is `res`.
  unfoldable pub give_back : Seq A → List A → List A → Result A E × Seq A
  give_back (list xs) vec res = (returned (list vec), list vec)
  give_back (vector xs) vec res = (returned (vector res), vector vec)
  give_back seq vec res = (returned seq, seq)

  -- After the sort with applications: the scratch vector is the result.
  unfoldable pub applied : Seq A → Option E × (List A × List A) → Result A E × Seq A
  unfolding give_back
  applied (vector xs) (some e, (vec, scratch)) = (raised e, vector vec)
  applied seq (some e, (vec, scratch)) = (raised e, seq)
  applied seq (none, (vec, scratch)) = give_back seq vec scratch

  -- sexp_merge_sort_less on the whole vector
  sort_applying :
      A → Option (A → E ⊎ A) → (A → A → E ⊎ Bool) → List A → Option E × (List A × List A)
  sort_applying void key less vec =
      merge_sort_less void key less (length vec) vec (replicate (length vec) void) 0
        (length vec - 1)

  sort_with : A → (A → A → Bool) → Less A E → Key A E → Seq A → List A → Result A E × Seq A
  unfolding sort_vector sort_applying applied give_back
  sort_with void compare no_less (key_of none) seq vec =
      let sorted = sort_vector void compare vec in give_back seq sorted sorted
  sort_with void compare (comparison inverse apply) (key_of none) seq vec =
      let sorted = sort_vector void compare vec in
      let out = if inverse then vector_nreverse void sorted else sorted in give_back seq out out
  sort_with void compare (comparison inverse apply) (key_of key) seq vec =
      applied seq (sort_applying void key apply vec)
  sort_with void compare (applies apply) (key_of key) seq vec =
      applied seq (sort_applying void key apply vec)
  sort_with void compare less key seq vec = (type_error, seq)

  unfoldable pub sort_x : A → (A → A → Bool) → Less A E → Key A E → Seq A → Result A E × Seq A
  unfolding sort_with
  sort_x void compare less key null = (returned null, null)
  sort_x void compare less key (vector []) = (returned (vector []), vector [])
  sort_x void compare less key (vector (x ∷ xs)) =
      sort_with void compare less key (vector (x ∷ xs)) (x ∷ xs)
  sort_x void compare less key (list xs) = sort_with void compare less key (list xs) xs
  sort_x void compare less key other = (type_error, other)

module _ {ℓ} {A : Type ℓ} (void : A) (lt : A → A → Bool) (o : IsOrder lt) where
  -- The sorted rearrangement of a list.
  abbrev pub SortOf : List A → List A → Type ℓ
  SortOf xs ys = Sorted lt ys × Perm xs ys

  -- `sexp_merge_sort` on a whole array of at least one item, with fuel for each item and a scratch
  -- array as long, leaves the array sorted and a rearrangement of what it was, where the comparison
  -- is a strict weak order.
  pub merge_sort-SortOf :
      (xs : List A)
      → 1 ≤ length xs
      → SortOf xs
          (merge_sort void lt (length xs) xs (replicate (length xs) void) 0 (length xs - 1)).0
  merge_sort-SortOf xs h =
      let (s, n) =
        merge_sort-Sorts void lt o (length xs) xs (replicate (length xs) void) 0 (length xs - 1) xs
          h (omega arith) (omega arith) (omega arith)
          (omega (arith, length-replicate (length xs) void)) (At-self void xs) in
      let p = s.puts in
      let e = At-all void _ s.ys (omega (arith, p.size, p.total)) p.here in rw e (s.sorted, s.perm)

  -- `sort!` with #f or an opcode that compares and is not inverse: a vector of at least one item is
  -- sorted in place and returned.
  pub sort_x-vector {κ} :
      {E : Type κ} (less : Less A E) (apply : A → A → E ⊎ Bool) (x : A) (xs : List A)
      → (less ≡ no_less) ⊎ (less ≡ comparison false apply)
      → (ys : List A) × (sort_x void lt less (key_of none) (vector (x ∷ xs))
          ≡ (returned (vector ys), vector ys))
        × SortOf (x ∷ xs) ys
  unfolding sort_x sort_with sort_vector give_back
  sort_x-vector less apply x xs (inl e) = (_, rw e refl, merge_sort-SortOf (x ∷ xs) (omega arith))
  sort_x-vector less apply x xs (inr e) = (_, rw e refl, merge_sort-SortOf (x ∷ xs) (omega arith))

module _ {ℓ κ} {A : Type ℓ} {E : Type κ} (void : A) (compare : A → A → Bool)
    (key : Option (A → E ⊎ A)) (less : A → A → E ⊎ Bool) (lt : A → A → Bool)
    (answers : (a b : A) → if_is_less void key less a b ≡ inr (lt a b)) (o : IsOrder lt) where
  by_applying :
      (seq : Seq A) (xs : List A)
      → sort_with void compare (applies less) (key_of key) seq xs
        ≡ applied seq
            (none, merge_sort void lt (length xs) xs (replicate (length xs) void) 0 (length xs - 1))
  unfolding sort_with
  by_applying seq xs = ap (applied seq) (
      merge_sort_less-merge_sort void key less lt answers (length xs) xs
        (replicate (length xs) void) 0 (length xs - 1))

  -- `sort!` on a list with a procedure, and with a key or without one, where no application raises:
  -- the list is returned, filled with its items in order.
  pub sort_x-list :
      (x : A) (xs : List A)
      → (ys : List A) × (sort_x void compare (applies less) (key_of key) (list (x ∷ xs))
          ≡ (returned (list ys), list ys))
        × SortOf void lt o (x ∷ xs) ys
  unfolding sort_x
  sort_x-list x xs =
      (_, by_applying (list (x ∷ xs)) (x ∷ xs), merge_sort-SortOf void lt o (x ∷ xs) (omega arith))

  -- `sort!` on a vector of two or three items with a procedure sorts it, but what it returns is a
  -- vector of void.
  pub sort_x-replicate :
      (xs : List A)
      → 2 ≤ length xs
      → length xs ≤ 3
      → (ys : List A) × (sort_x void compare (applies less) (key_of key) (vector xs)
          ≡ (returned (vector (replicate (length xs) void)), vector ys))
        × SortOf void lt o xs ys
  unfolding sort_x merge_sort
  sort_x-replicate [] l h = absurd (omega arith)
  sort_x-replicate (x ∷ []) l h = absurd (omega arith)
  sort_x-replicate (x ∷ y ∷ []) l h = (
    _,
    by_applying (vector (x ∷ y ∷ [])) (x ∷ y ∷ []),
    merge_sort-SortOf void lt o (x ∷ y ∷ []) (omega arith),
  )
  sort_x-replicate (x ∷ y ∷ z ∷ []) l h = (
    _,
    by_applying (vector (x ∷ y ∷ z ∷ [])) (x ∷ y ∷ z ∷ []),
    merge_sort-SortOf void lt o (x ∷ y ∷ z ∷ []) (omega arith),
  )
  sort_x-replicate (x ∷ y ∷ z ∷ w ∷ xs) l h = absurd (omega arith)
