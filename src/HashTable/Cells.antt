-- ===== src/HashTable/Cells.antt =====
-- `sexp_hash_table_cell` against a finite map, and growth with what the table holds.
use chibi_scheme.Prelude.{
  ℕ, ◌+◌, ◌*◌, ◌<◌, ◌≡◌, refl, Bool, true, false, Option, none, some, [], ◌∷◌, if◌then◌else◌,
  length, get_or, replicate, Bool-cases, Option-cases, inl, inr, arith, ap, sym, ◌∙◌,
}
use native.Mathlib.Nat.{mod-lt}
use chibi_scheme.HashTable.{
  Objects, HashFn, by_identity, general, procedure, EqFn, Bucket, Table, get_bucket, same_key, push,
  push_all, regrow, resize_check, add_cell, bucket_of, found, hash_table_cell,
}
use chibi_scheme.HashTable.Buckets.{IsEquality, or_else, scan, scan_bucket-scan}
use chibi_scheme.HashTable.Growth.{
  IsPlacing, entries, PlacedFrom, lookup, lookup-push, length-push, push-PlacedFrom, entries-push,
}
use chibi_scheme.HashTable.Rehash.{
  lookup-push_all, push_all-PlacedFrom, length-push_all, entries-push_all,
}

-- What SRFI 69 asks of the two procedures: the test is an equivalence, and equal keys hash alike,
-- for every number of buckets; and the general hash stays below its bound.
pub record IsLawful {K : Type 0} (o : Objects K) (h : HashFn K) (e : EqFn K) : Type 0 where
  pub equality : IsEquality (same_key o e)
  pub agree :
      (len : ℕ) (a b : K) → same_key o e a b ≡ true → get_bucket o h len a ≡ get_bucket o h len b
  pub bounded : (k : K) (len : ℕ) → 0 < len → o.hash k len < len

module _ {K : Type 0} {o : Objects K} {h : HashFn K} {e : EqFn K} (l : IsLawful o h e) where
  get_bucket-lt : (f : HashFn K) (len : ℕ) (k : K) → 0 < len → get_bucket o f len k < len
  unfolding get_bucket
  get_bucket-lt by_identity len k pos = mod-lt (o.bits k) pos
  get_bucket-lt general len k pos = l.bounded k len pos
  get_bucket-lt (procedure f) len k pos = ground arith

  pub placing : (len : ℕ) → 0 < len → IsPlacing (same_key o e) (get_bucket o h len) len
  placing len pos = record { same = l.agree len; below = λ k. get_bucket-lt h len k pos }

module _ {K V : Type 0} (o : Objects K) where
  -- The entry that the table holds under a key.
  abbrev pub contents : Table K V → K → Option (K × V)
  contents t = lookup (same_key o t.eq_fn) (bucket_of o t) t.buckets

  pub record IsValid (t : Table K V) : Type 0 where
    pub nonempty : 0 < length t.buckets
    pub placed : PlacedFrom (same_key o t.eq_fn) (bucket_of o t) 0 t.buckets
    pub counted : t.size ≡ entries t.buckets

  -- Growth changes neither the contents nor the size, and keeps a table valid.
  pub regrow_lem :
      (room : Bool) (t : Table K V)
      → IsLawful o t.hash_fn t.eq_fn
      → IsValid t
      → ((k : K) → contents (regrow o room t) k ≡ contents t k)
        × ((regrow o room t).size ≡ t.size)
        × IsValid (regrow o room t)
  unfolding regrow
  regrow_lem false t l v = (λ k. refl, refl, v)
  regrow_lem true t l v =
      let n = length t.buckets in
      let test = same_key o t.eq_fn in
      let p = placing l n v.nonempty in
      let p' = placing l (n * 2) (omega (arith, v.nonempty)) in
      let place' = get_bucket o t.hash_fn (n * 2) in
      let len =
        length-push_all test l.equality (bucket_of o t) place' n (n * 2) p p' t.buckets v.placed in
      (
        λ k.
            ap
              (λ m.
                lookup test (get_bucket o t.hash_fn m)
                  (push_all place' t.buckets (replicate (n * 2) [])) k)
              len
            ∙ lookup-push_all test l.equality (bucket_of o t) place' n (n * 2) p p' t.buckets
                v.placed k,
        refl,
        record {
          nonempty = omega (arith, len, v.nonempty);
          placed = rw len (
              push_all-PlacedFrom test l.equality (bucket_of o t) place' n (n * 2) p p' t.buckets
                v.placed);
          counted =
              v.counted
              ∙ sym (
                  entries-push_all test l.equality (bucket_of o t) place' n (n * 2) p p' t.buckets
                    v.placed);
        },
      )

pub test-cong :
    {K : Type 0} (test : K → K → Bool)
    → IsEquality test
    → (a obj k : K) → test obj k ≡ true
    → test a obj ≡ test a k
test-cong test eq a obj k h = elim (Bool-cases (test a obj)) [
  | inl s ↦ s ∙ sym (eq.trans a obj k s h)
  | inr s ↦ elim (Bool-cases (test a k)) [
    | inl r ↦ absurd (let back = eq.trans a k obj r (eq.symm obj k h) in cc)
    | inr r ↦ s ∙ sym r
  ]
]

pub scan-cong :
    {K V : Type 0} (test : K → K → Bool)
    → IsEquality test
    → (ls : Bucket K V) (obj k : K) → test obj k ≡ true
    → scan test ls obj ≡ scan test ls k
unfolding scan
scan-cong test eq [] obj k h = refl
scan-cong test eq (e ∷ ls) obj k h =
    rw (test-cong test eq e.0 obj k h, scan-cong test eq ls obj k h)

module _ {K V : Type 0} (o : Objects K) where
  pub contents-found :
      (t : Table K V) (obj : K)
      → contents o t obj ≡ elim (found o t obj) [ none ↦ none | some r ↦ some r.0 ]
  unfolding lookup
  contents-found t obj = scan_bucket-scan (same_key o t.eq_fn) _ obj

  pub contents-cong :
      (t : Table K V)
      → IsLawful o t.hash_fn t.eq_fn
      → (obj k : K) → same_key o t.eq_fn obj k ≡ true
      → contents o t obj ≡ contents o t k
  unfolding lookup
  contents-cong t l obj k h =
      ap (λ i. scan (same_key o t.eq_fn) (get_or t.buckets i []) obj)
        (l.agree (length t.buckets) obj k h)
      ∙ scan-cong (same_key o t.eq_fn) l.equality _ obj k h

  -- What a step of the program does to the table as a map: `c` under the keys equal to `obj`.
  abbrev pub Updates : Table K V → Table K V → K → Option (K × V) → Type 0
  Updates t t' obj c =
      (k : K) → contents o t' k ≡ (if same_key o t.eq_fn obj k then c else contents o t k)

  add_cell_lem :
      (t : Table K V)
      → IsLawful o t.hash_fn t.eq_fn
      → IsValid o t
      → (obj : K) (v : V) → contents o t obj ≡ none
      → Updates t (add_cell o t obj v).0 obj (some (obj, v)) × IsValid o (add_cell o t obj v).0
  unfolding add_cell
  add_cell_lem t l w obj v fresh =
      let n = length t.buckets in
      let test = same_key o t.eq_fn in
      let p = placing l n w.nonempty in
      let len = length-push test (bucket_of o t) n p (obj, v) t.buckets in
      let bs = push (bucket_of o t) (obj, v) t.buckets in
      (
        λ k.
            ap (λ m. lookup test (get_bucket o t.hash_fn m) bs k) len
            ∙ lookup-push test (bucket_of o t) n p (obj, v) t.buckets k refl,
        record {
          nonempty = omega (arith, len, w.nonempty);
          placed =
              rw len (push-PlacedFrom test (bucket_of o t) n p (obj, v) t.buckets w.placed fresh);
          counted =
              omega
                (arith, w.counted, entries-push test (bucket_of o t) n p (obj, v) t.buckets refl);
        },
      )

  -- The table that a new cell goes into.
  grown_if : Bool → Bool → Table K V → Table K V
  grown_if crowded room t = if crowded then regrow o room t else t

  create_lem :
      (crowded room : Bool) (t : Table K V)
      → IsLawful o t.hash_fn t.eq_fn
      → IsValid o t
      → (obj : K) (v : V) → contents o t obj ≡ none
      → let r = add_cell o (grown_if crowded room t) obj v in
        Updates t r.0 obj (some (obj, v))
        × IsValid o r.0
        × (r.1 ≡ some (obj, v))
        × (r.0.size ≡ t.size + 1)
  unfolding grown_if add_cell regrow
  create_lem false room t l w obj v fresh =
      let (up, valid) = add_cell_lem t l w obj v fresh in (up, valid, refl, refl)
  create_lem true false t l w obj v fresh =
      let (up, valid) = add_cell_lem t l w obj v fresh in (up, valid, refl, refl)
  create_lem true true t l w obj v fresh =
      let (same, _, w') = regrow_lem o true t l w in
      let (up, valid) = add_cell_lem (regrow o true t) l w' obj v (same obj ∙ fresh) in
      (
        λ k. up k ∙ ap (λ c. if same_key o t.eq_fn obj k then some (obj, v) else c) (same k),
        valid,
        refl,
        refl,
      )

  -- `sexp_hash_table_cell` on a valid table, with a value to create: the cell that it returns is
  -- the one under that key, or else a new one; afterwards the keys equal to this one have that
  -- cell, all others have what they had, through growth too, and the table is valid.
  pub hash_table_cell_lem :
      (room : Bool) (t : Table K V)
      → IsLawful o t.hash_fn t.eq_fn
      → IsValid o t
      → (obj : K) (v : V)
      → let (t', c) = hash_table_cell o room t obj (some v) in
        (c ≡ or_else (contents o t obj) (some (obj, v))) × Updates t t' obj c × IsValid o t'
  unfolding hash_table_cell grown_if
  hash_table_cell_lem room t l w obj v = elim (Option-cases (found o t obj)) [
    | inl e ↦
        let fresh : contents o t obj ≡ none = contents-found t obj ∙ rw e refl in
        let (up, valid, made, _) =
          create_lem (resize_check t.size (length t.buckets)) room t l w obj v fresh in
        rw (e, hash_table_cell, fresh) (refl, up, valid)
    | inr (r, e) ↦
        let old : contents o t obj ≡ some r.0 = contents-found t obj ∙ rw e refl in
        rw (e, hash_table_cell, old)
          (refl, (λ k. kept r.0 k old (same_key o t.eq_fn obj k) refl), w)
  ]
    where
      kept :
          (c : K × V) (k : K)
          → contents o t obj ≡ some c
          → (b : Bool) → same_key o t.eq_fn obj k ≡ b
          → contents o t k ≡ (if b then some c else contents o t k)
      kept c k old true h = sym (contents-cong t l obj k h) ∙ old
      kept c k old false h = refl

  -- Without a value to create the table is only read.
  pub hash_table_cell-read :
      (room : Bool) (t : Table K V) (obj : K)
      → hash_table_cell o room t obj none ≡ (t, contents o t obj)
  unfolding hash_table_cell
  hash_table_cell-read room t obj = elim (Option-cases (found o t obj)) [
    | inl e ↦ rw (contents-found t obj, e, hash_table_cell)
    | inr (r, e) ↦ rw (contents-found t obj, e, hash_table_cell)
  ]
