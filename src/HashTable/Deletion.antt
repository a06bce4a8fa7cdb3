-- ===== src/HashTable/Deletion.antt =====
-- `sexp_hash_table_delete` against a finite map.
use chibi_scheme.Prelude.{
  ℕ, suc, ◌+◌, ◌<◌, ◌≡◌, refl, Bool, true, false, Option, none, some, List, [], ◌∷◌, ◌==◌,
  if◌then◌else◌, length, get_or, set, length-set, get_or-set_self, get_or-set_ne, Bool-cases,
  Option-cases, inl, inr, arith, ap, sym, ◌∙◌, All,
}
use chibi_scheme.HashTable.{
  Objects, Bucket, Table, get_bucket, same_key, splice, bucket_of, found, hash_table_delete,
}
use chibi_scheme.HashTable.Buckets.{IsEquality, scan, Distinct}
use chibi_scheme.HashTable.Growth.{IsPlacing, lookup, PlacedFrom-set, PlacedFrom-get, entries-set}
use chibi_scheme.HashTable.Rehash.{apart}
use chibi_scheme.HashTable.Cells.{
  IsLawful, IsValid, contents, contents-found, placing, test-cong, Updates, contents-cong,
}

module _ {K V : Type 0} (test : K → K → Bool) (eq : IsEquality test) where
  scan-fresh :
      (ls : Bucket K V) (obj k : K)
      → test obj k ≡ true
      → All (λ f. test f.0 obj ≡ false) ls
      → scan test ls k ≡ none
  unfolding scan
  scan-fresh [] obj k h d = refl
  scan-fresh (e ∷ ls) obj k h d =
      rw (sym (test-cong test eq e.0 obj k h) ∙ d.0, scan-fresh ls obj k h d.1)

  others_fresh :
      (a obj : K) (ls : Bucket K V)
      → test a obj ≡ true
      → All (λ f. test f.0 a ≡ false) ls
      → All (λ f. test f.0 obj ≡ false) ls
  others_fresh a obj [] h d = tt
  others_fresh a obj (e ∷ ls) h d =
      (sym (test-cong test eq e.0 a obj h) ∙ d.0, others_fresh a obj ls h d.1)

  -- Splicing takes out the one entry with the key.
  scan-splice :
      (ls : Bucket K V) (obj k : K)
      → Distinct test ls
      → scan test (splice test ls obj) k ≡ (if test obj k then none else scan test ls k)
  unfolding scan splice
  scan-splice [] obj k d = elim (Bool-cases (test obj k)) [ inl h ↦ rw h refl | inr h ↦ rw h refl ]
  scan-splice (e ∷ ls) obj k d = elim (Bool-cases (test e.0 obj)) [
    | inl t ↦ elim (Bool-cases (test obj k)) [
      | inl h ↦ rw (t, h) (scan-fresh ls obj k h (others_fresh e.0 obj ls t d.0))
      | inr h ↦ let away : test e.0 k ≡ false = first e.0 obj k t h in rw (t, h, away)
    ]
    | inr t ↦ elim (Bool-cases (test obj k)) [
      | inl h ↦
          rw (t, h, sym (test-cong test eq e.0 obj k h) ∙ t) (scan-splice ls obj k d.1 ∙ rw h refl)
      | inr h ↦
          rw (t, h)
            (ap (λ r. if test e.0 k then some e else r) (scan-splice ls obj k d.1 ∙ rw h refl))
    ]
  ]
    where
      first : (a obj k : K) → test a obj ≡ true → test obj k ≡ false → test a k ≡ false
      first a obj k t h = elim (Bool-cases (test a k)) [
        | inl s ↦ absurd (let both = eq.trans obj a k (eq.symm a obj t) s in cc)
        | inr s ↦ s
      ]

  splice-All :
      (P : K × V → Type 0) (ls : Bucket K V) (obj : K) → All P ls → All P (splice test ls obj)
  unfolding splice
  splice-All P [] obj h = tt
  splice-All P (e ∷ ls) obj h = elim (Bool-cases (test e.0 obj)) [
    | inl t ↦ rw t h.1
    | inr t ↦ rw t (h.0, splice-All P ls obj h.1)
  ]

  splice-Distinct :
      (ls : Bucket K V) (obj : K) → Distinct test ls → Distinct test (splice test ls obj)
  unfolding splice
  splice-Distinct [] obj d = tt
  splice-Distinct (e ∷ ls) obj d = elim (Bool-cases (test e.0 obj)) [
    | inl t ↦ rw t d.1
    | inr t ↦ rw t (splice-All (λ f. test f.0 e.0 ≡ false) ls obj d.0, splice-Distinct ls obj d.1)
  ]

  length-splice :
      (ls : Bucket K V) (obj : K) (e : K × V)
      → scan test ls obj ≡ some e
      → suc (length (splice test ls obj)) ≡ length ls
  unfolding scan splice
  length-splice [] obj e h = absurd (cc)
  length-splice (f ∷ ls) obj e h = elim (Bool-cases (test f.0 obj)) [
    | inl t ↦ rw t refl
    | inr t ↦ rw t (ap suc (length-splice ls obj e (rw t at h)))
  ]

  module _ (place : K → ℕ) (n : ℕ) (p : IsPlacing test place n) where
    -- Splicing in the key's bucket, seen from every key.
    lookup-splice :
        (bs : List (Bucket K V)) (obj k : K)
        → length bs ≡ n
        → Distinct test (get_or bs (place obj) [])
        → lookup test place (set bs (place obj) (splice test (get_or bs (place obj) []) obj)) k
          ≡ (if test obj k then none else lookup test place bs k)
    unfolding lookup
    lookup-splice bs obj k len d =
        let b = get_or bs (place obj) [] in
        let s = splice test b obj in
        let inside : place obj < length bs = omega (arith, p.below obj) in
        elim (Bool-cases (place obj == place k)) [
          | inl h ↦
              let here : place obj ≡ place k = ground arith in
              rw (← here, get_or-set_self bs (place obj) s [] inside) (scan-splice b obj k d)
          | inr h ↦
              let away : test obj k ≡ false = apart p obj k (ground arith) in
              rw (get_or-set_ne bs (place obj) (place k) s [] (ground arith), away)
        ]

abbrev pub held {ℓ} : {A : Type ℓ} → Option A → ℕ
held none = 0
held (some x) = 1

module _ {K V : Type 0} (o : Objects K) where
  -- `sexp_hash_table_delete` on a valid table: afterwards the table holds nothing under the keys
  -- equal to this one and what it held under all others, it is valid, and its size is one less
  -- if there was an entry and the same if there was none.
  pub hash_table_delete_lem :
      (t : Table K V)
      → IsLawful o t.hash_fn t.eq_fn
      → IsValid o t
      → (obj : K)
      → let t' = hash_table_delete o t obj in
        Updates o t t' obj none × IsValid o t' × (t.size ≡ t'.size + held (contents o t obj))
  unfolding hash_table_delete lookup
  hash_table_delete_lem t l w obj = elim (Option-cases (found o t obj)) [
    | inl e ↦
        let gone : contents o t obj ≡ none = contents-found o t obj ∙ rw e refl in
        rw (e, hash_table_delete, gone)
          ((λ k. absent gone k (same_key o t.eq_fn obj k) refl), w, omega arith)
    | inr (r, e) ↦
        let old : contents o t obj ≡ some r.0 = contents-found o t obj ∙ rw e refl in
        let n = length t.buckets in
        let test = same_key o t.eq_fn in
        let i = bucket_of o t obj in
        let b = get_or t.buckets i [] in
        let p = placing l n w.nonempty in
        let z : i ≡ 0 + i = omega arith in
        let (h, d) = PlacedFrom-get test (bucket_of o t) n p 0 i t.buckets w.placed in
        let len = length-set t.buckets i (splice test b obj) in
        let s = splice test b obj in
        let one : suc (length s) ≡ length b = length-splice test l.equality b obj r.0 old in
        let count = entries-set test (bucket_of o t) n p i t.buckets s (p.below obj) in
        let kept =
          PlacedFrom-set test (bucket_of o t) n p 0 i t.buckets s w.placed
            (splice-All test l.equality (λ f. bucket_of o t f.0 ≡ 0 + i) b obj h)
            (splice-Distinct test l.equality b obj d) in
        rw (e, hash_table_delete, old)
          (
            λ k.
                ap (λ m. lookup test (get_bucket o t.hash_fn m) (set t.buckets i s) k) len
                ∙ lookup-splice test l.equality (bucket_of o t) n p t.buckets obj k refl d,
            record {
              nonempty = omega (arith, len, w.nonempty);
              placed = rw len kept;
              counted = omega (arith, w.counted, count, one);
            },
            omega (arith, w.counted, count, one),
          )
  ]
    where
      absent :
          contents o t obj ≡ none
          → (k : K) (b : Bool) → same_key o t.eq_fn obj k ≡ b
          → contents o t k ≡ (if b then none else contents o t k)
      absent g k true h = sym (contents-cong o t l obj k h) ∙ g
      absent g k false h = refl
