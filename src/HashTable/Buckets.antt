-- ===== src/HashTable/Buckets.antt =====
-- Lookup in an array of buckets, and what pushing entries does to it.
use chibi_scheme.Prelude.{
  ◌≡◌, refl, Bool, true, false, Option, none, some, List, [], ◌∷◌, ◌++◌, if◌then◌else◌, Bool-cases,
  inl, inr, sym, ◌∙◌, All,
}
use chibi_scheme.HashTable.{Bucket, scan_bucket}

-- An equivalence of keys.
pub record IsEquality {K : Type 0} (test : K → K → Bool) : Type 0 where
  pub self : (a : K) → test a a ≡ true
  pub symm : (a b : K) → test a b ≡ true → test b a ≡ true
  pub trans : (a b c : K) → test a b ≡ true → test b c ≡ true → test a c ≡ true

abbrev pub or_else {ℓ} : {A : Type ℓ} → Option A → Option A → Option A
or_else none y = y
or_else (some x) y = some x

abbrev pub flatten {ℓ} : {A : Type ℓ} → List (List A) → List A
flatten [] = []
flatten (b ∷ bs) = b ++ flatten bs

module _ {K V : Type 0} (test : K → K → Bool) where
  -- The entry of a bucket with that key.
  unfoldable pub scan : Bucket K V → K → Option (K × V)
  scan [] obj = none
  scan (e ∷ ls) obj = if test e.0 obj then some e else scan ls obj

  pub scan_bucket-scan :
      (ls : Bucket K V) (obj : K)
      → scan ls obj ≡ elim (scan_bucket test ls obj) [ none ↦ none | some r ↦ some r.0 ]
  unfolding scan scan_bucket
  scan_bucket-scan [] obj = refl
  scan_bucket-scan ((k, v) ∷ ls) obj = elim (Bool-cases (test k obj)) [
    | inl e ↦ rw e
    | inr e ↦ rw e (scan_bucket-scan ls obj)
  ]

  unfoldable pub find_last : Bucket K V → K → Option (K × V)
  find_last [] obj = none
  find_last (e ∷ ls) obj = or_else (find_last ls obj) (if test e.0 obj then some e else none)

  -- No entry has a key equal to that of an earlier one.
  abbrev pub Distinct : Bucket K V → Type 0
  Distinct [] = Unit
  Distinct (e ∷ ls) = All (λ f. test f.0 e.0 ≡ false) ls × Distinct ls

  pub find_last-none :
      (ls : Bucket K V) (obj : K) → All (λ f. test f.0 obj ≡ false) ls → find_last ls obj ≡ none
  unfolding find_last
  find_last-none [] obj h = refl
  find_last-none (e ∷ ls) obj h = rw (h.0, find_last-none ls obj h.1)

  pub scan-none :
      (ls : Bucket K V) (obj : K) → scan ls obj ≡ none → All (λ f. test f.0 obj ≡ false) ls
  unfolding scan
  scan-none [] obj h = tt
  scan-none (e ∷ ls) obj h = elim (Bool-cases (test e.0 obj)) [
    | inl t ↦ let bad = rw t at h in absurd (cc)
    | inr t ↦ (t, scan-none ls obj (rw t at h))
  ]

  module _ (eq : IsEquality test) where
    others :
        (k obj : K) (ls : Bucket K V)
        → test k obj ≡ true
        → All (λ f. test f.0 k ≡ false) ls
        → All (λ f. test f.0 obj ≡ false) ls
    others k obj [] t h = tt
    others k obj (f ∷ ls) t h = (differs (test f.0 obj) refl, others k obj ls t h.1)
      where
        differs : (b : Bool) → test f.0 obj ≡ b → b ≡ false
        differs false e = refl
        differs true e = sym (eq.trans f.0 obj k e (eq.symm k obj t)) ∙ h.0

    -- With distinct keys the last match is the first.
    pub find_last-scan : (ls : Bucket K V) (obj : K) → Distinct ls → find_last ls obj ≡ scan ls obj
    unfolding find_last scan
    find_last-scan [] obj d = refl
    find_last-scan (e ∷ ls) obj d = elim (Bool-cases (test e.0 obj)) [
      | inl t ↦ rw (t, find_last-none ls obj (others e.0 obj ls t d.0))
      | inr t ↦ rw (t, find_last-scan ls obj d.1) (or_else-none (scan ls obj))
    ]
      where
        or_else-none : (o : Option (K × V)) → or_else o none ≡ o
        or_else-none none = refl
        or_else-none (some x) = refl
