-- ===== src/HashTable/Growth.antt =====
-- Pushing entries into buckets, as a new cell and as growth do.
use chibi_scheme.Prelude.{
  ℕ, zero, suc, ◌+◌, ◌<◌, ◌≡◌, refl, Bool, true, false, Option, none, some, List, [], ◌∷◌, ◌==◌,
  if◌then◌else◌, length, get_or, set, length-set, get_or-set_self, get_or-set_ne, Bool-cases, inl,
  inr, arith, ap, ◌∙◌, All,
}
use chibi_scheme.HashTable.{Bucket, push, push_bucket}
use chibi_scheme.HashTable.Buckets.{IsEquality, or_else, scan, find_last, Distinct, scan-none}

-- Equal keys have one bucket, and it is in range.
pub record IsPlacing {K : Type 0} (test : K → K → Bool) (place : K → ℕ) (n : ℕ) : Type 0 where
  pub same : (k obj : K) → test k obj ≡ true → place k ≡ place obj
  pub below : (k : K) → place k < n

-- How many entries there are.
unfoldable pub entries : {K V : Type 0} → List (Bucket K V) → ℕ
entries [] = 0
entries (b ∷ bs) = length b + entries bs

module _ {K V : Type 0} (test : K → K → Bool) (place : K → ℕ) where
  -- Every entry stands in the bucket of its key, `i` being the first bucket's index, and no two
  -- entries of a bucket have equal keys.
  abbrev pub PlacedFrom : ℕ → List (Bucket K V) → Type 0
  PlacedFrom i [] = Unit
  PlacedFrom i (b ∷ bs) = All (λ e. place e.0 ≡ i) b × Distinct test b × PlacedFrom (suc i) bs

  unfoldable pub lookup : List (Bucket K V) → K → Option (K × V)
  lookup bs obj = scan test (get_or bs (place obj) []) obj

  module _ (n : ℕ) (p : IsPlacing test place n) where
    pub lookup-push :
        (e : K × V) (bs : List (Bucket K V)) (obj : K)
        → length bs ≡ n
        → lookup (push place e bs) obj ≡ (if test e.0 obj then some e else lookup bs obj)
    unfolding lookup push scan
    lookup-push e bs obj len =
        let inside : place e.0 < length bs = omega (arith, p.below e.0) in
        let new = e ∷ get_or bs (place e.0) [] in
        elim (Bool-cases (test e.0 obj)) [
          | inl t ↦ rw (← p.same e.0 obj t, get_or-set_self bs (place e.0) new [] inside, t)
          | inr t ↦ elim (Bool-cases (place e.0 == place obj)) [
            | inl s ↦
                let at : place e.0 ≡ place obj = ground arith in
                rw (← at, get_or-set_self bs (place e.0) new [] inside, t)
            | inr s ↦ rw (get_or-set_ne bs (place e.0) (place obj) new [] (ground arith), t)
          ]
        ]

    pub length-push : (e : K × V) (bs : List (Bucket K V)) → length (push place e bs) ≡ length bs
    unfolding push
    length-push e bs = length-set bs (place e.0) _

    pub lookup-push_bucket :
        (ls : Bucket K V) (bs : List (Bucket K V)) (obj : K)
        → length bs ≡ n
        → lookup (push_bucket place ls bs) obj ≡ or_else (find_last test ls obj) (lookup bs obj)
    unfolding push_bucket find_last
    lookup-push_bucket [] bs obj len = refl
    lookup-push_bucket (e ∷ ls) bs obj len =
        lookup-push_bucket ls (push place e bs) obj (length-push e bs ∙ len)
        ∙ ap (or_else (find_last test ls obj)) (lookup-push e bs obj len)
        ∙ regroup (find_last test ls obj) (test e.0 obj)
      where
        regroup :
            (o : Option (K × V)) (b : Bool)
            → or_else o (if b then some e else lookup bs obj)
              ≡ or_else (or_else o (if b then some e else none)) (lookup bs obj)
        regroup none true = refl
        regroup none false = refl
        regroup (some x) b = refl

    lookup-none :
        (bs : List (Bucket K V)) (obj : K)
        → lookup bs obj ≡ none
        → All (λ f. test f.0 obj ≡ false) (get_or bs (place obj) [])
    unfolding lookup
    lookup-none bs obj h = scan-none test (get_or bs (place obj) []) obj h

    -- A new key keeps every entry in its place.
    pub PlacedFrom-set :
        (i q : ℕ) (bs : List (Bucket K V)) (b : Bucket K V)
        → PlacedFrom i bs
        → All (λ e. place e.0 ≡ i + q) b
        → Distinct test b
        → PlacedFrom i (set bs q b)
    PlacedFrom-set i q [] b w h d = tt
    PlacedFrom-set i zero (c ∷ bs) b w h d =
        ((let e : i + 0 ≡ i = omega arith in rw e at h), d, w.2)
    PlacedFrom-set i (suc q) (c ∷ bs) b w h d =
        let e : i + suc q ≡ suc i + q = omega arith in
        (w.0, w.1, PlacedFrom-set (suc i) q bs b w.2 (rw e at h) d)

    pub PlacedFrom-get :
        (i q : ℕ) (bs : List (Bucket K V))
        → PlacedFrom i bs
        → All (λ e. place e.0 ≡ i + q) (get_or bs q []) × Distinct test (get_or bs q [])
    PlacedFrom-get i q [] w = (tt, tt)
    PlacedFrom-get i zero (c ∷ bs) w = let e : i ≡ i + 0 = omega arith in (rw e at w.0, w.1)
    PlacedFrom-get i (suc q) (c ∷ bs) w =
        let e : suc i + q ≡ i + suc q = omega arith in
        let (h, d) = PlacedFrom-get (suc i) q bs w.2 in (rw e at h, d)

    pub push-PlacedFrom :
        (e : K × V) (bs : List (Bucket K V))
        → PlacedFrom 0 bs
        → lookup bs e.0 ≡ none
        → PlacedFrom 0 (push place e bs)
    unfolding push
    push-PlacedFrom e bs w fresh =
        let z : place e.0 ≡ 0 + place e.0 = omega arith in
        let (h, d) = PlacedFrom-get 0 (place e.0) bs w in
        PlacedFrom-set 0 (place e.0) bs _ w (z, h) (lookup-none bs e.0 fresh, d)

    pub entries-set :
        (q : ℕ) (bs : List (Bucket K V)) (b : Bucket K V)
        → q < length bs
        → entries (set bs q b) + length (get_or bs q []) ≡ entries bs + length b
    unfolding entries
    entries-set q [] b h = absurd (omega arith)
    entries-set zero (c ∷ bs) b h = omega arith
    entries-set (suc q) (c ∷ bs) b h = omega (arith, entries-set q bs b (omega arith))

    pub entries-push :
        (e : K × V) (bs : List (Bucket K V))
        → length bs ≡ n
        → entries (push place e bs) ≡ suc (entries bs)
    unfolding push
    entries-push e bs len = omega (
      arith,
      entries-set (place e.0) bs (e ∷ get_or bs (place e.0) []) (omega (arith, p.below e.0)),
    )

    -- Pushing distinct new keys one by one.
    module _ (eq : IsEquality test) where
      pub push_bucket-PlacedFrom :
          (ls : Bucket K V) (bs : List (Bucket K V))
          → length bs ≡ n
          → PlacedFrom 0 bs
          → Distinct test ls
          → All (λ e. lookup bs e.0 ≡ none) ls
          → PlacedFrom 0 (push_bucket place ls bs)
      unfolding push_bucket
      push_bucket-PlacedFrom [] bs len w d fresh = w
      push_bucket-PlacedFrom (e ∷ ls) bs len w d fresh =
          push_bucket-PlacedFrom ls (push place e bs) (length-push e bs ∙ len)
            (push-PlacedFrom e bs w fresh.0) d.1 (still ls d.0 fresh.1)
        where
          flip : (a b : K) → test a b ≡ false → test b a ≡ false
          flip a b h = elim (Bool-cases (test b a)) [
            | inl t ↦ absurd (let back = eq.symm b a t in cc)
            | inr t ↦ t
          ]

          still :
              (fs : Bucket K V)
              → All (λ f. test f.0 e.0 ≡ false) fs
              → All (λ f. lookup bs f.0 ≡ none) fs
              → All (λ f. lookup (push place e bs) f.0 ≡ none) fs
          still [] h g = tt
          still (f ∷ fs) h g =
              ((lookup-push e bs f.0 len ∙ rw (flip f.0 e.0 h.0) g.0), still fs h.1 g.1)

    pub length-push_bucket :
        (ls : Bucket K V) (bs : List (Bucket K V)) → length (push_bucket place ls bs) ≡ length bs
    unfolding push_bucket
    length-push_bucket [] bs = refl
    length-push_bucket (e ∷ ls) bs = length-push_bucket ls (push place e bs) ∙ length-push e bs

    pub entries-push_bucket :
        (ls : Bucket K V) (bs : List (Bucket K V))
        → length bs ≡ n
        → entries (push_bucket place ls bs) ≡ length ls + entries bs
    unfolding push_bucket
    entries-push_bucket [] bs len = omega arith
    entries-push_bucket (e ∷ ls) bs len = omega (
      arith,
      entries-push_bucket ls (push place e bs) (length-push e bs ∙ len),
      entries-push e bs len,
    )
