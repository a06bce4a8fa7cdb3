-- ===== src/HashTable.antt =====
-- lib/srfi/69/hash.c: the buckets, cells and growth of SRFI 69 hash tables.
pub mod Buckets
pub mod Growth
pub mod Rehash
pub mod Cells
pub mod Deletion
pub mod Strings
use chibi_scheme.Prelude.{
  ℕ, zero, suc, ◌+◌, ◌-◌, ◌*◌, ◌/◌, ◌%◌, ◌<◌, ◌≡◌, refl, Bool, true, false, not, ◌&&◌, ◌||◌, Option,
  none, some, List, [], ◌∷◌, ◌++◌, ◌==◌, ltb, leb, if◌then◌else◌, length, get_or, set, replicate,
}

-- What the table asks of objects: their bits, the tests on them, `sexp_equalp` and `sexp_hash`.
pub record Objects (K : Type 0) : Type 0 where
  pub bits : K → ℕ
  pub is_pointer : K → Bool
  pub is_symbol : K → Bool
  pub is_fixnum : K → Bool
  pub equalp : K → K → Bool
  pub hash : K → ℕ → ℕ

-- The slot `hash_fn`: 1 for identity, 2 for the general hash, or a procedure, which is given the
-- object and the number of buckets. `none` is an exception.
pub data HashFn (K : Type 0) : Type 0 where
  by_identity general : HashFn K
  procedure : (K → ℕ → Option ℕ) → HashFn K

-- The slot `eq_fn`: 1 for `eq?`, 2 for `equal?`, or a procedure, by whether its result is true.
pub data EqFn (K : Type 0) : Type 0 where
  by_eq by_equal : EqFn K
  by_procedure : (K → K → Bool) → EqFn K

abbrev pub Bucket : Type 0 → Type 0 → Type 0
Bucket K V = List (K × V)

pub record Table (K V : Type 0) : Type 0 where
  pub buckets : List (Bucket K V)
  pub size : ℕ
  pub hash_fn : HashFn K
  pub eq_fn : EqFn K

-- (n * 3) > (len >> 2)
unfoldable pub resize_check : ℕ → ℕ → Bool
resize_check n len = ltb (len / 4) (n * 3)

module _ {K : Type 0} (o : Objects K) where
  -- An error in the procedure or an index out of range counts as bucket 0.
  checked : ℕ → Option ℕ → ℕ
  checked len none = 0
  checked len (some i) = if leb len i then 0 else i

  unfoldable pub get_bucket : HashFn K → ℕ → K → ℕ
  unfolding checked
  get_bucket by_identity len obj = o.bits obj % len
  get_bucket general len obj = o.hash obj len
  get_bucket (procedure f) len obj = checked len (f obj len)

  -- Whether a stored key is the one that is sought.
  unfoldable pub same_key : EqFn K → K → K → Bool
  same_key by_eq k obj = o.bits k == o.bits obj
  same_key by_equal k obj =
      if (if o.is_pointer obj then o.is_symbol obj else not (o.is_fixnum obj))
      then o.bits k == o.bits obj
      else o.equalp k obj
  same_key (by_procedure f) k obj = f k obj

module _ {K V : Type 0} (test : K → K → Bool) where
  -- The first entry of the bucket with that key, at the head of the rest of the bucket.
  unfoldable pub scan_bucket : Bucket K V → K → Option ((K × V) × Bucket K V)
  scan_bucket [] obj = none
  scan_bucket ((k, v) ∷ ls) obj = if test k obj then some ((k, v), ls) else scan_bucket ls obj

  -- The bucket with that entry spliced out.
  unfoldable pub splice : Bucket K V → K → Bucket K V
  splice [] obj = []
  splice ((k, v) ∷ ls) obj = if test k obj then ls else (k, v) ∷ splice ls obj

module _ {K V : Type 0} (place : K → ℕ) where
  -- sexp_push(ctx, newvec[j], sexp_car(ls)), `j` the key's bucket.
  unfoldable pub push : K × V → List (Bucket K V) → List (Bucket K V)
  push e bs = let j = place e.0 in set bs j (e ∷ get_or bs j [])

  unfoldable pub push_bucket : Bucket K V → List (Bucket K V) → List (Bucket K V)
  unfolding push
  push_bucket [] bs = bs
  push_bucket (e ∷ ls) bs = push_bucket ls (push e bs)

  unfoldable pub push_all : List (Bucket K V) → List (Bucket K V) → List (Bucket K V)
  unfolding push_bucket
  push_all [] bs = bs
  push_all (b ∷ old) bs = push_all old (push_bucket b bs)

module _ {K V : Type 0} (o : Objects K) where
  -- Twice as many buckets, if there is room for them.
  unfoldable pub regrow : Bool → Table K V → Table K V
  unfolding push_all get_bucket
  regrow room t =
      let newsize = length t.buckets * 2 in
      if room
      then record t {
        buckets = push_all (get_bucket o t.hash_fn newsize) t.buckets (replicate newsize []);
      }
      else t

  abbrev pub bucket_of : Table K V → K → ℕ
  bucket_of t = get_bucket o t.hash_fn (length t.buckets)

  abbrev pub found : Table K V → K → Option ((K × V) × Bucket K V)
  found t obj = scan_bucket (same_key o t.eq_fn) (get_or t.buckets (bucket_of t obj) []) obj

  -- A new cell, with the bucket found again after growth.
  unfoldable pub add_cell : Table K V → K → V → Table K V × Option (K × V)
  unfolding push
  add_cell t obj v = (
    record t { buckets = push (bucket_of t) (obj, v) t.buckets; size = t.size + 1 },
    some (obj, v),
  )

  -- `createp` is `none` for #f, and otherwise the value of a cell that is made.
  unfoldable pub hash_table_cell : Bool → Table K V → K → Option V → Table K V × Option (K × V)
  unfolding regrow resize_check add_cell
  hash_table_cell room t obj createp = elim (found t obj) [
    | some r ↦ (t, some r.0)
    | none ↦ elim createp [
      | none ↦ (t, none)
      | some v ↦
          add_cell (if resize_check t.size (length t.buckets) then regrow room t else t) obj v
    ]
  ]

  unfoldable pub hash_table_delete : Table K V → K → Table K V
  unfolding splice
  hash_table_delete t obj = elim (found t obj) [
    | none ↦ t
    | some r ↦
        let i = bucket_of t obj in
        record t {
          size = t.size - 1;
          buckets = set t.buckets i (splice (same_key o t.eq_fn) (get_or t.buckets i []) obj);
        }
  ]
