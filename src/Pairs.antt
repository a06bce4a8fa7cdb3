-- ===== src/Pairs.antt =====
-- The list utilities of sexp.c. A pair is an address, and the store has the two fields of each; lists
-- may share pairs, end in any object or run in a circle.
pub mod Shapes
pub mod Cycles
pub mod Building
pub mod InPlace
pub mod Searching
use chibi_scheme.Prelude.{
  ℕ, zero, suc, ◌+◌, Bool, true, false, Option, none, some, ◌==◌, if◌then◌else◌, ◌&&◌, ◌>>=◌,
}

-- The empty list, any other object that is no pair, and a pair
pub data Datum : Type 0 where
  null : Datum
  atom : ℕ → Datum
  pair : ℕ → Datum

-- `next` is the address of the next pair that is made.
pub record Store : Type 0 where
  pub cars : ℕ → Datum
  pub cdrs : ℕ → Datum
  pub next : ℕ

-- x == y
unfoldable pub same : Datum → Datum → Bool
same null null = true
same null (atom n) = false
same null (pair q) = false
same (atom m) null = false
same (atom m) (atom n) = m == n
same (atom m) (pair q) = false
same (pair p) null = false
same (pair p) (atom n) = false
same (pair p) (pair q) = p == q

unfoldable pub is_pair : Datum → Bool
is_pair null = false
is_pair (atom n) = false
is_pair (pair p) = true

unfoldable pub is_null : Datum → Bool
is_null null = true
is_null (atom n) = false
is_null (pair p) = false

-- The cdr of a pair; anything else stays.
unfoldable pub cdr_of : (ℕ → Datum) → Datum → Datum
cdr_of cdrs null = null
cdr_of cdrs (atom n) = atom n
cdr_of cdrs (pair p) = cdrs p

unfoldable pub put : ℕ → Datum → (ℕ → Datum) → ℕ → Datum
put p d field = λ a. if a == p then d else field a

unfoldable pub cons : Datum → Datum → Store → Datum × Store
unfolding put
cons head tail s = (
  pair s.next,
  record { cars = put s.next head s.cars; cdrs = put s.next tail s.cdrs; next = suc s.next },
)

-- for ( ; sexp_pairp(hare); turtle=sexp_cdr(turtle)), on fuel: the hare takes two steps, if the
-- first leads to a pair.
unfoldable pub listp_loop : ℕ → (ℕ → Datum) → Datum → Datum → Option Bool
unfolding same is_pair is_null cdr_of
listp_loop zero cdrs turtle hare = none
listp_loop (suc fuel) cdrs turtle hare =
    let rest = listp_loop fuel cdrs (cdr_of cdrs turtle) (cdr_of cdrs (cdr_of cdrs hare)) in
    if is_pair hare then (if same hare turtle then some false else rest) else some (is_null hare)

unfoldable pub listp_op : ℕ → (ℕ → Datum) → Datum → Option Bool
unfolding listp_loop is_pair is_null cdr_of
listp_op fuel cdrs hare =
    if is_pair hare then listp_loop fuel cdrs hare (cdr_of cdrs hare) else some (is_null hare)

-- The inner option is the answer: a number, or #f.
unfoldable pub length_loop : ℕ → (ℕ → Datum) → ℕ → Datum → Datum → Option (Option ℕ)
unfolding same is_pair cdr_of
length_loop zero cdrs res ls1 ls2 = none
length_loop (suc fuel) cdrs res ls1 ls2 =
    let rest = length_loop fuel cdrs (res + 2) (cdr_of cdrs ls1) (cdr_of cdrs (cdr_of cdrs ls2)) in
    if is_pair ls2 && is_pair (cdr_of cdrs ls2)
    then (if same ls1 ls2 then some none else rest)
    else some (some (res + (if is_pair ls2 then 1 else 0)))

unfoldable pub length_op : ℕ → (ℕ → Datum) → Datum → Option (Option ℕ)
unfolding length_loop is_pair cdr_of
length_op fuel cdrs ls1 =
    if is_pair ls1 then length_loop fuel cdrs 1 ls1 (cdr_of cdrs ls1) else some (some 0)

-- while (sexp_pairp(ls)); `some none` is #f.
unfoldable pub memq_op : ℕ → (ℕ → Datum) → (ℕ → Datum) → Datum → Datum → Option (Option Datum)
unfolding same
memq_op zero cars cdrs x ls = none
memq_op (suc fuel) cars cdrs x null = some none
memq_op (suc fuel) cars cdrs x (atom n) = some none
memq_op (suc fuel) cars cdrs x (pair p) =
    let rest = memq_op fuel cars cdrs x (cdrs p) in
    if same x (cars p) then some (some (pair p)) else rest

-- x == sexp_caar(ls), if the car is a pair
unfoldable pub is_entry : (ℕ → Datum) → Datum → Datum → Bool
unfolding same
is_entry cars x null = false
is_entry cars x (atom n) = false
is_entry cars x (pair p) = same x (cars p)

unfoldable pub assq_op : ℕ → (ℕ → Datum) → (ℕ → Datum) → Datum → Datum → Option (Option Datum)
unfolding is_entry
assq_op zero cars cdrs x ls = none
assq_op (suc fuel) cars cdrs x null = some none
assq_op (suc fuel) cars cdrs x (atom n) = some none
assq_op (suc fuel) cars cdrs x (pair p) =
    let rest = assq_op fuel cars cdrs x (cdrs p) in
    if is_entry cars x (cars p) then some (some (cars p)) else rest

-- The items of ls, one by one, in front of res
unfoldable pub reverse_loop : ℕ → Datum → Datum → Store → Option (Datum × Store)
unfolding cons
reverse_loop zero ls res s = none
reverse_loop (suc fuel) null res s = some (res, s)
reverse_loop (suc fuel) (atom n) res s = some (res, s)
reverse_loop (suc fuel) (pair p) res s =
    let made = cons (s.cars p) res s in reverse_loop fuel (s.cdrs p) made.0 made.1

unfoldable pub reverse_op : ℕ → Datum → Store → Option (Datum × Store)
unfolding reverse_loop
reverse_op fuel ls s = reverse_loop fuel ls null s

unfoldable pub append2_op : ℕ → Datum → Datum → Store → Option (Datum × Store)
unfolding reverse_op reverse_loop
append2_op fuel a b s = reverse_op fuel a s >>= λ made. reverse_loop fuel made.0 b made.1

-- for ( ; sexp_pairp(a); b=a, a=tmp), which writes over the cdrs
unfoldable pub nreverse_loop : ℕ → Datum → Datum → Store → Option (Datum × Store)
unfolding put
nreverse_loop zero b a s = none
nreverse_loop (suc fuel) b null s = some (b, s)
nreverse_loop (suc fuel) b (atom n) s = some (b, s)
nreverse_loop (suc fuel) b (pair p) s =
    nreverse_loop fuel (pair p) (s.cdrs p) (record s { cdrs = put p b s.cdrs })

-- `some none` is the type error.
unfoldable pub nreverse_op : ℕ → Datum → Store → Option (Option (Datum × Store))
unfolding nreverse_loop put
nreverse_op fuel null s = some (some (null, s))
nreverse_op fuel (atom n) s = some none
nreverse_op fuel (pair p) s =
    nreverse_loop fuel (pair p) (s.cdrs p) (record s { cdrs = put p null s.cdrs }) >>= λ done.
    some (some done)
