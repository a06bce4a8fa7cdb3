-- ===== src/Gc/Chunks.antt =====
-- gc.c: the chain of chunks: the sweep over it, a new chunk, and allocation from the free lists. What
-- the operating system's allocator gives is a parameter, an address or nothing.
use chibi_scheme.Prelude.{
  ℕ, suc, ◌+◌, ◌-◌, ◌*◌, Bool, true, false, ◌&&◌, ◌||◌, Option, none, some, List, [], ◌∷◌, ◌==◌,
  ltb, leb, if◌then◌else◌, ◌>>=◌,
}
use chibi_scheme.Gc.Mark.{Value, Graph, sexp_mark}
use chibi_scheme.Gc.{Block, Heap, Objects, Sweep, unit, heap_align, sweep_loop, rejoin}

abbrev pub first_block : Heap → ℕ
first_block h = h.start + unit

abbrev pub heap_end : Heap → ℕ
heap_end h = h.start + h.size

-- One chunk: the fuel is a round for each byte.
unfoldable pub sweep_heap : Heap → Sweep → Option (Heap × Sweep)
unfolding sweep_loop rejoin
sweep_heap h s = do
  t ←
      sweep_loop (suc h.size) (heap_end h)
        (record s { pos = first_block h; before = []; after = h.free_list })
  some (record h { free_list = rejoin t.before t.after }, t)

-- for ( ; h; h=h->next)
unfoldable pub sweep_heaps : List Heap → Sweep → Option (List Heap × Sweep)
unfolding sweep_heap
sweep_heaps [] s = some ([], s)
sweep_heaps (h ∷ heaps) s = do
  first ← sweep_heap h s
  rest ← sweep_heaps heaps first.1
  some (first.0 ∷ rest.0, rest.1)

-- The chain, the objects and the two sizes that a collection gives back.
pub record Swept : Type 0 where
  pub heaps : List Heap
  pub objects : Objects
  pub max_freed : ℕ
  pub sum_freed : ℕ

unfoldable pub sexp_sweep : List Heap → Objects → Option Swept
unfolding sweep_heaps
sexp_sweep heaps objects = do
  result ←
      sweep_heaps heaps (record {
        pos = 0;
        before = [];
        after = [];
        objects = objects;
        max_freed = 0;
        sum_freed = 0;
      })
  some (record {
    heaps = result.0;
    objects = result.1.objects;
    max_freed = result.1.max_freed;
    sum_freed = result.1.sum_freed;
  })

-- sexp_heap_last, of the chain h and its `next` chunks
unfoldable pub heap_last : Heap → List Heap → Heap
heap_last h [] = h
heap_last h (g ∷ next) = heap_last g next

unfoldable pub heap_total_size : List Heap → ℕ
heap_total_size [] = 0
heap_total_size (h ∷ next) = h.size + heap_total_size next

-- `start` is the address of the new chunk's memory, when the allocator gives some.
unfoldable pub make_heap : Option ℕ → ℕ → ℕ → Option Heap
make_heap none size max_size = none
make_heap (some start) size max_size = some (record {
  start = start;
  size = size;
  max_size = max_size;
  free_list = record { addr = start + unit; size = size - unit } ∷ [];
})

-- tmp->next = h->next; h->next = tmp, where h is the last chunk
unfoldable pub link_last : Heap → List Heap → Heap → List Heap
link_last h [] tmp = h ∷ tmp ∷ []
link_last h (g ∷ next) tmp = h ∷ link_last g next tmp

unfoldable pub grown_size : Heap → ℕ → ℕ
unfolding heap_align
grown_size h size = 2 * heap_align (if ltb size h.size then h.size else size)

-- `malloc` gives memory of the size asked for.
unfoldable pub grow_heap : (ℕ → Option ℕ) → List Heap → ℕ → List Heap
unfolding make_heap heap_last link_last grown_size
grow_heap malloc [] size = []
grow_heap malloc (h ∷ next) size =
    let last = heap_last h next in
    let new_size = grown_size last size in
    elim (make_heap (malloc new_size) new_size last.max_size) [
      | none ↦ h ∷ next
      | some tmp ↦ link_last h next tmp
    ]

-- A block that is taken: its tail stays in the list if it can be an object.
unfoldable pub take_block : Block → List Block → ℕ → List Block
take_block b next size =
    if leb (size + unit) b.size
    then record { addr = b.addr + size; size = b.size - size } ∷ next
    else next

-- The first block that is big enough, and the list without it.
unfoldable pub take_first : List Block → ℕ → Option (ℕ × List Block)
unfolding take_block
take_first [] size = none
take_first (b ∷ next) size = elim (leb size b.size) [
  | true ↦ some (b.addr, take_block b next size)
  | false ↦ elim (take_first next size) [ none ↦ none | some found ↦ some (found.0, b ∷ found.1) ]
]

unfoldable pub try_alloc : List Heap → ℕ → Option (ℕ × List Heap)
unfolding take_first
try_alloc [] size = none
try_alloc (h ∷ next) size = elim (take_first h.free_list size) [
  | some found ↦ some (found.0, record h { free_list = found.1 } ∷ next)
  | none ↦ elim (try_alloc next size) [ none ↦ none | some found ↦ some (found.0, h ∷ found.1) ]
]

-- The test before the heap grows; the ratio is 0.75.
unfoldable pub must_grow : List Heap → ℕ → ℕ → ℕ → Bool
unfolding heap_total_size
must_grow [] size max_freed sum_freed = false
must_grow (h ∷ next) size max_freed sum_freed =
    let total_size = heap_total_size (h ∷ next) in
    (ltb max_freed size
      || (ltb sum_freed total_size && ltb (3 * total_size) (4 * (total_size - sum_freed))))
    && ((h.max_size == 0) || ltb total_size h.max_size)

-- What sexp_alloc gives: an address, or the out-of-memory error.
pub data Allocated : Type 0 where
  allocated : ℕ → List Heap → Objects → Allocated
  oom_error : List Heap → Objects → Allocated

unfoldable pub retry : List Heap → Objects → ℕ → Allocated
unfolding try_alloc
retry heaps objects size = elim (try_alloc heaps size) [
  | some found ↦ allocated found.0 found.1 objects
  | none ↦ oom_error heaps objects
]

-- `collected` is what sexp_gc leaves.
unfoldable pub alloc_after_gc : (ℕ → Option ℕ) → ℕ → Swept → Allocated
unfolding retry grow_heap must_grow
alloc_after_gc malloc size collected =
    let heaps = collected.heaps in
    if must_grow heaps size collected.max_freed collected.sum_freed
    then retry (grow_heap malloc heaps size) collected.objects size
    else retry heaps collected.objects size

-- The phases that this build has no use for are left out, and so are the weak references and the
-- finalizers.
unfoldable pub sexp_gc : ℕ → Graph → Value → List Heap → Objects → Option Swept
unfolding sexp_mark sexp_sweep
sexp_gc fuel graph ctx heaps objects = do
  marked ← sexp_mark fuel graph ctx objects
  sexp_sweep heaps marked

-- With the size of the object, before it is aligned
unfoldable pub sexp_alloc :
    (List Heap → Objects → Option Swept)
    → (ℕ → Option ℕ)
    → List Heap
    → Objects
    → ℕ
    → Option Allocated
unfolding try_alloc alloc_after_gc heap_align
sexp_alloc gc malloc heaps objects bytes =
    let size = heap_align bytes in
    elim (try_alloc heaps size) [
      | some found ↦ some (allocated found.0 found.1 objects)
      | none ↦ gc heaps objects >>= λ collected. some (alloc_after_gc malloc size collected)
    ]
