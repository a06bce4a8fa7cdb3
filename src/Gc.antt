-- ===== src/Gc.antt =====
-- gc.c: the heap chunks, their free lists, allocation and the sweep. An address is a number. A free
-- list is the chain of its blocks behind the sentinel at the start of the chunk's memory.
pub mod Layout
pub mod Freeing
pub mod Chunks
pub mod Heaps
pub mod Mark
pub mod Pending
pub mod Marking
pub mod Tracing
pub mod Reaching
pub mod Survivors
pub mod Cycle
pub mod Taking
pub mod Placing
pub mod Allocating
pub mod Allocation
pub mod Growth
pub mod Sweeping
pub mod Collection
use chibi_scheme.Prelude.{
  ℕ, zero, suc, ◌+◌, ◌-◌, ◌*◌, ◌/◌, Bool, true, false, not, ◌&&◌, ◌||◌, Option, none, some, List,
  [], ◌∷◌, ◌==◌, ltb, leb, if◌then◌else◌,
}

-- struct sexp_free_list_t, with its own address
pub record Block : Type 0 where
  pub addr : ℕ
  pub size : ℕ

-- struct sexp_heap_t: `start` is the address of its memory, and `free_list` what follows the
-- sentinel there.
pub record Heap : Type 0 where
  pub start : ℕ
  pub size : ℕ
  pub max_size : ℕ
  pub free_list : List Block

-- What an object's header tells: the size, from the type's fields, and the mark.
pub record Header : Type 0 where
  pub bytes : ℕ
  pub markedp : Bool

abbrev pub Objects : Type 0
Objects = ℕ → Header

-- sexp_heap_align(n) on a 64-bit build, and sexp_heap_align(sexp_free_chunk_size)
abbrev pub unit : ℕ
unit = 32

unfoldable pub heap_align : ℕ → ℕ
heap_align n = (n + 31) / 32 * 32

unfoldable pub unmark : ℕ → Objects → Objects
unmark p objs = λ a. if a == p then record (objs a) { markedp = false } else objs a

-- for (r = q->next; r && r < p; q = r, r = r->next): the blocks passed, the last one first, and
-- those from r on.
unfoldable pub advance : ℕ → List Block → List Block → List Block × List Block
advance p before [] = (before, [])
advance p before (r ∷ after) = elim (ltb r.addr p) [
  | true ↦ advance p (r ∷ before) after
  | false ↦ (before, r ∷ after)
]

-- Where the scan stands, and what was freed.
pub record Sweep : Type 0 where
  pub pos : ℕ
  pub before : List Block
  pub after : List Block
  pub objects : Objects
  pub max_freed : ℕ
  pub sum_freed : ℕ

-- r follows the `size` bytes at p
unfoldable pub joins : ℕ → ℕ → Block → Bool
joins p size r = not (r.size == 0) && (p + size == r.addr)

unfoldable pub record_freed : ℕ → ℕ → Sweep → Sweep
record_freed size freed s = record s {
  sum_freed = s.sum_freed + size;
  max_freed = if ltb s.max_freed freed then freed else s.max_freed;
}

-- merge q with p, and with r if that follows
unfoldable pub merge_into : Block → List Block → ℕ → ℕ → List Block → Sweep → Sweep
unfolding record_freed joins
merge_into q before p size [] s =
    record_freed size (q.size + size)
      (record s { pos = p + size; before = record q { size = q.size + size } ∷ before; after = [] })
merge_into q before p size (r ∷ after) s =
    if joins p size r
    then record_freed size (q.size + size + r.size) (record s {
      pos = p + size + r.size;
      before = record q { size = q.size + size + r.size } ∷ before;
      after = after;
    })
    else record_freed size (q.size + size) (record s {
      pos = p + size;
      before = record q { size = q.size + size } ∷ before;
      after = r ∷ after;
    })

-- a block of its own, merged with r if that follows
unfoldable pub insert_block : List Block → ℕ → ℕ → List Block → Sweep → Sweep
unfolding record_freed joins
insert_block before p size [] s =
    record_freed size size
      (record s { pos = p + size; before = before; after = record { addr = p; size = size } ∷ [] })
insert_block before p size (r ∷ after) s =
    if joins p size r
    then record_freed size (size + r.size) (record s {
      pos = p + (size + r.size);
      before = before;
      after = record { addr = p; size = size + r.size } ∷ after;
    })
    else record_freed size size (record s {
      pos = p + size;
      before = before;
      after = record { addr = p; size = size } ∷ r ∷ after;
    })

-- The branch is on whether q, if it is not the sentinel, ends at p.
unfoldable pub free_object : List Block → ℕ → ℕ → List Block → Sweep → Sweep
unfolding merge_into insert_block
free_object [] p size after s = insert_block [] p size after s
free_object (q ∷ before) p size after s =
    if q.addr + q.size == p
    then merge_into q before p size after s
    else insert_block (q ∷ before) p size after s

unfoldable pub sweep_object : List Block → ℕ → List Block → Sweep → Sweep
unfolding free_object unmark heap_align
sweep_object before p after s =
    let size = heap_align (s.objects p).bytes in
    if (s.objects p).markedp
    then record s { pos = p + size; before = before; after = after; objects = unmark p s.objects }
    else free_object before p size after s

-- One round, with q and r found.
unfoldable pub sweep_at : ℕ → List Block × List Block → Sweep → Sweep
unfolding sweep_object
sweep_at p (before, []) s = sweep_object before p [] s
sweep_at p (before, r ∷ after) s =
    if r.addr == p
    then record s { pos = p + r.size; before = before; after = r ∷ after }
    else sweep_object before p (r ∷ after) s

-- while (p < end), with fuel
unfoldable pub sweep_loop : ℕ → ℕ → Sweep → Option Sweep
unfolding advance sweep_at
sweep_loop zero end s = none
sweep_loop (suc fuel) end s = elim (ltb s.pos end) [
  | true ↦ sweep_loop fuel end (sweep_at s.pos (advance s.pos s.before s.after) s)
  | false ↦ some s
]

-- The blocks passed go back in front of the others.
unfoldable pub rejoin : List Block → List Block → List Block
rejoin [] after = after
rejoin (q ∷ before) after = rejoin before (q ∷ after)
