-- ===== src/Gc/Freeing.antt =====
-- gc.c: where the scan of one chunk stands in a layout, and freeing one object there.

use mathlib.Core.Path.{subst}
use Prim.Native.Nat.{max}
use chibi_scheme.Prelude.{
  ℕ, ◌+◌, ◌≤◌, ◌<◌, ◌≡◌, refl, sym, Bool, true, false, List, [], ◌∷◌, ltb, ◌==◌, arith,
  if◌then◌else◌,
}
use chibi_scheme.Gc.{
  Block, Sweep, heap_align, advance, joins, record_freed, merge_into, insert_block, free_object,
}
use chibi_scheme.Gc.Layout.{
  Cell, free, used, blocks, IsTiled, advance-blocks, advance_past, heap_align_pos,
}

-- What stands before the scan: the free blocks passed, the last one first; with `touching`, the first of
-- them ends where the scan stands.
pub data Front : Type 0 where
  apart : List Block → Front
  touching : Block → List Block → Front

abbrev pub left : Front → List Block
left (apart bs) = bs
left (touching q bs) = q ∷ bs

abbrev pub Near : Front → ℕ → Type 0
Near (apart []) p = Unit
Near (apart (q ∷ bs)) p = q.addr + q.size < p
Near (touching q bs) p = q.addr + q.size ≡ p

abbrev pub after_free : Front → Bool
after_free (apart bs) = false
after_free (touching q bs) = true

-- `size` more free bytes
abbrev pub next : Front → ℕ → ℕ → Front
next (apart bs) p size = touching (record { addr = p; size = size }) bs
next (touching q bs) p size = touching (record { addr = q.addr; size = q.size + size }) bs

abbrev pub last_size : Front → ℕ
last_size (apart bs) = 0
last_size (touching q bs) = q.size

abbrev pub IsAt : Front → ℕ → List Cell → Sweep → Type 0
IsAt z p cells s = (s.pos ≡ p) × (advance p s.before s.after ≡ (left z, blocks p cells)) × Near z p

-- What freeing `size` bytes at p does, that make a free block of `size'` more bytes with what
-- follows.
abbrev pub Frees : Front → ℕ → ℕ → ℕ → List Cell → Sweep → Sweep → Type 0
Frees z p size size' rest s t =
    IsAt (next z p size') (p + size') rest t
    × (t.objects ≡ s.objects)
    × (t.sum_freed ≡ s.sum_freed + size)
    × (t.max_freed ≤ max s.max_freed (last_size (next z p size')))

joins_far : (p size a n : ℕ) → p + size < a → joins p size (record { addr = a; size = n }) ≡ false
unfolding joins
joins_far p size a n h = ground arith

joins_near : (p size n : ℕ) → 0 < n → joins p size (record { addr = p + size; size = n }) ≡ true
unfolding joins
joins_near p size n h = ground arith

insert-blocks :
    (before : List Block) (p size a : ℕ) (cells : List Cell) (s : Sweep)
    → p + size < a
    → insert_block before p size (blocks a cells) s
      ≡ record_freed size size (record s {
        pos = p + size;
        before = before;
        after = record { addr = p; size = size } ∷ blocks a cells;
      })
unfolding insert_block record_freed
insert-blocks before p size a [] s h = refl
insert-blocks before p size a (free n ∷ cells) s h =
    let t = joins_far p size a n h in rw (insert_block, t) refl
insert-blocks before p size a (used b m ∷ cells) s h =
    insert-blocks before p size (a + heap_align b) cells s (omega arith)

merge-blocks :
    (q : Block) (before : List Block) (p size a : ℕ) (cells : List Cell) (s : Sweep)
    → p + size < a
    → merge_into q before p size (blocks a cells) s
      ≡ record_freed size (q.size + size) (record s {
        pos = p + size;
        before = record { addr = q.addr; size = q.size + size } ∷ before;
        after = blocks a cells;
      })
unfolding merge_into record_freed
merge-blocks q before p size a [] s h = refl
merge-blocks q before p size a (free n ∷ cells) s h =
    let t = joins_far p size a n h in rw (merge_into, t) refl
merge-blocks q before p size a (used b m ∷ cells) s h =
    merge-blocks q before p size (a + heap_align b) cells s (omega arith)

-- The state after p is freed, r being joined or not.
freed : Front → ℕ → ℕ → ℕ → List Block → Sweep → Sweep
unfolding record_freed
freed (apart bs) p size size' after s =
    record_freed size size'
      (record s { pos = p + size'; before = bs; after = record { addr = p; size = size' } ∷ after })
freed (touching q bs) p size size' after s = record_freed size (q.size + size') (record s {
  pos = p + size';
  before = record { addr = q.addr; size = q.size + size' } ∷ bs;
  after = after;
})

larger_le : (a b : ℕ) → (if ltb a b then b else a) ≤ max a b
larger_le a b = ground arith

Near-next : (z : Front) (p size : ℕ) → Near z p → Near (next z p size) (p + size)
Near-next (apart bs) p size h = refl
Near-next (touching q bs) p size h = omega arith

freed-Frees :
    (z : Front) (p size size' : ℕ) (rest : List Cell) (s : Sweep)
    → 0 < size'
    → Near z p
    → Frees z p size size' rest s (freed z p size size' (blocks (p + size') rest) s)
unfolding freed record_freed
freed-Frees (apart bs) p size size' rest s pos near = (
  (refl, advance_past (p + size') p size' bs rest (omega arith), refl),
  refl,
  refl,
  larger_le s.max_freed size',
)
freed-Frees (touching q bs) p size size' rest s pos near = (
  (
    refl,
    advance-blocks (p + size') (p + size') (record { addr = q.addr; size = q.size + size' } ∷ bs)
        rest (omega arith),
    Near-next (touching q bs) p size' near,
  ),
  refl,
  refl,
  larger_le s.max_freed (q.size + size'),
)

free_object-clear :
    (z : Front) (p size a : ℕ) (cells : List Cell) (s : Sweep)
    → p + size < a
    → Near z p
    → free_object (left z) p size (blocks a cells) s ≡ freed z p size size (blocks a cells) s
unfolding free_object freed
free_object-clear (apart []) p size a cells s h near = insert-blocks [] p size a cells s h
free_object-clear (apart (q ∷ bs)) p size a cells s h near =
    let t : (q.addr + q.size == p) ≡ false = ground arith in
    rw (free_object, t) (insert-blocks (q ∷ bs) p size a cells s h)
free_object-clear (touching q bs) p size a cells s h near =
    let t : (q.addr + q.size == p) ≡ true = ground arith in
    rw (free_object, t) (merge-blocks q bs p size a cells s h)

free_object-touching :
    (z : Front) (p size n : ℕ) (cells : List Cell) (s : Sweep)
    → 0 < n
    → Near z p
    → free_object (left z) p size (blocks (p + size) (free n ∷ cells)) s
      ≡ freed z p size (size + n) (blocks (p + size + n) cells) s
unfolding free_object freed insert_block merge_into
free_object-touching (apart []) p size n cells s h near =
    let t = joins_near p size n h in rw (insert_block, t) refl
free_object-touching (apart (q ∷ bs)) p size n cells s h near =
    let t : (q.addr + q.size == p) ≡ false = ground arith in
    let u = joins_near p size n h in rw (free_object, t) rw (insert_block, u) refl
free_object-touching (touching q bs) p size n cells s h near =
    let t : (q.addr + q.size == p) ≡ true = ground arith in
    let u = joins_near p size n h in
    let e : p + size + n ≡ p + (size + n) = omega arith in
    let f : q.size + size + n ≡ q.size + (size + n) = omega arith in
    rw (free_object, t) rw (merge_into, u) rw e rw f refl

-- What is freed stands apart from what follows.
pub free_object-alone :
    (z : Front) (p size : ℕ) (rest : List Cell) (s : Sweep)
    → 0 < size
    → Near z p
    → IsTiled true rest
    → Frees z p size size rest s (free_object (left z) p size (blocks (p + size) rest) s)
free_object-alone z p size [] s pos near h =
    let e = free_object-clear z p size (p + size + 1) [] s (omega arith) near in
    subst (Frees z p size size [] s) (sym e) (freed-Frees z p size size [] s pos near)
free_object-alone z p size (free n ∷ cells) s pos near h = elim h [ ]
free_object-alone z p size (used b m ∷ cells) s pos near (big, h) =
    let big' = heap_align_pos b big in
    let e = free_object-clear z p size (p + size + heap_align b) cells s (omega arith) near in
    subst (Frees z p size size (used b m ∷ cells) s) (sym e)
      (freed-Frees z p size size (used b m ∷ cells) s pos near)

pub free_object-joined :
    (z : Front) (p size n : ℕ) (cells : List Cell) (s : Sweep)
    → 0 < n
    → Near z p
    → Frees z p size
        (size + n)
        cells
        s
        (free_object (left z) p size (blocks (p + size) (free n ∷ cells)) s)
free_object-joined z p size n cells s pos near =
    let e = free_object-touching z p size n cells s pos near in
    let f : p + size + n ≡ p + (size + n) = omega arith in
    rw e rw f (freed-Frees z p size (size + n) cells s (omega arith) near)
