-- ===== src/Tests/Gc.antt =====
-- Concrete chunks and objects for the results about gc.c.
use chibi_scheme.Prelude.{
  ℕ, ◌<◌, ◌≤◌, ◌≡◌, ◌⊎◌, ◌↔◌, inl, inr, refl, true, false, Option, none, some, List, [], ◌∷◌, ◌==◌,
  if◌then◌else◌, arith, length,
}
use chibi_scheme.Gc.{Heap, Objects, heap_align}
use chibi_scheme.Gc.Chunks.{Swept, allocated, sexp_gc, sexp_alloc, try_alloc}
use chibi_scheme.Gc.Mark.{Graph, sexp_mark}
use chibi_scheme.Gc.Marking.{Member, PointsTo, IsClosed}
use chibi_scheme.Gc.Reaching.{Reachable, sexp_mark-Reachable}
use chibi_scheme.Gc.Layout.{Cell, free, used}
use chibi_scheme.Gc.Heaps.{AreChunks, largest_all}
use chibi_scheme.Gc.Survivors.{all_places}
use chibi_scheme.Gc.Cycle.{IsClear, SameChunks, sexp_gc-Reachable}
use chibi_scheme.Gc.Allocating.{AreAligned}
use chibi_scheme.Gc.Allocation.{Adds, try_alloc-Adds}
use chibi_scheme.Gc.Growth.{sexp_alloc-allocated}

-- One chunk with an object, a free block and another object
abbrev chunk : Heap
chunk = record {
  start = 0;
  size = 128;
  max_size = 0;
  free_list = record { addr = 64; size = 32 } ∷ [];
}

abbrev layout : List Cell
layout = used 20 false ∷ free 32 ∷ used 10 false ∷ []

abbrev objects : Objects
objects a =
    if a == 32
    then record { bytes = 20; markedp = false }
    else record { bytes = 10; markedp = false }

chunk-AreChunks : AreChunks objects (chunk ∷ []) (layout ∷ [])
unfolding heap_align
chunk-AreChunks = (
  (refl, (refl, refl, (refl, refl, tt)), (omega arith, (omega arith, (omega arith, tt))), refl),
  tt,
  tt,
)

-- Every object refers to the first one.
abbrev graph : Graph
graph p = record { saves = []; slots = some 32 ∷ [] }

abbrev InLayout : ℕ → Type 0
InLayout p = Member p (all_places (chunk ∷ []) (layout ∷ []))

graph-IsClosed : IsClosed graph InLayout
unfolding heap_align
graph-IsClosed p v i (inl j) = elim j [ ]
graph-IsClosed p v i (inr (inl e)) = rw e (inl refl)
graph-IsClosed p v i (inr (inr j)) = elim j [ ]

objects-IsClear : IsClear objects (all_places (chunk ∷ []) (layout ∷ []))
unfolding heap_align
objects-IsClear p (inl e) = rw e refl
objects-IsClear p (inr (inl e)) = rw e refl
objects-IsClear p (inr (inr j)) = elim j [ ]

root : PointsTo InLayout (some 32)
unfolding heap_align
root = inl refl

few : length (all_places (chunk ∷ []) (layout ∷ [])) < 3
unfolding heap_align
few = omega arith

sexp_mark-Reachable_example :
    (marked : Objects) × (sexp_mark 3 graph (some 32) objects ≡ some marked)
    × ((p : ℕ) → (marked p).bytes ≡ (objects p).bytes)
    × ((p : ℕ) → InLayout p → ((marked p).markedp ≡ true) ↔ Reachable graph (some 32) p)
sexp_mark-Reachable_example =
    sexp_mark-Reachable 3 graph (all_places (chunk ∷ []) (layout ∷ [])) (some 32) objects few root
      graph-IsClosed objects-IsClear

sexp_gc-Reachable_example :
    (w : Swept) × (layouts' : List (List Cell)) × (sexp_gc 3 graph (some 32) (chunk ∷ []) objects
      ≡ some w)
    × SameChunks (chunk ∷ []) w.heaps
    × AreChunks w.objects w.heaps layouts'
    × IsClear w.objects (all_places w.heaps layouts')
    × ((p : ℕ)
        → Member p (all_places w.heaps layouts') ↔ (InLayout p × Reachable graph (some 32) p))
    × (w.max_freed ≤ largest_all layouts')
sexp_gc-Reachable_example =
    sexp_gc-Reachable 3 graph (some 32) (chunk ∷ []) (layout ∷ []) objects chunk-AreChunks
      objects-IsClear root graph-IsClosed few

layout-AreAligned : AreAligned (layout ∷ [])
layout-AreAligned = ((refl, tt), tt)

try_alloc-Adds_example :
    ((try_alloc (chunk ∷ []) (heap_align 24) ≡ none) × (largest_all (layout ∷ []) < heap_align 24))
    ⊎ ((p : ℕ) × (heaps' : List Heap) × (layouts' : List (List Cell)) × (try_alloc
            (chunk ∷ [])
            (heap_align 24)
          ≡ some (p, heaps'))
        × Adds 24 p objects (chunk ∷ []) (layout ∷ []) heaps' layouts')
try_alloc-Adds_example =
    try_alloc-Adds 24 objects (chunk ∷ []) (layout ∷ []) (omega arith) chunk-AreChunks
      layout-AreAligned

abbrev fresh : ℕ → Option ℕ
fresh n = some 4096

sexp_alloc-allocated_example :
    (p : ℕ) × (heaps' : List Heap) × (objects' : Objects) × (sexp_alloc
        (sexp_gc 3 graph (some 32))
        fresh
        (chunk ∷ [])
        objects
        100
      ≡ some (allocated p heaps' objects'))
sexp_alloc-allocated_example =
    sexp_alloc-allocated fresh 100 3 graph (some 32) chunk [] (layout ∷ []) objects (omega arith)
      (λ n. (4096, refl)) refl chunk-AreChunks objects-IsClear root graph-IsClosed few
