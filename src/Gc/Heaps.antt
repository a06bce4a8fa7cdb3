-- ===== src/Gc/Heaps.antt =====
-- gc.c: the sweep of the whole chain of chunks.
use Prim.Native.Nat.{max}
use chibi_scheme.Prelude.{
  ℕ, suc, ◌+◌, ◌≤◌, ◌<◌, ◌≡◌, ◌⊎◌, inl, inr, refl, ◌∙◌, false, some, List, [], ◌∷◌, map, arith,
}
use chibi_scheme.Gc.{Heap, Objects, Sweep, unit, rejoin}
use chibi_scheme.Gc.Chunks.{first_block, heap_end, sweep_heap, sweep_heaps, Swept, sexp_sweep}
use chibi_scheme.Gc.Layout.{
  Cell, total, blocks, Holds, IsTiled, collect, garbage, largest, count-le-total, collect-IsTiled,
  total-collect, Holds-within, advance-blocks,
}
use chibi_scheme.Gc.Freeing.{apart}
use chibi_scheme.Gc.Collection.{sweep_loop-collects}

-- The memory of a chunk is a layout, and its free list is the layout's.
abbrev pub IsChunk : Objects → Heap → List Cell → Type 0
IsChunk objs h cells =
    (h.free_list ≡ blocks (first_block h) cells)
    × Holds objs (first_block h) cells
    × IsTiled false cells
    × (unit + total cells ≡ h.size)

abbrev pub Outside : Heap → ℕ → Type 0
Outside h a = (a < h.start) ⊎ (heap_end h ≤ a)

abbrev pub OutsideAll : List Heap → ℕ → Type 0
OutsideAll [] a = Unit
OutsideAll (h ∷ heaps) a = Outside h a × OutsideAll heaps a

abbrev pub IsDisjoint : Heap → List Heap → Type 0
IsDisjoint h [] = Unit
IsDisjoint h (g ∷ heaps) = ((heap_end h ≤ g.start) ⊎ (heap_end g ≤ h.start)) × IsDisjoint h heaps

abbrev pub AreChunks : Objects → List Heap → List (List Cell) → Type 0
AreChunks objs [] [] = Unit
AreChunks objs [] (cells ∷ layouts) = ⊥
AreChunks objs (h ∷ heaps) [] = ⊥
AreChunks objs (h ∷ heaps) (cells ∷ layouts) =
    IsChunk objs h cells × IsDisjoint h heaps × AreChunks objs heaps layouts

-- The chunks with the free lists of other layouts
abbrev pub relist : List Heap → List (List Cell) → List Heap
relist [] layouts = []
relist (h ∷ heaps) [] = []
relist (h ∷ heaps) (cells ∷ layouts) =
    record h { free_list = blocks (first_block h) cells } ∷ relist heaps layouts

abbrev pub garbage_all : List (List Cell) → ℕ
garbage_all [] = 0
garbage_all (cells ∷ layouts) = garbage cells + garbage_all layouts

abbrev pub largest_all : List (List Cell) → ℕ
largest_all [] = 0
largest_all (cells ∷ layouts) = max (largest cells) (largest_all layouts)

-- What the sweep of one chunk leaves.
abbrev Collected : Heap → List Cell → Sweep → Sweep → Type 0
Collected h cells s u =
    (sweep_heap h s ≡ some (record h { free_list = blocks (first_block h) (collect cells) }, u))
    × Holds u.objects (first_block h) (collect cells)
    × ((a : ℕ) → Outside h a → u.objects a ≡ s.objects a)
    × (u.sum_freed ≡ s.sum_freed + garbage cells)
    × (u.max_freed ≤ max s.max_freed (largest (collect cells)))

sweep_heap_lem :
    (h : Heap) (cells : List Cell) (s : Sweep)
    → IsChunk s.objects h cells
    → (u : Sweep) × Collected h cells s u
unfolding sweep_heap rejoin
sweep_heap_lem h cells s (list, holds, tiled, size) =
    let l = count-le-total false cells tiled in
    let p = first_block h in
    let t = record s { pos = p; before = []; after = h.free_list } in
    let (u, run, (whole, kept, below, sum, big, above)) =
      sweep_loop-collects (suc h.size) (heap_end h) p (apart []) cells t (omega arith) (omega arith)
        (refl, rw list (advance-blocks p p [] cells (omega arith)), tt) holds tiled in
    (
      u,
      (
        rw run rw whole refl,
        kept,
        λ a o. elim o [ inl k ↦ below a (omega arith) | inr k ↦ above a (omega arith) ],
        sum,
        big,
      ),
    )

-- A place in one chunk is in no other.
pub IsDisjoint-OutsideAll :
    (h : Heap) (heaps : List Heap) (a : ℕ)
    → IsDisjoint h heaps
    → h.start ≤ a
    → a < heap_end h
    → OutsideAll heaps a
IsDisjoint-OutsideAll h [] a d l k = tt
IsDisjoint-OutsideAll h (g ∷ heaps) a (d, ds) l k = (
  elim d [ inl m ↦ inl (omega arith) | inr m ↦ inr (omega arith) ],
  IsDisjoint-OutsideAll h heaps a ds l k,
)

pub IsDisjoint-Outside :
    (h g : Heap) (a : ℕ)
    → ((heap_end h ≤ g.start) ⊎ (heap_end g ≤ h.start))
    → g.start ≤ a
    → a < heap_end g
    → Outside h a
IsDisjoint-Outside h g a (inl m) l k = inr (omega arith)
IsDisjoint-Outside h g a (inr m) l k = inl (omega arith)

-- Headers outside a chunk, or inside another, may change.
pub IsChunk-within :
    (objs objs' : Objects) (h : Heap) (cells : List Cell)
    → ((a : ℕ) → h.start ≤ a → a < heap_end h → objs' a ≡ objs a)
    → IsChunk objs h cells
    → IsChunk objs' h cells
IsChunk-within objs objs' h cells same (list, holds, tiled, size) = (
  list,
  Holds-within objs objs' (first_block h) false cells tiled
      (λ x l k. same x (omega arith) (omega arith)) holds,
  tiled,
  size,
)

pub AreChunks-Outside :
    (objs objs' : Objects) (h : Heap) (heaps : List Heap) (layouts : List (List Cell))
    → IsDisjoint h heaps
    → ((a : ℕ) → Outside h a → objs' a ≡ objs a)
    → AreChunks objs heaps layouts
    → AreChunks objs' heaps layouts
AreChunks-Outside objs objs' h [] [] d same k = tt
AreChunks-Outside objs objs' h [] (cells ∷ layouts) d same k = elim k [ ]
AreChunks-Outside objs objs' h (g ∷ heaps) [] d same k = elim k [ ]
AreChunks-Outside objs objs' h (g ∷ heaps) (cells ∷ layouts) (d, ds) same (chunk, away, chunks) = (
  IsChunk-within objs objs' g cells (λ a l m. same a (IsDisjoint-Outside h g a d l m)) chunk,
  away,
  AreChunks-Outside objs objs' h heaps layouts ds same chunks,
)

disjoint-relist :
    (h : Heap) (cells : List Cell) (objs : Objects) (heaps : List Heap) (layouts : List (List Cell))
    → AreChunks objs heaps layouts
    → IsDisjoint h heaps
    → IsDisjoint
        (record h { free_list = blocks (first_block h) cells })
        (relist heaps (map collect layouts))
disjoint-relist h cells objs [] [] k d = tt
disjoint-relist h cells objs [] (c ∷ layouts) k d = elim k [ ]
disjoint-relist h cells objs (g ∷ heaps) [] k d = elim k [ ]
disjoint-relist h cells objs (g ∷ heaps) (c ∷ layouts) (chunk, away, chunks) (d, ds) =
    (d, disjoint-relist h cells objs heaps layouts chunks ds)

-- What the sweep of the chain leaves.
abbrev CollectedAll : List Heap → List (List Cell) → Sweep → Sweep → Type 0
CollectedAll heaps layouts s u =
    (sweep_heaps heaps s ≡ some (relist heaps (map collect layouts), u))
    × AreChunks u.objects (relist heaps (map collect layouts)) (map collect layouts)
    × ((a : ℕ) → OutsideAll heaps a → u.objects a ≡ s.objects a)
    × (u.sum_freed ≡ s.sum_freed + garbage_all layouts)
    × (u.max_freed ≤ max s.max_freed (largest_all (map collect layouts)))

sweep_heaps_lem :
    (heaps : List Heap) (layouts : List (List Cell)) (s : Sweep)
    → AreChunks s.objects heaps layouts
    → (u : Sweep) × CollectedAll heaps layouts s u
unfolding sweep_heaps
sweep_heaps_lem [] [] s k = (s, (refl, tt, λ a o. refl, omega arith, omega arith))
sweep_heaps_lem [] (c ∷ layouts) s k = elim k [ ]
sweep_heaps_lem (h ∷ heaps) [] s k = elim k [ ]
sweep_heaps_lem (h ∷ heaps) (cells ∷ layouts) s (chunk, away, chunks) =
    let (t, (run, kept, same, sum, big)) = sweep_heap_lem h cells s chunk in
    let rest = AreChunks-Outside s.objects t.objects h heaps layouts away same chunks in
    let (u, (run', chunks', same', sum', big')) = sweep_heaps_lem heaps layouts t rest in
    let (list, holds, tiled, size) = chunk in
    let h' = record h { free_list = blocks (first_block h) (collect cells) } in
    let swept : IsChunk t.objects h' (collect cells) = (
      refl,
      kept,
      collect-IsTiled false cells tiled,
      (let e = total-collect cells in omega arith),
    ) in
    (
      u,
      (
        rw run rw run' refl,
        (
          IsChunk-within t.objects u.objects h' (collect cells)
              (λ a l m. same' a (IsDisjoint-OutsideAll h heaps a away l m)) swept,
          disjoint-relist h (collect cells) s.objects heaps layouts chunks away,
          chunks',
        ),
        λ a o. same' a o.1 ∙ same a o.0,
        omega arith,
        omega arith,
      ),
    )

pub sexp_sweep-AreChunks :
    (heaps : List Heap) (layouts : List (List Cell)) (objects : Objects)
    → AreChunks objects heaps layouts
    → (w : Swept) × (sexp_sweep heaps objects ≡ some w)
      × (w.heaps ≡ relist heaps (map collect layouts))
      × AreChunks w.objects w.heaps (map collect layouts)
      × ((a : ℕ) → OutsideAll heaps a → w.objects a ≡ objects a)
      × (w.sum_freed ≡ garbage_all layouts)
      × (w.max_freed ≤ largest_all (map collect layouts))
unfolding sexp_sweep
sexp_sweep-AreChunks heaps layouts objects k =
    let s : Sweep = record {
      pos = 0;
      before = [];
      after = [];
      objects = objects;
      max_freed = 0;
      sum_freed = 0;
    } in
    let (u, (run, chunks, same, sum, big)) = sweep_heaps_lem heaps layouts s k in
    (
      record {
        heaps = relist heaps (map collect layouts);
        objects = u.objects;
        max_freed = u.max_freed;
        sum_freed = u.sum_freed;
      },
      rw run refl,
      refl,
      chunks,
      same,
      omega arith,
      omega arith,
    )
