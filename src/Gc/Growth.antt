-- ===== src/Gc/Growth.antt =====
-- gc.c: sexp_alloc when a collection has to come first, with memory to be had.
use chibi_scheme.Prelude.{
  ℕ, ◌+◌, ◌-◌, ◌*◌, ◌/◌, ◌≤◌, ◌<◌, ◌≡◌, ◌⊎◌, inl, inr, refl, sym, ap, ◌∙◌, true, false, Option,
  none, some, List, [], ◌∷◌, leb, ltb, arith, Bool-cases, Option-cases, length,
}
use chibi_scheme.Gc.{Block, Heap, Objects, unit, heap_align}
use chibi_scheme.Gc.Chunks.{
  first_block, take_block, take_first, try_alloc, Swept, allocated, make_heap, link_last, heap_last,
  grown_size, grow_heap, must_grow, retry, alloc_after_gc, sexp_gc, sexp_alloc,
}
use chibi_scheme.Gc.Mark.{Value, Graph}
use chibi_scheme.Gc.Marking.{Member, PointsTo, IsClosed}
use chibi_scheme.Gc.Layout.{Cell, free, used, blocks, largest, heap_align_pos}
use chibi_scheme.Gc.Survivors.{all_places}
use chibi_scheme.Gc.Heaps.{AreChunks, largest_all}
use chibi_scheme.Gc.Cycle.{IsClear, SameChunks, sexp_gc-Reachable}

abbrev HasRoom : ℕ → List Block → Type 0
HasRoom size [] = ⊥
HasRoom size (b ∷ next) = (size ≤ b.size) ⊎ HasRoom size next

abbrev HaveRoom : ℕ → List Heap → Type 0
HaveRoom size [] = ⊥
HaveRoom size (h ∷ heaps) = HasRoom size h.free_list ⊎ HaveRoom size heaps

take_first-HasRoom :
    (size : ℕ) (list : List Block)
    → HasRoom size list
    → (found : ℕ × List Block) × (take_first list size ≡ some found)
unfolding take_first
take_first-HasRoom size [] room = elim room [ ]
take_first-HasRoom size (b ∷ next) room = elim (Bool-cases (leb size b.size)) [
  | inl t ↦ ((b.addr, take_block b next size), (rw (take_first, t) refl))
  | inr t ↦ elim room [
    | inl k ↦ let absurd : ⊥ = ground arith in elim absurd [ ]
    | inr r ↦
        let (found, e) = take_first-HasRoom size next r in
        ((found.0, b ∷ found.1), (rw (take_first, t) rw (take_first, e) refl))
  ]
]

try_alloc-HaveRoom :
    (size : ℕ) (heaps : List Heap)
    → HaveRoom size heaps
    → (found : ℕ × List Heap) × (try_alloc heaps size ≡ some found)
unfolding try_alloc
try_alloc-HaveRoom size [] room = elim room [ ]
try_alloc-HaveRoom size (h ∷ heaps) room = elim (Option-cases (take_first h.free_list size)) [
  | inr (found, e) ↦ ((found.0, record h { free_list = found.1 } ∷ heaps), (rw (try_alloc, e) refl))
  | inl e ↦ elim room [
    | inl r ↦
        let (found, f) = take_first-HasRoom size h.free_list r in
        let absurd : none ≡ some found = sym e ∙ f in cc
    | inr r ↦
        let (found, f) = try_alloc-HaveRoom size heaps r in
        ((found.0, h ∷ found.1), (rw (try_alloc, e) rw (try_alloc, f) refl))
  ]
]

blocks-HasRoom :
    (size a : ℕ) (cells : List Cell)
    → 0 < size
    → size ≤ largest cells
    → HasRoom size (blocks a cells)
blocks-HasRoom size a [] pos h = let absurd : ⊥ = omega arith in elim absurd [ ]
blocks-HasRoom size a (free n ∷ cells) pos h = elim (Bool-cases (leb size n)) [
  | inl t ↦ inl (ground arith)
  | inr t ↦
      let small : n < size = ground arith in
      inr (blocks-HasRoom size (a + n) cells pos (omega arith))
]
blocks-HasRoom size a (used b m ∷ cells) pos h = blocks-HasRoom size (a + heap_align b) cells pos h

chunks-HaveRoom :
    (size : ℕ) (objs : Objects) (heaps : List Heap) (layouts : List (List Cell))
    → AreChunks objs heaps layouts
    → 0 < size
    → size ≤ largest_all layouts
    → HaveRoom size heaps
chunks-HaveRoom size objs [] [] chunks pos h = let absurd : ⊥ = omega arith in elim absurd [ ]
chunks-HaveRoom size objs [] (cells ∷ layouts) chunks pos h = elim chunks [ ]
chunks-HaveRoom size objs (g ∷ heaps) [] chunks pos h = elim chunks [ ]
chunks-HaveRoom size objs (g ∷ heaps) (cells ∷ layouts) ((list, holds, tiled, whole), away, chunks)
      pos h =
    elim (Bool-cases (leb size (largest cells))) [
      | inl t ↦
          let k : size ≤ largest cells = ground arith in
          inl (rw list (blocks-HasRoom size (first_block g) cells pos k))
      | inr t ↦
          let small : largest cells < size = ground arith in
          inr (chunks-HaveRoom size objs heaps layouts chunks pos (omega arith))
    ]

link_last-HaveRoom :
    (size : ℕ) (h : Heap) (next : List Heap) (tmp : Heap)
    → HasRoom size tmp.free_list
    → HaveRoom size (link_last h next tmp)
unfolding link_last
link_last-HaveRoom size h [] tmp room = inr (inl room)
link_last-HaveRoom size h (g ∷ next) tmp room = inr (link_last-HaveRoom size g next tmp room)

-- A new chunk has a block of the size that is asked for.
grown_size-room : (h : Heap) (b : ℕ) → 0 < b → heap_align b ≤ grown_size h (heap_align b) - unit
unfolding grown_size heap_align
grown_size-room h b pos = elim (Bool-cases (ltb ((b + 31) / 32 * 32) h.size)) [
  | inl t ↦ let k : (b + 31) / 32 * 32 < h.size = ground arith in rw t omega arith
  | inr t ↦ rw t omega arith
]

grow_heap-HaveRoom :
    (malloc : ℕ → Option ℕ) (b : ℕ) (h : Heap) (next : List Heap)
    → 0 < b
    → ((n : ℕ) → (start : ℕ) × (malloc n ≡ some start))
    → HaveRoom (heap_align b) (grow_heap malloc (h ∷ next) (heap_align b))
unfolding grow_heap make_heap
grow_heap-HaveRoom malloc b h next pos memory =
    let last = heap_last h next in
    let n = grown_size last (heap_align b) in
    let (start, e) = memory n in
    rw (grow_heap, e)
      (link_last-HaveRoom (heap_align b) h next
        (record {
          start = start;
          size = n;
          max_size = last.max_size;
          free_list = record { addr = start + unit; size = n - unit } ∷ [];
        })
        (inl (grown_size-room last b pos)))

must_grow_unless :
    (h : Heap) (next : List Heap) (size max_freed sum_freed : ℕ)
    → h.max_size ≡ 0
    → must_grow (h ∷ next) size max_freed sum_freed ≡ false
    → size ≤ max_freed
unfolding must_grow
must_grow_unless h next size max_freed sum_freed e f = elim (Bool-cases (ltb max_freed size)) [
  | inl t ↦ let f' : true ≡ false = rw (must_grow, t, e) at f in cc
  | inr t ↦ ground arith
]

retry-HaveRoom :
    (heaps : List Heap) (objs : Objects) (size : ℕ)
    → HaveRoom size heaps
    → (p : ℕ) × (heaps' : List Heap) × (retry heaps objs size ≡ allocated p heaps' objs)
unfolding retry
retry-HaveRoom heaps objs size room =
    let (found, e) = try_alloc-HaveRoom size heaps room in (found.0, found.1, (rw (retry, e) refl))

alloc_after_gc_lem :
    (malloc : ℕ → Option ℕ) (b : ℕ) (w : Swept) (h : Heap) (next : List Heap)
    (layouts : List (List Cell))
    → 0 < b
    → ((n : ℕ) → (start : ℕ) × (malloc n ≡ some start))
    → w.heaps ≡ h ∷ next
    → h.max_size ≡ 0
    → AreChunks w.objects w.heaps layouts
    → w.max_freed ≤ largest_all layouts
    → (p : ℕ) × (heaps' : List Heap) × (alloc_after_gc malloc (heap_align b) w
        ≡ allocated p heaps' w.objects)
unfolding alloc_after_gc
alloc_after_gc_lem malloc b w h next layouts pos memory e z chunks big =
    let size = heap_align b in
    let pos' = heap_align_pos b pos in
    elim (Bool-cases (must_grow w.heaps size w.max_freed w.sum_freed)) [
      | inl t ↦
          let room : HaveRoom size (grow_heap malloc w.heaps size) =
            rw e (grow_heap-HaveRoom malloc b h next pos memory) in
          rw (alloc_after_gc, t)
            (retry-HaveRoom (grow_heap malloc w.heaps size) w.objects size room)
      | inr t ↦
          let k = must_grow_unless h next size w.max_freed w.sum_freed z (rw e at t) in
          let room = chunks-HaveRoom size w.objects w.heaps layouts chunks pos' (omega arith) in
          rw (alloc_after_gc, t) (retry-HaveRoom w.heaps w.objects size room)
    ]

-- A collection leaves the first chunk where it is.
same_first :
    (h : Heap) (heaps heaps' : List Heap)
    → SameChunks (h ∷ heaps) heaps'
    → (g : Heap) × (next : List Heap) × (heaps' ≡ g ∷ next) × (g.max_size ≡ h.max_size)
same_first h heaps [] same = elim same [ ]
same_first h heaps (g ∷ next) (a, b, c, same) = (g, next, refl, c)

-- Let the chunks be as sexp_gc wants them, the size not be limited, and the operating system
-- give memory whenever it is asked. Then an allocation of one byte or more gives an address: at
-- once, or after a collection that comes to its end, or after the heap has grown as well.
pub sexp_alloc-allocated :
    (malloc : ℕ → Option ℕ) (b fuel : ℕ) (graph : Graph) (ctx : Value) (h : Heap)
    (heaps : List Heap) (layouts : List (List Cell)) (objects : Objects)
    → 0 < b
    → ((n : ℕ) → (start : ℕ) × (malloc n ≡ some start))
    → h.max_size ≡ 0
    → AreChunks objects (h ∷ heaps) layouts
    → IsClear objects (all_places (h ∷ heaps) layouts)
    → PointsTo (λ p. Member p (all_places (h ∷ heaps) layouts)) ctx
    → IsClosed graph (λ p. Member p (all_places (h ∷ heaps) layouts))
    → length (all_places (h ∷ heaps) layouts) < fuel
    → (p : ℕ) × (heaps' : List Heap) × (objects' : Objects) × (sexp_alloc
          (sexp_gc fuel graph ctx)
          malloc
          (h ∷ heaps)
          objects
          b
        ≡ some (allocated p heaps' objects'))
unfolding sexp_alloc
sexp_alloc-allocated malloc b fuel graph ctx h heaps layouts objects pos memory z chunks clear at
      closed fits =
    elim (Option-cases (try_alloc (h ∷ heaps) (heap_align b))) [
      | inr (found, e) ↦ (found.0, found.1, objects, (rw (sexp_alloc, e) refl))
      | inl e ↦
          let (w, layouts', run, same, chunks', clear', kept, big) =
            sexp_gc-Reachable fuel graph ctx (h ∷ heaps) layouts objects chunks clear at closed
              fits in
          let (g, next, f, k) = same_first h heaps w.heaps same in
          let (p, heaps', d) =
            alloc_after_gc_lem malloc b w g next layouts' pos memory f (k ∙ z) chunks' big in
          (p, heaps', w.objects, (rw (sexp_alloc, e) rw run (ap (λ r. some r) d)))
    ]
