-- ===== src/Gc/Cycle.antt =====
-- gc.c: a whole collection over the chain of chunks.
use mathlib.Core.Path.{subst}
use chibi_scheme.Prelude.{
  ℕ, ◌+◌, ◌≤◌, ◌<◌, ◌≡◌, ◌⊎◌, ◌↔◌, inl, inr, refl, true, false, some, List, [], ◌∷◌, ◌++◌, map,
  arith, length,
}
use chibi_scheme.Gc.{Heap, Objects, heap_align}
use chibi_scheme.Gc.Chunks.{first_block, Swept, sexp_gc}
use chibi_scheme.Gc.Mark.{Value, Graph}
use chibi_scheme.Gc.Marking.{Member, PointsTo, IsClosed}
use chibi_scheme.Gc.Reaching.{Reachable, sexp_mark-Reachable}
use chibi_scheme.Gc.Layout.{Cell, free, used, Holds, push, collect}
use chibi_scheme.Gc.Heaps.{AreChunks, relist, largest_all, sexp_sweep-AreChunks}
use chibi_scheme.Gc.Survivors.{
  places, all_places, remark_all, AreChunks-remark, places-remark, places-collect,
}

pub Member-append : (p : ℕ) (l m : List ℕ) → Member p (l ++ m) ↔ (Member p l ⊎ Member p m)
Member-append p [] m = (λ i. inr i, λ i. elim i [ inl j ↦ elim j [ ] | inr j ↦ j ])
Member-append p (a ∷ l) m =
    let rest = Member-append p l m in
    (
      λ i. elim i [
        | inl e ↦ inl (inl e)
        | inr j ↦ elim (rest.0 j) [ inl k ↦ inl (inr k) | inr k ↦ inr k ]
      ],
      λ i. elim i [
        | inl j ↦ elim j [ inl e ↦ inl e | inr k ↦ inr (rest.1 (inl k)) ]
        | inr k ↦ inr (rest.1 (inr k))
      ],
    )

abbrev KeepsMarked : Objects → ℕ → List ℕ → List ℕ → Type 0
KeepsMarked objs p old new = Member p new ↔ (Member p old × ((objs p).markedp ≡ true))

KeepsMarked-append :
    (objs : Objects) (p : ℕ) (old new old' new' : List ℕ)
    → KeepsMarked objs p old new
    → KeepsMarked objs p old' new'
    → KeepsMarked objs p (old ++ old') (new ++ new')
KeepsMarked-append objs p old new old' new' h k =
    let a = Member-append p old old' in
    let b = Member-append p new new' in
    (
      λ i. elim (b.0 i) [
        | inl j ↦ let (l, m) = h.0 j in (a.1 (inl l), m)
        | inr j ↦ let (l, m) = k.0 j in (a.1 (inr l), m)
      ],
      λ (i, m). elim (a.0 i) [ inl j ↦ b.1 (inl (h.1 (j, m))) | inr j ↦ b.1 (inr (k.1 (j, m))) ],
    )

all_places-collect :
    (objs : Objects) (p : ℕ) (heaps : List Heap) (layouts : List (List Cell))
    → AreChunks objs heaps layouts
    → KeepsMarked objs p
        (all_places heaps layouts)
        (all_places (relist heaps (map collect layouts)) (map collect layouts))
all_places-collect objs p [] [] h = (λ i. elim i [ ], λ (i, m). i)
all_places-collect objs p [] (cells ∷ layouts) h = elim h [ ]
all_places-collect objs p (g ∷ heaps) [] h = elim h [ ]
all_places-collect objs p (g ∷ heaps) (cells ∷ layouts) ((list, holds, tiled, size), away, h) =
    KeepsMarked-append objs p (places (first_block g) cells)
      (places (first_block g) (collect cells)) (all_places heaps layouts)
      (all_places (relist heaps (map collect layouts)) (map collect layouts))
      (places-collect objs (first_block g) p cells holds)
      (all_places-collect objs p heaps layouts h)

all_places-remark :
    (objs : Objects) (heaps : List Heap) (layouts : List (List Cell))
    → all_places heaps (remark_all objs heaps layouts) ≡ all_places heaps layouts
all_places-remark objs [] layouts = refl
all_places-remark objs (h ∷ heaps) [] = refl
all_places-remark objs (h ∷ heaps) (cells ∷ layouts) =
    let e = places-remark objs (first_block h) (first_block h) cells in
    let f = all_places-remark objs heaps layouts in rw e rw f refl

abbrev pub IsClear : Objects → List ℕ → Type 0
IsClear objs addresses = (p : ℕ) → Member p addresses → (objs p).markedp ≡ false

push-IsClear :
    (objs : Objects) (a n : ℕ) (cells : List Cell)
    → (Holds objs (a + n) cells → IsClear objs (places (a + n) cells))
    → Holds objs a (push n cells)
    → IsClear objs (places a (push n cells))
push-IsClear objs a n [] clear h p i = elim i [ ]
push-IsClear objs a n (free m ∷ cells) clear h p i =
    let e : a + (n + m) ≡ a + n + m = omega arith in
    clear (subst (λ x. Holds objs x cells) e h) p (subst (λ x. Member p (places x cells)) e i)
push-IsClear objs a n (used b m ∷ cells) clear h p i = clear h p i

-- No object has the mark after a sweep.
collect-IsClear :
    (objs : Objects) (a : ℕ) (cells : List Cell)
    → Holds objs a (collect cells)
    → IsClear objs (places a (collect cells))
collect-IsClear objs a [] h p i = elim i [ ]
collect-IsClear objs a (free n ∷ cells) h p i =
    push-IsClear objs a n (collect cells) (λ k. collect-IsClear objs (a + n) cells k) h p i
collect-IsClear objs a (used b false ∷ cells) h p i =
    push-IsClear objs a (heap_align b) (collect cells)
      (λ k. collect-IsClear objs (a + heap_align b) cells k) h p i
collect-IsClear objs a (used b true ∷ cells) (e, f, h) p (inl k) = rw k f
collect-IsClear objs a (used b true ∷ cells) (e, f, h) p (inr j) =
    collect-IsClear objs (a + heap_align b) cells h p j

all_collect-IsClear :
    (objs : Objects) (heaps : List Heap) (layouts : List (List Cell))
    → AreChunks objs (relist heaps (map collect layouts)) (map collect layouts)
    → IsClear objs (all_places (relist heaps (map collect layouts)) (map collect layouts))
all_collect-IsClear objs [] layouts h p i = elim i [ ]
all_collect-IsClear objs (g ∷ heaps) [] h p i = elim i [ ]
all_collect-IsClear objs (g ∷ heaps) (cells ∷ layouts) ((list, holds, tiled, size), away, h) p i =
    let a = places (first_block g) (collect cells) in
    let b = all_places (relist heaps (map collect layouts)) (map collect layouts) in
    elim ((Member-append p a b).0 i) [
      | inl j ↦ collect-IsClear objs (first_block g) cells holds p j
      | inr j ↦ all_collect-IsClear objs heaps layouts h p j
    ]

-- The chunks' addresses and sizes are the same.
abbrev pub SameChunks : List Heap → List Heap → Type 0
SameChunks [] [] = Unit
SameChunks [] (g ∷ heaps') = ⊥
SameChunks (h ∷ heaps) [] = ⊥
SameChunks (h ∷ heaps) (g ∷ heaps') =
    (g.start ≡ h.start) × (g.size ≡ h.size) × (g.max_size ≡ h.max_size) × SameChunks heaps heaps'

SameChunks-relist :
    (objs : Objects) (heaps : List Heap) (layouts : List (List Cell))
    → AreChunks objs heaps layouts
    → SameChunks heaps (relist heaps (map collect layouts))
SameChunks-relist objs [] [] h = tt
SameChunks-relist objs [] (cells ∷ layouts) h = elim h [ ]
SameChunks-relist objs (g ∷ heaps) [] h = elim h [ ]
SameChunks-relist objs (g ∷ heaps) (cells ∷ layouts) (chunk, away, h) =
    (refl, refl, refl, SameChunks-relist objs heaps layouts h)

-- Let the chunks be tiled by free blocks and objects as their free lists tell, let the objects refer
-- to objects only, the context's too, and let none have the mark. Then a collection comes to its
-- end, with fuel above the number of objects. The chunks keep their places and sizes and are such again,
-- no object has the mark, and the objects left are those that the context reaches. No more is freed at once than the
-- largest free block has.
pub sexp_gc-Reachable :
    (fuel : ℕ) (graph : Graph) (ctx : Value) (heaps : List Heap) (layouts : List (List Cell))
    (objects : Objects)
    → AreChunks objects heaps layouts
    → IsClear objects (all_places heaps layouts)
    → PointsTo (λ p. Member p (all_places heaps layouts)) ctx
    → IsClosed graph (λ p. Member p (all_places heaps layouts))
    → length (all_places heaps layouts) < fuel
    → (w : Swept) × (layouts' : List (List Cell)) × (sexp_gc fuel graph ctx heaps objects ≡ some w)
      × SameChunks heaps w.heaps
      × AreChunks w.objects w.heaps layouts'
      × IsClear w.objects (all_places w.heaps layouts')
      × ((p : ℕ)
          → Member p (all_places w.heaps layouts')
            ↔ (Member p (all_places heaps layouts) × Reachable graph ctx p))
      × (w.max_freed ≤ largest_all layouts')
unfolding sexp_gc
sexp_gc-Reachable fuel graph ctx heaps layouts objects chunks clear at closed fits =
    let (marked, run, bytes, reach) =
      sexp_mark-Reachable fuel graph (all_places heaps layouts) ctx objects fits at closed clear in
    let layouts' = remark_all marked heaps layouts in
    let chunks' = AreChunks-remark objects marked heaps layouts bytes chunks in
    let (w, run', list, swept, same, sum, big) =
      sexp_sweep-AreChunks heaps layouts' marked chunks' in
    let e = all_places-remark marked heaps layouts in
    (
      w,
      map collect layouts',
      (rw run run'),
      (rw list (SameChunks-relist marked heaps layouts' chunks')),
      swept,
      rw list (all_collect-IsClear w.objects heaps layouts' (rw list at swept)),
      λ p.
          let k = rw e at (all_places-collect marked p heaps layouts' chunks') in
          rw list
            (λ i. let (l, m) = k.0 i in (l, (reach p l).0 m), λ (l, r). k.1 (l, (reach p l).1 r)),
      big,
    )
