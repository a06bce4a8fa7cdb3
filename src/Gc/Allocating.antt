-- ===== src/Gc/Allocating.antt =====
-- gc.c: sexp_try_alloc over the chain of chunks.
use chibi_scheme.Prelude.{
  ℕ, ◌+◌, ◌-◌, ◌≤◌, ◌<◌, ◌≡◌, inl, inr, refl, ap, ◌∙◌, Bool, false, List, [], ◌∷◌, arith,
}
use chibi_scheme.Gc.{Heap, Header, Objects, heap_align}
use chibi_scheme.Gc.Chunks.{first_block, heap_end}
use chibi_scheme.Gc.Marking.{Member}
use chibi_scheme.Gc.Layout.{Cell, free, used, blocks, Holds, IsTiled, Holds-agree, heap_align_pos}
use chibi_scheme.Gc.Survivors.{places, all_places}
use chibi_scheme.Gc.Heaps.{IsChunk, OutsideAll, AreChunks}
use chibi_scheme.Gc.Cycle.{Member-append}
use chibi_scheme.Gc.Taking.{IsAligned, Takes, split, fill, past}
use chibi_scheme.Gc.Placing.{
  install, install_other, install_here, extent_pos, IsTiled-tail, place_range, Takes-range,
  Takes-total, Takes-IsTiled,
}

Holds-install :
    (p b a : ℕ) (objs : Objects) (cells : List Cell)
    → p < a
    → Holds objs a cells
    → Holds (install p b objs) a cells
Holds-install p b a objs cells h k =
    Holds-agree objs (install p b objs) a cells (λ x l. install_other p b x objs (omega arith)) k

Takes-Holds :
    (b p a : ℕ) (flag : Bool) (objs : Objects) (cells cells' : List Cell)
    → 0 < b
    → Takes b p a cells cells'
    → IsTiled flag cells
    → Holds objs a cells
    → Holds (install p b objs) a cells'
Takes-Holds b p _ flag objs _ _ pos (split {n} {cells} l) tiled h =
    let e : p + heap_align b + (n - heap_align b) ≡ p + n = ground arith in
    let k = heap_align_pos b pos in
    let (f, g) = install_here p b objs in
    (f, g, (rw e (Holds-install p b (p + n) objs cells (omega arith) h)))
Takes-Holds b p _ flag objs _ _ pos (fill {cells}) tiled h =
    let k = heap_align_pos b pos in
    let (f, g) = install_here p b objs in
    (f, g, Holds-install p b (p + heap_align b) objs cells (omega arith) h)
Takes-Holds b p _ flag objs _ _ pos (past {a} {cells} {cells'} (free n) s t) tiled h =
    let (rest, tiled') = IsTiled-tail flag (free n) cells tiled in
    Takes-Holds b p (a + n) rest objs cells cells' pos t tiled' h
Takes-Holds b p _ flag objs _ _ pos (past {a} {cells} {cells'} (used c m) s t) tiled (e, f, h) =
    let (rest, tiled') = IsTiled-tail flag (used c m) cells tiled in
    let k = extent_pos flag (used c m) cells tiled in
    let (l, r) = Takes-range b p (a + heap_align c) cells cells' pos t in
    let o = install_other p b a objs (omega arith) in
    (
      ap (λ (x : Header). x.bytes) o ∙ e,
      ap (λ (x : Header). x.markedp) o ∙ f,
      Takes-Holds b p (a + heap_align c) rest objs cells cells' pos t tiled' h,
    )

-- The address was not that of an object.
pub Takes-new :
    (b p a : ℕ) (flag : Bool) (cells cells' : List Cell)
    → 0 < b
    → Takes b p a cells cells'
    → IsTiled flag cells
    → Member p (places a cells)
    → ⊥
Takes-new b p _ flag _ _ pos (split {n} {cells} l) tiled i =
    let k = extent_pos flag (free n) cells tiled in
    let (rest, tiled') = IsTiled-tail flag (free n) cells tiled in
    let (low, high) = place_range rest (p + n) p cells tiled' i in omega arith
Takes-new b p _ flag _ _ pos (fill {cells}) tiled i =
    let k = heap_align_pos b pos in
    let (rest, tiled') = IsTiled-tail flag (free (heap_align b)) cells tiled in
    let (low, high) = place_range rest (p + heap_align b) p cells tiled' i in omega arith
Takes-new b p _ flag _ _ pos (past {a} {cells} {cells'} (free n) s t) tiled i =
    let (rest, tiled') = IsTiled-tail flag (free n) cells tiled in
    Takes-new b p (a + n) rest cells cells' pos t tiled' i
Takes-new b p _ flag _ _ pos (past {a} {cells} {cells'} (used c m) s t) tiled (inl e) =
    let k = extent_pos flag (used c m) cells tiled in
    let (l, r) = Takes-range b p (a + heap_align c) cells cells' pos t in omega arith
Takes-new b p _ flag _ _ pos (past {a} {cells} {cells'} (used c m) s t) tiled (inr i) =
    let (rest, tiled') = IsTiled-tail flag (used c m) cells tiled in
    Takes-new b p (a + heap_align c) rest cells cells' pos t tiled' i

abbrev pub AreAligned : List (List Cell) → Type 0
AreAligned [] = Unit
AreAligned (cells ∷ layouts) = IsAligned cells × AreAligned layouts

-- An object in a chunk is where the chunk is.
pub all_places-OutsideAll :
    (objs : Objects) (heaps : List Heap) (layouts : List (List Cell)) (p : ℕ)
    → AreChunks objs heaps layouts
    → OutsideAll heaps p
    → Member p (all_places heaps layouts)
    → ⊥
all_places-OutsideAll objs [] [] p chunks out i = i
all_places-OutsideAll objs [] (cells ∷ layouts) p chunks out i = chunks
all_places-OutsideAll objs (h ∷ heaps) [] p chunks out i = chunks
all_places-OutsideAll objs (h ∷ heaps) (cells ∷ layouts) p
      ((list, holds, tiled, size), away, chunks) (o, out) i =
    elim ((Member-append p (places (first_block h) cells) (all_places heaps layouts)).0 i) [
      | inl j ↦
          let (low, high) = place_range false (first_block h) p cells tiled j in
          elim o [ inl k ↦ omega arith | inr k ↦ omega arith ]
      | inr j ↦ all_places-OutsideAll objs heaps layouts p chunks out j
    ]

-- The chunk with the taken layout
pub Takes-IsChunk :
    (b p : ℕ) (objs : Objects) (h : Heap) (cells cells' : List Cell)
    → 0 < b
    → IsChunk objs h cells
    → Takes b p (first_block h) cells cells'
    → IsChunk (install p b objs) (record h { free_list = blocks (first_block h) cells' }) cells'
Takes-IsChunk b p objs h cells cells' pos (list, holds, tiled, size) t = (
  refl,
  Takes-Holds b p (first_block h) false objs cells cells' pos t tiled holds,
  Takes-IsTiled b p (first_block h) false cells cells' pos t tiled,
  (let e = Takes-total b p (first_block h) cells cells' t in omega arith),
)

pub Takes-inside :
    (b p : ℕ) (objs : Objects) (h : Heap) (cells cells' : List Cell)
    → 0 < b
    → IsChunk objs h cells
    → Takes b p (first_block h) cells cells'
    → (h.start ≤ p) × (p < heap_end h)
Takes-inside b p objs h cells cells' pos (list, holds, tiled, size) t =
    let (l, r) = Takes-range b p (first_block h) cells cells' pos t in (omega arith, omega arith)
