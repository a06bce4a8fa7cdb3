-- ===== src/Gc/Survivors.antt =====
-- gc.c: sexp_gc, which marks from the context and then sweeps.
use chibi_scheme.Prelude.{
  ℕ, ◌+◌, ◌≡◌, ◌↔◌, inl, inr, refl, sym, ap, ◌∙◌, Bool, true, false, List, [], ◌∷◌, ◌++◌, arith,
}
use chibi_scheme.Gc.{Heap, Objects, heap_align}
use chibi_scheme.Gc.Chunks.{first_block}
use chibi_scheme.Gc.Marking.{Member}
use chibi_scheme.Gc.Layout.{Cell, free, used, blocks, Holds, IsTiled, push, collect, total}
use chibi_scheme.Gc.Heaps.{AreChunks}

-- The addresses of the objects of a layout
abbrev pub places : ℕ → List Cell → List ℕ
places a [] = []
places a (free n ∷ cells) = places (a + n) cells
places a (used b m ∷ cells) = a ∷ places (a + heap_align b) cells

abbrev pub all_places : List Heap → List (List Cell) → List ℕ
all_places [] layouts = []
all_places (h ∷ heaps) [] = []
all_places (h ∷ heaps) (cells ∷ layouts) = places (first_block h) cells ++ all_places heaps layouts

-- The layout with the marks that the objects have
abbrev pub remark : Objects → ℕ → List Cell → List Cell
remark objs a [] = []
remark objs a (free n ∷ cells) = free n ∷ remark objs (a + n) cells
remark objs a (used b m ∷ cells) = used b (objs a).markedp ∷ remark objs (a + heap_align b) cells

abbrev pub remark_all : Objects → List Heap → List (List Cell) → List (List Cell)
remark_all objs [] layouts = []
remark_all objs (h ∷ heaps) [] = []
remark_all objs (h ∷ heaps) (cells ∷ layouts) =
    remark objs (first_block h) cells ∷ remark_all objs heaps layouts

blocks-remark :
    (objs : Objects) (a b : ℕ) (cells : List Cell) → blocks b (remark objs a cells) ≡ blocks b cells
blocks-remark objs a b [] = refl
blocks-remark objs a b (free n ∷ cells) =
    ap (λ bs. record { addr = b; size = n } ∷ bs) (blocks-remark objs (a + n) (b + n) cells)
blocks-remark objs a b (used c m ∷ cells) =
    blocks-remark objs (a + heap_align c) (b + heap_align c) cells

total-remark :
    (objs : Objects) (a : ℕ) (cells : List Cell) → total (remark objs a cells) ≡ total cells
total-remark objs a [] = refl
total-remark objs a (free n ∷ cells) = ap (λ t. n + t) (total-remark objs (a + n) cells)
total-remark objs a (used b m ∷ cells) =
    ap (λ t. heap_align b + t) (total-remark objs (a + heap_align b) cells)

remark-IsTiled :
    (objs : Objects) (a : ℕ) (flag : Bool) (cells : List Cell)
    → IsTiled flag cells
    → IsTiled flag (remark objs a cells)
remark-IsTiled objs a flag [] h = h
remark-IsTiled objs a true (free n ∷ cells) h = h
remark-IsTiled objs a false (free n ∷ cells) (pos, h) =
    (pos, remark-IsTiled objs (a + n) true cells h)
remark-IsTiled objs a flag (used b m ∷ cells) (pos, h) =
    (pos, remark-IsTiled objs (a + heap_align b) false cells h)

Holds-remark :
    (objs objs' : Objects) (a : ℕ) (cells : List Cell)
    → ((p : ℕ) → (objs' p).bytes ≡ (objs p).bytes)
    → Holds objs a cells
    → Holds objs' a (remark objs' a cells)
Holds-remark objs objs' a [] same h = tt
Holds-remark objs objs' a (free n ∷ cells) same h = Holds-remark objs objs' (a + n) cells same h
Holds-remark objs objs' a (used b m ∷ cells) same (e, f, h) =
    (same a ∙ e, refl, Holds-remark objs objs' (a + heap_align b) cells same h)

pub AreChunks-remark :
    (objs objs' : Objects) (heaps : List Heap) (layouts : List (List Cell))
    → ((p : ℕ) → (objs' p).bytes ≡ (objs p).bytes)
    → AreChunks objs heaps layouts
    → AreChunks objs' heaps (remark_all objs' heaps layouts)
AreChunks-remark objs objs' [] [] same h = tt
AreChunks-remark objs objs' [] (cells ∷ layouts) same h = elim h [ ]
AreChunks-remark objs objs' (g ∷ heaps) [] same h = elim h [ ]
AreChunks-remark objs objs' (g ∷ heaps) (cells ∷ layouts) same
      ((list, holds, tiled, size), apart, h) =
    let p = first_block g in
    (
      (
        list ∙ sym (blocks-remark objs' p p cells),
        Holds-remark objs objs' p cells same holds,
        remark-IsTiled objs' p false cells tiled,
        (let e = total-remark objs' p cells in omega arith),
      ),
      apart,
      AreChunks-remark objs objs' heaps layouts same h,
    )

pub places-push : (a n : ℕ) (cells : List Cell) → places a (push n cells) ≡ places (a + n) cells
places-push a n [] = refl
places-push a n (free m ∷ cells) = ap (λ x. places x cells) (omega arith)
places-push a n (used b m ∷ cells) = refl

-- The objects that a sweep keeps are those with the mark.
pub places-collect :
    (objs : Objects) (a p : ℕ) (cells : List Cell)
    → Holds objs a cells
    → Member p (places a (collect cells)) ↔ (Member p (places a cells) × ((objs p).markedp ≡ true))
places-collect objs a p [] h = (λ i. elim i [ ], λ (i, m). i)
places-collect objs a p (free n ∷ cells) h =
    let e = places-push a n (collect cells) in rw e (places-collect objs (a + n) p cells h)
places-collect objs a p (used b true ∷ cells) (e, f, h) =
    let rest = places-collect objs (a + heap_align b) p cells h in
    (
      λ i. elim i [ inl k ↦ (inl k, (rw k f)) | inr j ↦ let (l, m) = rest.0 j in (inr l, m) ],
      λ (i, m). elim i [ inl k ↦ inl k | inr j ↦ inr (rest.1 (j, m)) ],
    )
places-collect objs a p (used b false ∷ cells) (e, f, h) =
    let rest = places-collect objs (a + heap_align b) p cells h in
    let k = places-push a (heap_align b) (collect cells) in
    rw k (
      λ i. let (l, m) = rest.0 i in (inr l, m),
      λ (i, m). elim i [
        | inl q ↦ let m' : (objs a).markedp ≡ true = rw q at m in cc
        | inr j ↦ rest.1 (j, m)
      ],
    )

pub places-remark :
    (objs : Objects) (a b : ℕ) (cells : List Cell) → places b (remark objs a cells) ≡ places b cells
places-remark objs a b [] = refl
places-remark objs a b (free n ∷ cells) = places-remark objs (a + n) (b + n) cells
places-remark objs a b (used c m ∷ cells) =
    ap (λ ps. b ∷ ps) (places-remark objs (a + heap_align c) (b + heap_align c) cells)
