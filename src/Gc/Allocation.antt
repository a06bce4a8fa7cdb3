-- ===== src/Gc/Allocation.antt =====
-- gc.c: sexp_try_alloc over the chain of chunks, and sexp_alloc after a collection.
use chibi_scheme.Prelude.{
  ℕ, ◌<◌, ◌≡◌, ◌⊎◌, ◌↔◌, inl, inr, refl, ap, ◌∙◌, false, none, some, List, [], ◌∷◌, arith,
}
use chibi_scheme.Gc.{Heap, Objects, heap_align}
use chibi_scheme.Gc.Chunks.{first_block, take_first, try_alloc}
use chibi_scheme.Gc.Marking.{Member}
use chibi_scheme.Gc.Layout.{Cell, blocks, heap_align_pos}
use chibi_scheme.Gc.Survivors.{places, all_places}
use chibi_scheme.Gc.Heaps.{
  IsChunk, Outside, OutsideAll, IsDisjoint, AreChunks, largest_all, AreChunks-Outside,
  IsChunk-within, IsDisjoint-OutsideAll,
}
use chibi_scheme.Gc.Cycle.{Member-append}
use chibi_scheme.Gc.Taking.{IsAligned, Takes, take_first-Takes}
use chibi_scheme.Gc.Placing.{install, install_other, place_range, Takes-IsAligned, Takes-places}
use chibi_scheme.Gc.Allocating.{
  Takes-new, AreAligned, all_places-OutsideAll, Takes-IsChunk, Takes-inside,
}

-- An object of `b` bytes is at p in the new chunks, and was not in the old.
pub record Adds (b p : ℕ) (objs : Objects) (heaps : List Heap) (layouts : List (List Cell))
    (heaps' : List Heap) (layouts' : List (List Cell)) : Type 0 where
  pub chunks : AreChunks (install p b objs) heaps' layouts'
  pub aligned : AreAligned layouts'
  pub new : Member p (all_places heaps layouts) → ⊥
  pub added :
      (q : ℕ)
      → Member q (all_places heaps' layouts') ↔ ((q ≡ p) ⊎ Member q (all_places heaps layouts))
  pub inside : OutsideAll heaps p → ⊥
  pub apart : (g : Heap) → IsDisjoint g heaps → IsDisjoint g heaps'

Adds-first :
    (b p : ℕ) (objs : Objects) (h : Heap) (heaps : List Heap) (cells cells' : List Cell)
    (layouts : List (List Cell))
    → 0 < b
    → AreChunks objs (h ∷ heaps) (cells ∷ layouts)
    → AreAligned (cells ∷ layouts)
    → Takes b p (first_block h) cells cells'
    → Adds b p objs
        (h ∷ heaps)
        (cells ∷ layouts)
        (record h { free_list = blocks (first_block h) cells' } ∷ heaps)
        (cells' ∷ layouts)
Adds-first b p objs h heaps cells cells' layouts pos (chunk, away, chunks) (al, als) t =
    let (list, holds, tiled, size) = chunk in
    let (low, high) = Takes-inside b p objs h cells cells' pos chunk t in
    let old = places (first_block h) cells in
    let new = places (first_block h) cells' in
    let rest = all_places heaps layouts in
    let same : (a : ℕ) → Outside h a → install p b objs a ≡ objs a =
      λ a o. install_other p b a objs (λ e. elim o [ inl k ↦ omega arith | inr k ↦ omega arith ]) in
    record {
      chunks = (
        Takes-IsChunk b p objs h cells cells' pos chunk t,
        away,
        AreChunks-Outside objs (install p b objs) h heaps layouts away same chunks,
      );
      aligned = (Takes-IsAligned b p (first_block h) cells cells' t al, als);
      new = λ i. elim ((Member-append p old rest).0 i) [
        | inl j ↦ Takes-new b p (first_block h) false cells cells' pos t tiled j
        | inr j ↦
            all_places-OutsideAll objs heaps layouts p chunks
              (IsDisjoint-OutsideAll h heaps p away low high) j
      ];
      added = λ q.
          let here = Takes-places b p (first_block h) q cells cells' t in
          let a = Member-append q old rest in
          let a' = Member-append q new rest in
          (
            λ i. elim (a'.0 i) [
              | inl j ↦ elim (here.0 j) [ inl e ↦ inl e | inr k ↦ inr (a.1 (inl k)) ]
              | inr j ↦ inr (a.1 (inr j))
            ],
            λ i. elim i [
              | inl e ↦ a'.1 (inl (here.1 (inl e)))
              | inr j ↦ elim (a.0 j) [ inl k ↦ a'.1 (inl (here.1 (inr k))) | inr k ↦ a'.1 (inr k) ]
            ],
          );
      inside = λ (o, out). elim o [ inl k ↦ omega arith | inr k ↦ omega arith ];
      apart = λ g d. d;
    }

Adds-later :
    (b p : ℕ) (objs : Objects) (h : Heap) (heaps : List Heap) (cells : List Cell)
    (layouts : List (List Cell)) (heaps' : List Heap) (layouts' : List (List Cell))
    → IsChunk objs h cells
    → IsDisjoint h heaps
    → IsAligned cells
    → Adds b p objs heaps layouts heaps' layouts'
    → Adds b p objs (h ∷ heaps) (cells ∷ layouts) (h ∷ heaps') (cells ∷ layouts')
Adds-later b p objs h heaps cells layouts heaps' layouts' chunk away al d =
    let (list, holds, tiled, size) = chunk in
    let first = places (first_block h) cells in
    let rest = all_places heaps layouts in
    let rest' = all_places heaps' layouts' in
    record {
      chunks = (
        IsChunk-within objs (install p b objs) h cells
            (λ a l k.
              install_other p b a objs
                (λ e. d.inside (rw e at (IsDisjoint-OutsideAll h heaps a away l k))))
            chunk,
        d.apart h away,
        d.chunks,
      );
      aligned = (al, d.aligned);
      new = λ i. elim ((Member-append p first rest).0 i) [
        | inl j ↦
            let (low, high) = place_range false (first_block h) p cells tiled j in
            d.inside (IsDisjoint-OutsideAll h heaps p away (omega arith) (omega arith))
        | inr j ↦ d.new j
      ];
      added = λ q.
          let a = Member-append q first rest in
          let a' = Member-append q first rest' in
          (
            λ i. elim (a'.0 i) [
              | inl j ↦ inr (a.1 (inl j))
              | inr j ↦ elim ((d.added q).0 j) [ inl e ↦ inl e | inr k ↦ inr (a.1 (inr k)) ]
            ],
            λ i. elim i [
              | inl e ↦ a'.1 (inr ((d.added q).1 (inl e)))
              | inr j ↦ elim (a.0 j) [
                | inl k ↦ a'.1 (inl k)
                | inr k ↦ a'.1 (inr ((d.added q).1 (inr k)))
              ]
            ],
          );
      inside = λ (o, out). d.inside out;
      apart = λ g (e, ds). (e, d.apart g ds);
    }

-- Let the chunks be tiled by objects and by free blocks of whole units. Either an allocation fails
-- and every free block is smaller than the aligned size, or it gives an address where no object
-- was, and once the header is written there, the chunks are tiled by the old objects and the new
-- one.
pub try_alloc-Adds :
    (b : ℕ) (objs : Objects) (heaps : List Heap) (layouts : List (List Cell))
    → 0 < b
    → AreChunks objs heaps layouts
    → AreAligned layouts
    → ((try_alloc heaps (heap_align b) ≡ none) × (largest_all layouts < heap_align b))
      ⊎ ((p : ℕ) × (heaps' : List Heap) × (layouts' : List (List Cell)) × (try_alloc heaps
              (heap_align b)
            ≡ some (p, heaps'))
          × Adds b p objs heaps layouts heaps' layouts')
unfolding try_alloc
try_alloc-Adds b objs [] [] pos chunks al = inl (refl, heap_align_pos b pos)
try_alloc-Adds b objs [] (cells ∷ layouts) pos chunks al = elim chunks [ ]
try_alloc-Adds b objs (h ∷ heaps) [] pos chunks al = elim chunks [ ]
try_alloc-Adds b objs (h ∷ heaps) (cells ∷ layouts) pos (chunk, away, chunks) (al, als) =
    let size = heap_align b in
    let f = ap (λ l. take_first l size) chunk.0 in
    elim (take_first-Takes b (first_block h) cells pos al) [
      | inr (p, cells', e, t) ↦
          let g = f ∙ e in
          inr (
            p,
            record h { free_list = blocks (first_block h) cells' } ∷ heaps,
            cells' ∷ layouts,
            (rw (try_alloc, g) refl),
            Adds-first b p objs h heaps cells cells' layouts pos (chunk, away, chunks) (al, als) t,
          )
      | inl (e, l) ↦
          let g = f ∙ e in
          elim (try_alloc-Adds b objs heaps layouts pos chunks als) [
            | inl (e', l') ↦ inl ((rw (try_alloc, g) rw (try_alloc, e') refl), omega arith)
            | inr (p, heaps', layouts', e', d) ↦ inr (
              p,
              h ∷ heaps',
              cells ∷ layouts',
              (rw (try_alloc, g) rw (try_alloc, e') refl),
              Adds-later b p objs h heaps cells layouts heaps' layouts' chunk away al d,
            )
          ]
    ]
