-- ===== src/Gc/Taking.antt =====
-- gc.c: sexp_try_alloc in one chunk, on the chunk's layout.
use chibi_scheme.Prelude.{
  ℕ, ◌+◌, ◌-◌, ◌%◌, ◌≤◌, ◌<◌, ◌≡◌, ◌⊎◌, inl, inr, refl, true, false, none, some, List, [], ◌∷◌, leb,
  arith, Bool-cases,
}
use chibi_scheme.Gc.{unit, heap_align}
use chibi_scheme.Gc.Chunks.{take_block, take_first}
use chibi_scheme.Gc.Layout.{Cell, free, used, extent, blocks, largest, heap_align_pos}

-- Free blocks are multiples of the unit.
abbrev pub IsAligned : List Cell → Type 0
IsAligned [] = Unit
IsAligned (free n ∷ cells) = (n % 32 ≡ 0) × IsAligned cells
IsAligned (used b m ∷ cells) = IsAligned cells

abbrev pub IsSmall : ℕ → Cell → Type 0
IsSmall b (free n) = n < heap_align b
IsSmall b (used c m) = Unit

-- The layout at `a` before and after an object of `b` bytes is put at p, in the first free block
-- that has the room.
pub data Takes (b p : ℕ) : ℕ → List Cell → List Cell → Type 0 where
  split :
      {n : ℕ} {cells : List Cell}
      → heap_align b + unit ≤ n
      → Takes b p p (free n ∷ cells) (used b false ∷ free (n - heap_align b) ∷ cells)
  fill : {cells : List Cell} → Takes b p p (free (heap_align b) ∷ cells) (used b false ∷ cells)
  past :
      {a : ℕ} {cells cells' : List Cell} (c : Cell)
      → IsSmall b c
      → Takes b p (a + extent c) cells cells'
      → Takes b p a (c ∷ cells) (c ∷ cells')

exact : (b n : ℕ) → n % 32 ≡ 0 → heap_align b ≤ n → n < heap_align b + unit → n ≡ heap_align b
unfolding heap_align
exact b n h k l = omega arith

leb_gt : (a b : ℕ) → leb a b ≡ false → b < a
leb_gt a b h = ground arith

abbrev pub Outcome : ℕ → ℕ → List Cell → Type 0
Outcome b a cells =
    ((take_first (blocks a cells) (heap_align b) ≡ none) × (largest cells < heap_align b))
    ⊎ ((p : ℕ) × (cells' : List Cell) × (take_first (blocks a cells) (heap_align b)
          ≡ some (p, blocks a cells'))
        × Takes b p a cells cells')

take_here :
    (b a n : ℕ) (cells : List Cell)
    → n % 32 ≡ 0
    → leb (heap_align b) n ≡ true
    → Outcome b a (free n ∷ cells)
unfolding take_first take_block
take_here b a n cells h t = elim (Bool-cases (leb (heap_align b + unit) n)) [
  | inl u ↦
      let e : a + heap_align b + (n - heap_align b) ≡ a + n = ground arith in
      inr (
        a,
        used b false ∷ free (n - heap_align b) ∷ cells,
        (rw (take_first, t) rw (take_block, u) rw e refl),
        split (ground arith),
      )
  | inr u ↦
      let e = exact b n h (ground arith) (leb_gt (heap_align b + unit) n u) in
      inr (a, used b false ∷ cells, (rw (take_first, t) rw (take_block, u) rw e refl), (rw e fill))
]

pub take_first-Takes : (b a : ℕ) (cells : List Cell) → 0 < b → IsAligned cells → Outcome b a cells
unfolding take_first
take_first-Takes b a [] pos h = inl (refl, heap_align_pos b pos)
take_first-Takes b a (used c m ∷ cells) pos h =
    elim (take_first-Takes b (a + heap_align c) cells pos h) [
      | inl (e, l) ↦ inl (e, l)
      | inr (p, cells', e, t) ↦ inr (p, used c m ∷ cells', e, past (used c m) tt t)
    ]
take_first-Takes b a (free n ∷ cells) pos (k, h) = elim (Bool-cases (leb (heap_align b) n)) [
  | inl t ↦ take_here b a n cells k t
  | inr t ↦
      let small = leb_gt (heap_align b) n t in
      elim (take_first-Takes b (a + n) cells pos h) [
        | inl (e, l) ↦ inl ((rw (take_first, t) rw e refl), omega arith)
        | inr (p, cells', e, s) ↦
            inr (p, free n ∷ cells', (rw (take_first, t) rw e refl), past (free n) small s)
      ]
]
