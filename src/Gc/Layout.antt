-- ===== src/Gc/Layout.antt =====
-- What a chunk's memory is: free blocks and objects, one after the other.
use Prim.Native.Nat.{max}
use chibi_scheme.Prelude.{
  ℕ, suc, ◌+◌, ◌≤◌, ◌<◌, ◌≡◌, ◌≢◌, inl, inr, refl, ap, ◌∙◌, Bool, true, false, List, [], ◌∷◌, ltb,
  arith, Bool-cases,
}
use chibi_scheme.Gc.{Block, Header, Objects, heap_align, unmark, advance, rejoin}

pub data Cell : Type 0 where
  free : ℕ → Cell
  used : ℕ → Bool → Cell

abbrev pub extent : Cell → ℕ
extent (free n) = n
extent (used b m) = heap_align b

abbrev pub total : List Cell → ℕ
total [] = 0
total (c ∷ cells) = extent c + total cells

abbrev pub count : List Cell → ℕ
count [] = 0
count (c ∷ cells) = suc (count cells)

-- The free list of a layout that stands at an address.
abbrev pub blocks : ℕ → List Cell → List Block
blocks a [] = []
blocks a (free n ∷ cells) = record { addr = a; size = n } ∷ blocks (a + n) cells
blocks a (used b m ∷ cells) = blocks (a + heap_align b) cells

-- The objects' headers are those of the layout.
abbrev pub Holds : Objects → ℕ → List Cell → Type 0
Holds objs a [] = Unit
Holds objs a (free n ∷ cells) = Holds objs (a + n) cells
Holds objs a (used b m ∷ cells) =
    ((objs a).bytes ≡ b) × ((objs a).markedp ≡ m) × Holds objs (a + heap_align b) cells

-- No block or object is empty, and no two free blocks are neighbours; the flag tells whether a free
-- block stands before.
abbrev pub IsTiled : Bool → List Cell → Type 0
IsTiled free_before [] = Unit
IsTiled true (free n ∷ cells) = ⊥
IsTiled false (free n ∷ cells) = (0 < n) × IsTiled true cells
IsTiled free_before (used b m ∷ cells) = (0 < b) × IsTiled false cells

-- A free block in front, joined with one that is there.
abbrev pub push : ℕ → List Cell → List Cell
push n [] = free n ∷ []
push n (free m ∷ cells) = free (n + m) ∷ cells
push n (used b m ∷ cells) = free n ∷ used b m ∷ cells

-- The specification of a sweep: objects without a mark become free, the others lose it.
abbrev pub collect : List Cell → List Cell
collect [] = []
collect (free n ∷ cells) = push n (collect cells)
collect (used b false ∷ cells) = push (heap_align b) (collect cells)
collect (used b true ∷ cells) = used b false ∷ collect cells

abbrev pub garbage : List Cell → ℕ
garbage [] = 0
garbage (free n ∷ cells) = garbage cells
garbage (used b false ∷ cells) = heap_align b + garbage cells
garbage (used b true ∷ cells) = garbage cells

abbrev pub largest : List Cell → ℕ
largest [] = 0
largest (free n ∷ cells) = max n (largest cells)
largest (used b m ∷ cells) = largest cells

pub push-push : (n m : ℕ) (cells : List Cell) → push n (push m cells) ≡ push (n + m) cells
push-push n m [] = refl
push-push n m (free k ∷ cells) = let e : n + (m + k) ≡ n + m + k = omega arith in rw e refl
push-push n m (used b k ∷ cells) = refl

pub le-largest-push : (n : ℕ) (cells : List Cell) → n ≤ largest (push n cells)
le-largest-push n [] = omega arith
le-largest-push n (free m ∷ cells) = omega arith
le-largest-push n (used b m ∷ cells) = omega arith

pub heap_align_pos : (b : ℕ) → 0 < b → 0 < heap_align b
unfolding heap_align
heap_align_pos b h = omega arith

pub rejoin-advance :
    (p : ℕ) (before after : List Block)
    → rejoin (advance p before after).0 (advance p before after).1 ≡ rejoin before after
unfolding rejoin advance
rejoin-advance p before [] = refl
rejoin-advance p before (r ∷ after) = elim (Bool-cases (ltb r.addr p)) [
  | inl t ↦ rw (advance, t) (rejoin-advance p (r ∷ before) after)
  | inr t ↦ rw (advance, t) refl
]

-- The first block of a layout at `a` is not below it, so the search for r stops there.
pub advance-blocks :
    (p a : ℕ) (before : List Block) (cells : List Cell)
    → p ≤ a
    → advance p before (blocks a cells) ≡ (before, blocks a cells)
unfolding advance
advance-blocks p a before [] h = refl
advance-blocks p a before (free n ∷ cells) h =
    let t : ltb a p ≡ false = ground arith in rw (advance, t) refl
advance-blocks p a before (used b m ∷ cells) h =
    advance-blocks p (a + heap_align b) before cells (omega arith)

-- A block below p is passed.
pub advance_past :
    (p q n : ℕ) (before : List Block) (cells : List Cell)
    → q < p
    → advance p before (record { addr = q; size = n } ∷ blocks p cells)
      ≡ (record { addr = q; size = n } ∷ before, blocks p cells)
unfolding advance
advance_past p q n before cells h =
    let t : ltb q p ≡ true = ground arith in
    rw (advance, t)
      (advance-blocks p p (record { addr = q; size = n } ∷ before) cells (omega arith))

-- A header below the layout may change.
pub Holds-agree :
    (objs objs' : Objects) (a : ℕ) (cells : List Cell)
    → ((x : ℕ) → a ≤ x → objs' x ≡ objs x)
    → Holds objs a cells
    → Holds objs' a cells
Holds-agree objs objs' a [] same h = tt
Holds-agree objs objs' a (free n ∷ cells) same h =
    Holds-agree objs objs' (a + n) cells (λ x l. same x (omega arith)) h
Holds-agree objs objs' a (used b m ∷ cells) same (e, f, h) = (
  ap (λ (x : Header). x.bytes) (same a (omega arith)) ∙ e,
  ap (λ (x : Header). x.markedp) (same a (omega arith)) ∙ f,
  Holds-agree objs objs' (a + heap_align b) cells (λ x l. same x (omega arith)) h,
)

pub Holds-push :
    (objs : Objects) (a n : ℕ) (cells : List Cell)
    → Holds objs (a + n) cells
    → Holds objs a (push n cells)
Holds-push objs a n [] h = tt
Holds-push objs a n (free m ∷ cells) h = let e : a + n + m ≡ a + (n + m) = omega arith in rw e at h
Holds-push objs a n (used b m ∷ cells) h = h

pub unmark_ne : (p a : ℕ) (objs : Objects) → p ≢ a → unmark p objs a ≡ objs a
unfolding unmark
unmark_ne p a objs h = ground arith

-- A header outside the layout may change.
pub Holds-within :
    (objs objs' : Objects) (a : ℕ) (flag : Bool) (cells : List Cell)
    → IsTiled flag cells
    → ((x : ℕ) → a ≤ x → x < a + total cells → objs' x ≡ objs x)
    → Holds objs a cells
    → Holds objs' a cells
Holds-within objs objs' a flag [] tiled same h = tt
Holds-within objs objs' a true (free n ∷ cells) tiled same h = elim tiled [ ]
Holds-within objs objs' a false (free n ∷ cells) (pos, tiled) same h =
    Holds-within objs objs' (a + n) true cells tiled (λ x l k. same x (omega arith) (omega arith)) h
Holds-within objs objs' a flag (used b m ∷ cells) (pos, tiled) same (e, f, h) =
    let pos' = heap_align_pos b pos in
    let at = same a (omega arith) (omega arith) in
    (
      ap (λ (x : Header). x.bytes) at ∙ e,
      ap (λ (x : Header). x.markedp) at ∙ f,
      Holds-within objs objs' (a + heap_align b) false cells tiled
          (λ x l k. same x (omega arith) (omega arith)) h,
    )

pub total-push : (n : ℕ) (cells : List Cell) → total (push n cells) ≡ n + total cells
total-push n [] = refl
total-push n (free m ∷ cells) = omega arith
total-push n (used b m ∷ cells) = refl

pub total-collect : (cells : List Cell) → total (collect cells) ≡ total cells
total-collect [] = refl
total-collect (free n ∷ cells) =
    let e = total-collect cells in let f = total-push n (collect cells) in omega arith
total-collect (used b false ∷ cells) =
    let e = total-collect cells in let f = total-push (heap_align b) (collect cells) in omega arith
total-collect (used b true ∷ cells) = let e = total-collect cells in omega arith

pub push-IsTiled :
    (n : ℕ) (cells : List Cell) → 0 < n → IsTiled false cells → IsTiled false (push n cells)
push-IsTiled n [] pos h = (pos, tt)
push-IsTiled n (free m ∷ cells) pos (pos', h) = (omega arith, h)
push-IsTiled n (used b m ∷ cells) pos h = (pos, h)

pub collect-IsTiled :
    (flag : Bool) (cells : List Cell) → IsTiled flag cells → IsTiled false (collect cells)
collect-IsTiled flag [] h = tt
collect-IsTiled true (free n ∷ cells) h = elim h [ ]
collect-IsTiled false (free n ∷ cells) (pos, h) =
    push-IsTiled n (collect cells) pos (collect-IsTiled true cells h)
collect-IsTiled flag (used b false ∷ cells) (pos, h) =
    push-IsTiled (heap_align b) (collect cells) (heap_align_pos b pos)
      (collect-IsTiled false cells h)
collect-IsTiled flag (used b true ∷ cells) (pos, h) = (pos, collect-IsTiled false cells h)

pub count-le-total :
    (flag : Bool) (cells : List Cell) → IsTiled flag cells → count cells ≤ total cells
count-le-total flag [] h = omega arith
count-le-total true (free n ∷ cells) h = elim h [ ]
count-le-total false (free n ∷ cells) (pos, h) = let e = count-le-total true cells h in omega arith
count-le-total flag (used b m ∷ cells) (pos, h) =
    let e = count-le-total false cells h in let pos' = heap_align_pos b pos in omega arith
