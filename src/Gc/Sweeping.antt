-- ===== src/Gc/Sweeping.antt =====
-- gc.c: the scan of one chunk.
use Prim.Native.Nat.{max}
use chibi_scheme.Prelude.{
  ℕ, suc, ◌+◌, ◌≤◌, ◌<◌, ◌≡◌, refl, ap, ◌∙◌, true, false, some, List, [], ◌∷◌, ltb, ◌==◌, arith,
}
use chibi_scheme.Gc.{
  Block, Header, Objects, Sweep, heap_align, unmark, advance, rejoin, sweep_at, sweep_object,
  sweep_loop, free_object,
}
use chibi_scheme.Gc.Layout.{
  Cell, free, used, total, blocks, Holds, push, collect, garbage, largest, push-push,
  le-largest-push, heap_align_pos, Holds-push, unmark_ne,
}
use chibi_scheme.Gc.Freeing.{Front, apart, touching, left, Near, next, last_size, IsAt, Frees}

-- The free list of the chunk, with what stands before.
abbrev pub whole : Front → ℕ → List Cell → List Block
whole (apart bs) p cells = rejoin bs (blocks p cells)
whole (touching q bs) p cells = rejoin bs (blocks q.addr (push q.size cells))

abbrev pub bound : Front → List Cell → ℕ
bound (apart bs) cells = largest cells
bound (touching q bs) cells = largest (push q.size cells)

-- What is left of the scan gives a state that has collected the layout.
abbrev pub Collects : Front → ℕ → List Cell → Sweep → Sweep → Type 0
Collects z p cells s t =
    (rejoin t.before t.after ≡ whole z p (collect cells))
    × Holds t.objects p (collect cells)
    × ((a : ℕ) → a < p → t.objects a ≡ s.objects a)
    × (t.sum_freed ≡ s.sum_freed + garbage cells)
    × (t.max_freed ≤ max s.max_freed (bound z (collect cells)))
    × ((a : ℕ) → p + total cells ≤ a → t.objects a ≡ s.objects a)

whole-next :
    (z : Front) (p size : ℕ) (cells : List Cell)
    → whole (next z p size) (p + size) cells ≡ whole z p (push size cells)
unfolding rejoin
whole-next (apart bs) p size cells = refl
whole-next (touching q bs) p size cells = let e = push-push q.size size cells in rw e refl

bound-next :
    (z : Front) (p size : ℕ) (cells : List Cell)
    → bound (next z p size) cells ≡ bound z (push size cells)
bound-next (apart bs) p size cells = refl
bound-next (touching q bs) p size cells = let e = push-push q.size size cells in rw e refl

last_size-bound :
    (z : Front) (p size : ℕ) (cells : List Cell)
    → last_size (next z p size) ≤ bound (next z p size) cells
last_size-bound (apart bs) p size cells = le-largest-push size cells
last_size-bound (touching q bs) p size cells = le-largest-push (q.size + size) cells

pub step :
    (fuel end p : ℕ) (s t u : Sweep) (bs rs : List Block)
    → s.pos ≡ p
    → p < end
    → advance p s.before s.after ≡ (bs, rs)
    → sweep_at p (bs, rs) s ≡ t
    → sweep_loop fuel end t ≡ some u
    → sweep_loop (suc fuel) end s ≡ some u
unfolding sweep_loop
step fuel end p s t u bs rs e h f g k =
    let l : ltb s.pos end ≡ true = ground arith in
    rw (sweep_loop, l)
      (ap (λ x. sweep_loop fuel end (sweep_at x (advance x s.before s.after) s)) e
        ∙ ap (λ x. sweep_loop fuel end (sweep_at p x s)) f
        ∙ ap (sweep_loop fuel end) g
        ∙ k)

-- freeing `size` bytes, then the rest
Collects-freed :
    (z : Front) (p size size' : ℕ) (cells rest : List Cell) (s t u : Sweep)
    → collect cells ≡ push size' (collect rest)
    → garbage cells ≡ size + garbage rest
    → total cells ≡ size' + total rest
    → 0 < size'
    → Frees z p size size' rest s t
    → Collects (next z p size') (p + size') rest t u
    → Collects z p cells s u
Collects-freed z p size size' cells rest s t u e g w pos (at, objs, sum, big)
      (list, holds, same, sum', big', above) =
    let f = last_size-bound z p size' (collect rest) in
    let k = bound-next z p size' (collect rest) in
    (
      rw e (list ∙ whole-next z p size' (collect rest)),
      rw e (Holds-push u.objects p size' (collect rest) holds),
      λ a l. same a (omega arith) ∙ ap (λ (o : Objects). o a) objs,
      omega arith,
      rw e omega arith,
      λ a l. above a (omega arith) ∙ ap (λ (o : Objects). o a) objs,
    )

pub at_block :
    (p n : ℕ) (bs after : List Block) (s : Sweep)
    → sweep_at p (bs, record { addr = p; size = n } ∷ after) s
      ≡ record s { pos = p + n; before = bs; after = record { addr = p; size = n } ∷ after }
unfolding sweep_at
at_block p n bs after s = let t : (p == p) ≡ true = ground arith in rw (sweep_at, t) refl

pub at_object :
    (p a : ℕ) (bs : List Block) (cells : List Cell) (s : Sweep)
    → p < a
    → sweep_at p (bs, blocks a cells) s ≡ sweep_object bs p (blocks a cells) s
unfolding sweep_at
at_object p a bs [] s h = refl
at_object p a bs (free n ∷ cells) s h =
    let t : (a == p) ≡ false = ground arith in rw (sweep_at, t) refl
at_object p a bs (used b m ∷ cells) s h = at_object p (a + heap_align b) bs cells s (omega arith)

pub sweep_marked :
    (p b : ℕ) (bs after : List Block) (s : Sweep)
    → (s.objects p).bytes ≡ b
    → (s.objects p).markedp ≡ true
    → sweep_object bs p after s ≡ record s {
      pos = p + heap_align b;
      before = bs;
      after = after;
      objects = unmark p s.objects;
    }
unfolding sweep_object
sweep_marked p b bs after s e f =
    rw (sweep_object, f)
      (ap
        (λ n. record s {
          pos = p + heap_align n;
          before = bs;
          after = after;
          objects = unmark p s.objects;
        })
        e)

sweep_unmarked :
    (p b : ℕ) (bs after : List Block) (s : Sweep)
    → (s.objects p).bytes ≡ b
    → (s.objects p).markedp ≡ false
    → sweep_object bs p after s ≡ free_object bs p (heap_align b) after s
unfolding sweep_object
sweep_unmarked p b bs after s e f =
    rw (sweep_object, f) (ap (λ n. free_object bs p (heap_align n) after s) e)

unmark_eq :
    (p : ℕ) (objs : Objects)
    → ((unmark p objs p).bytes ≡ (objs p).bytes) × ((unmark p objs p).markedp ≡ false)
unfolding unmark
unmark_eq p objs = let t : (p == p) ≡ true = ground arith in rw (unmark, t) (refl, refl)

whole-kept :
    (z : Front) (p b : ℕ) (cells : List Cell)
    → Near z p
    → rejoin (left z) (blocks (p + heap_align b) cells) ≡ whole z p (used b false ∷ cells)
unfolding rejoin
whole-kept (apart bs) p b cells near = refl
whole-kept (touching q bs) p b cells near = rw near refl

bound-kept :
    (z : Front) (b m n k : ℕ) (cells : List Cell)
    → k ≤ max n (largest cells)
    → n ≡ m
    → k ≤ max m (bound z (used b false ∷ cells))
bound-kept (apart bs) b m n k cells h e = omega arith
bound-kept (touching q bs) b m n k cells h e = omega arith

-- An object that keeps its place.
pub Collects-kept :
    (z : Front) (p b : ℕ) (cells : List Cell) (s u : Sweep) (t : Sweep)
    → 0 < b
    → Near z p
    → (s.objects p).bytes ≡ b
    → t.objects ≡ unmark p s.objects
    → t.sum_freed ≡ s.sum_freed
    → t.max_freed ≡ s.max_freed
    → Collects (apart (left z)) (p + heap_align b) cells t u
    → Collects z p (used b true ∷ cells) s u
unfolding rejoin
Collects-kept z p b cells s u t pos near e o f g (list, holds, same, sum, big, above) =
    let pos' = heap_align_pos b pos in
    let h : u.objects p ≡ unmark p s.objects p =
      same p (omega arith) ∙ ap (λ (x : Objects). x p) o in
    let k = unmark_eq p s.objects in
    (
      list ∙ whole-kept z p b (collect cells) near,
      (ap (λ (x : Header). x.bytes) h ∙ k.0 ∙ e, ap (λ (x : Header). x.markedp) h ∙ k.1, holds),
      λ a l.
          same a (omega arith)
          ∙ ap (λ (x : Objects). x a) o
          ∙ unmark_ne p a s.objects (omega arith),
      sum ∙ ap (λ x. x + garbage cells) f,
      bound-kept z b s.max_freed t.max_freed u.max_freed (collect cells) big g,
      λ a l.
          above a (omega arith)
          ∙ ap (λ (x : Objects). x a) o
          ∙ unmark_ne p a s.objects (omega arith),
    )

abbrev pub Scans : Front → ℕ → ℕ → ℕ → List Cell → Sweep → Type 0
Scans z p fuel end cells s = (u : Sweep) × (sweep_loop fuel end s ≡ some u) × Collects z p cells s u

-- An object that is freed, after which the scan of the rest succeeds.
pub scan-freed :
    (z : Front) (fuel end p b size' : ℕ) (cells rest : List Cell) (s : Sweep)
    → p < end
    → 0 < b
    → IsAt z p (used b false ∷ cells) s
    → (s.objects p).bytes ≡ b
    → (s.objects p).markedp ≡ false
    → push (heap_align b) (collect cells) ≡ push size' (collect rest)
    → garbage cells ≡ garbage rest
    → heap_align b + total cells ≡ size' + total rest
    → 0 < size'
    → Frees z p
        (heap_align b)
        size'
        rest
        s
        (free_object (left z) p (heap_align b) (blocks (p + heap_align b) cells) s)
    → ((t : Sweep)
        → IsAt (next z p size') (p + size') rest t
        → t.objects ≡ s.objects
        → Scans (next z p size') (p + size') fuel end rest t)
    → Scans z p (suc fuel) end (used b false ∷ cells) s
scan-freed z fuel end p b size' cells rest s h pos (e, f, near) by m c g w pos' frees scan =
    let t = free_object (left z) p (heap_align b) (blocks (p + heap_align b) cells) s in
    let (u, run, done) = scan t frees.0 frees.1 in
    let ok =
      at_object p (p + heap_align b) (left z) cells s (let k = heap_align_pos b pos in omega arith)
      ∙ sweep_unmarked p b (left z) (blocks (p + heap_align b) cells) s by m in
    (
      u,
      step fuel end p s t u (left z) (blocks (p + heap_align b) cells) e h f ok run,
      Collects-freed z p (heap_align b) size' (used b false ∷ cells) rest s t u c (omega arith) w
          pos' frees done,
    )
