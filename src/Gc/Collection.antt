-- ===== src/Gc/Collection.antt =====
-- gc.c: the sweep of a chunk whose memory is a layout.
use mathlib.Core.Path.{subst}
use chibi_scheme.Prelude.{
  ℕ, zero, suc, ◌+◌, ◌≤◌, ◌<◌, ◌≡◌, refl, sym, ap, ◌∙◌, true, false, some, List, [], ◌∷◌, ltb,
  arith,
}
use chibi_scheme.Gc.{Block, Objects, Sweep, heap_align, unmark, rejoin, sweep_loop}
use chibi_scheme.Gc.Layout.{
  count, Cell, free, used, total, blocks, Holds, IsTiled, collect, heap_align_pos, rejoin-advance,
  advance_past, advance-blocks, Holds-agree, unmark_ne, push-push, Holds-push,
}
use chibi_scheme.Gc.Freeing.{
  Front, apart, touching, left, Near, after_free, next, IsAt, free_object-alone, free_object-joined,
}
use chibi_scheme.Gc.Sweeping.{
  whole, Scans, scan-freed, Collects-kept, step, at_block, at_object, sweep_marked,
}

whole_end : (z : Front) (p : ℕ) (s : Sweep) → IsAt z p [] s → rejoin s.before s.after ≡ whole z p []
unfolding rejoin
whole_end (apart bs) p s (e, f, near) =
    sym (rejoin-advance p s.before s.after) ∙ ap (λ (x : List Block × List Block). rejoin x.0 x.1) f
whole_end (touching q bs) p s (e, f, near) =
    sym (rejoin-advance p s.before s.after) ∙ ap (λ (x : List Block × List Block). rejoin x.0 x.1) f

past : (bs : List Block) (p size : ℕ) → Near (apart bs) p → 0 < size → Near (apart bs) (p + size)
past [] p size h pos = tt
past (q ∷ bs) p size h pos = omega arith

past_left : (z : Front) (p size : ℕ) → Near z p → 0 < size → Near (apart (left z)) (p + size)
past_left (apart bs) p size h pos = past bs p size h pos
past_left (touching q bs) p size h pos = omega arith

loop_end : (fuel end : ℕ) (s : Sweep) → end ≤ s.pos → sweep_loop (suc fuel) end s ≡ some s
unfolding sweep_loop
loop_end fuel end s h = let t : ltb s.pos end ≡ false = ground arith in rw (sweep_loop, t) refl

Holds-same :
    (objs objs' : Objects) (a : ℕ) (cells : List Cell)
    → objs' ≡ objs
    → Holds objs a cells
    → Holds objs' a cells
Holds-same objs objs' a cells e h = subst (λ (x : Objects). Holds x a cells) (sym e) h

-- A mark that is not there is not seen in the rest.
Holds-unmark :
    (p a : ℕ) (objs : Objects) (cells : List Cell)
    → p < a
    → Holds objs a cells
    → Holds (unmark p objs) a cells
Holds-unmark p a objs cells h k =
    Holds-agree objs (unmark p objs) a cells (λ x l. unmark_ne p x objs (omega arith)) k

IsTiled-next :
    (z : Front) (p size : ℕ) (cells : List Cell)
    → IsTiled true cells
    → IsTiled (after_free (next z p size)) cells
IsTiled-next (apart bs) p size cells h = h
IsTiled-next (touching q bs) p size cells h = h

-- An object that nothing free follows.
freed_alone :
    (fuel end p b : ℕ) (z : Front) (rest : List Cell) (s : Sweep)
    → p + (heap_align b + total rest) ≡ end
    → 0 < b
    → IsAt z p (used b false ∷ rest) s
    → (s.objects p).bytes ≡ b
    → (s.objects p).markedp ≡ false
    → IsTiled true rest
    → ((t : Sweep)
        → IsAt (next z p (heap_align b)) (p + heap_align b) rest t
        → t.objects ≡ s.objects
        → Scans (next z p (heap_align b)) (p + heap_align b) fuel end rest t)
    → Scans z p (suc fuel) end (used b false ∷ rest) s
freed_alone fuel end p b z rest s ends pos at by m tiled scan =
    let q = heap_align_pos b pos in
    scan-freed z fuel end p b (heap_align b) rest rest s (omega arith) pos at by m refl refl refl q
      (free_object-alone z p (heap_align b) rest s q at.2 tiled) scan

-- The scan of a layout collects it, whatever stands before.
pub sweep_loop-collects :
    (fuel end p : ℕ) (z : Front) (cells : List Cell) (s : Sweep)
    → count cells < fuel
    → p + total cells ≡ end
    → IsAt z p cells s
    → Holds s.objects p cells
    → IsTiled (after_free z) cells
    → Scans z p fuel end cells s
sweep_loop-collects zero end p z cells s fits ends at holds tiled =
    let absurd : ⊥ = omega arith in elim absurd [ ]
sweep_loop-collects (suc fuel) end p z [] s fits ends at holds tiled = (
  s,
  loop_end fuel end s (omega arith),
  (whole_end z p s at, tt, λ a l. refl, omega arith, omega arith, λ a l. refl),
)
sweep_loop-collects (suc fuel) end p (touching q bs) (free n ∷ cells) s fits ends at holds tiled =
    elim tiled [ ]
sweep_loop-collects (suc fuel) end p (apart bs) (free n ∷ cells) s fits ends (e, f, near) holds
      (pos, tiled) =
    let t = record s {
      pos = p + n;
      before = bs;
      after = record { addr = p; size = n } ∷ blocks (p + n) cells;
    } in
    let at' : IsAt (next (apart bs) p n) (p + n) cells t =
      (refl, advance_past (p + n) p n bs cells (omega arith), refl) in
    let (u, run, (list, kept, same, sum, big, above)) =
      sweep_loop-collects fuel end (p + n) (next (apart bs) p n) cells t (omega arith) (omega arith)
        at' holds tiled in
    let ok = at_block p n bs (blocks (p + n) cells) s in
    (
      u,
      step fuel end p s t u bs (record { addr = p; size = n } ∷ blocks (p + n) cells) e
          (omega arith) f ok run,
      (
        list,
        Holds-push u.objects p n (collect cells) kept,
        λ a l. same a (omega arith),
        sum,
        big,
        λ a l. above a (omega arith),
      ),
    )
sweep_loop-collects (suc fuel) end p z (used b true ∷ cells) s fits ends (e, f, near) (by, m, holds)
      (pos, tiled) =
    let pos' = heap_align_pos b pos in
    let t = record s {
      pos = p + heap_align b;
      before = left z;
      after = blocks (p + heap_align b) cells;
      objects = unmark p s.objects;
    } in
    let at' : IsAt (apart (left z)) (p + heap_align b) cells t = (
      refl,
      advance-blocks (p + heap_align b) (p + heap_align b) (left z) cells (omega arith),
      past_left z p (heap_align b) near pos',
    ) in
    let holds' = Holds-unmark p (p + heap_align b) s.objects cells (omega arith) holds in
    let (u, run, done) =
      sweep_loop-collects fuel end (p + heap_align b) (apart (left z)) cells t (omega arith)
        (omega arith) at' holds' tiled in
    let ok =
      at_object p (p + heap_align b) (left z) cells s (omega arith)
      ∙ sweep_marked p b (left z) (blocks (p + heap_align b) cells) s by m in
    (
      u,
      step fuel end p s t u (left z) (blocks (p + heap_align b) cells) e (omega arith) f ok run,
      Collects-kept z p b cells s u t pos near by refl refl refl done,
    )
sweep_loop-collects (suc fuel) end p z (used b false ∷ free n ∷ cells) s fits ends at (by, m, holds)
      (pos, (pos', tiled)) =
    let q = heap_align_pos b pos in
    let r : p + heap_align b + n ≡ p + (heap_align b + n) = omega arith in
    scan-freed z fuel end p b (heap_align b + n) (free n ∷ cells) cells s (omega arith) pos at by m
      (push-push (heap_align b) n (collect cells)) refl (omega arith) (omega arith)
      (free_object-joined z p (heap_align b) n cells s pos' at.2)
      (λ t at' o.
        sweep_loop-collects fuel end (p + (heap_align b + n)) (next z p (heap_align b + n)) cells t
          (omega arith) (omega arith) at'
          (rw⁻¹ r (Holds-same s.objects t.objects (p + heap_align b + n) cells o holds))
          (IsTiled-next z p (heap_align b + n) cells tiled))
sweep_loop-collects (suc fuel) end p z (used b false ∷ []) s fits ends at (by, m, holds)
      (pos, tiled) =
    freed_alone fuel end p b z [] s ends pos at by m tt (λ t at' o.
      sweep_loop-collects fuel end (p + heap_align b) (next z p (heap_align b)) [] t (omega arith)
        (omega arith) at' tt (IsTiled-next z p (heap_align b) [] tt))
sweep_loop-collects (suc fuel) end p z (used b false ∷ used b' m' ∷ cells) s fits ends at
      (by, m, holds) (pos, tiled) =
    freed_alone fuel end p b z (used b' m' ∷ cells) s ends pos at by m tiled (λ t at' o.
      sweep_loop-collects fuel end (p + heap_align b) (next z p (heap_align b)) (used b' m' ∷ cells)
        t (omega arith) (omega arith) at'
        (Holds-same s.objects t.objects (p + heap_align b) (used b' m' ∷ cells) o holds)
        (IsTiled-next z p (heap_align b) (used b' m' ∷ cells) tiled))
