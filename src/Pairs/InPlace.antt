-- ===== src/Pairs/InPlace.antt =====
-- sexp_nreverse_op, which turns the pairs of a list round.
use mathlib.Core.List.{reverse, reverse-cons, append_assoc}
use chibi_scheme.Prelude.{
  ℕ, zero, suc, ◌<◌, ◌≡◌, refl, sym, ap, ◌∙◌, false, some, List, [], ◌∷◌, ◌++◌, ◌==◌, arith, length,
}
use chibi_scheme.Pairs.{Datum, null, atom, pair, Store, is_pair, put, nreverse_loop, nreverse_op}
use chibi_scheme.Pairs.Building.{put_self, put_other}

-- The addresses of a chain of pairs, and what stands at its end
abbrev pub IsChain : (ℕ → Datum) → Datum → List ℕ → Datum → Type 0
IsChain cdrs d [] e = d ≡ e
IsChain cdrs d (p ∷ ps) e = (d ≡ pair p) × IsChain cdrs (cdrs p) ps e

abbrev pub Avoids : ℕ → List ℕ → Type 0
Avoids p [] = Unit
Avoids p (q ∷ qs) = ((q == p) ≡ false) × Avoids p qs

abbrev pub IsDistinct : List ℕ → Type 0
IsDistinct [] = Unit
IsDistinct (p ∷ ps) = Avoids p ps × IsDistinct ps

-- The pairs that are still to be turned, and those that are.
abbrev AreClear : List ℕ → List ℕ → Type 0
AreClear [] done = Unit
AreClear (p ∷ rest) done = Avoids p done × Avoids p rest × AreClear rest (p ∷ done)

AreApart : List ℕ → List ℕ → Type 0
AreApart [] done = Unit
AreApart (p ∷ rest) done = Avoids p done × AreApart rest done

AreApart-cons :
    (p : ℕ) (rest done : List ℕ) → Avoids p rest → AreApart rest done → AreApart rest (p ∷ done)
unfolding AreApart
AreApart-cons p [] done h k = tt
AreApart-cons p (q ∷ rest) done (h, hs) (k, ks) =
    ((ground arith, k), AreApart-cons p rest done hs ks)

IsDistinct-AreClear :
    (rest done : List ℕ) → IsDistinct rest → AreApart rest done → AreClear rest done
unfolding AreApart
IsDistinct-AreClear [] done h k = tt
IsDistinct-AreClear (p ∷ rest) done (h, hs) (k, ks) =
    (k, h, IsDistinct-AreClear rest (p ∷ done) hs (AreApart-cons p rest done h ks))

AreApart-nil : (rest : List ℕ) → AreApart rest []
unfolding AreApart
AreApart-nil [] = tt
AreApart-nil (p ∷ rest) = (tt, AreApart-nil rest)

put-IsChain :
    (p : ℕ) (d v e : Datum) (cdrs : ℕ → Datum) (ps : List ℕ)
    → Avoids p ps
    → IsChain cdrs d ps e
    → IsChain (put p v cdrs) d ps e
put-IsChain p d v e cdrs [] h k = k
put-IsChain p d v e cdrs (q ∷ qs) (h, hs) (k, ks) =
    let f = put_other p q v cdrs h in (k, (rw f (put-IsChain p (cdrs q) v e cdrs qs hs ks)))

stop :
    (fuel : ℕ) (b e : Datum) (s : Store)
    → is_pair e ≡ false
    → nreverse_loop (suc fuel) b e s ≡ some (b, s)
unfolding nreverse_loop is_pair
stop fuel b null s h = refl
stop fuel b (atom n) s h = refl
stop fuel b (pair p) s h = cc

nreverse_loop_lem :
    (fuel : ℕ) (b a : Datum) (s : Store) (done rest : List ℕ) (e : Datum)
    → length rest < fuel
    → IsChain s.cdrs b done null
    → IsChain s.cdrs a rest e
    → is_pair e ≡ false
    → AreClear rest done
    → (r : Datum) × (t : Store) × (nreverse_loop fuel b a s ≡ some (r, t))
      × IsChain t.cdrs r (reverse rest ++ done) null
      × (t.cars ≡ s.cars)
      × (t.next ≡ s.next)
      × ((q : ℕ) → Avoids q rest → t.cdrs q ≡ s.cdrs q)
unfolding nreverse_loop
nreverse_loop_lem zero b a s done rest e l h k m c = absurd (omega arith)
nreverse_loop_lem (suc fuel) b a s done [] e l h k m c =
    (b, s, (rw k (stop fuel b e s m)), h, refl, refl, λ q o. refl)
nreverse_loop_lem (suc fuel) b a s done (p ∷ rest) e l h (i, k) m (c, o, cs) =
    let cdrs = put p b s.cdrs in
    let turned : IsChain cdrs (pair p) (p ∷ done) null =
      (refl, (rw (put_self p b s.cdrs) (put-IsChain p b b null s.cdrs done c h))) in
    let (r, t, run, chain, cars, same, others) =
      nreverse_loop_lem fuel (pair p) (s.cdrs p) (record s { cdrs = cdrs }) (p ∷ done) rest e
        (omega arith) turned (put-IsChain p (s.cdrs p) b e s.cdrs rest o k) m cs in
    let g : reverse rest ++ (p ∷ done) ≡ reverse (p ∷ rest) ++ done =
      sym (append_assoc (reverse rest) (p ∷ []) done)
      ∙ ap (λ l. l ++ done) (sym (reverse-cons p rest)) in
    (
      r,
      t,
      (rw i run),
      (rw g at chain),
      cars,
      same,
      λ q n. others q n.1 ∙ put_other p q b s.cdrs (ground (arith, n.0)),
    )

-- Let a list have one pair or more, all different. With fuel above their number, `reverse!` comes to
-- its end. The same pairs with the same items make a list in the other order, which ends in the
-- empty list, and no other pair has changed.
pub nreverse_op_lem :
    (fuel p : ℕ) (s : Store) (rest : List ℕ) (e : Datum)
    → length rest < fuel
    → IsChain s.cdrs (pair p) (p ∷ rest) e
    → is_pair e ≡ false
    → IsDistinct (p ∷ rest)
    → (r : Datum) × (t : Store) × (nreverse_op fuel (pair p) s ≡ some (some (r, t)))
      × IsChain t.cdrs r (reverse (p ∷ rest)) null
      × (t.cars ≡ s.cars)
      × ((q : ℕ) → Avoids q (p ∷ rest) → t.cdrs q ≡ s.cdrs q)
unfolding nreverse_op AreApart
nreverse_op_lem fuel p s rest e l (i, k) m (o, os) =
    let cdrs = put p null s.cdrs in
    let (r, t, run, chain, cars, same, others) =
      nreverse_loop_lem fuel (pair p) (s.cdrs p) (record s { cdrs = cdrs }) (p ∷ []) rest e l
        (refl, put_self p null s.cdrs) (put-IsChain p (s.cdrs p) null e s.cdrs rest o k) m
        (IsDistinct-AreClear rest (p ∷ []) os (AreApart-cons p rest [] o (AreApart-nil rest))) in
    (
      r,
      t,
      (rw run refl),
      (rw (reverse-cons p rest) chain),
      cars,
      λ q n. others q n.1 ∙ put_other p q null s.cdrs (ground (arith, n.0)),
    )
