-- ===== src/Pairs/Building.antt =====
-- sexp_reverse_op and sexp_append2_op, which make new pairs.
use mathlib.Core.List.{reverse, reverse-cons, append_assoc, append-nil}
use chibi_scheme.Prelude.{
  ℕ, zero, suc, ◌≤◌, ◌<◌, ◌≡◌, refl, sym, ap, ◌∙◌, true, false, Option, some, List, [], ◌∷◌, ◌++◌,
  ◌==◌, arith, length,
}
use chibi_scheme.Pairs.{
  Datum, null, atom, pair, Store, is_pair, put, cons, reverse_loop, reverse_op,
}

-- The items of a chain of pairs from d, and what stands at its end
abbrev pub Lists : Store → Datum → List Datum → Datum → Type 0
Lists s d [] e = d ≡ e
Lists s d (x ∷ xs) e =
    (p : ℕ) × (d ≡ pair p) × (p < s.next) × (s.cars p ≡ x) × Lists s (s.cdrs p) xs e

-- Pairs are added, and the old ones stay.
pub record Extends (s t : Store) : Type 0 where
  pub more : s.next ≤ t.next
  pub cars : (p : ℕ) → p < s.next → t.cars p ≡ s.cars p
  pub cdrs : (p : ℕ) → p < s.next → t.cdrs p ≡ s.cdrs p

Extends-refl : (s : Store) → Extends s s
Extends-refl s = record { more = omega arith; cars = λ p h. refl; cdrs = λ p h. refl }

Extends-trans : (s t u : Store) → Extends s t → Extends t u → Extends s u
Extends-trans s t u h k =
    let l = h.more in
    let m = k.more in
    record {
      more = omega arith;
      cars = λ p n. k.cars p (omega arith) ∙ h.cars p n;
      cdrs = λ p n. k.cdrs p (omega arith) ∙ h.cdrs p n;
    }

pub put_other :
    (p a : ℕ) (d : Datum) (field : ℕ → Datum) → (a == p) ≡ false → put p d field a ≡ field a
unfolding put
put_other p a d field h = rw (put, h) refl

pub put_self : (p : ℕ) (d : Datum) (field : ℕ → Datum) → put p d field p ≡ d
unfolding put
put_self p d field = let t : (p == p) ≡ true = ground arith in rw (put, t) refl

cons-Extends : (head tail : Datum) (s : Store) → Extends s (cons head tail s).1
unfolding cons
cons-Extends head tail s = record {
  more = omega arith;
  cars = λ p h. put_other s.next p head s.cars (ground arith);
  cdrs = λ p h. put_other s.next p tail s.cdrs (ground arith);
}

pub Extends-Lists :
    (s t : Store) (d : Datum) (xs : List Datum) (e : Datum)
    → Extends s t
    → Lists s d xs e
    → Lists t d xs e
Extends-Lists s t d [] e h k = k
Extends-Lists s t d (x ∷ xs) e h (p, i, l, c, k) =
    let m = h.more in
    (p, i, omega arith, h.cars p l ∙ c, (rw (h.cdrs p l) (Extends-Lists s t (s.cdrs p) xs e h k)))

cons-Lists :
    (head tail : Datum) (s : Store) (xs : List Datum) (e : Datum)
    → Lists s tail xs e
    → Lists (cons head tail s).1 (cons head tail s).0 (head ∷ xs) e
unfolding cons
cons-Lists head tail s xs e h =
    let t = (cons head tail s).1 in
    (
      s.next,
      refl,
      omega arith,
      put_self s.next head s.cars,
      (rw (put_self s.next tail s.cdrs) (Extends-Lists s t tail xs e (cons-Extends head tail s) h)),
    )

stop :
    (fuel : ℕ) (e res : Datum) (s : Store)
    → is_pair e ≡ false
    → reverse_loop (suc fuel) e res s ≡ some (res, s)
unfolding reverse_loop is_pair
stop fuel null res s h = refl
stop fuel (atom n) res s h = refl
stop fuel (pair p) res s h = cc

abbrev Built : Option (Datum × Store) → Store → List Datum → Datum → Type 0
Built out s xs e = (r : Datum) × (t : Store) × (out ≡ some (r, t)) × Lists t r xs e × Extends s t

reverse_loop_lem :
    (fuel : ℕ) (ls res : Datum) (s : Store) (xs ys : List Datum) (e f : Datum)
    → length xs < fuel
    → Lists s ls xs e
    → is_pair e ≡ false
    → Lists s res ys f
    → Built (reverse_loop fuel ls res s) s (reverse xs ++ ys) f
unfolding reverse_loop
reverse_loop_lem zero ls res s xs ys e f l h k m = absurd (omega arith)
reverse_loop_lem (suc fuel) ls res s [] ys e f l h k m =
    (res, s, (rw h (stop fuel e res s k)), m, Extends-refl s)
reverse_loop_lem (suc fuel) ls res s (x ∷ xs) ys e f l (p, i, b, c, h) k m =
    let made = cons (s.cars p) res s in
    let ext = cons-Extends (s.cars p) res s in
    let (r, t, run, lists, ext') =
      reverse_loop_lem fuel (s.cdrs p) made.0 made.1 xs (s.cars p ∷ ys) e f (omega arith)
        (Extends-Lists s made.1 (s.cdrs p) xs e ext h) k (cons-Lists (s.cars p) res s ys f m) in
    let g : reverse xs ++ (s.cars p ∷ ys) ≡ reverse (x ∷ xs) ++ ys =
      ap (λ y. reverse xs ++ (y ∷ ys)) c
      ∙ sym (append_assoc (reverse xs) (x ∷ []) ys)
      ∙ ap (λ l. l ++ ys) (sym (reverse-cons x xs)) in
    (r, t, (rw i run), (rw⁻¹ g lists), Extends-trans s made.1 t ext ext')

-- With fuel above the number of pairs, `reverse` comes to its end. It makes a new list of the items
-- in the other order that ends in the empty list, and leaves the old pairs as they are.
pub reverse_op_lem :
    (fuel : ℕ) (ls : Datum) (s : Store) (xs : List Datum) (e : Datum)
    → length xs < fuel
    → Lists s ls xs e
    → is_pair e ≡ false
    → (r : Datum) × (t : Store) × (reverse_op fuel ls s ≡ some (r, t))
      × Lists t r (reverse xs) null
      × Extends s t
unfolding reverse_op
reverse_op_lem fuel ls s xs e l h k =
    let (r, t, run, lists, ext) = reverse_loop_lem fuel ls null s xs [] e null l h k refl in
    (r, t, run, (rw (append-nil (reverse xs)) at lists), ext)
