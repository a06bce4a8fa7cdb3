-- ===== src/Pairs/Searching.antt =====
-- sexp_memq_op and sexp_assq_op.
use mathlib.Core.Option
use chibi_scheme.Prelude.{
  ℕ, zero, suc, ◌<◌, ◌≡◌, refl, Bool, false, Option, none, some, List, [], ◌∷◌, if◌then◌else◌,
  arith, length, Bool-cases, inl, inr,
}
use chibi_scheme.Pairs.{Datum, null, atom, pair, same, is_pair, is_entry, memq_op, assq_op}
use chibi_scheme.Pairs.InPlace.{IsChain}

-- The first address of the list for which the test holds
abbrev pub find : (ℕ → Bool) → List ℕ → Option ℕ
find test [] = none
find test (p ∷ ps) = let rest = find test ps in if test p then some p else rest

memq_stop :
    (fuel : ℕ) (cars cdrs : ℕ → Datum) (x e : Datum)
    → is_pair e ≡ false
    → memq_op (suc fuel) cars cdrs x e ≡ some none
unfolding memq_op is_pair
memq_stop fuel cars cdrs x null h = refl
memq_stop fuel cars cdrs x (atom n) h = refl
memq_stop fuel cars cdrs x (pair p) h = cc

assq_stop :
    (fuel : ℕ) (cars cdrs : ℕ → Datum) (x e : Datum)
    → is_pair e ≡ false
    → assq_op (suc fuel) cars cdrs x e ≡ some none
unfolding assq_op is_pair
assq_stop fuel cars cdrs x null h = refl
assq_stop fuel cars cdrs x (atom n) h = refl
assq_stop fuel cars cdrs x (pair p) h = cc

pub memq_op_lem :
    (fuel : ℕ) (cars cdrs : ℕ → Datum) (x ls e : Datum) (ps : List ℕ)
    → length ps < fuel
    → IsChain cdrs ls ps e
    → is_pair e ≡ false
    → memq_op fuel cars cdrs x ls ≡ some (Option.map pair (find (λ p. same x (cars p)) ps))
unfolding memq_op
memq_op_lem zero cars cdrs x ls e ps l h k = absurd (omega arith)
memq_op_lem (suc fuel) cars cdrs x ls e [] l h k = rw h (memq_stop fuel cars cdrs x e k)
memq_op_lem (suc fuel) cars cdrs x ls e (p ∷ ps) l (i, h) k =
    let rest = memq_op_lem fuel cars cdrs x (cdrs p) e ps (omega arith) h k in
    elim (Bool-cases (same x (cars p))) [ inl t ↦ rw i rw t refl | inr t ↦ rw i rw t rest ]

-- The two searches on a list that ends: `memq` gives the first pair whose car is x, `assq` the first
-- item that is a pair whose car is x, and both #f if there is none.
pub assq_op-memq_op :
    (fuel : ℕ) (cars cdrs : ℕ → Datum) (x ls e : Datum) (ps : List ℕ)
    → length ps < fuel
    → IsChain cdrs ls ps e
    → is_pair e ≡ false
    → (memq_op fuel cars cdrs x ls ≡ some (Option.map pair (find (λ p. same x (cars p)) ps)))
      × (assq_op fuel cars cdrs x ls
          ≡ some (Option.map cars (find (λ p. is_entry cars x (cars p)) ps)))
unfolding assq_op
assq_op-memq_op zero cars cdrs x ls e ps l h k = absurd (omega arith)
assq_op-memq_op (suc fuel) cars cdrs x ls e [] l h k =
    (memq_op_lem (suc fuel) cars cdrs x ls e [] l h k, (rw h (assq_stop fuel cars cdrs x e k)))
assq_op-memq_op (suc fuel) cars cdrs x ls e (p ∷ ps) l (i, h) k =
    let rest = (assq_op-memq_op fuel cars cdrs x (cdrs p) e ps (omega arith) h k).1 in
    (
      memq_op_lem (suc fuel) cars cdrs x ls e (p ∷ ps) l (i, h) k,
      elim (Bool-cases (is_entry cars x (cars p))) [
        | inl t ↦ rw i rw t refl
        | inr t ↦ rw i rw t rest
      ],
    )
