-- ===== src/Pairs/Shapes.antt =====
-- The chain of cdrs from an object: it ends, or runs in a circle.
use native.Mathlib.Nat.{div-add-mod', mod-lt}
use chibi_scheme.Prelude.{
  ℕ, zero, suc, ◌+◌, ◌-◌, ◌*◌, ◌%◌, ◌≤◌, ◌<◌, ◌≡◌, refl, sym, ap, ◌∙◌, true, false, arith, ◌/◌,
  Bool-cases, ltb, inl, inr,
}
use chibi_scheme.Pairs.{Datum, null, atom, pair, same, is_pair, cdr_of}

-- n cdrs from d
abbrev pub tail : (ℕ → Datum) → Datum → ℕ → Datum
tail cdrs d zero = d
tail cdrs d (suc n) = cdr_of cdrs (tail cdrs d n)

-- A chain of n pairs that ends, or one of m pairs that comes to a circle of l.
pub data Shape : Type 0 where
  ends : ℕ → Shape
  turns : ℕ → ℕ → Shape

abbrev pub HasShape : (ℕ → Datum) → Datum → Shape → Type 0
HasShape cdrs d (ends n) =
    ((k : ℕ) → k < n → is_pair (tail cdrs d k) ≡ true) × (is_pair (tail cdrs d n) ≡ false)
HasShape cdrs d (turns m l) =
    ((k : ℕ) → is_pair (tail cdrs d k) ≡ true) × (0 < l) × (tail cdrs d (m + l) ≡ tail cdrs d m)

-- The number of pairs
abbrev pub extent : Shape → ℕ
extent (ends n) = n
extent (turns m l) = m + l

pub same_self : (d : Datum) → same d d ≡ true
unfolding same
same_self null = refl
same_self (atom n) = ground arith
same_self (pair p) = ground arith

pub same-eq : (d e : Datum) → same d e ≡ true → d ≡ e
unfolding same
same-eq null null h = refl
same-eq null (atom n) h = cc
same-eq null (pair q) h = cc
same-eq (atom m) null h = cc
same-eq (atom m) (atom n) h = let e : m ≡ n = ground arith in ap atom e
same-eq (atom m) (pair q) h = cc
same-eq (pair p) null h = cc
same-eq (pair p) (atom n) h = cc
same-eq (pair p) (pair q) h = let e : p ≡ q = ground arith in ap pair e

cdr_of-is_pair : (cdrs : ℕ → Datum) (d : Datum) → is_pair d ≡ false → cdr_of cdrs d ≡ d
unfolding cdr_of is_pair
cdr_of-is_pair cdrs null h = refl
cdr_of-is_pair cdrs (atom n) h = refl
cdr_of-is_pair cdrs (pair p) h = cc

-- Equal tails stay equal.
pub tail_shift :
    (cdrs : ℕ → Datum) (d : Datum) (i j k : ℕ)
    → tail cdrs d i ≡ tail cdrs d j
    → tail cdrs d (i + k) ≡ tail cdrs d (j + k)
tail_shift cdrs d i j zero h =
    let e : i + 0 ≡ i = omega arith in let f : j + 0 ≡ j = omega arith in rw e rw f h
tail_shift cdrs d i j (suc k) h =
    let e : i + suc k ≡ suc (i + k) = omega arith in
    let f : j + suc k ≡ suc (j + k) = omega arith in
    rw e rw f (ap (λ x. cdr_of cdrs x) (tail_shift cdrs d i j k h))

-- Past the end nothing changes.
pub tail_end :
    (cdrs : ℕ → Datum) (d : Datum) (n k : ℕ)
    → is_pair (tail cdrs d n) ≡ false
    → tail cdrs d (n + k) ≡ tail cdrs d n
tail_end cdrs d n zero h = let e : n + 0 ≡ n = omega arith in rw e refl
tail_end cdrs d n (suc k) h =
    let e : n + suc k ≡ suc (n + k) = omega arith in
    let f = tail_end cdrs d n k h in
    rw e (ap (λ x. cdr_of cdrs x) f ∙ cdr_of-is_pair cdrs (tail cdrs d n) h)

-- No two tails of a chain that ends are the same pair.
pub ends_distinct :
    (cdrs : ℕ → Datum) (d : Datum) (n i j : ℕ)
    → HasShape cdrs d (ends n)
    → i < j
    → j < n
    → tail cdrs d i ≡ tail cdrs d j
    → ⊥
ends_distinct cdrs d n i j (pairs, last) h l s =
    let e = tail_shift cdrs d i j (n - j) s in
    let f : j + (n - j) ≡ n = omega arith in
    let g = pairs (i + (n - j)) (omega arith) in
    let k : is_pair (tail cdrs d (i + (n - j))) ≡ false =
      ap is_pair (e ∙ ap (λ x. tail cdrs d x) f) ∙ last in
    let c : true ≡ false = sym g ∙ k in cc

-- Where the two pointers meet: the turtle is in the circle, and the hare is whole rounds ahead.
abbrev pub meeting : ℕ → ℕ → ℕ
meeting m l = m + (l - 1 - m % l)

turns_rounds :
    (cdrs : ℕ → Datum) (d : Datum) (m l k r : ℕ)
    → tail cdrs d (m + l) ≡ tail cdrs d m
    → tail cdrs d (m + k + r * l) ≡ tail cdrs d (m + k)
turns_rounds cdrs d m l k zero h = let e : m + k + 0 * l ≡ m + k = omega arith in rw e refl
turns_rounds cdrs d m l k (suc r) h =
    let e : m + k + suc r * l ≡ m + l + (k + r * l) = omega arith in
    let f : m + (k + r * l) ≡ m + k + r * l = omega arith in
    ap (λ x. tail cdrs d x) e
    ∙ tail_shift cdrs d (m + l) m (k + r * l) h
    ∙ ap (λ x. tail cdrs d x) f
    ∙ turns_rounds cdrs d m l k r h

-- The hare and the turtle are at the same pair there.
pub turns_meet :
    (cdrs : ℕ → Datum) (d : Datum) (m l j : ℕ)
    → HasShape cdrs d (turns m l)
    → j ≡ 2 * meeting m l + 1
    → tail cdrs d j ≡ tail cdrs d (meeting m l)
turns_meet cdrs d m l j (pairs, round, back) h =
    let r = m / l + 1 in
    let e : (m / l) * l + m % l ≡ m = div-add-mod' m l in
    let f = mod-lt m round in
    let g : j ≡ m + (l - 1 - m % l) + r * l = grind arith in
    ap (λ x. tail cdrs d x) g ∙ turns_rounds cdrs d m l (l - 1 - m % l) r back

-- A pair of a chain that ends is before the end.
pub pair_before :
    (cdrs : ℕ → Datum) (d : Datum) (n j : ℕ)
    → HasShape cdrs d (ends n)
    → is_pair (tail cdrs d j) ≡ true
    → j < n
pair_before cdrs d n j (pairs, last) h = elim (Bool-cases (ltb j n)) [
  | inl t ↦ ground arith
  | inr t ↦
      let k : n + (j - n) ≡ j = ground arith in
      let e = ap (λ x. tail cdrs d x) k in
      let f : is_pair (tail cdrs d j) ≡ false =
        ap is_pair (sym e ∙ tail_end cdrs d n (j - n) last) ∙ last in
      let c : true ≡ false = sym h ∙ f in cc
]

-- What is no pair is the end.
pub no_pair_after :
    (cdrs : ℕ → Datum) (d : Datum) (n j : ℕ)
    → HasShape cdrs d (ends n)
    → is_pair (tail cdrs d j) ≡ false
    → (n ≤ j) × (tail cdrs d j ≡ tail cdrs d n)
no_pair_after cdrs d n j (pairs, last) h = elim (Bool-cases (ltb j n)) [
  | inl t ↦ let c : true ≡ false = sym (pairs j (ground arith)) ∙ h in cc
  | inr t ↦
      let k : n + (j - n) ≡ j = ground arith in
      (ground arith, ap (λ x. tail cdrs d x) (sym k) ∙ tail_end cdrs d n (j - n) last)
]
