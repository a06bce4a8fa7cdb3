-- ===== src/Gc/Pending.antt =====
-- gc.c: the values that the mark stack holds, and what becomes of an object's slots.
use mathlib.Core.List.{reverse, reverse-cons}
use chibi_scheme.Prelude.{
  ◌≡◌, ◌⊎◌, inl, inr, refl, ap, ◌∙◌, true, none, some, List, [], ◌∷◌, ◌++◌, arith, Bool-cases,
}
use chibi_scheme.Gc.{Objects}
use chibi_scheme.Gc.Mark.{Value, is_marked, skip_marked, same_value, skip_duplicates}

abbrev pub In : Value → List Value → Type 0
In v [] = ⊥
In v (w ∷ ws) = (v ≡ w) ⊎ In v ws

abbrev pub InStack : Value → List (List Value) → Type 0
InStack v [] = ⊥
InStack v (range ∷ stack) = In v range ⊎ InStack v stack

-- All values of the list are such.
abbrev pub Each : (Value → Type 0) → List Value → Type 0
Each P [] = Unit
Each P (v ∷ vs) = P v × Each P vs

pub Each-In : (P : Value → Type 0) (vs : List Value) → ((v : Value) → In v vs → P v) → Each P vs
Each-In P [] h = tt
Each-In P (w ∷ vs) h = (h w (inl refl), Each-In P vs (λ v i. h v (inr i)))

pub In-Each : (P : Value → Type 0) (vs : List Value) (v : Value) → Each P vs → In v vs → P v
In-Each P [] v h i = elim i [ ]
In-Each P (w ∷ vs) v (h, hs) (inl e) = rw e h
In-Each P (w ∷ vs) v (h, hs) (inr i) = In-Each P vs v hs i

In-append : (v : Value) (l m : List Value) → In v l ⊎ In v m → In v (l ++ m)
In-append v [] m (inl i) = elim i [ ]
In-append v [] m (inr i) = i
In-append v (w ∷ l) m (inl (inl e)) = inl e
In-append v (w ∷ l) m (inl (inr i)) = inr (In-append v l m (inl i))
In-append v (w ∷ l) m (inr i) = inr (In-append v l m (inr i))

append-In : (v : Value) (l m : List Value) → In v (l ++ m) → In v l ⊎ In v m
append-In v [] m i = inr i
append-In v (w ∷ l) m (inl e) = inl (inl e)
append-In v (w ∷ l) m (inr i) = elim (append-In v l m i) [ inl j ↦ inl (inr j) | inr j ↦ inr j ]

pub In-reverse : (v : Value) (l : List Value) → In v l → In v (reverse l)
In-reverse v [] i = elim i [ ]
In-reverse v (w ∷ l) (inl e) =
    rw (reverse-cons w l) (In-append v (reverse l) (w ∷ []) (inr (inl e)))
In-reverse v (w ∷ l) (inr i) =
    rw (reverse-cons w l) (In-append v (reverse l) (w ∷ []) (inl (In-reverse v l i)))

pub reverse-In : (v : Value) (l : List Value) → In v (reverse l) → In v l
reverse-In v [] i = i
reverse-In v (w ∷ l) i =
    let i' : In v (reverse l ++ (w ∷ [])) = rw (reverse-cons w l) at i in
    elim (append-In v (reverse l) (w ∷ []) i') [
      | inl j ↦ inr (reverse-In v l j)
      | inr j ↦ elim j [ inl e ↦ inl e | inr k ↦ elim k [ ] ]
    ]

-- A slot that is skipped is marked or no pointer.
pub skip_marked_lem :
    (objs : Objects) (v : Value) (slots : List Value)
    → In v slots
    → In v (skip_marked objs slots) ⊎ (is_marked objs v ≡ true)
unfolding skip_marked
skip_marked_lem objs v [] i = elim i [ ]
skip_marked_lem objs v (x ∷ []) i = inl i
skip_marked_lem objs v (x ∷ y ∷ rest) i = elim (Bool-cases (is_marked objs x)) [
  | inl t ↦
      let rest' = λ (j : In v (y ∷ rest)). skip_marked_lem objs v (y ∷ rest) j in
      rw (skip_marked, t) elim i [ inl e ↦ inr (rw e t) | inr j ↦ rest' j ]
  | inr t ↦ rw (skip_marked, t) (inl i)
]

same_value-eq : (x y : Value) → same_value x y ≡ true → x ≡ y
unfolding same_value
same_value-eq none y h = cc
same_value-eq (some a) none h = cc
same_value-eq (some a) (some b) h = let e : a ≡ b = ground arith in ap some e

pub skip_duplicates_lem :
    (v : Value) (slots : List Value) → In v slots → In v (skip_duplicates slots)
unfolding skip_duplicates
skip_duplicates_lem v [] i = i
skip_duplicates_lem v (x ∷ []) i = i
skip_duplicates_lem v (x ∷ y ∷ rest) i = elim (Bool-cases (same_value x y)) [
  | inl t ↦
      let rest' = λ (j : In v (y ∷ rest)). skip_duplicates_lem v (y ∷ rest) j in
      rw (skip_duplicates, t)
        elim i [ inl e ↦ rest' (inl (e ∙ same_value-eq x y t)) | inr j ↦ rest' j ]
  | inr t ↦ rw (skip_duplicates, t) i
]

-- What is left was there.
pub skip_marked-In :
    (objs : Objects) (v : Value) (slots : List Value) → In v (skip_marked objs slots) → In v slots
unfolding skip_marked
skip_marked-In objs v [] i = i
skip_marked-In objs v (x ∷ []) i = i
skip_marked-In objs v (x ∷ y ∷ rest) i = elim (Bool-cases (is_marked objs x)) [
  | inl t ↦ let i' = rw (skip_marked, t) at i in inr (skip_marked-In objs v (y ∷ rest) i')
  | inr t ↦ rw (skip_marked, t) at i
]

pub skip_duplicates-In :
    (v : Value) (slots : List Value) → In v (skip_duplicates slots) → In v slots
unfolding skip_duplicates
skip_duplicates-In v [] i = i
skip_duplicates-In v (x ∷ []) i = i
skip_duplicates-In v (x ∷ y ∷ rest) i = elim (Bool-cases (same_value x y)) [
  | inl t ↦ let i' = rw (skip_duplicates, t) at i in inr (skip_duplicates-In v (y ∷ rest) i')
  | inr t ↦ rw (skip_duplicates, t) at i
]

pub Stack-cases :
    (stack : List (List Value))
    → (stack ≡ []) ⊎ ((range : List Value) × (rest : List (List Value)) × (stack ≡ range ∷ rest))
Stack-cases [] = inl refl
Stack-cases (range ∷ rest) = inr (range, rest, refl)
