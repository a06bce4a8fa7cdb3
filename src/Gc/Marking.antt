-- ===== src/Gc/Marking.antt =====
-- gc.c: what marking one value does to the marks and to the mark stack. `P` is a set of objects that
-- references do not leave, and `addresses` lists them.
use chibi_scheme.Prelude.{
  ℕ, suc, ◌+◌, ◌≤◌, ◌≡◌, ◌⊎◌, inl, inr, refl, sym, ap, ◌∙◌, Bool, true, false, none, some, List, [],
  ◌∷◌, ◌==◌, arith, Bool-cases, if◌then◌else◌,
}
use chibi_scheme.Gc.{Header, Objects}
use chibi_scheme.Gc.Mark.{Value, Graph, Marking, set_mark, is_marked}
use chibi_scheme.Gc.Pending.{In, InStack}

abbrev pub Member : ℕ → List ℕ → Type 0
Member p [] = ⊥
Member p (a ∷ addresses) = (p ≡ a) ⊎ Member p addresses

abbrev pub IsRef : Graph → ℕ → Value → Type 0
IsRef graph p v = In v (graph p).saves ⊎ In v (graph p).slots

abbrev pub PointsTo : (ℕ → Type 0) → Value → Type 0
PointsTo P none = Unit
PointsTo P (some p) = P p

abbrev pub IsClosed : Graph → (ℕ → Type 0) → Type 0
IsClosed graph P = (p : ℕ) (v : Value) → P p → IsRef graph p v → PointsTo P v

abbrev pub IsMarked : Marking → ℕ → Type 0
IsMarked m p = (m.objects p).markedp ≡ true

abbrev pub IsDone : Marking → Value → Type 0
IsDone m v = is_marked m.objects v ≡ true

abbrev pub IsCovered : Marking → Value → Type 0
IsCovered m v = IsDone m v ⊎ InStack v m.stack

-- From m to n marks are added, and the stack is added to. Each object that has got its mark has
-- its references marked or on the stack.
pub record Grows (graph : Graph) (P : ℕ → Type 0) (m n : Marking) : Type 0 where
  pub marks : (p : ℕ) → IsMarked m p → IsMarked n p
  pub bytes : (p : ℕ) → (n.objects p).bytes ≡ (m.objects p).bytes
  pub stacked : (v : Value) → InStack v m.stack → InStack v n.stack
  pub found :
      (p : ℕ)
      → IsMarked n p
      → (m.objects p).markedp ≡ false
      → P p × ((v : Value) → IsRef graph p v → IsCovered n v)
  pub pushed : (v : Value) → InStack v n.stack → InStack v m.stack ⊎ PointsTo P v

abbrev pub unmarked : List ℕ → Objects → ℕ
unmarked [] objs = 0
unmarked (a ∷ addresses) objs =
    if (objs a).markedp then unmarked addresses objs else suc (unmarked addresses objs)

abbrev pub depth : List (List Value) → ℕ
depth [] = 0
depth (range ∷ stack) = suc (depth stack)

-- Every object still to be found, and every range still to be looked at
abbrev pub work : List ℕ → Marking → ℕ
work addresses m = unmarked addresses m.objects + depth m.stack

pub IsDone-Grows :
    {graph : Graph} {P : ℕ → Type 0} (m n : Marking) (v : Value)
    → Grows graph P m n
    → IsDone m v
    → IsDone n v
unfolding is_marked
IsDone-Grows m n none g h = refl
IsDone-Grows m n (some p) g h = g.marks p h

pub IsCovered-Grows :
    {graph : Graph} {P : ℕ → Type 0} (m n : Marking) (v : Value)
    → Grows graph P m n
    → IsCovered m v
    → IsCovered n v
IsCovered-Grows m n v g (inl h) = inl (IsDone-Grows m n v g h)
IsCovered-Grows m n v g (inr h) = inr (g.stacked v h)

pub contradiction {ℓ} : {A : Type ℓ} {b : Bool} → b ≡ true → b ≡ false → A
contradiction h k = let e : true ≡ false = sym h ∙ k in cc

pub Grows-refl : {graph : Graph} {P : ℕ → Type 0} (m : Marking) → Grows graph P m m
Grows-refl m = record {
  marks = λ p h. h;
  bytes = λ p. refl;
  stacked = λ v h. h;
  found = λ p h k. contradiction h k;
  pushed = λ v h. inl h;
}

pub Grows-trans :
    {graph : Graph} {P : ℕ → Type 0} (m n o : Marking)
    → Grows graph P m n
    → Grows graph P n o
    → Grows graph P m o
Grows-trans {graph} {P} m n o g h = record {
  marks = λ p k. h.marks p (g.marks p k);
  bytes = λ p. h.bytes p ∙ g.bytes p;
  stacked = λ v k. h.stacked v (g.stacked v k);
  found = λ p k l. elim (Bool-cases (n.objects p).markedp) [
    | inl t ↦ let f = g.found p t l in (f.0, λ v r. IsCovered-Grows n o v h (f.1 v r))
    | inr t ↦ h.found p k t
  ];
  pushed = λ v k. elim (h.pushed v k) [ inl j ↦ g.pushed v j | inr j ↦ inr j ];
}

pub set_mark_eq : (p : ℕ) (objs : Objects) → (set_mark p objs p).markedp ≡ true
unfolding set_mark
set_mark_eq p objs = let t : (p == p) ≡ true = ground arith in rw (set_mark, t) refl

pub set_mark_bytes : (p a : ℕ) (objs : Objects) → (set_mark p objs a).bytes ≡ (objs a).bytes
unfolding set_mark
set_mark_bytes p a objs = elim (Bool-cases (a == p)) [
  | inl t ↦ rw (set_mark, t) refl
  | inr t ↦ rw (set_mark, t) refl
]

-- Another object's mark stays as it is.
pub set_mark_other : (p a : ℕ) (objs : Objects) → (a ≡ p) ⊎ (set_mark p objs a ≡ objs a)
unfolding set_mark
set_mark_other p a objs = elim (Bool-cases (a == p)) [
  | inl t ↦ inl (ground arith)
  | inr t ↦ inr (rw (set_mark, t) refl)
]

pub set_mark_keeps :
    (p a : ℕ) (objs : Objects) → (objs a).markedp ≡ true → (set_mark p objs a).markedp ≡ true
set_mark_keeps p a objs h = elim (set_mark_other p a objs) [
  | inl e ↦ rw e (set_mark_eq p objs)
  | inr e ↦ ap (λ (x : Header). x.markedp) e ∙ h
]

pub unmarked-le :
    (addresses : List ℕ) (objs objs' : Objects)
    → ((p : ℕ) → (objs p).markedp ≡ true → (objs' p).markedp ≡ true)
    → unmarked addresses objs' ≤ unmarked addresses objs
unmarked-le [] objs objs' h = omega arith
unmarked-le (a ∷ addresses) objs objs' h =
    let rest = unmarked-le addresses objs objs' h in
    elim (Bool-cases (objs a).markedp) [
      | inl t ↦ let u = h a t in rw t rw u rest
      | inr t ↦ elim (Bool-cases (objs' a).markedp) [
        | inl u ↦ rw t rw u omega arith
        | inr u ↦ rw t rw u omega arith
      ]
    ]

pub unmarked-set_mark :
    (addresses : List ℕ) (p : ℕ) (objs : Objects)
    → Member p addresses
    → (objs p).markedp ≡ false
    → suc (unmarked addresses (set_mark p objs)) ≤ unmarked addresses objs
unmarked-set_mark [] p objs i h = elim i [ ]
unmarked-set_mark (a ∷ addresses) p objs (inl e) h =
    let rest = unmarked-le addresses objs (set_mark p objs) (λ q k. set_mark_keeps p q objs k) in
    let t = set_mark_eq p objs in rw⁻¹ e rw t rw h omega arith
unmarked-set_mark (a ∷ addresses) p objs (inr i) h =
    let rest = unmarked-set_mark addresses p objs i h in
    elim (Bool-cases (objs a).markedp) [
      | inl t ↦ let u = set_mark_keeps p a objs t in rw t rw u rest
      | inr t ↦ elim (Bool-cases (set_mark p objs a).markedp) [
        | inl u ↦ rw t rw u omega arith
        | inr u ↦ rw t rw u omega arith
      ]
    ]
