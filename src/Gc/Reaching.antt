-- ===== src/Gc/Reaching.antt =====
-- gc.c: sexp_mark from a root.
use chibi_scheme.Prelude.{
  ℕ, zero, suc, ◌≤◌, ◌<◌, ◌≡◌, ◌↔◌, inl, inr, refl, ap, ◌∙◌, true, false, none, some, List, [], ◌∷◌,
  arith, length, Bool-cases, ◌>>=◌,
}
use chibi_scheme.Gc.{Objects}
use chibi_scheme.Gc.Mark.{
  Value, Graph, Marking, is_marked, mark_one, mark_popped, mark_stacked, sexp_mark,
}
use chibi_scheme.Gc.Pending.{Stack-cases, InStack, Each, Each-In, In-Each}
use chibi_scheme.Gc.Marking.{
  Member, IsRef, PointsTo, IsClosed, IsMarked, IsDone, IsCovered, Grows, unmarked, depth, work,
  IsDone-Grows, unmarked-le,
}
use chibi_scheme.Gc.Tracing.{mark_each_lem, mark_one_lem}

pub data Reachable (graph : Graph) (root : Value) : ℕ → Type 0 where
  at_root : {p : ℕ} → root ≡ some p → Reachable graph root p
  by_ref : {p q : ℕ} → Reachable graph root p → IsRef graph p (some q) → Reachable graph root q

-- Every object that has got its mark since the start has its references marked or on the stack.
record Traced (graph : Graph) (P : ℕ → Type 0) (start : Objects) (m : Marking) : Type 0 where
  marks : (p : ℕ) → (start p).markedp ≡ true → IsMarked m p
  bytes : (p : ℕ) → (m.objects p).bytes ≡ (start p).bytes
  found :
      (p : ℕ)
      → IsMarked m p
      → (start p).markedp ≡ false
      → P p × ((v : Value) → IsRef graph p v → IsCovered m v)
  points : (v : Value) → InStack v m.stack → PointsTo P v

module _ (graph : Graph) (P : ℕ → Type 0) (addresses : List ℕ) (closed : IsClosed graph P)
    (listed : (p : ℕ) → P p → Member p addresses) (start : Objects) where
  -- The values of the range taken from the stack are done.
  IsCovered-popped :
      (m n : Marking) (range : List Value) (stack : List (List Value)) (v : Value)
      → m.stack ≡ range ∷ stack
      → Grows graph P (record m { stack = stack }) n
      → Each (IsDone n) range
      → IsCovered m v
      → IsCovered n v
  IsCovered-popped m n range stack v e g ds (inl d) =
      inl (IsDone-Grows (record m { stack = stack }) n v g d)
  IsCovered-popped m n range stack v e g ds (inr i) =
      let i' : InStack v (range ∷ stack) = rw e at i in
      elim i' [ inl j ↦ inl (In-Each (IsDone n) range v ds j) | inr j ↦ inr (g.stacked v j) ]

  Traced-popped :
      (m n : Marking) (range : List Value) (stack : List (List Value))
      → m.stack ≡ range ∷ stack
      → Traced graph P start m
      → Grows graph P (record m { stack = stack }) n
      → Each (IsDone n) range
      → Traced graph P start n
  Traced-popped m n range stack e t g ds = record {
    marks = λ p h. g.marks p (t.marks p h);
    bytes = λ p. g.bytes p ∙ t.bytes p;
    found = λ p h k. elim (Bool-cases (m.objects p).markedp) [
      | inl b ↦
          let f = t.found p b k in (f.0, λ v r. IsCovered-popped m n range stack v e g ds (f.1 v r))
      | inr b ↦ g.found p h b
    ];
    points = λ v i. elim (g.pushed v i) [ inl j ↦ t.points v (rw e (inr j)) | inr j ↦ j ];
  }

  mark_stacked_lem :
      (fuel depth : ℕ) (m : Marking)
      → work addresses m < fuel
      → unmarked addresses m.objects < depth
      → Traced graph P start m
      → (n : Marking) × (mark_stacked fuel depth graph m ≡ some n)
        × Traced graph P start n
        × (n.stack ≡ [])
        × ((p : ℕ) → IsMarked m p → IsMarked n p)
  unfolding mark_stacked mark_popped
  mark_stacked_lem zero d m l k t = let absurd : ⊥ = omega arith in elim absurd [ ]
  mark_stacked_lem (suc fuel) d m l k t = elim (Stack-cases m.stack) [
    | inl e ↦ (
      m,
      ap (λ s. mark_popped (mark_stacked fuel d graph) (mark_one d graph) s m) e,
      t,
      e,
      λ p h. h,
    )
    | inr (range, stack, e) ↦
        let m' : Marking = record m { stack = stack } in
        let ok = Each-In (PointsTo P) range (λ v i. t.points v (rw e (inl i))) in
        let (n, run, g, ds, w) =
          mark_each_lem graph P addresses closed listed (mark_one d graph) d range m'
            (mark_one_lem graph P addresses closed listed d) ok k in
        let f : depth m.stack ≡ suc (depth stack) = ap depth e in
        let b = unmarked-le addresses m.objects n.objects g.marks in
        let (o, run', t', e', marks) =
          mark_stacked_lem fuel d n (omega arith) (omega arith)
            (Traced-popped m n range stack e t g ds) in
        let pop =
          ap (λ s. mark_popped (mark_stacked fuel d graph) (mark_one d graph) s m) e
          ∙ ap (λ x. x >>= mark_stacked fuel d graph) run in
        (o, pop ∙ run', t', e', λ p h. marks p (g.marks p h))
  ]

IsDone-Grows_end :
    (root : Value) (m n : Marking)
    → ((p : ℕ) → IsMarked m p → IsMarked n p)
    → IsDone m root
    → IsDone n root
unfolding is_marked
IsDone-Grows_end none m n h d = refl
IsDone-Grows_end (some p) m n h d = h p d

unmarked-le-length :
    (addresses : List ℕ) (objs : Objects) → unmarked addresses objs ≤ length addresses
unmarked-le-length [] objs = omega arith
unmarked-le-length (a ∷ addresses) objs =
    let rest = unmarked-le-length addresses objs in
    elim (Bool-cases (objs a).markedp) [ inl t ↦ rw t omega arith | inr t ↦ rw t omega arith ]

-- The objects that the root reaches and that the list has
abbrev Found : Graph → Value → List ℕ → ℕ → Type 0
Found graph root addresses p = Member p addresses × Reachable graph root p

Found-IsClosed :
    (graph : Graph) (root : Value) (addresses : List ℕ)
    → IsClosed graph (λ p. Member p addresses)
    → IsClosed graph (Found graph root addresses)
Found-IsClosed graph root addresses closed p none ok r = tt
Found-IsClosed graph root addresses closed p (some q) (i, reach) r =
    (closed p (some q) i r, by_ref reach r)

root-Found :
    (graph : Graph) (root : Value) (addresses : List ℕ)
    → PointsTo (λ p. Member p addresses) root
    → PointsTo (Found graph root addresses) root
root-Found graph none addresses i = tt
root-Found graph (some p) addresses i = (i, at_root refl)

-- The trace has the root and follows every reference.
Traced-Reachable :
    (graph : Graph) (root : Value) (addresses : List ℕ) (objects : Objects) (n : Marking)
    → PointsTo (λ p. Member p addresses) root
    → IsClosed graph (λ p. Member p addresses)
    → ((p : ℕ) → Member p addresses → (objects p).markedp ≡ false)
    → Traced graph (Found graph root addresses) objects n
    → n.stack ≡ []
    → IsDone n root
    → (p : ℕ) → Reachable graph root p
    → Member p addresses × IsMarked n p
unfolding is_marked
Traced-Reachable graph root addresses objects n i closed clear t e d p (at_root f) =
    (rw f at i, rw f at d)
Traced-Reachable graph root addresses objects n i closed clear t e d q (by_ref {p} reach r) =
    let (l, marked) =
      Traced-Reachable graph root addresses objects n i closed clear t e d p reach in
    (
      closed p (some q) l r,
      elim ((t.found p marked (clear p l)).1 (some q) r) [
        | inl k ↦ k
        | inr k ↦ let k' : InStack (some q) [] = rw e at k in elim k' [ ]
      ],
    )

-- Let the addresses be those of the objects, references lead from these to these, the root too,
-- and let no object be marked. With fuel above their number, marking comes to its end. It keeps
-- the sizes, and the objects that have the mark then are those that the root reaches.
pub sexp_mark-Reachable :
    (fuel : ℕ) (graph : Graph) (addresses : List ℕ) (root : Value) (objects : Objects)
    → length addresses < fuel
    → PointsTo (λ p. Member p addresses) root
    → IsClosed graph (λ p. Member p addresses)
    → ((p : ℕ) → Member p addresses → (objects p).markedp ≡ false)
    → (marked : Objects) × (sexp_mark fuel graph root objects ≡ some marked)
      × ((p : ℕ) → (marked p).bytes ≡ (objects p).bytes)
      × ((p : ℕ) → Member p addresses → ((marked p).markedp ≡ true) ↔ Reachable graph root p)
unfolding sexp_mark
sexp_mark-Reachable fuel graph addresses root objects fits i closed clear =
    let P = Found graph root addresses in
    let closed' = Found-IsClosed graph root addresses closed in
    let listed : (p : ℕ) → P p → Member p addresses = λ p f. f.0 in
    let start : Marking = record { objects = objects; stack = [] } in
    let k = unmarked-le-length addresses objects in
    let (m, run, g, d, w) =
      mark_one_lem graph P addresses closed' listed fuel root start
        (root-Found graph root addresses i) (omega arith) in
    let l = unmarked-le addresses objects m.objects g.marks in
    let t : Traced graph P objects m = record {
      marks = g.marks;
      bytes = g.bytes;
      found = g.found;
      points = λ v j. elim (g.pushed v j) [ inl b ↦ elim b [ ] | inr b ↦ b ];
    } in
    let (n, run', t', e, marks) =
      mark_stacked_lem graph P addresses closed' listed objects fuel fuel m (omega arith)
        (omega arith) t in
    let d' = IsDone-Grows_end root m n marks d in
    (
      n.objects,
      (rw run rw run' refl),
      t'.bytes,
      λ p j. (
        λ h. (t'.found p h (clear p j)).0.1,
        λ h. (Traced-Reachable graph root addresses objects n i closed clear t' e d' p h).1,
      ),
    )
