-- ===== src/Gc/Tracing.antt =====
-- gc.c: sexp_mark_one, with fuel above the number of objects without a mark.
use mathlib.Core.List.{reverse}
use chibi_scheme.Prelude.{
  ℕ, zero, suc, ◌≤◌, ◌<◌, ◌≡◌, inl, inr, refl, ap, ◌∙◌, Option, none, some, List, [], ◌∷◌, arith,
  Bool-cases,
}
use chibi_scheme.Gc.{Header, Objects}
use chibi_scheme.Gc.Mark.{
  Value, Graph, Marking, set_mark, is_marked, skip_marked, skip_duplicates, mark_stack_push,
  mark_each, mark_slots, mark_object, mark_one,
}
use chibi_scheme.Gc.Pending.{
  In, Each, Each-In, In-Each, In-reverse, reverse-In, skip_marked_lem, skip_duplicates_lem,
  skip_marked-In, skip_duplicates-In,
}
use chibi_scheme.Gc.Marking.{
  Member, IsRef, PointsTo, IsClosed, IsDone, IsCovered, Grows, unmarked, work, IsDone-Grows,
  Grows-refl, Grows-trans, unmarked-le, unmarked-set_mark, set_mark_eq, set_mark_bytes,
  set_mark_other, set_mark_keeps, contradiction,
}

module _ (graph : Graph) (P : ℕ → Type 0) (addresses : List ℕ) (closed : IsClosed graph P)
    (listed : (p : ℕ) → P p → Member p addresses) where
  abbrev pub Marks : (Value → Marking → Option Marking) → ℕ → Type 0
  Marks mark fuel =
      (x : Value) (m : Marking)
      → PointsTo P x
      → unmarked addresses m.objects < fuel
      → (n : Marking) × (mark x m ≡ some n)
        × Grows graph P m n
        × IsDone n x
        × (work addresses n ≤ work addresses m)

  pub mark_each_lem :
      (mark : Value → Marking → Option Marking) (fuel : ℕ) (xs : List Value) (m : Marking)
      → Marks mark fuel
      → Each (PointsTo P) xs
      → unmarked addresses m.objects < fuel
      → (n : Marking) × (mark_each mark xs m ≡ some n)
        × Grows graph P m n
        × Each (IsDone n) xs
        × (work addresses n ≤ work addresses m)
  unfolding mark_each
  mark_each_lem mark fuel [] m h ok l = (m, refl, Grows-refl m, tt, omega arith)
  mark_each_lem mark fuel (x ∷ xs) m h (ok, oks) l =
      let (n, e, g, d, w) = h x m ok l in
      let k = unmarked-le addresses m.objects n.objects g.marks in
      let (o, f, g', ds, w') = mark_each_lem mark fuel xs n h oks (omega arith) in
      (o, (rw e f), Grows-trans m n o g g', (IsDone-Grows n o x g' d, ds), omega arith)

  -- A range that is pushed is covered.
  push-Grows :
      (range : List Value) (m : Marking)
      → Each (PointsTo P) range
      → Grows graph P m (mark_stack_push range m)
  unfolding mark_stack_push
  push-Grows range m ok = record {
    marks = λ p h. h;
    bytes = λ p. refl;
    stacked = λ v h. inr h;
    found = λ p h k. contradiction h k;
    pushed = λ v h. elim h [ inl i ↦ inr (In-Each (PointsTo P) range v ok i) | inr i ↦ inl i ];
  }

  mark_slots_lem :
      (mark : Value → Marking → Option Marking) (fuel : ℕ) (xs : List Value) (m : Marking)
      → Marks mark fuel
      → Each (PointsTo P) xs
      → unmarked addresses m.objects < fuel
      → (n : Marking) × (mark_slots mark xs m ≡ some n)
        × Grows graph P m n
        × Each (IsCovered n) xs
        × (work addresses n ≤ suc (work addresses m))
  unfolding mark_slots mark_stack_push
  mark_slots_lem mark fuel [] m h ok l = (m, refl, Grows-refl m, tt, omega arith)
  mark_slots_lem mark fuel (x ∷ []) m h (ok, oks) l =
      let (n, e, g, d, w) = h x m ok l in (n, e, g, (inl d, tt), omega arith)
  mark_slots_lem mark fuel (x ∷ y ∷ rest) m h (ok, oks) l =
      let range = reverse (y ∷ rest) in
      let oks' =
        Each-In (PointsTo P) range
          (λ v i. In-Each (PointsTo P) (y ∷ rest) v oks (reverse-In v (y ∷ rest) i)) in
      let m' = mark_stack_push range m in
      let (n, e, g, d, w) = h x m' ok l in
      let covered =
        Each-In (IsCovered n) (y ∷ rest)
          (λ v i. inr (g.stacked v (inl (In-reverse v (y ∷ rest) i)))) in
      (n, e, Grows-trans m m' n (push-Grows range m oks') g, (inl d, covered), omega arith)

  -- What is left of the slots covers all of them.
  slots-IsCovered :
      (m n : Marking) (slots : List Value) (v : Value)
      → Grows graph P m n
      → Each (IsCovered n) (skip_duplicates (skip_marked m.objects (reverse slots)))
      → In v slots
      → IsCovered n v
  slots-IsCovered m n slots v g covered i =
      elim (skip_marked_lem m.objects v (reverse slots) (In-reverse v slots i)) [
        | inl j ↦
            In-Each (IsCovered n) (skip_duplicates (skip_marked m.objects (reverse slots))) v
              covered (skip_duplicates_lem v (skip_marked m.objects (reverse slots)) j)
        | inr t ↦ inl (IsDone-Grows m n v g t)
      ]

  left_points_to :
      (p : ℕ) (objs : Objects)
      → P p
      → Each (PointsTo P) (skip_duplicates (skip_marked objs (reverse (graph p).slots)))
  left_points_to p objs h =
      let slots = (graph p).slots in
      Each-In (PointsTo P) (skip_duplicates (skip_marked objs (reverse slots))) (λ v i.
        closed p v h (
          inr (
            reverse-In v slots (
              skip_marked-In objs v (reverse slots)
                (skip_duplicates-In v (skip_marked objs (reverse slots)) i)))))

  mark_object_lem :
      (mark : Value → Marking → Option Marking) (fuel p : ℕ) (m : Marking)
      → Marks mark fuel
      → P p
      → unmarked addresses m.objects < fuel
      → (n : Marking) × (mark_object mark (graph p) m ≡ some n)
        × Grows graph P m n
        × ((v : Value) → IsRef graph p v → IsCovered n v)
        × (work addresses n ≤ suc (work addresses m))
  unfolding mark_object
  mark_object_lem mark fuel p m h ok l =
      let saves = (graph p).saves in
      let oks = Each-In (PointsTo P) saves (λ v i. closed p v ok (inl i)) in
      let (n, e, g, ds, w) = mark_each_lem mark fuel saves m h oks l in
      let k = unmarked-le addresses m.objects n.objects g.marks in
      let left = skip_duplicates (skip_marked n.objects (reverse (graph p).slots)) in
      let (o, f, g', cs, w') =
        mark_slots_lem mark fuel left n h (left_points_to p n.objects ok) (omega arith) in
      (
        o,
        rw e f,
        Grows-trans m n o g g',
        λ v r. elim r [
          | inl i ↦ inl (IsDone-Grows n o v g' (In-Each (IsDone n) saves v ds i))
          | inr i ↦ slots-IsCovered n o (graph p).slots v g' cs i
        ],
        omega arith,
      )

  -- The mark on p itself, and then its references
  Grows-marked :
      (p : ℕ) (m n : Marking)
      → P p
      → Grows graph P (record m { objects = set_mark p m.objects }) n
      → ((v : Value) → IsRef graph p v → IsCovered n v)
      → Grows graph P m n
  Grows-marked p m n ok g covered = record {
    marks = λ q h. g.marks q (set_mark_keeps p q m.objects h);
    bytes = λ q. g.bytes q ∙ set_mark_bytes p q m.objects;
    stacked = g.stacked;
    found = λ q h k. elim (set_mark_other p q m.objects) [
      | inl e ↦ (rw e ok, λ v r. covered v (rw e at r))
      | inr e ↦ g.found q h (ap (λ (x : Header). x.markedp) e ∙ k)
    ];
    pushed = g.pushed;
  }

  pub mark_one_lem : (fuel : ℕ) → Marks (mark_one fuel graph) fuel
  unfolding mark_one is_marked
  mark_one_lem zero x m ok l = let absurd : ⊥ = omega arith in elim absurd [ ]
  mark_one_lem (suc fuel) none m ok l = (m, refl, Grows-refl m, refl, omega arith)
  mark_one_lem (suc fuel) (some p) m ok l = elim (Bool-cases (m.objects p).markedp) [
    | inl t ↦ (m, (rw (mark_one, t) refl), Grows-refl m, t, omega arith)
    | inr t ↦
        let m' : Marking = record m { objects = set_mark p m.objects } in
        let k = unmarked-set_mark addresses p m.objects (listed p ok) t in
        let (n, e, g, covered, w) =
          mark_object_lem (mark_one fuel graph) fuel p m' (mark_one_lem fuel) ok (omega arith) in
        (
          n,
          (rw (mark_one, t) e),
          Grows-marked p m n ok g covered,
          g.marks p (set_mark_eq p m.objects),
          omega arith,
        )
  ]
