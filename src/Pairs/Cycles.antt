-- ===== src/Pairs/Cycles.antt =====
-- sexp_listp_op and sexp_length_op: two pointers, one twice as fast.
use chibi_scheme.Prelude.{
  ℕ, zero, suc, ◌+◌, ◌*◌, ◌≤◌, ◌<◌, ◌≡◌, ◌≢◌, refl, sym, ap, ◌∙◌, Bool, true, false, Option, none,
  some, arith, Bool-cases, inl, inr,
}
use chibi_scheme.Pairs.{Datum, same, is_pair, is_null, listp_loop, listp_op, length_loop, length_op}
use chibi_scheme.Pairs.Shapes.{
  tail, Shape, ends, turns, HasShape, extent, same_self, same-eq, ends_distinct, meeting,
  turns_meet, pair_before, no_pair_after,
}

-- The pointers are equal at the meeting.
met :
    (cdrs : ℕ → Datum) (d : Datum) (m l i j : ℕ)
    → HasShape cdrs d (turns m l)
    → j ≡ 2 * i + 1
    → i + 0 ≡ meeting m l
    → tail cdrs d j ≡ tail cdrs d i
met cdrs d m l i j shape h e =
    let f : meeting m l ≡ i = omega arith in
    turns_meet cdrs d m l j shape (omega arith) ∙ ap (λ x. tail cdrs d x) f

same_of_eq : (d e : Datum) → d ≡ e → same d e ≡ true
same_of_eq d e h = rw h (same_self e)

-- Both pointers of a chain that ends are at different pairs.
apart :
    (cdrs : ℕ → Datum) (d : Datum) (n i j : ℕ)
    → HasShape cdrs d (ends n)
    → i < j
    → is_pair (tail cdrs d j) ≡ true
    → tail cdrs d i ≢ tail cdrs d j
apart cdrs d n i j shape h t = ends_distinct cdrs d n i j shape h (pair_before cdrs d n j shape t)

listp-ends :
    (cdrs : ℕ → Datum) (d : Datum) (fuel n i j : ℕ)
    → HasShape cdrs d (ends n)
    → j ≡ 2 * i + 1
    → i ≤ n
    → n < fuel + i
    → listp_loop fuel cdrs (tail cdrs d i) (tail cdrs d j) ≡ some (is_null (tail cdrs d n))
unfolding listp_loop
listp-ends cdrs d zero n i j shape h k l = absurd (omega arith)
listp-ends cdrs d (suc fuel) n i j shape h k l = elim (Bool-cases (is_pair (tail cdrs d j))) [
  | inr t ↦ rw (listp_loop, t) (ap (λ x. some (is_null x)) (no_pair_after cdrs d n j shape t).1)
  | inl t ↦ elim (Bool-cases (same (tail cdrs d j) (tail cdrs d i))) [
    | inl u ↦
        absurd (
          apart cdrs d n i j shape (omega arith) t
            (sym (same-eq (tail cdrs d j) (tail cdrs d i) u)))
    | inr u ↦
        let b = pair_before cdrs d n j shape t in
        rw (listp_loop, t, u)
          (listp-ends cdrs d fuel n (suc i) (suc (suc j)) shape (omega arith) (omega arith)
            (omega arith))
  ]
]

listp-turns :
    (cdrs : ℕ → Datum) (d : Datum) (fuel m l i j rounds : ℕ)
    → HasShape cdrs d (turns m l)
    → j ≡ 2 * i + 1
    → i + rounds ≡ meeting m l
    → rounds < fuel
    → listp_loop fuel cdrs (tail cdrs d i) (tail cdrs d j) ≡ some false
unfolding listp_loop
listp-turns cdrs d zero m l i j rounds shape h e k = absurd (omega arith)
listp-turns cdrs d (suc fuel) m l i j zero shape h e k =
    let t = shape.0 j in
    let u = same_of_eq (tail cdrs d j) (tail cdrs d i) (met cdrs d m l i j shape h e) in
    rw (listp_loop, t, u) refl
listp-turns cdrs d (suc fuel) m l i j (suc rounds) shape h e k =
    let t = shape.0 j in
    elim (Bool-cases (same (tail cdrs d j) (tail cdrs d i))) [
      | inl u ↦ rw (listp_loop, t, u) refl
      | inr u ↦
          rw (listp_loop, t, u)
            (listp-turns cdrs d fuel m l (suc i) (suc (suc j)) rounds shape (omega arith)
              (omega arith) (omega arith))
    ]

length-ends :
    (cdrs : ℕ → Datum) (d : Datum) (fuel n i j : ℕ)
    → HasShape cdrs d (ends n)
    → j ≡ 2 * i + 1
    → j ≤ n
    → n < fuel + i
    → length_loop fuel cdrs j (tail cdrs d i) (tail cdrs d j) ≡ some (some n)
unfolding length_loop
length-ends cdrs d zero n i j shape h k l = absurd (omega arith)
length-ends cdrs d (suc fuel) n i j shape h k l = elim (Bool-cases (is_pair (tail cdrs d j))) [
  | inr t ↦
      let (b, e) = no_pair_after cdrs d n j shape t in
      let f : j + 0 ≡ n = omega arith in rw (length_loop, t) (ap (λ x. some (some x)) f)
  | inl t ↦
      let b = pair_before cdrs d n j shape t in
      elim (Bool-cases (is_pair (tail cdrs d (suc j)))) [
        | inr v ↦
            let (c, e) = no_pair_after cdrs d n (suc j) shape v in
            let f : j + 1 ≡ n = omega arith in rw (length_loop, t, v) (ap (λ x. some (some x)) f)
        | inl v ↦
            let c = pair_before cdrs d n (suc j) shape v in
            let f : j + 2 ≡ suc (suc j) = omega arith in
            elim (Bool-cases (same (tail cdrs d i) (tail cdrs d j))) [
              | inl u ↦ absurd (
                  apart cdrs d n i j shape (omega arith) t
                    (same-eq (tail cdrs d i) (tail cdrs d j) u))
              | inr u ↦
                  rw (length_loop, t, v, u) rw f
                    (length-ends cdrs d fuel n (suc i) (suc (suc j)) shape (omega arith)
                      (omega arith) (omega arith))
            ]
      ]
]

length-turns :
    (cdrs : ℕ → Datum) (d : Datum) (fuel m l i j res rounds : ℕ)
    → HasShape cdrs d (turns m l)
    → j ≡ 2 * i + 1
    → i + rounds ≡ meeting m l
    → rounds < fuel
    → length_loop fuel cdrs res (tail cdrs d i) (tail cdrs d j) ≡ some none
unfolding length_loop
length-turns cdrs d zero m l i j res rounds shape h e k = absurd (omega arith)
length-turns cdrs d (suc fuel) m l i j res zero shape h e k =
    let t = shape.0 j in
    let v = shape.0 (suc j) in
    let u = same_of_eq (tail cdrs d i) (tail cdrs d j) (sym (met cdrs d m l i j shape h e)) in
    rw (length_loop, t, v, u) refl
length-turns cdrs d (suc fuel) m l i j res (suc rounds) shape h e k =
    let t = shape.0 j in
    let v = shape.0 (suc j) in
    elim (Bool-cases (same (tail cdrs d i) (tail cdrs d j))) [
      | inl u ↦ rw (length_loop, t, v, u) refl
      | inr u ↦
          rw (length_loop, t, v, u)
            (length-turns cdrs d fuel m l (suc i) (suc (suc j)) (res + 2) rounds shape (omega arith)
              (omega arith) (omega arith))
    ]

-- The answers: a circle is no list and has no length, and a chain that ends in another object has
-- the length of its pairs.
abbrev pub is_list : (ℕ → Datum) → Datum → Shape → Bool
is_list cdrs d (ends n) = is_null (tail cdrs d n)
is_list cdrs d (turns m l) = false

abbrev pub chain_length : Shape → Option ℕ
chain_length (ends n) = some n
chain_length (turns m l) = none

-- With fuel above the number of pairs, `list?` comes to its end on every object, circular lists
-- included, and is true exactly for a chain of pairs that ends in the empty list.
pub listp_op_lem :
    (cdrs : ℕ → Datum) (d : Datum) (fuel : ℕ) (shape : Shape)
    → HasShape cdrs d shape
    → extent shape < fuel
    → listp_op fuel cdrs d ≡ some (is_list cdrs d shape)
unfolding listp_op
listp_op_lem cdrs d fuel (ends n) h k = elim (Bool-cases (is_pair d)) [
  | inl t ↦
      let b = pair_before cdrs d n 0 h t in
      rw (listp_op, t) (listp-ends cdrs d fuel n 0 1 h (omega arith) (omega arith) (omega arith))
  | inr t ↦ rw (listp_op, t) (ap (λ x. some (is_null x)) (no_pair_after cdrs d n 0 h t).1)
]
listp_op_lem cdrs d fuel (turns m l) h k =
    let t = h.0 0 in
    rw (listp_op, t)
      (listp-turns cdrs d fuel m l 0 1 (meeting m l) h (omega arith) (omega arith) (omega arith))

-- With fuel above the number of pairs, `length` comes to its end on every object. It is the number
-- of pairs of a chain that ends, whatever stands at the end, and #f for a circular list.
pub length_op_lem :
    (cdrs : ℕ → Datum) (d : Datum) (fuel : ℕ) (shape : Shape)
    → HasShape cdrs d shape
    → extent shape < fuel
    → length_op fuel cdrs d ≡ some (chain_length shape)
unfolding length_op
length_op_lem cdrs d fuel (ends n) h k = elim (Bool-cases (is_pair d)) [
  | inl t ↦
      let b = pair_before cdrs d n 0 h t in
      rw (length_op, t) (length-ends cdrs d fuel n 0 1 h (omega arith) (omega arith) (omega arith))
  | inr t ↦
      let (b, e) = no_pair_after cdrs d n 0 h t in
      let f : 0 ≡ n = omega arith in rw (length_op, t) (ap (λ x. some (some x)) f)
]
length_op_lem cdrs d fuel (turns m l) h k =
    let t = h.0 0 in
    rw (length_op, t)
      (length-turns cdrs d fuel m l 0 1 1 (meeting m l) h (omega arith) (omega arith) (omega arith))
