-- ===== src/Tests/Pairs.antt =====
-- Concrete lists for the results about the list utilities of sexp.c.
use mathlib.Core.List.{reverse}
use chibi_scheme.Prelude.{
  ℕ, zero, suc, ◌+◌, ◌<◌, ◌≡◌, refl, ap, true, false, none, some, List, [], ◌∷◌, ◌==◌,
  if◌then◌else◌, arith,
}
use chibi_scheme.Pairs.{
  Datum, null, atom, pair, Store, is_pair, cdr_of, same, listp_op, length_op, nreverse_op, memq_op,
  assq_op,
}
use chibi_scheme.Pairs.Shapes.{tail, ends, turns, HasShape}
use chibi_scheme.Pairs.Cycles.{is_list, chain_length, listp_op_lem, length_op_lem}
use chibi_scheme.Pairs.InPlace.{IsChain, Avoids, nreverse_op_lem}

-- The list (7 8 9) at the addresses 0, 1 and 2
abbrev three : Store
three = record {
  cars = λ p. atom (p + 7);
  cdrs = λ p. if p == 2 then null else pair (p + 1);
  next = 3;
}

-- Every pair is its own cdr's circle.
abbrev around : ℕ → Datum
around p = pair 0

around-tail : (k : ℕ) → tail around (pair 0) k ≡ pair 0
unfolding cdr_of
around-tail zero = refl
around-tail (suc k) = ap (λ d. cdr_of around d) (around-tail k)

around-HasShape : HasShape around (pair 0) (turns 0 1)
unfolding cdr_of is_pair
around-HasShape = (λ k. ap is_pair (around-tail k), omega arith, refl)

three-HasShape : HasShape three.cdrs (pair 0) (ends 3)
unfolding cdr_of is_pair
three-HasShape = (pairs, refl)
  where
    pairs : (k : ℕ) → k < 3 → is_pair (tail three.cdrs (pair 0) k) ≡ true
    pairs zero h = refl
    pairs (suc zero) h = refl
    pairs (suc (suc zero)) h = refl
    pairs (suc (suc (suc k))) h = absurd (omega arith)

three-IsChain : IsChain three.cdrs (pair 0) (0 ∷ 1 ∷ 2 ∷ []) null
three-IsChain = (refl, (refl, (refl, refl)))

memq_runs : memq_op 4 three.cars three.cdrs (atom 8) (pair 0) ≡ some (some (pair 1))
unfolding memq_op same
memq_runs = refl

assq_runs : assq_op 4 three.cars three.cdrs (atom 8) (pair 0) ≡ some none
unfolding assq_op
assq_runs = refl

listp_op_lem_example : listp_op 2 around (pair 0) ≡ some (is_list around (pair 0) (turns 0 1))
listp_op_lem_example = listp_op_lem around (pair 0) 2 (turns 0 1) around-HasShape (omega arith)

length_op_lem_example : length_op 4 three.cdrs (pair 0) ≡ some (chain_length (ends 3))
length_op_lem_example = length_op_lem three.cdrs (pair 0) 4 (ends 3) three-HasShape (omega arith)

abbrev items : List Datum
items = atom 7 ∷ atom 8 ∷ atom 9 ∷ []

not_pair : is_pair null ≡ false
unfolding is_pair
not_pair = refl

nreverse_op_lem_example :
    (r : Datum) × (t : Store) × (nreverse_op 3 (pair 0) three ≡ some (some (r, t)))
    × IsChain t.cdrs r (reverse (0 ∷ 1 ∷ 2 ∷ [])) null
    × (t.cars ≡ three.cars)
    × ((q : ℕ) → Avoids q (0 ∷ 1 ∷ 2 ∷ []) → t.cdrs q ≡ three.cdrs q)
nreverse_op_lem_example =
    nreverse_op_lem 3 0 three (1 ∷ 2 ∷ []) null (omega arith) three-IsChain not_pair
      ((refl, (refl, tt)), ((refl, tt), (tt, tt)))
