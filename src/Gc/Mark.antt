-- ===== src/Gc/Mark.antt =====
-- gc.c: the mark phase. A value is a pointer or something that is not one, and the references of an
-- object are its slots and, for a context, the variables that it saves.
use mathlib.Core.List.{reverse}
use chibi_scheme.Prelude.{
  ℕ, zero, suc, Bool, true, false, Option, none, some, List, [], ◌∷◌, ◌==◌, if◌then◌else◌, ◌>>=◌,
}
use chibi_scheme.Gc.{Objects}

abbrev pub Value : Type 0
Value = Option ℕ

pub record Refs : Type 0 where
  pub saves : List Value
  pub slots : List Value

-- The references do not change while the collector marks.
abbrev pub Graph : Type 0
Graph = ℕ → Refs

-- The mark stack holds the values from `start` to just before `end`.
pub record Marking : Type 0 where
  pub objects : Objects
  pub stack : List (List Value)

unfoldable pub set_mark : ℕ → Objects → Objects
set_mark p objs = λ a. if a == p then record (objs a) { markedp = true } else objs a

-- Not a pointer, or marked
unfoldable pub is_marked : Objects → Value → Bool
is_marked objs none = true
is_marked objs (some p) = (objs p).markedp

-- The next two have the slots from the last to the first: *q is the first of the list.
unfoldable pub skip_marked : Objects → List Value → List Value
unfolding is_marked
skip_marked objs [] = []
skip_marked objs (x ∷ []) = x ∷ []
skip_marked objs (x ∷ y ∷ rest) =
    let skipped = skip_marked objs (y ∷ rest) in if is_marked objs x then skipped else x ∷ y ∷ rest

-- *q is a pointer here, if q[-1] is there.
unfoldable pub same_value : Value → Value → Bool
same_value none y = false
same_value (some a) none = false
same_value (some a) (some b) = a == b

unfoldable pub skip_duplicates : List Value → List Value
unfolding same_value
skip_duplicates [] = []
skip_duplicates (x ∷ []) = x ∷ []
skip_duplicates (x ∷ y ∷ rest) =
    let skipped = skip_duplicates (y ∷ rest) in if same_value x y then skipped else x ∷ y ∷ rest

unfoldable pub mark_stack_push : List Value → Marking → Marking
mark_stack_push range m = record m { stack = range ∷ m.stack }

-- Each value of a range or of the saved variables in turn, by `mark`.
unfoldable pub mark_each :
    (Value → Marking → Option Marking) → List Value → Marking → Option Marking
mark_each mark [] m = some m
mark_each mark (x ∷ xs) m = do m' ← mark x m; mark_each mark xs m'

-- What is left of the slots: those before the last are for later, and the last is next.
unfoldable pub mark_slots :
    (Value → Marking → Option Marking) → List Value → Marking → Option Marking
unfolding mark_stack_push
mark_slots mark [] m = some m
mark_slots mark (x ∷ []) m = mark x m
mark_slots mark (x ∷ y ∷ rest) m = mark x (mark_stack_push (reverse (y ∷ rest)) m)

unfoldable pub mark_object : (Value → Marking → Option Marking) → Refs → Marking → Option Marking
unfolding mark_each mark_slots skip_marked skip_duplicates
mark_object mark refs m = do
  saved ← mark_each mark refs.saves m
  mark_slots mark (skip_duplicates (skip_marked saved.objects (reverse refs.slots))) saved

-- sexp_mark_one, its recursive call and its loop on fuel
unfoldable pub mark_one : ℕ → Graph → Value → Marking → Option Marking
unfolding mark_object set_mark
mark_one zero graph x m = none
mark_one (suc fuel) graph none m = some m
mark_one (suc fuel) graph (some p) m = elim (m.objects p).markedp [
  | true ↦ some m
  | false ↦
      mark_object (mark_one fuel graph) (graph p) (record m { objects = set_mark p m.objects })
]

-- One round, on what the stack holds: sexp_mark_stack_pop, and the values of the range
unfoldable pub mark_popped :
    (Marking → Option Marking)
    → (Value → Marking → Option Marking)
    → List (List Value)
    → Marking
    → Option Marking
unfolding mark_each
mark_popped next mark [] m = some m
mark_popped next mark (range ∷ stack) m = do
  m' ← mark_each mark range (record m { stack = stack })
  next m'

-- while (*ptr)
unfoldable pub mark_stacked : ℕ → ℕ → Graph → Marking → Option Marking
unfolding mark_popped mark_one
mark_stacked zero depth graph m = none
mark_stacked (suc fuel) depth graph m =
    mark_popped (mark_stacked fuel depth graph) (mark_one depth graph) m.stack m

-- sexp_mark_one_start and sexp_mark, where `fuel` is above the number of objects
unfoldable pub sexp_mark : ℕ → Graph → Value → Objects → Option Objects
unfolding mark_one mark_stacked
sexp_mark fuel graph x objects = do
  m ← mark_one fuel graph x (record { objects = objects; stack = [] })
  done ← mark_stacked fuel fuel graph m
  some done.objects
