-- ===== src/Threads/Waking.antt =====
-- Waking the threads that wait for an event: `condition-variable-signal!` and -broadcast!.
use chibi_scheme.Prelude.{
  ℕ, ◌≡◌, ◌⊎◌, inl, inr, refl, Bool, true, false, none, some, List, [], ◌∷◌, ◌++◌, ◌==◌,
  if◌then◌else◌, All, Bool-cases, ap,
}
use chibi_scheme.Threads.{Event, World, same_event, update, awake, pick, wake_first}

-- Whether a thread waits for an event.
abbrev pub waits : World → Event → ℕ → Bool
waits w e t = same_event (w.thread t).event e

abbrev pub NoneWaits : World → Event → List ℕ → Type 0
NoneWaits w e ls = All (λ t. waits w e t ≡ false) ls

-- The first thread of a list that waits, with the threads before and behind it.
pub record First (w : World) (e : Event) (ls : List ℕ) : Type 0 where
  pub before : List ℕ
  pub found : ℕ
  pub behind : List ℕ
  pub whole : ls ≡ before ++ found ∷ behind
  pub skipped : NoneWaits w e before
  pub waiting : waits w e found ≡ true

pick_lem :
    (w : World) (e : Event) (ls : List ℕ)
    → (NoneWaits w e ls × (pick w e ls ≡ none))
      ⊎ ((f : First w e ls) × (pick w e ls ≡ some (f.found, f.before ++ f.behind)))
unfolding pick
pick_lem w e [] = inl (tt, refl)
pick_lem w e (t ∷ ls) = elim (Bool-cases (waits w e t)) [
  | inl q ↦ inr (
    record { before = []; found = t; behind = ls; whole = refl; skipped = tt; waiting = q },
    rw (pick, q) refl,
  )
  | inr q ↦ elim (pick_lem w e ls) [
    | inl (n, p) ↦ inl ((q, n), rw (pick, q, p) refl)
    | inr (f, p) ↦ inr (
      record {
        before = t ∷ f.before;
        found = f.found;
        behind = f.behind;
        whole = ap (λ l. t ∷ l) f.whole;
        skipped = (q, f.skipped);
        waiting = f.waiting;
      },
      rw (pick, q, p) refl,
    )
  ]
]

-- The first waiting thread has moved to the front of the run queue, awake; nothing else changed.
pub record Woke (e : Event) (w w' : World) : Type 0 where
  pub first : First w e w.paused
  pub left : w'.paused ≡ first.before ++ first.behind
  pub queued : w'.front ≡ first.found ∷ w.front
  pub threads : w'.thread ≡ (λ u. if u == first.found then awake (w.thread u) else w.thread u)
  pub mutexes : w'.mutex ≡ w.mutex

pub wake_first_lem :
    (e : Event) (w : World)
    → (NoneWaits w e w.paused × (wake_first e w ≡ (w, false)))
      ⊎ ((w' : World) × (wake_first e w ≡ (w', true)) × Woke e w w')
unfolding wake_first update
wake_first_lem e w = elim (pick_lem w e w.paused) [
  | inl (n, p) ↦ inl (n, rw (wake_first, p) refl)
  | inr (f, p) ↦ inr (
    _,
    rw (wake_first, p) refl,
    record { first = f; left = refl; queued = refl; threads = refl; mutexes = refl },
  )
]

-- The threads of a list that wait for an event, and those that do not.
unfoldable pub waiters : World → Event → List ℕ → List ℕ
waiters w e [] = []
waiters w e (t ∷ ls) = let rest = waiters w e ls in if waits w e t then t ∷ rest else rest

unfoldable pub sleepers : World → Event → List ℕ → List ℕ
sleepers w e [] = []
sleepers w e (t ∷ ls) = let rest = sleepers w e ls in if waits w e t then rest else t ∷ rest

-- Threads put to the front one after the other.
abbrev pub onto : List ℕ → List ℕ → List ℕ
onto [] front = front
onto (t ∷ ls) front = onto ls (t ∷ front)

module _ (w : World) (e : Event) where
  pub none_waiters : (ls : List ℕ) → NoneWaits w e ls → waiters w e ls ≡ []
  unfolding waiters
  none_waiters [] n = refl
  none_waiters (t ∷ ls) (q, n) = rw (waiters, q, none_waiters ls n) refl

  pub none_sleepers : (ls : List ℕ) → NoneWaits w e ls → sleepers w e ls ≡ ls
  unfolding sleepers
  none_sleepers [] n = refl
  none_sleepers (t ∷ ls) (q, n) = rw (sleepers, q, none_sleepers ls n) refl

  pub first_waiters :
      (t : ℕ) (xs ys : List ℕ)
      → NoneWaits w e xs
      → waits w e t ≡ true
      → waiters w e (xs ++ t ∷ ys) ≡ t ∷ waiters w e (xs ++ ys)
  unfolding waiters
  first_waiters t [] ys n q = rw (waiters, q) refl
  first_waiters t (x ∷ xs) ys (p, n) q = rw (waiters, p, first_waiters t xs ys n q) refl

  pub first_sleepers :
      (t : ℕ) (xs ys : List ℕ)
      → NoneWaits w e xs
      → waits w e t ≡ true
      → sleepers w e (xs ++ t ∷ ys) ≡ sleepers w e (xs ++ ys)
  unfolding sleepers
  first_sleepers t [] ys n q = rw (sleepers, q) refl
  first_sleepers t (x ∷ xs) ys (p, n) q = rw (sleepers, p, first_sleepers t xs ys n q) refl

module _ (w v : World) (e : Event) (same : (u : ℕ) → waits v e u ≡ waits w e u) where
  pub same_waiters : (ls : List ℕ) → waiters v e ls ≡ waiters w e ls
  unfolding waiters
  same_waiters [] = refl
  same_waiters (t ∷ ls) = rw (waiters, same t, same_waiters ls) refl

  pub same_sleepers : (ls : List ℕ) → sleepers v e ls ≡ sleepers w e ls
  unfolding sleepers
  same_sleepers [] = refl
  same_sleepers (t ∷ ls) = rw (sleepers, same t, same_sleepers ls) refl
