-- ===== src/Threads/Broadcast.antt =====
-- `condition-variable-signal!` and `condition-variable-broadcast!` as a whole.
use chibi_scheme.Prelude.{ℕ, ◌≡◌, ◌⊎◌, Bool, true, false, List, [], ◌∷◌}
use chibi_scheme.Threads.{Event, signalled, World, condition_variable_signal}
use chibi_scheme.Threads.Waking.{NoneWaits, Woke, wake_first_lem, waiters, sleepers, onto}

-- `condition-variable-signal!` does nothing and answers no if no paused thread waits for the
-- variable; otherwise it answers yes, and the first one that waits has left the paused threads for
-- the front of the run queue, awake, and no other thread, no queue position and no mutex changed.
pub condition_variable_signal-Woke :
    (c : ℕ) (w : World)
    → (NoneWaits w (signalled c) w.paused × (condition_variable_signal c w ≡ (w, false)))
      ⊎ ((w' : World) × (condition_variable_signal c w ≡ (w', true)) × Woke (signalled c) w w')
unfolding condition_variable_signal
condition_variable_signal-Woke c w = wake_first_lem (signalled c) w

abbrev pub some_of : List ℕ → Bool
some_of [] = false
some_of (t ∷ ls) = true

-- What a broadcast leaves: the threads that do not wait stay paused in their order, and those that
-- wait are in the run queue, the last of them first.
pub record Woken (e : Event) (w w' : World) : Type 0 where
  pub left : w'.paused ≡ sleepers w e w.paused
  pub queued : w'.front ≡ onto (waiters w e w.paused) w.front
  pub events : (u : ℕ) → (w'.thread u).event ≡ (w.thread u).event
