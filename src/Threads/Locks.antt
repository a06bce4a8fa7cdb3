-- ===== src/Threads/Locks.antt =====
-- Mutexes: `mutex-lock!` and `mutex-unlock!`.
use chibi_scheme.Prelude.{
  ℕ, ◌≡◌, ◌⊎◌, refl, true, false, none, some, ◌==◌, inl, inr, arith, ap, ◌∙◌,
}
use chibi_scheme.Threads.{locks, World, Clock, Timeout, set_mutex, wake_first, mutex_unlock}
use chibi_scheme.Threads.Waking.{NoneWaits, Woke, wake_first_lem}

same : (n : ℕ) → (n == n) ≡ true
same n = ground arith

-- `mutex-unlock!` of a locked mutex, with no condition variable, unlocks it and answers yes. If
-- paused threads wait for the mutex, the first of them has left the paused ones for the front of
-- the run queue, awake; otherwise no thread has changed.
pub mutex_unlock-Woke :
    (now : Clock) (ctx m : ℕ) (t : Timeout) (w : World)
    → (w.mutex m).lockp ≡ true
    → let unlocked = set_mutex m (record { lockp = false; owner = some ctx }) w in
      (NoneWaits w (locks m) w.paused × (mutex_unlock now ctx m none t w ≡ (unlocked, true)))
      ⊎ ((w' : World) × (mutex_unlock now ctx m none t w ≡ (w', true)) × Woke (locks m) unlocked w')
unfolding mutex_unlock
mutex_unlock-Woke now ctx m t w q =
    let unlocked = set_mutex m (record { lockp = false; owner = some ctx }) w in
    let e : mutex_unlock now ctx m none t w ≡ ((wake_first (locks m) unlocked).0, true) =
      rw (mutex_unlock, q) refl in
    elim (wake_first_lem (locks m) unlocked) [
      | inl (n, p) ↦ inl (n, e ∙ ap (λ r. (r.0, true)) p)
      | inr (w', p, k) ↦ inr (w', e ∙ ap (λ r. (r.0, true)) p, k)
    ]
