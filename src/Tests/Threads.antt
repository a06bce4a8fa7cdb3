-- ===== src/Tests/Threads.antt =====
-- lib/srfi/18/threads.c with four threads: 0 runs, 1 is queued, 2 and 3 wait for variable 7.
use chibi_scheme.Prelude.{ℕ, ◌≡◌, ◌⊎◌, refl, true, false, none, some, [], ◌∷◌, leb, if◌then◌else◌}
use chibi_scheme.Threads.{
  Event, nothing, locks, signalled, unset, Thread, World, Clock, never, fixnum, set_mutex,
  mutex_unlock, condition_variable_broadcast, thread_sleep,
}
use chibi_scheme.Threads.Scheduler.{no_runner, Machine, dequeue, check_joins, check_timeouts}
use chibi_scheme.Threads.Waking.{NoneWaits, Woke}
use chibi_scheme.Threads.Conserved.{copies, Dequeued, dequeue-Dequeued, check_timeouts-check_joins}
use chibi_scheme.Threads.Locks.{mutex_unlock-Woke}

abbrev ready : Thread
ready = record {
  waitp = false;
  timeoutp = false;
  errorp = false;
  refuel = 500;
  event = nothing;
  tv_sec = 0;
  tv_usec = 0;
  child = none;
  result = unset;
}

abbrev asleep : Event → Thread
asleep e = record ready { waitp = true; event = e }

abbrev threads : ℕ → Thread
threads t = if leb 2 t then asleep (signalled 7) else ready

abbrev world : World
world = record {
  thread = threads;
  mutex = λ m. record { lockp = true; owner = some 1 };
  front = 1 ∷ [];
  paused = 2 ∷ 3 ∷ [];
}

abbrev machine : Machine
machine = record { world = world; runner = no_runner; pollfds = []; stale = false }

abbrev noon : Clock
noon = record { sec = 43200; usec = 0 }

-- The queued thread is next and the current one goes to the back.
rotates : (dequeue noon 0 machine).1.front ≡ 0 ∷ []
unfolding dequeue
rotates = refl

broadcasts : (condition_variable_broadcast 7 world).0.front ≡ 3 ∷ 2 ∷ 1 ∷ []
unfolding condition_variable_broadcast
broadcasts = refl

-- A sleep until a time is before the threads with none.
sleeps : (thread_sleep noon 0 (some (fixnum 5)) world).0.paused ≡ 0 ∷ 2 ∷ 3 ∷ []
unfolding thread_sleep
sleeps = refl

dequeue-Dequeued_example : Dequeued 0 machine (dequeue noon 0 machine)
dequeue-Dequeued_example = dequeue-Dequeued noon 0 machine

check_timeouts-check_joins_example :
    copies 2 (check_timeouts noon (check_joins 0 machine)).world ≡ copies 2 world
check_timeouts-check_joins_example = check_timeouts-check_joins 2 0 noon machine

mutex_unlock-Woke_example :
    let unlocked = set_mutex 4 (record { lockp = false; owner = some 0 }) world in
    (NoneWaits world (locks 4) (2 ∷ 3 ∷ [])
      × (mutex_unlock noon 0 4 none never world ≡ (unlocked, true)))
    ⊎ ((w' : World) × (mutex_unlock noon 0 4 none never world ≡ (w', true))
        × Woke (locks 4) unlocked w')
mutex_unlock-Woke_example = mutex_unlock-Woke noon 0 4 never world refl
