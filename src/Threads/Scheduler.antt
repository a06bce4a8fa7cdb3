-- ===== src/Threads/Scheduler.antt =====
-- `sexp_scheduler`, by its sections: signals, blocked descriptors, threads that join the current
-- one, timeouts, the choice of the next thread, and the wait for it.
use chibi_scheme.Prelude.{
  ℕ, zero, suc, ◌+◌, ◌-◌, ◌*◌, Bool, true, false, not, ◌&&◌, ◌||◌, Option, none, some, List, [],
  ◌∷◌, ◌++◌, ◌==◌, ltb, leb, if◌then◌else◌, length, get_or, set, take,
}
use chibi_scheme.Threads.{
  Event, nothing, joins, on_port, on_fd, Thread, World, same_event, update, awake, thread_start,
  delete_list, as_thread, never, Clock, time_of, context_before, insert_timed,
}

-- SEXP_G_THREADS_SIGNAL_RUNNER: an environment with no runner procedure, one in which a new thread
-- can be made of it, or the runner.
pub data Runner : Type 0 where
  no_runner : Runner
  makes : ℕ → Runner
  runs : ℕ → Runner

-- A `struct pollfd`, with what `poll` answered in `revents`.
pub record PollFd : Type 0 where
  pub fd : ℕ
  pub revents : Bool

-- The globals, and whether the local `front` still is the empty queue that it was at the start.
pub record Machine : Type 0 where
  pub world : World
  pub runner : Runner
  pub pollfds : List PollFd
  pub stale : Bool

abbrev pub is_empty {ℓ} : {A : Type ℓ} → List A → Bool
is_empty [] = true
is_empty (x ∷ xs) = false

-- A thread that is not waiting is queued anew by nobody; a sleeping runner is woken.
check_signals : Bool → Machine → Machine
check_signals pending m =
    if pending
    then elim m.runner [
      | no_runner ↦ m
      | makes r ↦ record m { runner = runs r; world = thread_start r m.world; stale = false }
      | runs r ↦
          if (m.world.thread r).waitp
          then record m {
            world = thread_start r (update r (λ th. record th { waitp = false }) m.world);
            stale = is_empty m.world.front;
          }
          else m
    ]
    else m

-- A port or descriptor with that number.
unfoldable pub waits_fd : ℕ → Event → Bool
waits_fd fd (on_port f) = f == fd
waits_fd fd (on_fd f) = f == fd
waits_fd fd _ = false

abbrev freed : Thread → Thread
freed th = record th { waitp = false; timeoutp = false; event = nothing }

-- The paused threads that pass a test leave for the back of the run queue, all but the current
-- one, which just leaves; those left are returned.
unfoldable pub release :
    (World → ℕ → Bool) → (Thread → Thread) → (ℕ → Bool) → List ℕ → World → World × List ℕ
unfolding update
release test change queues [] w = (w, [])
release test change queues (t ∷ ls) w = elim (test w t) [
  | true ↦
      let w1 = update t change w in
      let w2 = if queues t then record w1 { front = w1.front ++ t ∷ [] } else w1 in
      release test change queues ls w2
  | false ↦ let (w', kept) = release test change queues ls w in (w', t ∷ kept)
]

unfoldable pub release_all : (World → ℕ → Bool) → (Thread → Thread) → (ℕ → Bool) → World → World
unfolding release
release_all test change queues w =
    let (w', kept) = release test change queues w.paused w in record w' { paused = kept }

free_fd : ℕ → ℕ → World → World
unfolding waits_fd release_all
free_fd ctx fd w =
    let w1 = if waits_fd fd (w.thread ctx).event then update ctx freed w else w in
    release_all (λ v t. waits_fd fd (v.thread t).event) freed (λ t. not (t == ctx)) w1

-- for (i = n - 1; i >= 0 && k > 0; --i), with `i` descriptors below and `k` answers left. The last
-- descriptor takes the place of one that was served.
poll_loop : ℕ → ℕ → ℕ → List PollFd → World → List PollFd × World
unfolding free_fd
poll_loop ctx zero k fds w = (fds, w)
poll_loop ctx (suc i) zero fds w = (fds, w)
poll_loop ctx (suc i) (suc k) fds w =
    let none_there : PollFd = record { fd = 0; revents = false } in
    let p = get_or fds i none_there in
    let last = length fds - 1 in
    let fds' = take last (if ltb i last then set fds i (get_or fds last none_there) else fds) in
    elim p.revents [
      | true ↦ poll_loop ctx i k fds' (free_fd ctx p.fd w)
      | false ↦ poll_loop ctx i (suc k) fds w
    ]

count_ready : List PollFd → ℕ
count_ready [] = 0
count_ready (p ∷ ps) = (if p.revents then 1 else 0) + count_ready ps

-- The queue's local copy follows the queue where a thread comes into an empty one.
unfoldable pub refresh : World → Machine → Machine
refresh w m = record m {
  world = w;
  stale = m.stale && (not (is_empty m.world.front) || is_empty w.front);
}

check_fds : ℕ → Machine → Machine
unfolding poll_loop count_ready refresh
check_fds ctx m =
    let (fds, w) = poll_loop ctx (length m.pollfds) (count_ready m.pollfds) m.pollfds m.world in
    record (refresh w m) { pollfds = fds }

-- If the current thread has ended, the threads that join it go on.
unfoldable pub check_joins : ℕ → Machine → Machine
unfolding release_all refresh
check_joins ctx m =
    if (m.world.thread ctx).refuel == 0
    then refresh
        (release_all (λ v t. same_event (v.thread t).event (joins ctx)) awake (λ t. true) m.world) m
    else m

-- The leading paused threads whose time has come.
unfoldable pub expire : Clock → List ℕ → World → World × List ℕ
unfolding context_before update
expire now [] w = (w, [])
expire now (t ∷ ls) w = elim (context_before w t now) [
  | true ↦
      let w' = update t (λ th. record th { timeoutp = true; waitp = false }) w in
      expire now ls (record w' { front = w'.front ++ t ∷ [] })
  | false ↦ (w, t ∷ ls)
]

unfoldable pub check_timeouts : Clock → Machine → Machine
unfolding expire refresh
check_timeouts now m =
    let (w, kept) = expire now m.world.paused m.world in refresh (record w { paused = kept }) m

unfoldable pub member : ℕ → List ℕ → Bool
member t [] = false
member t (u ∷ ls) = u == t || member t ls

unfoldable pub waits_io : Event → Bool
waits_io (on_port f) = true
waits_io (on_fd f) = true
waits_io _ = false

-- The first paused thread that waits for input or output.
unfoldable pub first_io : World → List ℕ → Option ℕ
unfolding waits_io
first_io w [] = none
first_io w (t ∷ ls) = if waits_io (w.thread t).event then some t else first_io w ls

-- The queue has no thread to offer, as the local `front` shows it.
unfoldable pub no_thread : ℕ → World → ℕ
unfolding first_io
no_thread ctx w =
    if (w.thread ctx).refuel == 0
    then elim (first_io w w.paused) [ none ↦ ctx | some t ↦ t ]
    else ctx

-- The front thread is next. The current one is paused, if it still runs and waits, or goes to the
-- back of the queue.
unfoldable pub take_front : Clock → ℕ → ℕ → List ℕ → World → World
unfolding member insert_timed
take_front now ctx t rest w =
    if ((w.thread ctx).refuel == 0) || (w.thread ctx).waitp
    then if ltb 0 (w.thread ctx).refuel && not (member ctx w.paused)
      then insert_timed now ctx never (record w { front = rest })
      else record w { front = rest }
    else record w { front = rest ++ ctx ∷ [] }

unfoldable pub from_front : Clock → ℕ → World → List ℕ → ℕ × World
unfolding take_front no_thread
from_front now ctx w [] = (no_thread ctx w, w)
from_front now ctx w (t ∷ rest) = (t, take_front now ctx t rest w)

unfoldable pub dequeue : Clock → ℕ → Machine → ℕ × World
unfolding from_front no_thread
dequeue now ctx m =
    if m.stale then (no_thread ctx m.world, m.world) else from_front now ctx m.world m.world.front

-- If the first paused thread is due before the chosen one, it takes its place.
swap_sleeper : Clock → ℕ → World → ℕ × World
unfolding context_before insert_timed delete_list member
swap_sleeper now res w =
    let drop : ℕ × World = (res, record w { paused = (delete_list res w.paused).0 }) in
    elim w.paused [
      | [] ↦ drop
      | t ∷ rest ↦
          if context_before w t (time_of w res)
          then (
            t,
            if member res rest
                then record w { paused = rest }
                else insert_timed now res (as_thread res) (record w { paused = rest }),
          )
          else drop
    ]

-- The microseconds to the time of a thread, with the clock read once more.
time_left : Clock → Clock → ℕ
time_left now c =
    let usecs = (c.sec - now.sec) * 1000000 in
    if leb now.sec c.sec && (ltb now.usec c.usec || ltb 0 usecs)
    then usecs + c.usec - now.usec
    else 0

abbrev nap_max : ℕ
nap_max = 10000

-- The nap, and the world after it: the thread stays waiting if its time is further off than that.
nap : Clock → ℕ → World → ℕ × World
unfolding time_left update
nap now res w =
    let c = time_of w res in
    if (c.sec == 0) && (c.usec == 0)
    then (nap_max, w)
    else if ltb nap_max (time_left now c)
    then (nap_max, w)
    else (time_left now c, update res (λ th. record th { waitp = false; timeoutp = true }) w)

-- The thread to run, the nap taken, if one was, and the machine left.
pub record Scheduled : Type 0 where
  pub next : ℕ
  pub napped : Option ℕ
  pub machine : Machine

-- The chosen thread slept: a swap, and a nap.
asleep : Clock → Clock → ℕ × World → Machine → Scheduled
unfolding swap_sleeper nap
asleep now later (res, w) m =
    let (res', w') = swap_sleeper now res w in
    let (usecs, w'') = nap later res' w' in
    record { next = res'; napped = some usecs; machine = record m { world = w'' } }

wait_for : Clock → Clock → ℕ × World → Machine → Scheduled
unfolding asleep
wait_for now later (res, w) m =
    if (w.thread res).waitp
    then asleep now later (res, w) m
    else record { next = res; napped = none; machine = record m { world = w } }

-- With the clock as it is read for the timeouts and, later, for the nap.
pub scheduler : Bool → Clock → Clock → ℕ → Machine → Scheduled
unfolding check_signals check_fds check_joins check_timeouts dequeue wait_for
scheduler pending now later ctx m =
    let m4 = check_timeouts now (check_joins ctx (check_fds ctx (check_signals pending m))) in
    wait_for now later (dequeue now ctx m4) m4
