-- ===== src/Threads.antt =====
-- lib/srfi/18/threads.c: green threads, mutexes and condition variables. A thread, mutex or
-- condition variable is its number. The run queue (SEXP_G_THREADS_FRONT up to the pair
-- SEXP_G_THREADS_BACK) and the paused threads are lists; a refuel below zero counts as 0.
pub mod Scheduler
pub mod Waking
pub mod Signals
pub mod Broadcast
pub mod Conserved
pub mod Locks
use chibi_scheme.Prelude.{
  ℕ, zero, suc, ◌+◌, ◌-◌, ◌*◌, ◌/◌, ◌%◌, Bool, true, false, not, ◌&&◌, ◌||◌, Option, none, some,
  List, [], ◌∷◌, ◌++◌, ◌==◌, ltb, if◌then◌else◌, length,
}

-- What a thread waits for.
pub data Event : Type 0 where
  nothing : Event
  joins locks signalled : ℕ → Event
  on_port on_fd : ℕ → Event

pub data Outcome : Type 0 where
  unset : Outcome
  value : ℕ → Outcome
  terminate_error : Outcome

pub record Thread : Type 0 where
  pub waitp : Bool
  pub timeoutp : Bool
  pub errorp : Bool
  pub refuel : ℕ
  pub event : Event
  pub tv_sec : ℕ
  pub tv_usec : ℕ
  pub child : Option ℕ
  pub result : Outcome

pub record Mutex : Type 0 where
  pub lockp : Bool
  pub owner : Option ℕ

pub record World : Type 0 where
  pub thread : ℕ → Thread
  pub mutex : ℕ → Mutex
  pub front : List ℕ
  pub paused : List ℕ

unfoldable pub same_event : Event → Event → Bool
same_event (joins a) (joins b) = a == b
same_event (locks a) (locks b) = a == b
same_event (signalled a) (signalled b) = a == b
same_event _ _ = false

-- A change of one thread's fields.
unfoldable pub update : ℕ → (Thread → Thread) → World → World
update t f w = record w { thread = λ u. if u == t then f (w.thread u) else w.thread u }

abbrev pub awake : Thread → Thread
awake th = record th { waitp = false; timeoutp = false }

unfoldable pub thread_start : ℕ → World → World
unfolding update
thread_start t w =
    let w' = update t (λ th. record th { errorp = false }) w in
    record w' { front = w.front ++ t ∷ [] }

-- The list without the first occurrence, and whether there was one.
unfoldable pub delete_list : ℕ → List ℕ → List ℕ × Bool
delete_list x [] = ([], false)
delete_list x (y ∷ ls) =
    let (rest, found) = delete_list x ls in if y == x then (ls, true) else (y ∷ rest, found)

-- One round of the loop over the thread and its children.
terminate_one : ℕ → ℕ → World → World
terminate_one ctx t w =
    let w1 =
      if ltb 0 (w.thread ctx).refuel
      then update t (λ th. record th { errorp = true; result = terminate_error; refuel = 0 }) w
      else w in
    let (rest, found) = delete_list t w1.paused in
    let w2 = record w1 { paused = rest } in if found then thread_start t w2 else w2

-- Down the chain of children, with at most `depth` of them.
terminate_loop : ℕ → ℕ → Option ℕ → World → World
terminate_loop depth ctx none w = w
terminate_loop zero ctx (some t) w = w
terminate_loop (suc depth) ctx (some t) w =
    let w' = terminate_one ctx t w in terminate_loop depth ctx (w'.thread t).child w'

unfoldable pub thread_terminate : ℕ → ℕ → ℕ → World → World × Bool
unfolding terminate_loop terminate_one update thread_start delete_list
thread_terminate depth ctx t w = (terminate_loop depth ctx (some t) w, ctx == t)

-- A timeout: a fixnum of seconds, a flonum or ratio as seconds and microseconds, a bignum, a
-- thread whose time is taken, or none.
pub data Timeout : Type 0 where
  fixnum : ℕ → Timeout
  inexact : ℕ → ℕ → Timeout
  bignum : Timeout
  as_thread : ℕ → Timeout
  never : Timeout

-- `gettimeofday`.
pub record Clock : Type 0 where
  pub sec : ℕ
  pub usec : ℕ

unfoldable pub deadline : Clock → World → Timeout → Clock
deadline now w (fixnum n) = record now { sec = now.sec + n }
deadline now w (inexact s u) =
    if ltb 1000000 (now.usec + u)
    then record { sec = now.sec + s + 1; usec = now.usec + u - 1000000 }
    else record { sec = now.sec + s; usec = now.usec + u }
deadline now w bignum = record { sec = 0; usec = 0 }
deadline now w (as_thread t) = record { sec = (w.thread t).tv_sec; usec = (w.thread t).tv_usec }
deadline now w never = record { sec = 0; usec = 0 }

-- timeval_le, which is strict, and sexp_context_before
unfoldable pub timeval_le : Clock → Clock → Bool
timeval_le a b = ltb a.sec b.sec || (a.sec == b.sec && ltb a.usec b.usec)

abbrev pub time_of : World → ℕ → Clock
time_of w t = record { sec = (w.thread t).tv_sec; usec = (w.thread t).tv_usec }

unfoldable pub context_before : World → ℕ → Clock → Bool
unfolding timeval_le
context_before w t c =
    (not ((time_of w t).sec == 0) || not ((time_of w t).usec == 0)) && timeval_le (time_of w t) c

-- The walk over the pairs that pass the test, and the new pair behind them.
unfoldable pub insert_after : (ℕ → Bool) → ℕ → List ℕ → List ℕ
insert_after p x [] = x ∷ []
insert_after p x (y ∷ ls) = let rest = insert_after p x ls in if p y then y ∷ rest else x ∷ y ∷ ls

is_timed : Timeout → Bool
is_timed never = false
is_timed _ = true

unfoldable pub insert_timed : Clock → ℕ → Timeout → World → World
unfolding delete_list deadline context_before insert_after is_timed update
insert_timed now t timeout w =
    let rest = (delete_list t w.paused).0 in
    let c = deadline now w timeout in
    let w' = update t (λ th. record th { tv_sec = c.sec; tv_usec = c.usec }) w in
    let passes : ℕ → Bool =
      if is_timed timeout
      then (λ u. context_before w' u c)
      else (λ u. not ((w'.thread u).tv_sec == 0)) in
    record w' { paused = insert_after passes t rest }

-- The current thread goes to sleep on an event.
unfoldable pub wait_on : Clock → ℕ → Event → Timeout → World → World
unfolding update insert_timed
wait_on now ctx e timeout w =
    insert_timed now ctx timeout (update ctx (λ th. record th { waitp = true; event = e }) w)

unfoldable pub thread_join : Clock → ℕ → ℕ → Timeout → World → World × Bool
unfolding update wait_on
thread_join now ctx t timeout w = if (w.thread t).refuel == 0 then (w, true) else (
  wait_on now ctx (joins t) timeout (update ctx (λ th. record th { timeoutp = false }) w),
  false,
)

-- `none` is #t: sleep with no time given.
unfoldable pub thread_sleep : Clock → ℕ → Option Timeout → World → World × Bool
unfolding update wait_on
thread_sleep now ctx none w = (update ctx (λ th. record th { waitp = true }) w, false)
thread_sleep now ctx (some timeout) w = (wait_on now ctx nothing timeout w, false)

abbrev pub set_mutex : ℕ → Mutex → World → World
set_mutex m x w = record w { mutex = λ n. if n == m then x else w.mutex n }

unfoldable pub mutex_lock : Clock → ℕ → ℕ → Timeout → Option ℕ → World → World × Bool
unfolding wait_on
mutex_lock now ctx m timeout owner w =
    if not (w.mutex m).lockp
    then (set_mutex m (record { lockp = true; owner = owner }) w, true)
    else (wait_on now ctx (locks m) timeout w, false)

-- The first paused thread that waits for the event, and the others.
unfoldable pub pick : World → Event → List ℕ → Option (ℕ × List ℕ)
pick w e [] = none
pick w e (t ∷ ls) = elim (same_event (w.thread t).event e) [
  | true ↦ some (t, ls)
  | false ↦ elim (pick w e ls) [ none ↦ none | some r ↦ some (r.0, t ∷ r.1) ]
]

-- It goes to the front of the run queue, awake.
unfoldable pub wake_first : Event → World → World × Bool
unfolding pick update same_event
wake_first e w = elim (pick w e w.paused) [
  | none ↦ (w, false)
  | some r ↦
      let w' = update r.0 awake w in (record w' { paused = r.1; front = r.0 ∷ w.front }, true)
]

unfoldable pub mutex_unlock : Clock → ℕ → ℕ → Option ℕ → Timeout → World → World × Bool
unfolding wake_first wait_on
mutex_unlock now ctx m condvar timeout w =
    let w1 =
      if (w.mutex m).lockp
      then (wake_first (locks m) (set_mutex m (record { lockp = false; owner = some ctx }) w)).0
      else w in
    elim condvar [ none ↦ (w1, true) | some c ↦ (wait_on now ctx (signalled c) timeout w1, false) ]

unfoldable pub condition_variable_signal : ℕ → World → World × Bool
unfolding wake_first
condition_variable_signal c w = wake_first (signalled c) w

-- while (signal) res = true; with `left` rounds left
broadcast_loop : ℕ → ℕ → Bool → World → World × Bool
unfolding condition_variable_signal
broadcast_loop zero c res w = (w, res)
broadcast_loop (suc left) c res w = elim (condition_variable_signal c w).1 [
  | true ↦ broadcast_loop left c true (condition_variable_signal c w).0
  | false ↦ (w, res)
]

-- Each round that answers yes takes a thread out of the paused ones.
unfoldable pub condition_variable_broadcast : ℕ → World → World × Bool
unfolding broadcast_loop
condition_variable_broadcast c w = broadcast_loop (suc (length w.paused)) c false w
