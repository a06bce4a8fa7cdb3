-- ===== src/Threads/Conserved.antt =====
-- How often each thread stands in the run queue and among the paused ones.
use mathlib.Core.Path.{subst}
use chibi_scheme.Prelude.{
  ℕ, ◌+◌, ◌≡◌, ◌⊎◌, refl, Bool, true, false, ◌&&◌, ◌||◌, List, [], ◌∷◌, ◌++◌, ◌==◌, ltb,
  if◌then◌else◌, Bool-cases, inl, inr, arith, ap, sym, ◌∙◌,
}
use chibi_scheme.Threads.{
  joins, Thread, World, same_event, update, awake, delete_list, never, Clock, Timeout,
  context_before, insert_after, insert_timed,
}
use chibi_scheme.Threads.Scheduler.{
  Machine, release, release_all, refresh, check_joins, expire, check_timeouts, member, take_front,
  dequeue, from_front, no_thread,
}

abbrev pub hit : ℕ → ℕ → ℕ
hit u t = if t == u then 1 else 0

abbrev pub count : ℕ → List ℕ → ℕ
count u [] = 0
count u (t ∷ ls) = hit u t + count u ls

-- How often a thread is queued or paused.
abbrev pub copies : ℕ → World → ℕ
copies u w = count u w.front + count u w.paused

count-append : (u : ℕ) (xs ys : List ℕ) → count u (xs ++ ys) ≡ count u xs + count u ys
count-append u [] ys = omega arith
count-append u (x ∷ xs) ys = omega (arith, count-append u xs ys)

release_lem :
    (u : ℕ) (test : World → ℕ → Bool) (change : Thread → Thread) (ls : List ℕ) (w : World)
    → let (w', kept) = release test change (λ t. true) ls w in
      count u w'.front + count u kept ≡ count u w.front + count u ls
unfolding release update
release_lem u test change [] w = refl
release_lem u test change (t ∷ ls) w = elim (Bool-cases (test w t)) [
  | inl q ↦
      let w2 : World = record (update t change w) { front = w.front ++ t ∷ [] } in
      rw (release, q)
        (omega (arith, release_lem u test change ls w2, count-append u w.front (t ∷ [])))
  | inr q ↦ rw (release, q) (omega (arith, release_lem u test change ls w))
]

expire_lem :
    (u : ℕ) (now : Clock) (ls : List ℕ) (w : World)
    → let (w', kept) = expire now ls w in
      count u w'.front + count u kept ≡ count u w.front + count u ls
unfolding expire update
expire_lem u now [] w = refl
expire_lem u now (t ∷ ls) w = elim (Bool-cases (context_before w t now)) [
  | inl q ↦
      let w1 = update t (λ th. record th { timeoutp = true; waitp = false }) w in
      let w2 : World = record w1 { front = w.front ++ t ∷ [] } in
      rw (expire, q) (omega (arith, expire_lem u now ls w2, count-append u w.front (t ∷ [])))
  | inr q ↦ rw (expire, q) refl
]

check_joins-copies :
    (u ctx : ℕ) (m : Machine) → copies u (check_joins ctx m).world ≡ copies u m.world
unfolding check_joins refresh release_all
check_joins-copies u ctx m = elim (Bool-cases ((m.world.thread ctx).refuel == 0)) [
  | inl q ↦
      rw (check_joins, q)
        (release_lem u (λ v t. same_event (v.thread t).event (joins ctx)) awake m.world.paused
          m.world)
  | inr q ↦ rw (check_joins, q) refl
]

check_timeouts-copies :
    (u : ℕ) (now : Clock) (m : Machine) → copies u (check_timeouts now m).world ≡ copies u m.world
unfolding check_timeouts refresh
check_timeouts-copies u now m = expire_lem u now m.world.paused m.world

-- The sections for joins and for timeouts move threads from the paused ones to the run queue: each
-- thread stands in the two together as often as before.
pub check_timeouts-check_joins :
    (u ctx : ℕ) (now : Clock) (m : Machine)
    → copies u (check_timeouts now (check_joins ctx m)).world ≡ copies u m.world
check_timeouts-check_joins u ctx now m =
    check_timeouts-copies u now (check_joins ctx m) ∙ check_joins-copies u ctx m

absent : (t : ℕ) (ls : List ℕ) → member t ls ≡ false → (delete_list t ls).0 ≡ ls
unfolding member delete_list
absent t [] h = refl
absent t (x ∷ ls) h = elim (Bool-cases (x == t)) [
  | inl q ↦ absurd (let bad : true ≡ false = subst (λ b. (b || member t ls) ≡ false) q h in cc)
  | inr q ↦
      let g : member t ls ≡ false = subst (λ b. (b || member t ls) ≡ false) q h in
      rw (delete_list, q) (ap (λ l. x ∷ l) (absent t ls g))
]

insert_after_lem :
    (u : ℕ) (p : ℕ → Bool) (t : ℕ) (ls : List ℕ)
    → count u (insert_after p t ls) ≡ hit u t + count u ls
unfolding insert_after
insert_after_lem u p t [] = refl
insert_after_lem u p t (x ∷ ls) = elim (Bool-cases (p x)) [
  | inl q ↦ rw (insert_after, q) (omega (arith, insert_after_lem u p t ls))
  | inr q ↦ rw (insert_after, q) refl
]

insert_timed_lem :
    (u : ℕ) (now : Clock) (t : ℕ) (timeout : Timeout) (w : World)
    → member t w.paused ≡ false
    → copies u (insert_timed now t timeout w) ≡ hit u t + copies u w
unfolding insert_timed update
insert_timed_lem u now t timeout w h =
    ap (λ n. count u w.front + n)
      (insert_after_lem u _ t _ ∙ ap (λ l. hit u t + count u l) (absent t w.paused h))
    ∙ omega arith

-- How often the current thread goes back: once, if it has not ended and is not paused already.
unfoldable pub requeued : ℕ → World → ℕ → ℕ
requeued ctx w u =
    if (w.thread ctx).refuel == 0
    then 0
    else if (w.thread ctx).waitp && member ctx w.paused
    then 0
    else hit u ctx

take_front_lem :
    (u : ℕ) (now : Clock) (ctx t : ℕ) (rest : List ℕ) (w : World)
    → w.front ≡ t ∷ rest
    → copies u (take_front now ctx t rest w) + hit u t ≡ copies u w + requeued ctx w u
unfolding take_front requeued
take_front_lem u now ctx t rest w h =
    let front : count u w.front ≡ hit u t + count u rest = ap (count u) h in
    let popped : World = record w { front = rest } in
    elim (Bool-cases ((w.thread ctx).refuel == 0)) [
      | inl q ↦
          let ended : ltb 0 (w.thread ctx).refuel ≡ false = ground arith in
          rw (take_front, requeued, q, ended) (omega (arith, front))
      | inr q ↦
          let alive : ltb 0 (w.thread ctx).refuel ≡ true = ground arith in
          elim (Bool-cases (w.thread ctx).waitp) [
            | inl r ↦ elim (Bool-cases (member ctx w.paused)) [
              | inl k ↦ rw (take_front, requeued, q, alive, r, k) (omega (arith, front))
              | inr k ↦
                  rw (take_front, requeued, q, alive, r, k)
                    (omega (arith, front, insert_timed_lem u now ctx never popped k))
            ]
            | inr r ↦
                rw (take_front, requeued, q, r)
                  (omega (arith, front, count-append u rest (ctx ∷ [])))
          ]
    ]

-- What the choice of the next thread gives: the front one, or nothing if the queue shows none.
abbrev pub Dequeued : ℕ → Machine → ℕ × World → Type 0
Dequeued ctx m (t, w') =
    (((m.stale ≡ true) ⊎ (m.world.front ≡ [])) × (w' ≡ m.world))
    ⊎ ((rest : List ℕ) × (m.world.front ≡ t ∷ rest)
        × ((u : ℕ) → copies u w' + hit u t ≡ copies u m.world + requeued ctx m.world u))

by_front :
    (now : Clock) (ctx : ℕ) (m : Machine) (ls : List ℕ)
    → m.stale ≡ false
    → m.world.front ≡ ls
    → Dequeued ctx m (dequeue now ctx m)
unfolding dequeue from_front
by_front now ctx m [] q h =
    let e : dequeue now ctx m ≡ (no_thread ctx m.world, m.world) =
      rw (dequeue, q) (ap (from_front now ctx m.world) h) in
    subst (Dequeued ctx m) (sym e) (inl (inr h, refl))
by_front now ctx m (t ∷ rest) q h =
    let e : dequeue now ctx m ≡ (t, take_front now ctx t rest m.world) =
      rw (dequeue, q) (ap (from_front now ctx m.world) h) in
    subst (Dequeued ctx m) (sym e) (inr (rest, h, λ u. take_front_lem u now ctx t rest m.world h))

-- The choice of the next thread. If the local front of the queue is empty, nothing changes.
-- Otherwise it is the front thread, which leaves the queue, and each thread stands in the queue and
-- among the paused ones as often as before, but for that one, once less, and for the current one,
-- once more unless it has ended or is waiting and paused already.
pub dequeue-Dequeued : (now : Clock) (ctx : ℕ) (m : Machine) → Dequeued ctx m (dequeue now ctx m)
unfolding dequeue
dequeue-Dequeued now ctx m = elim (Bool-cases m.stale) [
  | inl q ↦
      let e : dequeue now ctx m ≡ (no_thread ctx m.world, m.world) = rw (dequeue, q) refl in
      subst (Dequeued ctx m) (sym e) (inl (inl q, refl))
  | inr q ↦ by_front now ctx m m.world.front q refl
]
