-- ===== src/ThreadPool/WakeUp.antt =====
-- No task and no shutdown of the pool is slept through.
use my_moduo.Base.{
  tally, tally_moved, ℕ, suc, ◌+◌, ◌<◌, ◌≤◌, ◌≡◌, refl, ap, ◌⊎◌, true, false, List, [], ◌∷◌, ◌++◌,
  map, some, arith, length, length-append,
}
use my_moduo.ThreadPool.Outcome.{Outcome, sleeps, ends, takes, thread_func-Outcome_of}
use my_moduo.ThreadPool.Tally.{asleep, waking, over, tally-wake, tally-start_threads}
use my_moduo.ThreadPool.{
  Worker, sleeping, awake, ended, running, ThreadPool, create, init, append, finish, shutdown,
  notify_all, wake, moved, Goes, goes, finishes, notifies, notifies_nobody, notifies_all, Moves,
  by_itself, appends, starts, shuts_down, wakes, Lives, created, moves,
}

-- While the pool runs: no thread sleeps, or for each task of the list a thread is awake or a
-- `notify_one` on its way. Behind a shutdown: no thread sleeps, or a `notify_all` is on its way.
pub record Inv (p : ThreadPool) : Type 0 where
  pub no_stoppers : p.stop ≡ false → p.stoppers ≡ 0
  pub none_over : p.stop ≡ false → tally over p.threads ≡ 0
  pub covered :
      p.stop ≡ false
      → (tally asleep p.threads ≡ 0) ⊎ (length p.task_list ≤ p.notifiers + tally waking p.threads)
  pub roused : p.stop ≡ true → (tally asleep p.threads ≡ 0) ⊎ (0 < p.stoppers)

goes-Inv :
    {p r : ThreadPool} {w : Worker} (before after : List Worker)
    → p.threads ≡ before ++ awake ∷ after
    → Outcome p w r
    → Inv p
    → Inv (moved before w after r)
goes-Inv {p} before after e (sleeps s l v t) h =
    let a = tally_moved asleep p.threads before awake sleeping after e in
    let b = tally_moved waking p.threads before awake sleeping after e in
    let c = tally_moved over p.threads before awake sleeping after e in
    rw (v, t) (ground (arith, ap length l, s, h.no_stoppers, h.none_over, h.covered, h.roused))
goes-Inv {p} before after e (ends s v t) h =
    let a = tally_moved asleep p.threads before awake ended after e in
    let b = tally_moved waking p.threads before awake ended after e in
    let c = tally_moved over p.threads before awake ended after e in
    rw (v, t) (ground (arith, s, h.no_stoppers, h.none_over, h.covered, h.roused))
goes-Inv {p} before after e (takes task rest s l v t) h =
    let a = tally_moved asleep p.threads before awake (running task) after e in
    let b = tally_moved waking p.threads before awake (running task) after e in
    let c = tally_moved over p.threads before awake (running task) after e in
    rw (v, t) (ground (arith, ap length l, s, h.no_stoppers, h.none_over, h.covered, h.roused))

finishes-Inv :
    {p : ThreadPool} (before after : List Worker) (task : ℕ)
    → p.threads ≡ before ++ running task ∷ after
    → Inv p
    → Inv (moved before awake after (finish task p))
unfolding finish
finishes-Inv {p} before after task e h =
    let a = tally_moved asleep p.threads before (running task) awake after e in
    let b = tally_moved waking p.threads before (running task) awake after e in
    let c = tally_moved over p.threads before (running task) awake after e in
    ground (arith, h.no_stoppers, h.none_over, h.covered, h.roused)

notifies-Inv :
    {p : ThreadPool} (n : ℕ) (before after : List Worker)
    → p.notifiers ≡ suc n
    → p.threads ≡ before ++ sleeping ∷ after
    → Inv p
    → Inv (moved before awake after (record p { notifiers = n }))
notifies-Inv {p} n before after k e h =
    let a = tally_moved asleep p.threads before sleeping awake after e in
    let b = tally_moved waking p.threads before sleeping awake after e in
    let c = tally_moved over p.threads before sleeping awake after e in
    ground (arith, k, h.no_stoppers, h.none_over, h.covered, h.roused)

wakes-Inv :
    {p : ThreadPool} (before after : List Worker)
    → p.threads ≡ before ++ sleeping ∷ after
    → Inv p
    → Inv (moved before awake after p)
wakes-Inv {p} before after e h =
    let a = tally_moved asleep p.threads before sleeping awake after e in
    let b = tally_moved waking p.threads before sleeping awake after e in
    let c = tally_moved over p.threads before sleeping awake after e in
    ground (arith, h.no_stoppers, h.none_over, h.covered, h.roused)

notifies_nobody-Inv :
    {p : ThreadPool} (n : ℕ)
    → p.notifiers ≡ suc n
    → map wake p.threads ≡ p.threads
    → Inv p
    → Inv (record p { notifiers = n })
notifies_nobody-Inv {p} n k e h =
    let a = (tally-wake p.threads).0 in
    let b = ap (tally asleep) e in
    let c : tally asleep p.threads ≡ 0 = omega (arith, a, b) in
    ground (arith, k, h.no_stoppers, h.none_over, h.roused)

notifies_all-Inv :
    {p : ThreadPool} (n : ℕ)
    → p.stoppers ≡ suc n
    → Inv p
    → Inv (notify_all (record p { stoppers = n }))
unfolding notify_all
notifies_all-Inv {p} n k h =
    let (a, b, _, c) = tally-wake p.threads in ground (arith, k, h.no_stoppers, h.none_over)

pub Goes-Inv : {p q : ThreadPool} → Goes p q → Inv p → Inv q
Goes-Inv (goes before after w r e f m) h =
    rw m (goes-Inv before after e (thread_func-Outcome_of f) h)
Goes-Inv (finishes before after task e m) h = rw m (finishes-Inv before after task e h)
Goes-Inv (notifies n before after k e m) h = rw m (notifies-Inv n before after k e h)
Goes-Inv (notifies_nobody n k e m) h = rw m (notifies_nobody-Inv n k e h)
Goes-Inv (notifies_all n k m) h = rw m (notifies_all-Inv n k h)

appends-Inv : {p : ThreadPool} (task : ℕ) → Inv p → Inv (append task p)
unfolding append
appends-Inv {p} task h =
    let l = length-append p.task_list (task ∷ []) in
    ground (arith, l, h.no_stoppers, h.none_over, h.covered, h.roused)

starts-Inv : {p : ThreadPool} → Inv p → Inv (init p)
unfolding init
starts-Inv {p} h =
    let a = (tally-start_threads asleep p.thread_number p.threads).1 refl in
    let b = (tally-start_threads waking p.thread_number p.threads).0 in
    let c = (tally-start_threads over p.thread_number p.threads).1 refl in
    ground (arith, a, b, c, h.no_stoppers, h.none_over, h.covered, h.roused)

shuts_down-Inv : (p : ThreadPool) → Inv (shutdown p)
unfolding shutdown
shuts_down-Inv p = ground arith

Moves-Inv : {p q : ThreadPool} {tasks : List ℕ} → Moves p q tasks → Inv p → Inv q
Moves-Inv (by_itself g n) h = Goes-Inv g h
Moves-Inv (appends task m n) h = rw m (appends-Inv task h)
Moves-Inv (starts m n) h = rw m (starts-Inv h)
Moves-Inv {p} (shuts_down m n) h = rw m (shuts_down-Inv p)
Moves-Inv (wakes before after e m n) h = rw m (wakes-Inv before after e h)

create-Inv : {p : ThreadPool} (n : ℕ) → create n ≡ some p → Inv p
unfolding create tally
create-Inv n e = ground arith

pub Lives-Inv : {all : List ℕ} {p : ThreadPool} → Lives all p → Inv p
Lives-Inv (created n e) = create-Inv n e
Lives-Inv (moves l m) = Moves-Inv m (Lives-Inv l)

-- However appending threads, the pool's threads and shutdowns interleave: if a thread is asleep,
-- then before a shutdown there is for each task of the list a thread that is awake or a
-- `notify_one` on its way, and behind a shutdown a `notify_all` is on its way.
pub no_lost_task :
    {all : List ℕ} {p : ThreadPool}
    → Lives all p
    → 0 < tally asleep p.threads
    → (p.stop ≡ false → length p.task_list ≤ p.notifiers + tally waking p.threads)
      × (p.stop ≡ true → 0 < p.stoppers)
no_lost_task l s =
    let h = Lives-Inv l in (λ e. ground (arith, s, h.covered e), λ e. ground (arith, s, h.roused e))
