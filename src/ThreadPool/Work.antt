-- ===== src/ThreadPool/Work.antt =====
-- The steps that happen by themselves come to an end.
use my_moduo.Base.{
  tally, tally_moved, ℕ, suc, ◌+◌, ◌*◌, ◌<◌, ◌≡◌, ap, List, ◌∷◌, ◌++◌, arith, length, if◌then◌else◌,
}
use my_moduo.ThreadPool.Outcome.{Outcome, sleeps, ends, takes, thread_func-Outcome_of}
use my_moduo.ThreadPool.Tally.{asleep, waking, busy, tally-wake}
use my_moduo.ThreadPool.WakeUp.{Inv}
use my_moduo.ThreadPool.{
  Worker, sleeping, awake, ended, running, ThreadPool, finish, notify_all, moved, Goes, goes,
  finishes, notifies, notifies_nobody, notifies_all,
}

-- What is left to do, in steps.
unfoldable pub work : ThreadPool → ℕ
work p =
    if p.stop
    then 2 * tally asleep p.threads
      + tally waking p.threads
      + 2 * tally busy p.threads
      + p.notifiers
      + p.stoppers
    else 2 * length p.task_list
      + tally waking p.threads
      + 2 * tally busy p.threads
      + 2 * p.notifiers

goes-work :
    {p r : ThreadPool} {w : Worker} (before after : List Worker)
    → p.threads ≡ before ++ awake ∷ after
    → Outcome p w r
    → work (moved before w after r) < work p
unfolding work
goes-work {p} before after e (sleeps s l v t) =
    let b = tally_moved waking p.threads before awake sleeping after e in
    let c = tally_moved busy p.threads before awake sleeping after e in
    rw (v, t) (ground (arith, s))
goes-work {p} before after e (ends s v t) =
    let a = tally_moved asleep p.threads before awake ended after e in
    let b = tally_moved waking p.threads before awake ended after e in
    let c = tally_moved busy p.threads before awake ended after e in rw (v, t) (ground (arith, s))
goes-work {p} before after e (takes task rest s l v t) =
    let b = tally_moved waking p.threads before awake (running task) after e in
    let c = tally_moved busy p.threads before awake (running task) after e in
    rw (v, t) (ground (arith, s, ap length l))

finishes-work :
    (p : ThreadPool) (before after : List Worker) (task : ℕ)
    → p.threads ≡ before ++ running task ∷ after
    → work (moved before awake after (finish task p)) < work p
unfolding work finish
finishes-work p before after task e =
    let a = tally_moved asleep p.threads before (running task) awake after e in
    let b = tally_moved waking p.threads before (running task) awake after e in
    let c = tally_moved busy p.threads before (running task) awake after e in ground arith

notifies-work :
    (p : ThreadPool) (n : ℕ) (before after : List Worker)
    → p.notifiers ≡ suc n
    → p.threads ≡ before ++ sleeping ∷ after
    → work (moved before awake after (record p { notifiers = n })) < work p
unfolding work
notifies-work p n before after k e =
    let a = tally_moved asleep p.threads before sleeping awake after e in
    let b = tally_moved waking p.threads before sleeping awake after e in
    let c = tally_moved busy p.threads before sleeping awake after e in ground (arith, k)

notifies_nobody-work :
    (p : ThreadPool) (n : ℕ) → p.notifiers ≡ suc n → work (record p { notifiers = n }) < work p
unfolding work
notifies_nobody-work p n k = ground (arith, k)

notifies_all-work :
    {p : ThreadPool} (n : ℕ)
    → Inv p
    → p.stoppers ≡ suc n
    → work (notify_all (record p { stoppers = n })) < work p
unfolding work notify_all
notifies_all-work {p} n h k =
    let (a, b, c, _) = tally-wake p.threads in ground (arith, k, h.no_stoppers, a, b, c)

pub Goes-work : {p q : ThreadPool} → Goes p q → Inv p → work q < work p
Goes-work (goes before after w r e f m) h =
    rw m (goes-work before after e (thread_func-Outcome_of f))
Goes-work {p} (finishes before after task e m) h = rw m (finishes-work p before after task e)
Goes-work {p} (notifies n before after k e m) h = rw m (notifies-work p n before after k e)
Goes-work {p} (notifies_nobody n k e m) h = rw m (notifies_nobody-work p n k)
Goes-work (notifies_all n k m) h = rw m (notifies_all-work n h k)
