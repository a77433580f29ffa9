-- ===== src/ThreadPool/Progress.antt =====
-- Every task that was appended is done in the end, and a shutdown ends every thread.
use mathlib.Core.Path.{subst}
use my_moduo.Base.{
  tally, tally_moved, tally_split, zero_or_less, ℕ, zero, suc, ◌+◌, ◌<◌, ◌≤◌, ◌≡◌, refl, sym, ap,
  ◌∙◌, ◌⊎◌, inl, inr, true, false, List, [], ◌∷◌, ◌++◌, map, arith, length, append-nil, Bool-cases,
}
use my_moduo.ThreadPool.Order.{count, runs, tasks_in_order}
use my_moduo.ThreadPool.Outcome.{thread_func-Outcome}
use my_moduo.ThreadPool.Tally.{asleep, waking, busy, over, any, tally_all, tally-wake}
use my_moduo.ThreadPool.WakeUp.{Inv, Goes-Inv, Lives-Inv}
use my_moduo.ThreadPool.Work.{work, Goes-work}
use my_moduo.ThreadPool.{
  Worker, sleeping, awake, ended, running, ThreadPool, finish, notify_all, wake, moved, Goes, goes,
  finishes, notifies, notifies_nobody, notifies_all, by_itself, Lives, moves,
}

-- No thread has anything left to do: before a shutdown all tasks are taken and all threads sleep,
-- behind it all threads have ended.
pub data AtRest (p : ThreadPool) : Type 0 where
  idle :
      p.stop ≡ false
      → p.task_list ≡ []
      → tally busy p.threads ≡ 0
      → tally asleep p.threads ≡ tally any p.threads
      → AtRest p
  joined : p.stop ≡ true → tally over p.threads ≡ tally any p.threads → AtRest p

abbrev pub CanGo : ThreadPool → Type 0
CanGo p = (q : ThreadPool) × Goes p q

waking-awake : (w : Worker) → 0 < waking w → w ≡ awake
waking-awake w h = ground arith

asleep-sleeping : (w : Worker) → 0 < asleep w → w ≡ sleeping
asleep-sleeping w h = ground arith

busy-running : (w : Worker) → 0 < busy w → (task : ℕ) × (w ≡ running task)
busy-running (running task) h = (task, refl)
busy-running _ h = absurd (omega (arith, h))

positive : (m : ℕ) → 0 < m → (n : ℕ) × (m ≡ suc n)
positive zero h = absurd (omega (arith, h))
positive (suc n) h = (n, refl)

waking-CanGo : (p : ThreadPool) → 0 < tally waking p.threads → CanGo p
waking-CanGo p h =
    let (before, w, after, e, k) = tally_split waking p.threads h in
    let (v, r, f, _) = thread_func-Outcome p.stop p.task_list p refl refl in
    let here : w ≡ awake = waking-awake w k in
    (moved before v after r, goes before after v r (rw here at e) f refl)

busy-CanGo : (p : ThreadPool) → 0 < tally busy p.threads → CanGo p
busy-CanGo p h =
    let (before, w, after, e, k) = tally_split busy p.threads h in
    let (task, here) = busy-running w k in
    (moved before awake after (finish task p), finishes before after task (rw here at e) refl)

notifiers-CanGo : (p : ThreadPool) → 0 < p.notifiers → 0 < tally asleep p.threads → CanGo p
notifiers-CanGo p m h =
    let (before, w, after, e, k) = tally_split asleep p.threads h in
    let (n, l) = positive p.notifiers m in
    let here : w ≡ sleeping = asleep-sleeping w k in
    (_, notifies n before after l (rw here at e) refl)

stoppers-CanGo : (p : ThreadPool) → 0 < p.stoppers → CanGo p
stoppers-CanGo p m = let (n, l) = positive p.stoppers m in (_, notifies_all n l refl)

no_tasks : (xs : List ℕ) → length xs ≡ 0 → xs ≡ []
no_tasks [] e = refl
no_tasks (x ∷ xs) e = absurd (omega (arith, e))

-- A pool in which no thread is awake or busy.
quiet-running :
    (p : ThreadPool)
    → Inv p
    → p.stop ≡ false
    → 0 < tally any p.threads
    → tally waking p.threads ≡ 0
    → tally busy p.threads ≡ 0
    → AtRest p ⊎ CanGo p
quiet-running p h e s w b =
    let all = tally_all p.threads in
    let sleepers : tally asleep p.threads ≡ tally any p.threads =
      omega (arith, all, w, b, h.none_over e) in
    elim (zero_or_less p.notifiers) [
      | inl k ↦ inl (
          idle e (no_tasks p.task_list (ground (arith, s, w, k, sleepers, h.covered e))) b sleepers)
      | inr k ↦ inr (notifiers-CanGo p k (omega (arith, s, sleepers)))
    ]

quiet-stopped :
    (p : ThreadPool)
    → Inv p
    → p.stop ≡ true
    → tally waking p.threads ≡ 0
    → tally busy p.threads ≡ 0
    → AtRest p ⊎ CanGo p
quiet-stopped p h e w b = elim (zero_or_less p.stoppers) [
  | inl k ↦
      let sleepers : tally asleep p.threads ≡ 0 = ground (arith, k, h.roused e) in
      inl (joined e (omega (arith, tally_all p.threads, w, b, sleepers)))
  | inr k ↦ inr (stoppers-CanGo p k)
]

progress : (p : ThreadPool) → Inv p → 0 < tally any p.threads → AtRest p ⊎ CanGo p
progress p h s = elim (zero_or_less (tally waking p.threads)) [
  | inr k ↦ inr (waking-CanGo p k)
  | inl w ↦ elim (zero_or_less (tally busy p.threads)) [
    | inr k ↦ inr (busy-CanGo p k)
    | inl b ↦ elim (Bool-cases p.stop) [
      | inl on ↦ quiet-stopped p h on w b
      | inr off ↦ quiet-running p h off s w b
    ]
  ]
]

-- So many steps that happen by themselves.
pub data Steps : ℕ → ThreadPool → ThreadPool → Type 0 where
  none_yet : {p : ThreadPool} → Steps 0 p p
  first : {n : ℕ} {p q r : ThreadPool} → Goes p q → Steps n q r → Steps (suc n) p r

Steps-Lives : {n : ℕ} {all : List ℕ} {p q : ThreadPool} → Steps n p q → Lives all p → Lives all q
Steps-Lives none_yet l = l
Steps-Lives {all} (first {q = m} g s) l =
    Steps-Lives s (subst (λ xs. Lives xs m) (append-nil all) (moves l (by_itself g refl)))

Steps-work : {n : ℕ} {p q : ThreadPool} → Steps n p q → Inv p → n + work q ≤ work p
Steps-work {n} {p} {q} none_yet h = omega arith
Steps-work {p} {q} (first {n} {q = m} g s) h =
    omega (arith, Goes-work g h, Steps-work s (Goes-Inv g h))

any-moved :
    {ts : List Worker} (before : List Worker) (v w : Worker) (after : List Worker)
    → ts ≡ before ++ v ∷ after
    → tally any (before ++ w ∷ after) ≡ tally any ts
any-moved {ts} before v w after e = omega (arith, tally_moved any ts before v w after e)

any-wake : (ts : List Worker) → tally any (map wake ts) ≡ tally any ts
any-wake ts =
    let (a, b, c, d) = tally-wake ts in
    omega (arith, tally_all ts, tally_all (map wake ts), a, b, c, d)

any-Goes : {p q : ThreadPool} → Goes p q → tally any q.threads ≡ tally any p.threads
unfolding notify_all
any-Goes (goes before after w r e f m) = rw m (any-moved before awake w after e)
any-Goes (finishes before after task e m) = rw m (any-moved before (running task) awake after e)
any-Goes (notifies n before after k e m) = rw m (any-moved before sleeping awake after e)
any-Goes (notifies_nobody n k e m) = rw m refl
any-Goes {p} (notifies_all n k m) = rw m (any-wake p.threads)

any-Steps : {n : ℕ} {p q : ThreadPool} → Steps n p q → tally any q.threads ≡ tally any p.threads
any-Steps none_yet = refl
any-Steps (first g s) = any-Steps s ∙ any-Goes g

runs-busy : (t : ℕ) (ts : List Worker) → tally busy ts ≡ 0 → tally (runs t) ts ≡ 0
unfolding tally
runs-busy t [] e = refl
runs-busy t (sleeping ∷ ts) e = omega (arith, runs-busy t ts (omega (arith, e)))
runs-busy t (awake ∷ ts) e = omega (arith, runs-busy t ts (omega (arith, e)))
runs-busy t (running u ∷ ts) e = absurd (omega (arith, e))
runs-busy t (ended ∷ ts) e = omega (arith, runs-busy t ts (omega (arith, e)))

-- All tasks are done, each as often as it was appended, and all threads sleep; or, behind a
-- shutdown, all threads have ended.
pub data Settled (all : List ℕ) (p : ThreadPool) : Type 0 where
  all_done :
      p.stop ≡ false
      → ((t : ℕ) → count t p.finished ≡ count t all)
      → tally asleep p.threads ≡ tally any p.threads
      → Settled all p
  all_ended : p.stop ≡ true → tally over p.threads ≡ tally any p.threads → Settled all p

AtRest-Settled : {all : List ℕ} {p : ThreadPool} → Lives all p → AtRest p → Settled all p
AtRest-Settled {all} {p} l (idle e k b s) = all_done e (λ t. done t) s
  where
    done : (t : ℕ) → count t p.finished ≡ count t all
    done t =
        let (order, once) = tasks_in_order t l in
        let none_left : p.taken ≡ all =
          sym (append-nil p.taken) ∙ ap (◌++◌ p.taken) (sym k) ∙ order in
        omega (arith, once, runs-busy t p.threads b, ap (count t) none_left)
AtRest-Settled l (joined e s) = all_ended e s

-- From any state that a pool with threads can come to, if nothing is appended and no thread wakes
-- up unnotified, then whatever goes on, in whatever order, ends after finitely many steps; and it
-- does not end before every task that was ever appended has returned, once for each time that it
-- was appended, and all threads sleep, or, behind a shutdown, before all threads have ended.
pub tasks_get_done :
    {n : ℕ} {all : List ℕ} {p q : ThreadPool}
    → Lives all p
    → 0 < tally any p.threads
    → Steps n p q
    → (n ≤ work p) × (Settled all q ⊎ CanGo q)
tasks_get_done {q} l h s =
    let k = Steps-Lives s l in
    (
      omega (arith, Steps-work s (Lives-Inv l)),
      elim (progress q (Lives-Inv k) (omega (arith, h, any-Steps s))) [
        | inl r ↦ inl (AtRest-Settled k r)
        | inr g ↦ inr g
      ],
    )
