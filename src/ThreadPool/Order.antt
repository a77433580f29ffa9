-- ===== src/ThreadPool/Order.antt =====
-- The order in which the tasks of the pool are taken, and that each runs once.
use my_moduo.Base.{
  tally, tally_moved, ℕ, ◌+◌, ◌≡◌, refl, sym, ap, ◌∙◌, Bool, true, List, [], ◌∷◌, ◌++◌, map, some,
  arith, append_assoc, append-nil, ◌==◌, if◌then◌else◌,
}
use my_moduo.ThreadPool.Outcome.{Outcome, sleeps, ends, takes, thread_func-Outcome_of}
use my_moduo.ThreadPool.Tally.{tally-start_threads}
use my_moduo.ThreadPool.{
  Worker, sleeping, awake, ended, running, ThreadPool, create, init, append, finish, shutdown,
  notify_all, wake, moved, Goes, goes, finishes, notifies, notifies_nobody, notifies_all, Moves,
  by_itself, appends, starts, shuts_down, wakes, Lives, created, moves,
}

-- How often a task occurs.
unfoldable pub count : ℕ → List ℕ → ℕ
count t [] = 0
count t (u ∷ xs) = (if u == t then 1 else 0) + count t xs

abbrev pub runs : ℕ → Worker → ℕ
runs t (running u) = if u == t then 1 else 0
runs t _ = 0

count-end :
    (t u : ℕ) (xs : List ℕ) → count t (xs ++ u ∷ []) ≡ count t xs + (if u == t then 1 else 0)
unfolding count
count-end t u [] = omega arith
count-end t u (v ∷ xs) = omega (arith, count-end t u xs)

-- Each task that was taken is run by a thread or has returned, as often as it was taken.
record Kept (all : List ℕ) (p : ThreadPool) : Type 0 where
  order : p.taken ++ p.task_list ≡ all
  once : (t : ℕ) → count t p.taken ≡ count t p.finished + tally (runs t) p.threads

goes-Kept :
    {all : List ℕ} {p r : ThreadPool} {w : Worker} (before after : List Worker)
    → p.threads ≡ before ++ awake ∷ after
    → Outcome p w r
    → Kept all p
    → Kept all (moved before w after r)
goes-Kept {p} before after e (sleeps s l v t) h =
    rw (v, t)
      (record {
        order = h.order;
        once = λ u.
            omega (arith, h.once u, tally_moved (runs u) p.threads before awake sleeping after e);
      })
goes-Kept {p} before after e (ends s v t) h =
    rw (v, t)
      (record {
        order = h.order;
        once =
            λ u. omega (arith, h.once u, tally_moved (runs u) p.threads before awake ended after e);
      })
goes-Kept {p} before after e (takes task rest s l v t) h =
    rw (v, t)
      (record {
        order = append_assoc p.taken (task ∷ []) rest ∙ ap (◌++◌ p.taken) (sym l) ∙ h.order;
        once = λ u. omega (
          arith,
          count-end u task p.taken,
          h.once u,
          tally_moved (runs u) p.threads before awake (running task) after e,
        );
      })

finishes-Kept :
    {all : List ℕ} {p : ThreadPool} (before after : List Worker) (task : ℕ)
    → p.threads ≡ before ++ running task ∷ after
    → Kept all p
    → Kept all (moved before awake after (finish task p))
unfolding finish
finishes-Kept {p} before after task e h = record {
  order = h.order;
  once = λ u. omega (
    arith,
    count-end u task p.finished,
    h.once u,
    tally_moved (runs u) p.threads before (running task) awake after e,
  );
}

-- A thread that wakes up runs no task before or behind.
wakes-Kept :
    {all : List ℕ} {p : ThreadPool} (n : ℕ) (before after : List Worker)
    → p.threads ≡ before ++ sleeping ∷ after
    → Kept all p
    → Kept all (moved before awake after (record p { notifiers = n }))
wakes-Kept {p} n before after e h = record {
  order = h.order;
  once = λ u. omega (arith, h.once u, tally_moved (runs u) p.threads before sleeping awake after e);
}

tally-runs-wake : (t : ℕ) (ts : List Worker) → tally (runs t) (map wake ts) ≡ tally (runs t) ts
unfolding tally
tally-runs-wake t [] = refl
tally-runs-wake t (sleeping ∷ ts) = omega (arith, tally-runs-wake t ts)
tally-runs-wake t (awake ∷ ts) = omega (arith, tally-runs-wake t ts)
tally-runs-wake t (running u ∷ ts) = omega (arith, tally-runs-wake t ts)
tally-runs-wake t (ended ∷ ts) = omega (arith, tally-runs-wake t ts)

notify_all-Kept : {all : List ℕ} {p : ThreadPool} → Kept all p → Kept all (notify_all p)
unfolding notify_all
notify_all-Kept {p} h = record {
  order = h.order;
  once = λ u. omega (arith, h.once u, tally-runs-wake u p.threads);
}

counters-Kept :
    {all : List ℕ} (p : ThreadPool) (n m : ℕ) (b : Bool)
    → Kept all p
    → Kept all (record p { notifiers = n; stoppers = m; stop = b })
counters-Kept p n m b h = record { order = h.order; once = h.once }

Goes-Kept : {all : List ℕ} {p q : ThreadPool} → Goes p q → Kept all p → Kept all q
Goes-Kept (goes before after w r e f m) h =
    rw m (goes-Kept before after e (thread_func-Outcome_of f) h)
Goes-Kept (finishes before after task e m) h = rw m (finishes-Kept before after task e h)
Goes-Kept (notifies n before after k e m) h = rw m (wakes-Kept n before after e h)
Goes-Kept {p} (notifies_nobody n k e m) h = rw m (counters-Kept p n p.stoppers p.stop h)
Goes-Kept {p} (notifies_all n k m) h =
    rw m (notify_all-Kept (counters-Kept p p.notifiers n p.stop h))

appends-Kept :
    {all : List ℕ} (p : ThreadPool) (task : ℕ)
    → Kept all p
    → Kept (all ++ task ∷ []) (append task p)
unfolding append
appends-Kept p task h = record {
  order = sym (append_assoc p.taken p.task_list (task ∷ [])) ∙ ap (λ xs. xs ++ task ∷ []) h.order;
  once = h.once;
}

starts-Kept : {all : List ℕ} (p : ThreadPool) → Kept all p → Kept all (init p)
unfolding init
starts-Kept p h = record {
  order = h.order;
  once = λ u.
      h.once u
      ∙ ap (◌+◌ (count u p.finished))
          (sym ((tally-start_threads (runs u) p.thread_number p.threads).1 refl));
}

-- If nothing is appended, the same tasks are there.
none_more : {all tasks : List ℕ} {q : ThreadPool} → tasks ≡ [] → Kept all q → Kept (all ++ tasks) q
none_more {all} {tasks} {q} e h = rw (e, append-nil) h

Moves-Kept :
    {all tasks : List ℕ} {p q : ThreadPool} → Moves p q tasks → Kept all p → Kept (all ++ tasks) q
Moves-Kept (by_itself g n) h = none_more n (Goes-Kept g h)
Moves-Kept {p} (appends task m n) h = rw (m, n) (appends-Kept p task h)
Moves-Kept {p} (starts m n) h = none_more n (rw m (starts-Kept p h))
Moves-Kept {p} (shuts_down m n) h =
    none_more n (rw m (unfold shutdown in counters-Kept p p.notifiers (p.stoppers + 1) true h))
Moves-Kept {p} (wakes before after e m n) h =
    none_more n (rw m (wakes-Kept p.notifiers before after e h))

create-Kept : {p : ThreadPool} (n : ℕ) → create n ≡ some p → Kept [] p
unfolding create count tally
create-Kept n e = record { order = ground arith; once = λ t. ground arith }

Lives-Kept : {all : List ℕ} {p : ThreadPool} → Lives all p → Kept all p
Lives-Kept (created n e) = create-Kept n e
Lives-Kept (moves l m) = Moves-Kept m (Lives-Kept l)

-- However appending threads, the pool's threads and shutdowns interleave: the tasks that were taken
-- and then those that wait are all that were appended, in that order, and each task has been taken
-- as often as it has returned or is run by a thread.
pub tasks_in_order :
    {all : List ℕ} {p : ThreadPool} (t : ℕ)
    → Lives all p
    → (p.taken ++ p.task_list ≡ all)
      × (count t p.taken ≡ count t p.finished + tally (runs t) p.threads)
tasks_in_order t l = let h = Lives-Kept l in (h.order, h.once t)
