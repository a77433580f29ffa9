-- ===== src/Tests/ThreadPools.antt =====
-- threadpool.hpp at concrete inputs.
use my_moduo.Base.{
  tally, ◌+◌, ◌<◌, ◌≤◌, ◌≡◌, ◌⊎◌, refl, true, false, [], ◌∷◌, ◌++◌, none, some, arith, length,
}
use my_moduo.ThreadPool.Order.{count, runs, tasks_in_order}
use my_moduo.ThreadPool.Progress.{Steps, none_yet, first, Settled, CanGo, tasks_get_done}
use my_moduo.ThreadPool.Tally.{waking}
use my_moduo.ThreadPool.WakeUp.{no_lost_task}
use my_moduo.ThreadPool.Work.{work}
use my_moduo.ThreadPool.{
  sleeping, awake, ThreadPool, create, init, append, thread_func, goes, notifies, by_itself,
  appends, starts, Lives, created, moves,
}

-- A pool with one thread.
abbrev bare : ThreadPool
bare = record {
  task_list = [];
  threads = [];
  stop = false;
  thread_number = 1;
  notifiers = 0;
  stoppers = 0;
  taken = [];
  finished = [];
}

create-bare : create 1 ≡ some bare
unfolding create
create-bare = refl

create-zero : create 0 ≡ none
unfolding create
create-zero = refl

abbrev started : ThreadPool
started = record bare { threads = awake ∷ [] }

init-bare : started ≡ init bare
unfolding init
init-bare = refl

-- Its thread has found nothing to do, and a task has been appended.
abbrev idling : ThreadPool
idling = record bare { threads = sleeping ∷ [] }

thread_func-started : thread_func started ≡ some (sleeping, started)
unfolding thread_func
thread_func-started = refl

abbrev loaded : ThreadPool
loaded = record idling { task_list = 7 ∷ []; notifiers = 1 }

append-idling : loaded ≡ append 7 idling
unfolding append
append-idling = refl

Lives-loaded : Lives ((([] ++ []) ++ []) ++ (7 ∷ [])) loaded
Lives-loaded =
    moves
      (moves (moves (created 1 create-bare) (starts init-bare refl))
        (by_itself (goes [] [] sleeping started refl thread_func-started refl) refl))
      (appends 7 append-idling refl)

no_lost_task_example :
    (loaded.stop ≡ false → length loaded.task_list ≤ loaded.notifiers + tally waking loaded.threads)
    × (loaded.stop ≡ true → 0 < loaded.stoppers)
no_lost_task_example = no_lost_task Lives-loaded (unfold tally in omega arith)

tasks_in_order_example :
    (loaded.taken ++ loaded.task_list ≡ (([] ++ []) ++ []) ++ (7 ∷ []))
    × (count 7 loaded.taken ≡ count 7 loaded.finished + tally (runs 7) loaded.threads)
tasks_in_order_example = tasks_in_order 7 Lives-loaded

-- The thread is woken up.
abbrev roused : ThreadPool
roused = record loaded { threads = awake ∷ []; notifiers = 0 }

Steps-loaded : Steps 1 loaded roused
Steps-loaded = first (notifies 0 [] [] refl refl refl) none_yet

tasks_get_done_example :
    (1 ≤ work loaded) × (Settled ((([] ++ []) ++ []) ++ (7 ∷ [])) roused ⊎ CanGo roused)
tasks_get_done_example = tasks_get_done Lives-loaded (unfold tally in omega arith) Steps-loaded
