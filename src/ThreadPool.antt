-- ===== src/ThreadPool.antt =====
-- threadpool.hpp: the pool of threads, as an interleaving of steps.
-- A task is a number. The mutex makes each locked part one step, and so does what is called between
-- two of them: `notify_one`, `notify_all` and a task.
pub mod Tally
pub mod Outcome
pub mod Order
pub mod WakeUp
pub mod Work
pub mod Progress
use my_moduo.Base.{
  ℕ, zero, suc, ◌+◌, ◌^◌, ◌≡◌, Bool, true, false, not, ◌||◌, List, [], ◌∷◌, ◌++◌, Option, none,
  some, map, leb, ◌==◌, if◌then◌else◌, ◌>>=◌,
}

-- Where a thread stands in `threadFunc`: asleep in `wait`, about to test the predicate of `wait`
-- under the lock, in `task()`, or behind the loop.
pub data Worker : Type 0 where
  sleeping awake ended : Worker
  running : ℕ → Worker

-- `notifiers` counts the calls of `append` whose `notify_one` is still to come, and `stoppers`
-- those of `shutdown` and the destructor whose `notify_all` is. `taken` lists the tasks that were
-- taken off the list, in order, and `finished` those that have returned.
pub record ThreadPool : Type 0 where
  pub task_list : List ℕ
  pub threads : List Worker
  pub stop : Bool
  pub thread_number : ℕ
  pub notifiers : ℕ
  pub stoppers : ℕ
  pub taken : List ℕ
  pub finished : List ℕ

-- `threadpool(int thread_number)`, with the 32 bits of the number; `none` is the exception.
unfoldable pub create : ℕ → Option ThreadPool
create n =
    if n == 0 || leb (2 ^ 31) n
    then none
    else some (record {
      task_list = [];
      threads = [];
      stop = false;
      thread_number = n;
      notifiers = 0;
      stoppers = 0;
      taken = [];
      finished = [];
    })

-- The loop of `init`.
abbrev pub start_threads : ℕ → List Worker → List Worker
start_threads zero ts = ts
start_threads (suc n) ts = start_threads n (ts ++ awake ∷ [])

-- `init`
unfoldable pub init : ThreadPool → ThreadPool
init p = record p { threads = start_threads p.thread_number p.threads }

-- `append`, up to `notify_one`.
unfoldable pub append : ℕ → ThreadPool → ThreadPool
append task p = record p { task_list = p.task_list ++ task ∷ []; notifiers = p.notifiers + 1 }

abbrev pub is_empty : List ℕ → Bool
is_empty [] = true
is_empty (_ ∷ _) = false

-- The predicate of `wait`.
abbrev pub may_go : ThreadPool → Bool
may_go p = not (is_empty p.task_list) || p.stop

-- `front` and `pop_front`. `none` stands for the undefined behaviour on an empty list.
abbrev pub take_task : ThreadPool → Option (ℕ × ThreadPool)
take_task p = elim p.task_list [
  | [] ↦ none
  | task ∷ rest ↦ some (task, record p { task_list = rest; taken = p.taken ++ task ∷ [] })
]

-- The locked part of `threadFunc` behind a wake-up, and where the thread stands afterwards.
unfoldable pub thread_func : ThreadPool → Option (Worker × ThreadPool)
thread_func p =
    if may_go p
    then (if p.stop then some (ended, p) else (do (task, q) ← take_task p; some (running task, q)))
    else some (sleeping, p)

-- `task()` has returned.
unfoldable pub finish : ℕ → ThreadPool → ThreadPool
finish task p = record p { finished = p.finished ++ task ∷ [] }

-- `shutdown` and the destructor, up to `notify_all`.
unfoldable pub shutdown : ThreadPool → ThreadPool
shutdown p = record p { stop = true; stoppers = p.stoppers + 1 }

abbrev pub wake : Worker → Worker
wake sleeping = awake
wake w = w

-- `notify_all`
unfoldable pub notify_all : ThreadPool → ThreadPool
notify_all p = record p { threads = map wake p.threads }

-- A thread of `p` moves on: it was in `v` and is in `w` afterwards, and the rest of the pool is
-- that of `r`.
abbrev pub moved : List Worker → Worker → List Worker → ThreadPool → ThreadPool
moved before w after r = record r { threads = before ++ w ∷ after }

-- What happens by itself: the calls under way go on, and so do the threads that are not asleep.
-- `notify_one` wakes some thread, or none if none is asleep.
pub data Goes (p q : ThreadPool) : Type 0 where
  goes :
      (before : List Worker) (after : List Worker) (w : Worker) (r : ThreadPool)
      → p.threads ≡ before ++ awake ∷ after
      → thread_func p ≡ some (w, r)
      → q ≡ moved before w after r
      → Goes p q
  finishes :
      (before : List Worker) (after : List Worker) (task : ℕ)
      → p.threads ≡ before ++ running task ∷ after
      → q ≡ moved before awake after (finish task p)
      → Goes p q
  notifies :
      (n : ℕ) (before : List Worker) (after : List Worker)
      → p.notifiers ≡ suc n
      → p.threads ≡ before ++ sleeping ∷ after
      → q ≡ moved before awake after (record p { notifiers = n })
      → Goes p q
  notifies_nobody :
      (n : ℕ)
      → p.notifiers ≡ suc n
      → map wake p.threads ≡ p.threads
      → q ≡ record p { notifiers = n }
      → Goes p q
  notifies_all :
      (n : ℕ) → p.stoppers ≡ suc n → q ≡ notify_all (record p { stoppers = n }) → Goes p q

-- Any step, which appends `tasks`: the calls of the owners, and threads that wake up though nobody
-- has notified them.
pub data Moves (p q : ThreadPool) (tasks : List ℕ) : Type 0 where
  by_itself : Goes p q → tasks ≡ [] → Moves p q tasks
  appends : (task : ℕ) → q ≡ append task p → tasks ≡ task ∷ [] → Moves p q tasks
  starts : q ≡ init p → tasks ≡ [] → Moves p q tasks
  shuts_down : q ≡ shutdown p → tasks ≡ [] → Moves p q tasks
  wakes :
      (before : List Worker) (after : List Worker)
      → p.threads ≡ before ++ sleeping ∷ after
      → q ≡ moved before awake after p
      → tasks ≡ []
      → Moves p q tasks

-- What a pool can become, with all tasks that were appended on the way.
pub data Lives : List ℕ → ThreadPool → Type 0 where
  created : {p : ThreadPool} (n : ℕ) → create n ≡ some p → Lives [] p
  moves :
      {all tasks : List ℕ} {p q : ThreadPool}
      → Lives all p
      → Moves p q tasks
      → Lives (all ++ tasks) q
