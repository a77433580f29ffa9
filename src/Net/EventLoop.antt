-- ===== src/Net/EventLoop.antt =====
-- Net/eventloop.h and Net/eventloop.cpp: the queue of functors and the wake-up descriptor, with the
-- loop's thread and other threads as an interleaving of steps.
-- A functor is a number. The mutex makes each access to `m_pending_functors` one step; the calls
-- of `write` and `read` on the eventfd are steps of their own, between which others may come.
pub mod Queue
pub mod WakeUp
use my_moduo.Base.{
  ℕ, suc, ◌≡◌, ◌+◌, Bool, true, false, ◌||◌, not, List, [], ◌∷◌, ◌++◌, if◌then◌else◌,
}

-- Where the loop's thread stands: in `epoll_wait`, among the handlers of the active channels, in
-- `doPendingFunctors` with what is left of the functors that it has swapped out, or behind `loop`.
pub data Phase : Type 0 where
  polling handling stopped : Phase
  calling : List ℕ → Phase

-- `counter` is the value of the eventfd; `wakers` counts the threads that have put in a functor and
-- have still to write to it. `ran` lists the functors that have
-- run from the queue, in order, and `ran_at_once` those that `runInLoop` has called itself.
pub record EventLoop : Type 0 where
  pub looping : Bool
  pub phase : Phase
  pub calling_pending_functors : Bool
  pub pending_functors : List ℕ
  pub counter : ℕ
  pub wakers : ℕ
  pub ran : List ℕ
  pub ran_at_once : List ℕ

-- `loop` on a new object, up to its first `poll`.
abbrev pub init : EventLoop
init = record {
  looping = true;
  phase = polling;
  calling_pending_functors = false;
  pending_functors = [];
  counter = 0;
  wakers = 0;
  ran = [];
  ran_at_once = [];
}

-- `wakeup`: eight bytes with the value one are added to the counter.
unfoldable pub wakeup : EventLoop → EventLoop
wakeup l = record l { counter = l.counter + 1 }

-- `handleRead`: `read` takes the counter back to zero.
unfoldable pub handle_read : EventLoop → EventLoop
handle_read l = record l { counter = 0 }

-- The locked part of `queueInLoop`.
abbrev pub push_functor : ℕ → EventLoop → EventLoop
push_functor cb l = record l { pending_functors = l.pending_functors ++ cb ∷ [] }

-- The rest of `queueInLoop`: in another thread the write is still to come, in the loop's own it
-- follows at once, if functors are being called.
unfoldable pub queue_in_loop : Bool → ℕ → EventLoop → EventLoop
queue_in_loop in_loop_thread cb l =
    if not in_loop_thread || l.calling_pending_functors
    then (if in_loop_thread
        then wakeup (push_functor cb l)
        else record (push_functor cb l) { wakers = l.wakers + 1 })
    else push_functor cb l

-- A functor that runs, and has queued the functors of `more` in the loop's thread meanwhile.
unfoldable pub queue_all : List ℕ → EventLoop → EventLoop
queue_all [] l = l
queue_all (cb ∷ more) l = queue_all more (queue_in_loop true cb l)

-- `runInLoop`: in the loop's thread the callback runs at once.
unfoldable pub run_in_loop : Bool → ℕ → List ℕ → EventLoop → EventLoop
run_in_loop true cb more l = queue_all more (record l { ran_at_once = l.ran_at_once ++ cb ∷ [] })
run_in_loop false cb more l = queue_in_loop false cb l

-- The first half of `doPendingFunctors`: the flag, and the swap under the lock.
unfoldable pub swap_functors : EventLoop → EventLoop
swap_functors l = record l {
  phase = calling l.pending_functors;
  calling_pending_functors = true;
  pending_functors = [];
}

-- The next functor of the loop in `doPendingFunctors`.
unfoldable pub call_functor : ℕ → List ℕ → List ℕ → EventLoop → EventLoop
call_functor cb rest more l =
    queue_all more (record l { phase = calling rest; ran = l.ran ++ cb ∷ [] })

-- Its end, and the test of `loop`: the next `poll`, or the end of the loop.
unfoldable pub finish_functors : EventLoop → EventLoop
finish_functors l = record l {
  phase = if l.looping then polling else stopped;
  calling_pending_functors = false;
}

-- `quit`, which writes to the eventfd unless it runs in the loop's thread.
unfoldable pub quit : Bool → EventLoop → EventLoop
quit in_loop_thread l =
    if in_loop_thread
    then record l { looping = false }
    else record l { looping = false; wakers = l.wakers + 1 }

-- The interleavings. A step from `l` to `m` puts the functors `qs` into the queue;
-- `poll` may return at any time, and the handler of the eventfd may run.
pub data Step (l m : EventLoop) (qs : List ℕ) : Type 0 where
  poll_returns : l.phase ≡ polling → m ≡ record l { phase = handling } → qs ≡ [] → Step l m qs
  reads : l.phase ≡ handling → m ≡ handle_read l → qs ≡ [] → Step l m qs
  handles : l.phase ≡ handling → m ≡ queue_all qs l → Step l m qs
  runs_at_once : (cb : ℕ) → l.phase ≡ handling → m ≡ run_in_loop true cb qs l → Step l m qs
  swaps : l.phase ≡ handling → m ≡ swap_functors l → qs ≡ [] → Step l m qs
  calls :
      (cb : ℕ) (rest : List ℕ)
      → l.phase ≡ calling (cb ∷ rest)
      → m ≡ call_functor cb rest qs l
      → Step l m qs
  finishes : l.phase ≡ calling [] → m ≡ finish_functors l → qs ≡ [] → Step l m qs
  queues : (cb : ℕ) → m ≡ run_in_loop false cb [] l → qs ≡ cb ∷ [] → Step l m qs
  writes : (n : ℕ) → l.wakers ≡ suc n → m ≡ record (wakeup l) { wakers = n } → qs ≡ [] → Step l m qs
  quits : (here : Bool) → m ≡ quit here l → qs ≡ [] → Step l m qs

-- What can happen from the start of `loop`, with all that has been queued on the way.
pub data Reach : List ℕ → EventLoop → Type 0 where
  start : Reach [] init
  next : {all qs : List ℕ} {l m : EventLoop} → Reach all l → Step l m qs → Reach (all ++ qs) m
