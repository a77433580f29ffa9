-- ===== src/Tests/Loops.antt =====
-- Net/eventloop.cpp and Net/loopthreadpool.cpp at concrete inputs.
use my_moduo.Base.{◌⊎◌, length, ◌+◌, ◌%◌, ◌<◌, ◌≡◌, refl, false, [], ◌∷◌, ◌++◌, arith, get_elem?}
use my_moduo.Net.EventLoop.Queue.{known, Reach-known}
use my_moduo.Net.EventLoop.WakeUp.{no_lost_wakeup}
use my_moduo.Net.EventLoop.{
  EventLoop, polling, init, Reach, start, next, queues, run_in_loop, queue_in_loop,
}
use my_moduo.Net.LoopThreadPool.RoundRobin.{nth_loop}
use my_moduo.Net.LoopThreadPool.Starting
use my_moduo.Net.LoopThreadPool.Starting.{
  Starting, asleep, returned, begins, moves, StartMoves, creates, registers, waits, register_loop,
  check_loops, distance, start_returns,
}
use my_moduo.Net.LoopThreadPool.{LoopThreadPool}

-- Another thread has put in a functor and has not yet written to the eventfd.
abbrev queued : EventLoop
queued = run_in_loop false 7 [] init

Reach-queued : Reach ([] ++ (7 ∷ [])) queued
Reach-queued = next start (queues 7 refl refl)

queued-polling : queued.phase ≡ polling
unfolding run_in_loop queue_in_loop
queued-polling = refl

queued-pending : queued.pending_functors ≡ 7 ∷ []
unfolding run_in_loop queue_in_loop
queued-pending = refl

no_lost_wakeup_example : 0 < queued.counter + queued.wakers
no_lost_wakeup_example =
    no_lost_wakeup Reach-queued queued-polling (λ e. ground (arith, e, queued-pending))

Reach-known_example : known queued ≡ [] ++ (7 ∷ [])
Reach-known_example = Reach-known Reach-queued

-- One of two threads has put its loop in, and `start` waits for the other.
abbrev pool : LoopThreadPool
pool = record { base_loop = 0; thread_num = 2; next_loop_index = 0; loops = [] }

abbrev one_there : Starting
one_there = record { pool = record pool { loops = 12 ∷ [] }; threads = 11 ∷ []; starter = asleep }

one_there-Reach : Starting.Reach pool one_there
unfolding register_loop check_loops
one_there-Reach =
    moves
      (moves (moves (moves begins (creates 11 1 refl refl)) (creates 12 0 refl refl))
        (registers [] 12 (11 ∷ []) refl refl))
      (waits refl refl)

start_returns_example :
    ((one_there.starter ≡ returned)
      × (length one_there.pool.loops ≡ 2)
      × (nth_loop 5 one_there.pool ≡ get_elem? one_there.pool.loops (5 % 2)))
    ⊎ ((t : Starting) × StartMoves one_there t × (distance t < distance one_there))
start_returns_example = start_returns 5 refl (omega arith) refl one_there-Reach
