-- ===== src/Net/LoopThreadPool.antt =====
-- Net/loopthreadpool.{h,cpp}: the choice of an event loop for the next connection.
-- A loop is a number, and the mutex makes a call of `get_next_loop` one step. How `start` comes to
-- its end is in Starting.
pub mod RoundRobin
pub mod Starting
use my_moduo.Base.{
  ℕ, suc, ◌+◌, ◌%◌, Bool, List, [], ◌∷◌, ◌++◌, Option, none, some, length, get_elem?,
}

pub record LoopThreadPool : Type 0 where
  pub base_loop : ℕ
  pub thread_num : ℕ
  pub next_loop_index : ℕ
  pub loops : List ℕ

-- `LoopThreadPool(EventLoop *loop)`
abbrev pub init : ℕ → LoopThreadPool
init base = record { base_loop = base; thread_num = 0; next_loop_index = 0; loops = [] }

abbrev pub set_thread_num : ℕ → LoopThreadPool → LoopThreadPool
set_thread_num n p = record p { thread_num = n }

-- `start` returns once each of the threads has put its loop into the list, in some order.
abbrev pub start : List ℕ → LoopThreadPool → LoopThreadPool
start made p = record p { loops = p.loops ++ made }

-- `none` is an index out of range.
unfoldable pub get_next_loop : LoopThreadPool → Option (ℕ × LoopThreadPool)
get_next_loop p = elim p.loops [
  | [] ↦ some (p.base_loop, p)
  | l ∷ ls ↦ elim (get_elem? (l ∷ ls) p.next_loop_index) [
    | none ↦ none
    | some loop ↦ some (loop, record p { next_loop_index = (p.next_loop_index + 1) % p.thread_num })
  ]
]
