-- ===== src/Net/TcpServer.antt =====
-- Net/tcpserver.{h,cpp}: the table of connections, and the way that a connection takes from its
-- descriptor to its end, as steps of interleaved loops.
-- A connection is the number of its object; its descriptor is closed when the object is destroyed,
-- which it is not while the table or a functor that waits in a loop holds it.
pub mod Ledger
pub mod Holders
pub mod Histories
pub mod Descriptors
use my_moduo.Base.{
  ℕ, suc, ◌+◌, ◌-◌, ◌<◌, ◌^◌, ◌≡◌, ◌≢◌, Bool, true, false, List, [], ◌∷◌, ◌++◌, Option, none, some,
  tally, ◌==◌, if◌then◌else◌, ◌>>=◌,
}
use my_moduo.Net.Epoller.{put}
use my_moduo.Net.LoopThreadPool.{LoopThreadPool, get_next_loop}
use my_moduo.Net.LoopThreadPool
use my_moduo.Net.TcpConnection.{
  ConnectionState, connecting, connected, disconnecting, disconnected, is_live,
}

-- What waits in the queue of a loop: `connectionEstablished`, `connectionDestructor`, and
-- `handleRemoveConnectionInLoop`.
pub data Functor : Type 0 where
  establishes destructs removes : ℕ → Functor

-- `made` counts the objects; `conn_fds`, `conn_ids`, `conn_loops` and `states` are fields of each.
-- `pending` holds the functors of all loops.
pub record TcpServer : Type 0 where
  pub loop_thread_pool : LoopThreadPool
  pub next_connection_id : ℕ
  pub connections : ℕ → Option ℕ
  pub made : ℕ
  pub conn_fds : ℕ → ℕ
  pub conn_ids : ℕ → ℕ
  pub conn_loops : ℕ → ℕ
  pub states : ℕ → ConnectionState
  pub pending : List Functor

-- `TcpServer(loop, address)`
abbrev pub init : ℕ → TcpServer
init loop = record {
  loop_thread_pool = LoopThreadPool.init loop;
  next_connection_id = 0;
  connections = λ fd. none;
  made = 0;
  conn_fds = λ i. 0;
  conn_ids = λ i. 0;
  conn_loops = λ i. 0;
  states = λ i. disconnected;
  pending = [];
}

-- `setThreadNum`
abbrev pub set_thread_num : ℕ → TcpServer → TcpServer
set_thread_num n s = record s {
  loop_thread_pool = LoopThreadPool.set_thread_num n s.loop_thread_pool;
}

-- `Start`, up to `Listen`, with the loops that the new threads make.
abbrev pub start_threads : List ℕ → TcpServer → TcpServer
start_threads loops s = record s {
  loop_thread_pool = LoopThreadPool.start loops s.loop_thread_pool;
}

abbrev pub set_state : ℕ → ConnectionState → TcpServer → TcpServer
set_state i x s = record s { states = put i x s.states }

-- `EventLoop::queueInLoop`
abbrev pub queue_in_loop : Functor → TcpServer → TcpServer
queue_in_loop f s = record s { pending = s.pending ++ f ∷ [] }

-- `std::map::erase`
abbrev pub erase : ℕ → TcpServer → TcpServer
erase fd s = record s { connections = put fd none s.connections }

-- `handleRemoveConnectionInLoop`
unfoldable pub handle_remove_connection_in_loop : ℕ → TcpServer → TcpServer
handle_remove_connection_in_loop i s = queue_in_loop (destructs i) (erase (s.conn_fds i) s)

-- What a functor does.
unfoldable pub run_functor : Functor → TcpServer → TcpServer
unfolding handle_remove_connection_in_loop
run_functor (establishes i) s = set_state i connected s
run_functor (destructs i) s = if is_live (s.states i) then set_state i disconnected s else s
run_functor (removes i) s = handle_remove_connection_in_loop i s

-- `EventLoop::runInLoop` of the second loop, in the thread of the first.
unfoldable pub run_in_loop : ℕ → ℕ → Functor → TcpServer → TcpServer
unfolding run_functor
run_in_loop here there f s = if here == there then run_functor f s else queue_in_loop f s

-- `std::numeric_limits<int>::max()`
abbrev pub int_max : ℕ
int_max = 2 ^ 31 - 1

-- `m_next_connection_id++` and the test behind it.
unfoldable pub advance_id : ℕ → ℕ
advance_id n = if n + 1 == int_max then 0 else n + 1

-- The new object, in the table.
abbrev pub new_connection : ℕ → ℕ → LoopThreadPool → TcpServer → TcpServer
new_connection conn_fd loop pool s = record s {
  loop_thread_pool = pool;
  next_connection_id = advance_id s.next_connection_id;
  connections = put conn_fd (some s.made) s.connections;
  made = s.made + 1;
  conn_fds = put s.made conn_fd s.conn_fds;
  conn_ids = put s.made s.next_connection_id s.conn_ids;
  conn_loops = put s.made loop s.conn_loops;
  states = put s.made connecting s.states;
}

-- `handleNewConnection`, which the acceptor calls in the thread of the server's loop. `none` is an
-- index out of range in `getNextLoop`.
unfoldable pub handle_new_connection : ℕ → TcpServer → Option TcpServer
unfolding run_in_loop
handle_new_connection conn_fd s = do
  (loop, pool) ← get_next_loop s.loop_thread_pool
  some (
      run_in_loop s.loop_thread_pool.base_loop loop (establishes s.made)
        (new_connection conn_fd loop pool s))

-- `handleRemoveConnection`, in the thread of the connection's loop.
unfoldable pub handle_remove_connection : ℕ → TcpServer → TcpServer
unfolding run_in_loop
handle_remove_connection i s =
    run_in_loop (s.conn_loops i) s.loop_thread_pool.base_loop (removes i) s

-- `TcpConnection::handleClose`, of which `handleRemoveConnection` is the close callback.
unfoldable pub close_connection : ℕ → TcpServer → TcpServer
unfolding handle_remove_connection
close_connection i s = handle_remove_connection i (set_state i disconnected s)

-- `~TcpServer`, in the thread of the first loop, with the descriptors of the table in order.
unfoldable pub destroy : ℕ → List ℕ → TcpServer → TcpServer
unfolding run_in_loop
destroy here [] s = s
destroy here (fd ∷ fds) s = elim (s.connections fd) [
  | none ↦ destroy here fds s
  | some i ↦ destroy here fds (run_in_loop here (s.conn_loops i) (destructs i) (erase fd s))
]
