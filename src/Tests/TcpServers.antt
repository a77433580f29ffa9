-- ===== src/Tests/TcpServers.antt =====
-- Net/tcpserver.cpp at concrete inputs.
use my_moduo.Base.{ℕ, ◌+◌, ◌<◌, ◌≡◌, refl, [], ◌∷◌, none, some, arith, tally}
use my_moduo.Net.LoopThreadPool.{get_next_loop}
use my_moduo.Net.TcpServer.Descriptors.{removes_own, held_once}
use my_moduo.Net.TcpServer.Histories.{IsFree, Serves, started, accepts, closes, runs}
use my_moduo.Net.TcpServer.Holders.{held_in, held_out}
use my_moduo.Net.TcpServer.{
  TcpServer, establishes, removes, init, set_thread_num, start_threads, queue_in_loop, run_functor,
  run_in_loop, handle_new_connection, close_connection, handle_remove_connection, new_connection,
}

-- The server's loop is 9, and its thread has loop 5.
abbrev idle : TcpServer
idle = start_threads (5 ∷ []) (set_thread_num 1 (init 9))

Serves-idle : Serves idle
Serves-idle = started 9 1 (5 ∷ []) refl (omega arith)

IsFree-idle : (fd : ℕ) → IsFree fd idle
unfolding tally
IsFree-idle fd i h = absurd (omega (arith, h))

abbrev arrived : TcpServer
arrived =
    queue_in_loop (establishes 0)
      (new_connection 7 5 (record idle.loop_thread_pool { next_loop_index = 0 }) idle)

handle_new_connection-idle : handle_new_connection 7 idle ≡ some arrived
unfolding handle_new_connection run_in_loop get_next_loop
handle_new_connection-idle = refl

Serves-arrived : Serves arrived
Serves-arrived = accepts 7 Serves-idle (IsFree-idle 7) handle_new_connection-idle

-- The connection has been established.
abbrev open_server : TcpServer
open_server = run_functor (establishes 0) (record arrived { pending = [] })

Serves-open_server : Serves open_server
Serves-open_server = runs (establishes 0) [] [] Serves-arrived refl

abbrev closing : TcpServer
closing = close_connection 0 open_server

Serves-closing : Serves closing
unfolding run_functor
Serves-closing = closes 0 Serves-open_server refl

closing-pending : closing.pending ≡ removes 0 ∷ []
unfolding close_connection handle_remove_connection run_in_loop run_functor
closing-pending = refl

closing-fd : closing.conn_fds 0 ≡ 7
unfolding close_connection handle_remove_connection run_in_loop run_functor
closing-fd = refl

removes_own_example :
    (closing.connections (closing.conn_fds 0) ≡ some 0)
    × ((run_functor (removes 0) (record closing { pending = [] })).connections (closing.conn_fds 0)
        ≡ none)
    × ((run_functor (removes 0) (record closing { pending = [] })).connections 8
        ≡ closing.connections 8)
removes_own_example =
    removes_own 0 8 [] [] Serves-closing closing-pending (λ e. ground (arith, e, closing-fd))

closing-held : 0 < held_in 0 closing + held_out 0 closing
unfolding close_connection handle_remove_connection run_in_loop run_functor tally
closing-held = omega arith

held_once_example : (◌≡◌ {A = ℕ} 0 0) × (held_in 0 closing + held_out 0 closing ≡ 1)
held_once_example = held_once 0 0 Serves-closing closing-held closing-held refl
