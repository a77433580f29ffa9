-- ===== src/Net/TcpServer/Histories.antt =====
-- The histories of a server.
use mathlib.Core.Path.{subst}
use my_moduo.Base.{
  length, ℕ, ◌+◌, ◌<◌, ◌≡◌, ◌≢◌, refl, true, List, ◌∷◌, ◌++◌, some, arith, tally, bind-eq-some,
}
use my_moduo.Net.LoopThreadPool.{get_next_loop}
use my_moduo.Net.TcpConnection.{connected, disconnecting, is_live}
use my_moduo.Net.TcpServer.Holders.{
  held_in, held_out, Books, establishing, removing, run_in_loop-Books, new_connection-BooksWith,
  closed-BooksWith, shut-Books, runs-Books,
}
use my_moduo.Net.TcpServer.{
  Functor, establishes, removes, TcpServer, init, set_thread_num, start_threads, set_state,
  run_functor, run_in_loop, handle_new_connection, handle_remove_connection, close_connection,
  new_connection,
}

-- `accept4` gives a descriptor that no object has that something holds.
abbrev pub IsFree : ℕ → TcpServer → Type 0
IsFree fd s = (i : ℕ) → 0 < held_in i s + held_out i s → s.conn_fds i ≢ fd

-- What happens to a server, in any order: a connection arrives, one is closed or shut down in its
-- loop, and a functor is run. Functors of one loop may even overtake each other here.
pub data Serves : TcpServer → Type 0 where
  started :
      (loop threads : ℕ) (loops : List ℕ)
      → length loops ≡ threads
      → 0 < threads
      → Serves (start_threads loops (set_thread_num threads (init loop)))
  accepts :
      {s t : TcpServer} (fd : ℕ)
      → Serves s
      → IsFree fd s
      → handle_new_connection fd s ≡ some t
      → Serves t
  closes :
      {s : TcpServer} (i : ℕ)
      → Serves s
      → is_live (s.states i) ≡ true
      → Serves (close_connection i s)
  shuts :
      {s : TcpServer} (i : ℕ)
      → Serves s
      → s.states i ≡ connected
      → Serves (set_state i disconnecting s)
  runs :
      {s : TcpServer} (f : Functor) (before after : List Functor)
      → Serves s
      → s.pending ≡ before ++ f ∷ after
      → Serves (run_functor f (record s { pending = before ++ after }))

started-Books :
    (loop threads : ℕ) (loops : List ℕ)
    → Books (start_threads loops (set_thread_num threads (init loop)))
unfolding tally
started-Books loop threads loops = record {
  one = λ i. omega arith;
  listed = λ i k. absurd (omega (arith, k));
  only = λ fd i e. absurd (cc);
  alone = λ i j a b e. absurd (omega (arith, a));
  fresh = λ i k. refl;
}

accepts-Books :
    (s : TcpServer) {t : TcpServer} (fd : ℕ)
    → IsFree fd s
    → handle_new_connection fd s ≡ some t
    → Books s
    → Books t
unfolding handle_new_connection
accepts-Books s {t} fd free e h =
    let ((loop, pool), _, k) = bind-eq-some (get_next_loop s.loop_thread_pool) _ e in
    let made = new_connection fd loop pool s in
    let done = run_in_loop s.loop_thread_pool.base_loop loop (establishes s.made) made in
    let same : done ≡ t = cc in
    subst Books same (
      run_in_loop-Books s.loop_thread_pool.base_loop loop s.made (establishes s.made) made
        establishing (new_connection-BooksWith fd loop pool s free h))

closes-Books :
    (s : TcpServer) (i : ℕ) → is_live (s.states i) ≡ true → Books s → Books (close_connection i s)
unfolding close_connection handle_remove_connection
closes-Books s i l h = run_in_loop-Books _ _ i (removes i) _ removing (closed-BooksWith i s l h)

pub Serves-Books : {s : TcpServer} → Serves s → Books s
Serves-Books (started loop threads loops _ _) = started-Books loop threads loops
Serves-Books (accepts {s} fd l free e) = accepts-Books s fd free e (Serves-Books l)
Serves-Books (closes {s} i l k) = closes-Books s i k (Serves-Books l)
Serves-Books (shuts {s} i l k) = shut-Books i s k (Serves-Books l)
Serves-Books (runs {s} f before after l e) = runs-Books f s before after e (Serves-Books l)
