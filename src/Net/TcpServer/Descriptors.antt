-- ===== src/Net/TcpServer/Descriptors.antt =====
-- The table of connections is right, however the loops interleave.
use mathlib.Core.Path.{subst}
use my_moduo.Base.{
  Option-cases, ◌%◌, inl, inr, ◌==◌, ◌>>=◌, Bool-cases, sym, ℕ, ◌+◌, ◌<◌, ◌≡◌, ◌≢◌, refl, ap, ◌∙◌,
  List, ◌∷◌, ◌++◌, none, some, arith, tally_removed,
}
use my_moduo.Net.LoopThreadPool.RoundRobin.{IsStarted, get_next_loop-GivesLoop, advance-IsStarted}
use my_moduo.Net.LoopThreadPool.{LoopThreadPool}
use my_moduo.Net.TcpConnection.{disconnected}
use my_moduo.Net.TcpServer.Holders.{held_in, held_out, Books, waits_in}
use my_moduo.Net.TcpServer.Histories.{
  IsFree, Serves, started, accepts, closes, shuts, runs, Serves-Books,
}
use my_moduo.Net.TcpServer.{
  handle_remove_connection_in_loop, Functor, establishes, destructs, removes, TcpServer, set_state,
  run_functor, run_in_loop, handle_new_connection, handle_remove_connection, close_connection,
  new_connection,
}

-- The pool of loops stays as it was started.
pool-run_functor :
    (f : Functor) (s : TcpServer) → (run_functor f s).loop_thread_pool ≡ s.loop_thread_pool
unfolding run_functor handle_remove_connection_in_loop
pool-run_functor (establishes i) s = refl
pool-run_functor (removes i) s = refl
pool-run_functor (destructs i) s = ground arith

pool-run_in_loop :
    (here there : ℕ) (f : Functor) (s : TcpServer)
    → (run_in_loop here there f s).loop_thread_pool ≡ s.loop_thread_pool
unfolding run_in_loop
pool-run_in_loop here there f s = elim (Bool-cases (here == there)) [
  | inl e ↦ rw e (pool-run_functor f s)
  | inr e ↦ rw e refl
]

pool-close_connection :
    (i : ℕ) (s : TcpServer) → (close_connection i s).loop_thread_pool ≡ s.loop_thread_pool
unfolding close_connection handle_remove_connection
pool-close_connection i s =
    pool-run_in_loop (s.conn_loops i) s.loop_thread_pool.base_loop (removes i)
      (set_state i disconnected s)

abbrev advanced : LoopThreadPool → LoopThreadPool
advanced p = record p { next_loop_index = (p.next_loop_index + 1) % p.thread_num }

-- What `handleNewConnection` makes, where the pool gives a loop.
handle_new_connection_lem :
    (fd : ℕ) (s : TcpServer)
    → IsStarted s.loop_thread_pool
    → (loop : ℕ) × (t : TcpServer) × (handle_new_connection fd s ≡ some t)
      × (t
          ≡ run_in_loop s.loop_thread_pool.base_loop loop
              (establishes s.made)
              (new_connection fd loop (advanced s.loop_thread_pool) s))
unfolding handle_new_connection
handle_new_connection_lem fd s h =
    let (loop, _, e) = get_next_loop-GivesLoop s.loop_thread_pool s.loop_thread_pool.loops refl h in
    (
      loop,
      _,
      ap
          (λ o. o >>= λ (l, p). some (
            run_in_loop s.loop_thread_pool.base_loop l (establishes s.made)
              (new_connection fd l p s)))
          e,
      refl,
    )

accepts-IsStarted :
    (s : TcpServer) {t : TcpServer} (fd : ℕ)
    → handle_new_connection fd s ≡ some t
    → IsStarted s.loop_thread_pool
    → IsStarted t.loop_thread_pool
accepts-IsStarted s {t} fd e h =
    let (loop, u, f, k) = handle_new_connection_lem fd s h in
    let same : u ≡ t = cc in
    subst IsStarted
      (sym (
        ap (λ x. x.loop_thread_pool) (sym same ∙ k)
        ∙ pool-run_in_loop _ loop (establishes s.made) _))
      (advance-IsStarted s.loop_thread_pool h)

Serves-IsStarted : {s : TcpServer} → Serves s → IsStarted s.loop_thread_pool
Serves-IsStarted (started loop threads loops e k) = record {
  all_there = e;
  some_there = k;
  in_range = k;
}
Serves-IsStarted (accepts {s} fd l free e) = accepts-IsStarted s fd e (Serves-IsStarted l)
Serves-IsStarted (closes {s} i l k) =
    subst IsStarted (sym (pool-close_connection i s)) (Serves-IsStarted l)
Serves-IsStarted (shuts {s} i l k) = Serves-IsStarted l
Serves-IsStarted (runs {s} f before after l e) =
    subst IsStarted (sym (pool-run_functor f (record s { pending = before ++ after })))
      (Serves-IsStarted l)

-- Establishing a connection leaves the table and the descriptors alone.
table-run_in_loop :
    (here there i : ℕ) (s : TcpServer)
    → ((run_in_loop here there (establishes i) s).connections ≡ s.connections)
      × ((run_in_loop here there (establishes i) s).conn_fds ≡ s.conn_fds)
unfolding run_in_loop run_functor
table-run_in_loop here there i s = elim (Bool-cases (here == there)) [
  | inl e ↦ rw e (refl, refl)
  | inr e ↦ rw e (refl, refl)
]

free-connections : (s : TcpServer) (fd : ℕ) → Books s → IsFree fd s → s.connections fd ≡ none
free-connections s fd h free = elim (Option-cases (s.connections fd)) [
  | inl e ↦ e
  | inr (i, e) ↦ let (same, held) = h.only fd i e in absurd (free i (omega (arith, held)) same)
]

-- However the loops interleave, if a connection arrives on a descriptor that is not open,
-- `handleNewConnection` finds a loop for it, replaces no other connection in the table, and puts the
-- new one there.
accepts_new :
    {s : TcpServer} (fd : ℕ)
    → Serves s
    → IsFree fd s
    → (t : TcpServer) × (handle_new_connection fd s ≡ some t)
      × (s.connections fd ≡ none)
      × (t.connections fd ≡ some s.made)
      × (t.conn_fds s.made ≡ fd)
accepts_new {s} fd l free =
    let (loop, t, e, k) = handle_new_connection_lem fd s (Serves-IsStarted l) in
    let made = new_connection fd loop (advanced s.loop_thread_pool) s in
    let (a, b) = table-run_in_loop s.loop_thread_pool.base_loop loop s.made made in
    (
      t,
      e,
      free-connections s fd (Serves-Books l) free,
      ap (λ x. x.connections fd) k ∙ ap (λ x. x fd) a ∙ ground arith,
      ap (λ x. x.conn_fds s.made) k ∙ ap (λ x. x s.made) b ∙ ground arith,
    )

-- However the loops interleave, when the functor that removes a connection is run, the table has
-- that connection under its descriptor, and afterwards nothing; every other entry stays.
pub removes_own :
    {s : TcpServer} (i j : ℕ) (before after : List Functor)
    → Serves s
    → s.pending ≡ before ++ removes i ∷ after
    → j ≢ s.conn_fds i
    → (s.connections (s.conn_fds i) ≡ some i)
      × ((run_functor (removes i) (record s { pending = before ++ after })).connections
            (s.conn_fds i)
          ≡ none)
      × ((run_functor (removes i) (record s { pending = before ++ after })).connections j
          ≡ s.connections j)
unfolding run_functor handle_remove_connection_in_loop
removes_own {s} i j before after l e n =
    let h = Serves-Books l in
    (
      h.listed i (ground (arith, tally_removed (waits_in i) s.pending before (removes i) after e)),
      ground arith,
      ground (arith, n),
    )

-- However the loops interleave, two objects that are held and have the same descriptor are one, and
-- it has one holder: it is live, or one functor that is to establish, remove or destruct it waits.
pub held_once :
    {s : TcpServer} (i j : ℕ)
    → Serves s
    → 0 < held_in i s + held_out i s
    → 0 < held_in j s + held_out j s
    → s.conn_fds i ≡ s.conn_fds j
    → (i ≡ j) × (held_in i s + held_out i s ≡ 1)
held_once i j l a b e = let h = Serves-Books l in (h.alone i j a b e, omega (arith, h.one i, a))
