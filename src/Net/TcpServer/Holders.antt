-- ===== src/Net/TcpServer/Holders.antt =====
-- What holds an object of a server, and how the operations pass it on.
use my_moduo.Base.{
  ℕ, ◌+◌, ◌<◌, ◌≡◌, ◌≢◌, refl, inl, inr, true, false, List, [], ◌∷◌, ◌++◌, arith, tally, tally-at,
  tally-end, tally_removed, ◌==◌, if◌then◌else◌, Bool-cases,
}
use my_moduo.Net.LoopThreadPool.{LoopThreadPool}
use my_moduo.Net.TcpConnection.{connected, disconnecting, disconnected, is_live}
use my_moduo.Net.TcpServer.Ledger.{
  single, Ledger, Ledger-same, Ledger-erased, Ledger-dropped, Ledger-added,
}
use my_moduo.Net.TcpServer.{
  Functor, establishes, destructs, removes, TcpServer, set_state, queue_in_loop, run_functor,
  run_in_loop, handle_remove_connection_in_loop, new_connection,
}

-- The functors that hold an object of the table, and those that hold one that has left it.
abbrev pub waits_in : ℕ → Functor → ℕ
waits_in i (establishes j) = single j i
waits_in i (removes j) = single j i
waits_in i (destructs j) = 0

abbrev pub waits_out : ℕ → Functor → ℕ
waits_out i (destructs j) = single j i
waits_out i _ = 0

abbrev pub live : ℕ → TcpServer → ℕ
live i s = if is_live (s.states i) then 1 else 0

abbrev pub held_in : ℕ → TcpServer → ℕ
held_in i s = live i s + tally (waits_in i) s.pending

abbrev pub held_out : ℕ → TcpServer → ℕ
held_out i s = tally (waits_out i) s.pending

abbrev pub Books : TcpServer → Type 0
Books s = Ledger (λ j. held_in j s) (λ j. held_out j s) s.connections s.conn_fds s.made

-- The same, where `i` is in the table and held besides by the call that is going on.
abbrev pub BooksWith : ℕ → TcpServer → Type 0
BooksWith i s =
    Ledger (λ j. held_in j s + single i j) (λ j. held_out j s) s.connections s.conn_fds s.made

tally-queue :
    (w : Functor → ℕ) (f : Functor) (fs : List Functor) → tally w (fs ++ f ∷ []) ≡ tally w fs + w f
tally-queue w f fs = omega (arith, tally-at w fs f [], tally-end w fs)

-- A functor that holds an object of the table.
pub data IsIn (i : ℕ) : Functor → Type 0 where
  establishing : IsIn i (establishes i)
  removing : IsIn i (removes i)

waits-IsIn :
    {i : ℕ} {f : Functor} (j : ℕ) → IsIn i f → (waits_in j f ≡ single i j) × (waits_out j f ≡ 0)
waits-IsIn j establishing = (refl, refl)
waits-IsIn j removing = (refl, refl)

queue_in_loop-Books :
    (i : ℕ) (f : Functor) (s : TcpServer) → IsIn i f → BooksWith i s → Books (queue_in_loop f s)
queue_in_loop-Books i f s k h =
    let t = queue_in_loop f s in
    Ledger-same (λ j. held_in j t) (λ j. held_out j t) h
      (λ j. omega (arith, tally-queue (waits_in j) f s.pending, (waits-IsIn j k).0))
      (λ j. omega (arith, tally-queue (waits_out j) f s.pending, (waits-IsIn j k).1))

taken-BooksWith :
    (i : ℕ) (f : Functor) (s : TcpServer) (before after : List Functor)
    → IsIn i f
    → s.pending ≡ before ++ f ∷ after
    → Books s
    → BooksWith i (record s { pending = before ++ after })
taken-BooksWith i f s before after k e h =
    let t = record s { pending = before ++ after } in
    Ledger-same (λ j. held_in j t + single i j) (λ j. held_out j t) h
      (λ j.
        omega (arith, tally_removed (waits_in j) s.pending before f after e, (waits-IsIn j k).0))
      (λ j.
        omega (arith, tally_removed (waits_out j) s.pending before f after e, (waits-IsIn j k).1))

established-Books : (i : ℕ) (s : TcpServer) → BooksWith i s → Books (set_state i connected s)
established-Books i s h =
    let t = set_state i connected s in
    Ledger-same (λ j. held_in j t) (λ j. held_out j t) h (λ j. ground (arith, h.one i)) (λ j. refl)

pub closed-BooksWith :
    (i : ℕ) (s : TcpServer)
    → is_live (s.states i) ≡ true
    → Books s
    → BooksWith i (set_state i disconnected s)
closed-BooksWith i s l h =
    let t = set_state i disconnected s in
    Ledger-same (λ j. held_in j t + single i j) (λ j. held_out j t) h (λ j. ground (arith, l))
      (λ j. refl)

pub shut-Books :
    (i : ℕ) (s : TcpServer) → s.states i ≡ connected → Books s → Books (set_state i disconnecting s)
shut-Books i s l h =
    let t = set_state i disconnecting s in
    Ledger-same (λ j. held_in j t) (λ j. held_out j t) h (λ j. ground (arith, l)) (λ j. refl)

removed-Books :
    (i : ℕ) (s : TcpServer) → BooksWith i s → Books (handle_remove_connection_in_loop i s)
unfolding handle_remove_connection_in_loop
removed-Books i s h =
    let t = handle_remove_connection_in_loop i s in
    Ledger-erased i (λ j. held_in j t) (λ j. held_out j t) h
      (λ j. omega (arith, tally-queue (waits_in j) (destructs i) s.pending))
      (λ j. omega (arith, tally-queue (waits_out j) (destructs i) s.pending))

run_functor-Books :
    (i : ℕ) (f : Functor) (s : TcpServer) → IsIn i f → BooksWith i s → Books (run_functor f s)
unfolding run_functor
run_functor-Books i _ s establishing h = established-Books i s h
run_functor-Books i _ s removing h = removed-Books i s h

pub run_in_loop-Books :
    (here there i : ℕ) (f : Functor) (s : TcpServer)
    → IsIn i f
    → BooksWith i s
    → Books (run_in_loop here there f s)
unfolding run_in_loop
run_in_loop-Books here there i f s k h = elim (Bool-cases (here == there)) [
  | inl e ↦ rw e (run_functor-Books i f s k h)
  | inr e ↦ rw e (queue_in_loop-Books i f s k h)
]

pub new_connection-BooksWith :
    (fd loop : ℕ) (pool : LoopThreadPool) (s : TcpServer)
    → ((i : ℕ) → 0 < held_in i s + held_out i s → s.conn_fds i ≢ fd)
    → Books s
    → BooksWith s.made (new_connection fd loop pool s)
new_connection-BooksWith fd loop pool s free h =
    let t = new_connection fd loop pool s in
    Ledger-added fd (λ j. held_in j t + single s.made j) h free
      (λ j. ground (arith, h.fresh s.made (omega arith)))

-- Behind its last functor nothing holds an object.
last_functor-Books :
    (i : ℕ) (s : TcpServer) (before after : List Functor)
    → s.pending ≡ before ++ destructs i ∷ after
    → Books s
    → Books (record s { pending = before ++ after })
last_functor-Books i s before after e h =
    let t = record s { pending = before ++ after } in
    Ledger-dropped i (λ j. held_out j t)
      (Ledger-same (λ j. held_in j t) (λ j. held_out j s) h
        (λ j. omega (arith, tally_removed (waits_in j) s.pending before (destructs i) after e))
        (λ j. refl))
      (λ j. omega (arith, tally_removed (waits_out j) s.pending before (destructs i) after e))

-- The connection of a functor that destructs is no longer live.
ended_before :
    (i : ℕ) (s : TcpServer) (before after : List Functor)
    → s.pending ≡ before ++ destructs i ∷ after
    → Books s
    → is_live (s.states i) ≡ false
ended_before i s before after e h =
    ground (arith, h.one i, tally_removed (waits_out i) s.pending before (destructs i) after e)

-- A functor that waited is run.
pub runs-Books :
    (f : Functor) (s : TcpServer) (before after : List Functor)
    → s.pending ≡ before ++ f ∷ after
    → Books s
    → Books (run_functor f (record s { pending = before ++ after }))
unfolding run_functor
runs-Books (establishes i) s before after e h =
    established-Books i (record s { pending = before ++ after })
      (taken-BooksWith i (establishes i) s before after establishing e h)
runs-Books (removes i) s before after e h =
    removed-Books i (record s { pending = before ++ after })
      (taken-BooksWith i (removes i) s before after removing e h)
runs-Books (destructs i) s before after e h =
    rw (ended_before i s before after e h) (last_functor-Books i s before after e h)
