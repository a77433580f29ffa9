-- ===== src/Net/TcpConnection/Remote/History.antt =====
-- What other threads and the loop's do to a connection, as interleaved steps.
use my_moduo.Base.{
  ℕ, ◌≡◌, ◌≢◌, sym, ◌∙◌, inl, inr, true, List, [], ◌∷◌, ◌++◌, some, arith, Bytes, if-true, if-false,
  Bool-cases,
}
use my_moduo.Net.TcpConnection.Closing.{
  step-IsCoherent, send_in_loop-IsCoherent, established, established-IsCoherent,
}
use my_moduo.Net.TcpConnection.Coherent.{
  Event, step, IsCoherent, some-IsCoherent, handle_close-IsCoherent, shut_down_in_loop-IsCoherent,
}
use my_moduo.Net.TcpConnection.Stream.{IsHealthy, KeepsOutput}
use my_moduo.Net.TcpConnection.Output.{IsOther}
use my_moduo.Net.TcpConnection.Remote.{
  Message, Call, sends_in_loop, shuts_in_loop, forces_in_loop, Shared, message_bytes, send_remote,
  shut_down_remote, force_close_remote, run_call, call_bytes, store,
}
use my_moduo.Net.TcpConnection.{TcpConnection, Write, is_live, force_close_in_loop}

-- No functor holds a pointer to the object at `a`.
abbrev pub SparesCall : ℕ → Call → Type 0
SparesCall a (sends_in_loop m) = m.address ≢ a
SparesCall a _ = Unit {0}

abbrev pub Spares : ℕ → List Call → Type 0
Spares a [] = Unit {0}
Spares a (f ∷ fs) = SparesCall a f × Spares a fs

-- `sendInLoop` runs while the connection is open, and neither `write` nor the output buffer loses
-- anything.
abbrev pub Arrives : Write → Call → Shared → Type 0
Arrives w (sends_in_loop m) s =
    (is_live s.connection.state ≡ true)
    × IsHealthy w
    × KeepsOutput s.connection (message_bytes s.memory m)
Arrives w _ s = Unit {0}

-- The interleavings, with all that has been queued to be sent.
pub data History : Bytes → Shared → Type 0 where
  start :
      (memory : ℕ → Bytes)
      → History []
          (record { connection = established; functors = []; callers = []; memory = memory })
  calls_send :
      {all : Bytes} {s : Shared} (m : Message) → History all s → History all (send_remote m s)
  calls_shut_down : {all : Bytes} {s : Shared} → History all s → History all (shut_down_remote s)
  calls_force_close :
      {all : Bytes} {s : Shared} → History all s → History all (force_close_remote s)
  queues :
      {all : Bytes} {s : Shared} (before : List Call) (f : Call) (after : List Call)
      → History all s
      → s.callers ≡ before ++ f ∷ after
      → History
          (all ++ call_bytes s.memory f)
          (record s { callers = before ++ after; functors = s.functors ++ f ∷ [] })
  runs :
      {all : Bytes} {s : Shared} {d : TcpConnection} (w : Write) (f : Call) (rest : List Call)
      → History all s
      → s.functors ≡ f ∷ rest
      → Arrives w f s
      → run_call w f s ≡ some d
      → History all (record s { connection = d; functors = rest })
  handles :
      {all : Bytes} {s : Shared} {d : TcpConnection} (ev : Event)
      → History all s
      → IsOther ev
      → step s.connection ev ≡ some d
      → History all (record s { connection = d })
  stores :
      {all : Bytes} {s : Shared} (a : ℕ) (bs : Bytes)
      → History all s
      → Spares a s.functors
      → History all (record s { memory = store a bs s.memory })

send_remote-connection : (m : Message) (s : Shared) → (send_remote m s).connection ≡ s.connection
unfolding send_remote
send_remote-connection m s = ground arith

force_close_in_loop-IsCoherent :
    (c : TcpConnection) {d : TcpConnection}
    → IsCoherent c
    → force_close_in_loop c ≡ some d
    → IsCoherent d
unfolding force_close_in_loop
force_close_in_loop-IsCoherent c h e = elim (Bool-cases (is_live c.state)) [
  | inl live ↦ handle_close-IsCoherent c h (sym (if-true _ _ _ live) ∙ e)
  | inr over ↦ some-IsCoherent c (sym (if-false _ _ _ over) ∙ e) h
]

run_call-IsCoherent :
    (w : Write) (f : Call) (s : Shared) {d : TcpConnection}
    → IsCoherent s.connection
    → Arrives w f s
    → run_call w f s ≡ some d
    → IsCoherent d
unfolding run_call
run_call-IsCoherent w (sends_in_loop m) s h a e =
    send_in_loop-IsCoherent w (message_bytes s.memory m) s.connection a.0 h e
run_call-IsCoherent w shuts_in_loop s h a e =
    some-IsCoherent _ e (shut_down_in_loop-IsCoherent s.connection h)
run_call-IsCoherent w forces_in_loop s h a e = force_close_in_loop-IsCoherent s.connection h e

shut_down_remote-IsCoherent :
    (s : Shared) → IsCoherent s.connection → IsCoherent (shut_down_remote s).connection
unfolding shut_down_remote
shut_down_remote-IsCoherent s h =
    ground (arith, h.valid, h.writing_flag, h.reading_flag, h.not_closed, h.closed_once)

force_close_remote-IsCoherent :
    (s : Shared) → IsCoherent s.connection → IsCoherent (force_close_remote s).connection
unfolding force_close_remote
force_close_remote-IsCoherent s h =
    ground (arith, h.valid, h.writing_flag, h.reading_flag, h.not_closed, h.closed_once)

pub History-IsCoherent : {all : Bytes} {s : Shared} → History all s → IsCoherent s.connection
History-IsCoherent (start memory) = established-IsCoherent
History-IsCoherent (calls_send {s} m h) = rw (send_remote-connection m s) (History-IsCoherent h)
History-IsCoherent (calls_shut_down {s} h) = shut_down_remote-IsCoherent s (History-IsCoherent h)
History-IsCoherent (calls_force_close {s} h) =
    force_close_remote-IsCoherent s (History-IsCoherent h)
History-IsCoherent (queues before f after h e) = History-IsCoherent h
History-IsCoherent (runs {s} w f rest h q a e) =
    run_call-IsCoherent w f s (History-IsCoherent h) a e
History-IsCoherent (handles {s} ev h o e) = step-IsCoherent ev s.connection (History-IsCoherent h) e
History-IsCoherent (stores a bs h n) = History-IsCoherent h
