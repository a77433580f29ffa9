-- ===== src/Net/TcpConnection/Remote/Order.antt =====
-- What other threads send on a connection arrives in the order in which it was queued.
use my_moduo.Base.{
  ℕ, ◌≡◌, refl, sym, ap, ◌∙◌, inl, inr, List, [], ◌∷◌, ◌++◌, append-nil, append_assoc, some, arith,
  Bytes, if-true, if-false, Bool-cases,
}
use my_moduo.Net.TcpConnection.Stream.{stream, stream-send_in_loop, some-stream}
use my_moduo.Net.TcpConnection.Output.{stream-step, stream-established, stream-handle_close}
use my_moduo.Net.TcpConnection.Coherent.{IsCoherent}
use my_moduo.Net.TcpConnection.Remote.History.{
  Spares, Arrives, History, start, calls_send, calls_shut_down, calls_force_close, queues, runs,
  handles, stores, History-IsCoherent,
}
use my_moduo.Net.TcpConnection.Remote.{
  Message, Call, sends_in_loop, shuts_in_loop, forces_in_loop, Shared, message_bytes, send_remote,
  shut_down_remote, force_close_remote, run_call, call_bytes, queued, store,
}
use my_moduo.Net.TcpConnection.{
  TcpConnection, Write, is_live, shut_down_in_loop, force_close_in_loop,
}

queued-append :
    (memory : ℕ → Bytes) (fs : List Call) (f : Call)
    → queued memory (fs ++ f ∷ []) ≡ queued memory fs ++ call_bytes memory f
queued-append memory [] f = append-nil (call_bytes memory f)
queued-append memory (g ∷ fs) f =
    ap (◌++◌ (call_bytes memory g)) (queued-append memory fs f)
    ∙ sym (append_assoc (call_bytes memory g) (queued memory fs) (call_bytes memory f))

call_bytes-store :
    (memory : ℕ → Bytes) (a : ℕ) (bs : Bytes) (f : Call)
    → Spares a (f ∷ [])
    → call_bytes (store a bs memory) f ≡ call_bytes memory f
call_bytes-store memory a bs (sends_in_loop m) h = ground (arith, h.0)
call_bytes-store memory a bs shuts_in_loop h = refl
call_bytes-store memory a bs forces_in_loop h = refl

queued-store :
    (memory : ℕ → Bytes) (a : ℕ) (bs : Bytes) (fs : List Call)
    → Spares a fs
    → queued (store a bs memory) fs ≡ queued memory fs
queued-store memory a bs [] h = refl
queued-store memory a bs (f ∷ fs) h =
    cc (call_bytes-store memory a bs f (h.0, tt), queued-store memory a bs fs h.1)

stream-shut_down_in_loop : (c : TcpConnection) → stream (shut_down_in_loop c) ≡ stream c
unfolding shut_down_in_loop
stream-shut_down_in_loop c = ground arith

stream-force_close_in_loop :
    (c : TcpConnection) {d : TcpConnection} → force_close_in_loop c ≡ some d → stream d ≡ stream c
unfolding force_close_in_loop
stream-force_close_in_loop c e = elim (Bool-cases (is_live c.state)) [
  | inl live ↦ stream-handle_close c (sym (if-true _ _ _ live) ∙ e)
  | inr over ↦ some-stream c (sym (if-false _ _ _ over) ∙ e)
]

stream-run_call :
    (w : Write) (f : Call) (s : Shared) {d : TcpConnection}
    → IsCoherent s.connection
    → Arrives w f s
    → run_call w f s ≡ some d
    → stream d ≡ stream s.connection ++ call_bytes s.memory f
unfolding run_call
stream-run_call w (sends_in_loop m) s {d} h a e =
    stream-send_in_loop w (message_bytes s.memory m) s.connection {d = d} h a.0 a.1 a.2 e
stream-run_call w shuts_in_loop s h a e =
    some-stream _ e ∙ stream-shut_down_in_loop s.connection ∙ sym (append-nil (stream s.connection))
stream-run_call w forces_in_loop s h a e =
    stream-force_close_in_loop s.connection e ∙ sym (append-nil (stream s.connection))

-- What has gone out, what waits in the output buffer, and what waits in the queue.
abbrev pub outgoing : Shared → Bytes
outgoing s = stream s.connection ++ queued s.memory s.functors

outgoing-send_remote : (m : Message) (s : Shared) → outgoing (send_remote m s) ≡ outgoing s
unfolding send_remote
outgoing-send_remote m s = ground arith

outgoing-shut_down_remote : (s : Shared) → outgoing (shut_down_remote s) ≡ outgoing s
unfolding shut_down_remote
outgoing-shut_down_remote s = ground arith

outgoing-force_close_remote : (s : Shared) → outgoing (force_close_remote s) ≡ outgoing s
unfolding force_close_remote
outgoing-force_close_remote s = ground arith

-- The messages that other threads have queued for a connection are, in the order in which they were
-- queued, what the socket has taken, then what is left in the output buffer, then what the functors
-- in the queue hold. This is so as long as nothing is stored over a message whose functor waits, the
-- thread of the loop sends nothing itself, and each functor runs while the connection is open, at
-- a `write` that meets no broken connection and an `append` that moves no bytes still to be written.
pub History-outgoing : {all : Bytes} {s : Shared} → History all s → outgoing s ≡ all
History-outgoing (start memory) = append-nil _ ∙ stream-established
History-outgoing (calls_send {s} m h) = outgoing-send_remote m s ∙ History-outgoing h
History-outgoing (calls_shut_down {s} h) = outgoing-shut_down_remote s ∙ History-outgoing h
History-outgoing (calls_force_close {s} h) = outgoing-force_close_remote s ∙ History-outgoing h
History-outgoing (queues {s} before f after h e) =
    ap (◌++◌ (stream s.connection)) (queued-append s.memory s.functors f)
    ∙ sym (append_assoc (stream s.connection) (queued s.memory s.functors) (call_bytes s.memory f))
    ∙ ap (λ xs. xs ++ call_bytes s.memory f) (History-outgoing h)
History-outgoing (runs {s} {d} w f rest h q a e) =
    ap (λ xs. xs ++ queued s.memory rest) (stream-run_call w f s {d = d} (History-IsCoherent h) a e)
    ∙ append_assoc (stream s.connection) (call_bytes s.memory f) (queued s.memory rest)
    ∙ ap (λ fs. stream s.connection ++ queued s.memory fs) (sym q)
    ∙ History-outgoing h
History-outgoing (handles {s} {d} ev h o e) =
    ap (λ xs. xs ++ queued s.memory s.functors)
      (stream-step ev s.connection {d = d} (History-IsCoherent h) o e)
    ∙ History-outgoing h
History-outgoing (stores {s} a bs h n) =
    ap (◌++◌ (stream s.connection)) (queued-store s.memory a bs s.functors n) ∙ History-outgoing h
