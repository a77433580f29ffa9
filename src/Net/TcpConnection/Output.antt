-- ===== src/Net/TcpConnection/Output.antt =====
-- What a connection sends arrives at the socket.
use my_moduo.Net.TcpConnection.Stream.{
  stream, IsHealthy, KeepsOutput, some-stream, stream-handle_write, stream-send,
}
use my_moduo.Base.{
  ℕ, zero, suc, ◌≡◌, refl, sym, ap, ◌∙◌, inl, inr, [], ◌∷◌, ◌++◌, some, arith, Bytes, if-true,
  if-false, Bool-cases,
}
use my_moduo.Net.Buffer
use my_moduo.Net.Buffer.{
  Buffer, Readv, failed, received, prepend_index, readable_bytes, contents, append, retrieve,
  read_fd,
}
use my_moduo.Net.TcpConnection.Closing.{step-IsCoherent, established, established-IsCoherent}
use my_moduo.Net.TcpConnection.Coherent.{
  Event, reads, writes, sends, shuts, forces, runs_force, destroys, step, run_force, IsCoherent,
}
use my_moduo.Net.TcpConnection.{
  connected, TcpConnection, Write, is_live, connection_established, handle_close, handle_read,
  shut_down_in_loop, shut_down, force_close, force_close_in_loop, connection_destructor,
}

-- Every event but `sends`.
abbrev pub IsOther : Event → Type 0
IsOther (sends w msg) = ⊥
IsOther _ = Unit {0}

pub stream-handle_close :
    (c : TcpConnection) {d : TcpConnection} → handle_close c ≡ some d → stream d ≡ stream c
unfolding handle_close
stream-handle_close c e = elim (Bool-cases (is_live c.state)) [
  | inl live ↦ some-stream _ (sym (if-true _ _ _ live) ∙ e)
  | inr over ↦ absurd (ground (arith, sym (if-false _ _ _ over) ∙ e))
]

stream-handle_read :
    (r : Readv) (c : TcpConnection) {d : TcpConnection}
    → handle_read (λ x. some x) r c ≡ some d
    → stream d ≡ stream c
unfolding handle_read read_fd
stream-handle_read failed c e = stream-handle_close _ e
stream-handle_read (received []) c e = stream-handle_close _ e
stream-handle_read (received (x ∷ xs)) c e = some-stream _ e

stream-run_force :
    (n : ℕ) (c : TcpConnection) {d : TcpConnection} → run_force n c ≡ some d → stream d ≡ stream c
unfolding force_close_in_loop
stream-run_force zero c e = some-stream c e
stream-run_force (suc n) c e = elim (Bool-cases (is_live c.state)) [
  | inl live ↦ stream-handle_close (record c { force_closes = n }) (sym (if-true _ _ _ live) ∙ e)
  | inr over ↦ some-stream (record c { force_closes = n }) (sym (if-false _ _ _ over) ∙ e)
]

pub stream-step :
    (ev : Event) (c : TcpConnection) {d : TcpConnection}
    → IsCoherent c
    → IsOther ev
    → step c ev ≡ some d
    → stream d ≡ stream c
unfolding step shut_down shut_down_in_loop force_close connection_destructor
stream-step (reads r) c h o e = elim (Bool-cases c.events.reading) [
  | inl on ↦ stream-handle_read r c (sym (if-true _ _ _ on) ∙ e)
  | inr off ↦ some-stream c (sym (if-false _ _ _ off) ∙ e)
]
stream-step (writes w) c h o e = stream-handle_write w c h e
stream-step (sends w msg) c h o e = absurd o
stream-step shuts c h o e = some-stream _ e ∙ ground arith
stream-step forces c h o e = some-stream _ e ∙ ground arith
stream-step runs_force c h o e = stream-run_force c.force_closes c e
stream-step destroys c h o e = some-stream _ e ∙ ground arith

-- What has been sent on a connection, message by message, while it was connected and neither
-- `write` nor the output buffer lost anything; any other event may come between.
pub data Sends : Bytes → TcpConnection → Type 0 where
  start : Sends [] established
  sent :
      {all : Bytes} {c d : TcpConnection} (w : Write) (msg : Bytes)
      → Sends all c
      → c.state ≡ connected
      → IsHealthy w
      → KeepsOutput c msg
      → step c (sends w msg) ≡ some d
      → Sends (all ++ msg) d
  other :
      {all : Bytes} {c d : TcpConnection} (ev : Event)
      → Sends all c
      → IsOther ev
      → step c ev ≡ some d
      → Sends all d

pub Sends-IsCoherent : {all : Bytes} {c : TcpConnection} → Sends all c → IsCoherent c
Sends-IsCoherent start = established-IsCoherent
Sends-IsCoherent (sent {c} w msg s l k o e) = step-IsCoherent (sends w msg) c (Sends-IsCoherent s) e
Sends-IsCoherent (other {c} ev s o e) = step-IsCoherent ev c (Sends-IsCoherent s) e

pub stream-established : stream established ≡ []
unfolding connection_established Buffer.init
stream-established = refl

-- All messages sent are, in order, what the socket has taken followed by what is left in the output
-- buffer, if each was sent while the connection was connected, no `write` in between met a broken
-- connection, and no `append` moved bytes that were still to be written.
pub Sends-stream : {all : Bytes} {c : TcpConnection} → Sends all c → stream c ≡ all
Sends-stream start = stream-established
Sends-stream (sent {c} {d} w msg s l k o e) =
    stream-send w msg c {d = d} (Sends-IsCoherent s) l k o (unfold step in e)
    ∙ ap (λ xs. xs ++ msg) (Sends-stream s)
Sends-stream (other {c} ev s o e) = stream-step ev c (Sends-IsCoherent s) o e ∙ Sends-stream s
