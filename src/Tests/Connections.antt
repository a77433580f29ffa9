-- ===== src/Tests/Connections.antt =====
-- Net/tcpconnection.cpp at concrete inputs.
use my_moduo.Base.{true, arith, ◌≡◌, refl, List, [], ◌∷◌, ◌++◌, Option, none, some, codes}
use my_moduo.Net.Buffer.{
  readable_bytes, append, retrieve, retrieve_all, ensure_writeable_bytes, read_fd, failed, received,
}
use my_moduo.Net.Buffer
use my_moduo.Net.Channel.{change_events}
use my_moduo.Net.TcpConnection.Asserts.{step_returns}
use my_moduo.Net.TcpConnection.Closing.{established, run-established-IsCoherent}
use my_moduo.Net.TcpConnection.Coherent.{Event, reads, writes, sends, shuts, step, run, IsCoherent}
use my_moduo.Net.TcpConnection.Draining.{drain, Drained, drain_lem}
use my_moduo.Net.TcpConnection.Graceful.{shut_graceful}
use my_moduo.Net.TcpConnection.Stream.{stream}
use my_moduo.Net.TcpConnection.Output.{Sends, start, sent, other, Sends-stream}
use my_moduo.Net.TcpConnection.{
  is_live, connected, disconnecting, TcpConnection, took, would_block, connection_established,
  handle_write, sent_first, send_in_loop, send, shut_down,
}

abbrev unwrap : Option TcpConnection → TcpConnection
unwrap none = established
unwrap (some c) = c

-- The socket takes two of the five bytes.
abbrev pub half : TcpConnection
half = unwrap (step established (sends (took 2) (codes "hello")))

step-half : step established (sends (took 2) (codes "hello")) ≡ some half
unfolding step send send_in_loop sent_first connection_established change_events Buffer.init
step-half = refl

half-Sends : Sends ([] ++ codes "hello") half
unfolding connection_established Buffer.init
half-Sends = sent (took 2) (codes "hello") start refl tt refl step-half

Sends-stream_example : stream half ≡ codes "hello"
Sends-stream_example = Sends-stream half-Sends

abbrev events : List Event
events = sends (took 2) (codes "hello") ∷ writes would_block ∷ []

run-half : run established events ≡ some half
unfolding run step send send_in_loop sent_first handle_write connection_established change_events
    Buffer.init
run-half = refl

run-established-IsCoherent_example : IsCoherent half
run-established-IsCoherent_example = run-established-IsCoherent events run-half

half-IsCoherent : IsCoherent half
half-IsCoherent = run-established-IsCoherent events run-half

step_returns_example : (d : TcpConnection) × (step half (reads failed) ≡ some d)
step_returns_example = step_returns (reads failed) half half-IsCoherent tt

pub half-connected : half.state ≡ connected
unfolding connection_established step send change_events Buffer.init
half-connected = refl

-- Three bytes are left.
half-live : is_live half.state ≡ true
unfolding connection_established step send change_events Buffer.init
half-live = refl

pub half-left : readable_bytes half.output_buffer ≡ 3
unfolding connection_established step send change_events append Buffer.init
half-left = refl

drain_lem_example : (d : TcpConnection) × (drain (0 ∷ 0 ∷ 5 ∷ []) half ≡ some d) × Drained half d
drain_lem_example =
    drain_lem (0 ∷ 0 ∷ 5 ∷ []) half half-IsCoherent half-live (omega (arith, half-left))
      (omega (arith, half-left))

-- The write side is shut down while three bytes are left, which then go out.
abbrev closing : TcpConnection
closing = unwrap (step half shuts)

abbrev closed : TcpConnection
closed = unwrap (step closing (writes (took 3)))

step-closing : step half shuts ≡ some closing
unfolding step
step-closing = refl

step-closed : step closing (writes (took 3)) ≡ some closed
unfolding step shut_down connection_established send handle_write Buffer.init change_events append
step-closed = refl

closed-Sends : Sends ([] ++ codes "hello") closed
closed-Sends = other (writes (took 3)) (other shuts half-Sends tt step-closing) tt step-closed

closed-shut : closed.shut ≡ true
unfolding step shut_down connection_established send handle_write Buffer.init change_events append
closed-shut = refl

closed-live : is_live closed.state ≡ true
unfolding step shut_down connection_established send handle_write Buffer.init change_events append
closed-live = refl

shut_graceful_example : (closed.wrote ≡ codes "hello") × (closed.state ≡ disconnecting)
shut_graceful_example = shut_graceful closed-Sends closed-shut closed-live
