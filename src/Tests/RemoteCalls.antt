-- ===== src/Tests/RemoteCalls.antt =====
-- Net/tcpconnection.cpp, called from other threads, at concrete inputs.
use my_moduo.Base.{ℕ, ◌≡◌, refl, true, [], ◌∷◌, ◌++◌, Bytes, codes, arith, some}
use my_moduo.Net.Buffer.{Buffer, contents, append}
use my_moduo.Net.Buffer
use my_moduo.Net.Channel.{change_events}
use my_moduo.Net.TcpConnection.Coherent.{step}
use my_moduo.Net.TcpConnection.Closing.{established}
use my_moduo.Net.TcpConnection.Remote.History.{History, start, calls_send, queues, runs}
use my_moduo.Net.TcpConnection.Remote.Order.{outgoing, History-outgoing}
use my_moduo.Net.TcpConnection.Remote.Overtaking.{shut_overtakes}
use my_moduo.Net.TcpConnection.Remote.Reuse.{send_buffer_remote_reuse}
use my_moduo.Net.TcpConnection.Remote.{
  Message, sends_in_loop, shuts_in_loop, Shared, message_bytes, send_remote, run_call,
  buffer_message, store, send_buffer_remote,
}
use my_moduo.Net.TcpConnection.{took, connection_established, send, sent_first}
use my_moduo.Tests.Connections.{half, half-left, half-connected}

abbrev greeting : ℕ → Bytes
greeting a = codes "hello"

abbrev hello : Message
hello = record { address = 1; offset = 0; len = 5 }

abbrev fresh : Shared
fresh = record { connection = established; functors = []; callers = []; memory = greeting }

abbrev waiting : Shared
waiting = record fresh { functors = sends_in_loop hello ∷ [] }

waiting-History : History ([] ++ codes "hello") waiting
unfolding send_remote connection_established
waiting-History = queues [] (sends_in_loop hello) [] (calls_send hello (start greeting)) refl

-- The socket takes two of the five bytes.
abbrev half_sent : Shared
half_sent = record fresh { connection = half }

run_call-half : run_call (took 2) (sends_in_loop hello) waiting ≡ some half
unfolding run_call sent_first connection_established Buffer.init change_events step send
run_call-half = refl

half_sent-History : History ([] ++ codes "hello") half_sent
unfolding connection_established Buffer.init
half_sent-History =
    runs (took 2) (sends_in_loop hello) [] waiting-History refl (refl, tt, refl) run_call-half

History-outgoing_example : outgoing half_sent ≡ codes "hello"
History-outgoing_example = History-outgoing half_sent-History

shut_overtakes_example :
    (t : Shared) × History (([] ++ codes "hello") ++ codes "hello") t
    × (t.connection.shut ≡ true)
    × (t.connection.wrote ≡ codes "hello")
    × (t.functors ≡ sends_in_loop hello ∷ shuts_in_loop ∷ [])
    × (t.memory ≡ greeting)
shut_overtakes_example =
    shut_overtakes {s = half_sent} hello half_sent-History half-connected refl refl
      (omega (arith, half-left))

-- Three bytes behind the header, and room for five more.
abbrev old : Buffer
old = record { bytes = codes "........old....."; read_index = 8; write_index = 11 }

send_buffer_remote_reuse_example :
    let (t, left) = send_buffer_remote 7 old half_sent in
    (t.callers ≡ sends_in_loop (buffer_message 7 old) ∷ [])
    × (message_bytes (store 7 old.bytes greeting) (buffer_message 7 old) ≡ codes "old")
    × (message_bytes (store 7 (append left (codes "fresh")).bytes greeting) (buffer_message 7 old)
        ≡ codes "fre")
send_buffer_remote_reuse_example =
    send_buffer_remote_reuse 7 old (codes "fresh") half_sent half-connected refl (omega arith)
      (omega arith)
