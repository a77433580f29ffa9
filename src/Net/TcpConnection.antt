-- ===== src/Net/TcpConnection.antt =====
-- Net/tcpconnection.{h,cpp}: a connection, in the thread of its loop. What the system calls answer
-- is an argument. `wrote` lists the bytes that `write` has taken, `shut` says whether `shutdown`
-- was called, `closes` counts the calls of the close callback, and `force_closes` the calls of
-- `forceCloseInLoop` that are queued. What other threads call is in Remote.
pub mod Stream
pub mod Output
pub mod Coherent
pub mod Closing
pub mod Asserts
pub mod Draining
pub mod Graceful
pub mod Remote
use my_moduo.Base.{
  ℕ, zero, suc, ◌+◌, ◌-◌, Bool, true, false, not, ◌&&◌, List, [], ◌∷◌, ◌++◌, Option, none, some,
  Bytes, take, drop, length, leb, ◌==◌, if◌then◌else◌, ◌>>=◌,
}
use my_moduo.Net.Buffer.{
  Buffer, Readv, initial_size, readable_bytes, contents, append, retrieve, retrieve_all, read_fd,
}
use my_moduo.Net.Channel.{
  Events, Change, enable_reading, enable_writing, disable_writing, disable_all, change_events,
}
use my_moduo.Net.Buffer

pub data ConnectionState : Type 0 where
  connecting connected disconnecting disconnected : ConnectionState

pub record TcpConnection : Type 0 where
  pub state : ConnectionState
  pub events : Events
  pub input_buffer : Buffer
  pub output_buffer : Buffer
  pub wrote : Bytes
  pub shut : Bool
  pub closes : ℕ
  pub force_closes : ℕ

-- `TcpConnection(loop, conn_fd, conn_id)`
abbrev pub init : TcpConnection
init = record {
  state = connecting;
  events = record { reading = false; writing = false };
  input_buffer = Buffer.init initial_size;
  output_buffer = Buffer.init initial_size;
  wrote = [];
  shut = false;
  closes = 0;
  force_closes = 0;
}

-- What `write` answers: the number of bytes taken, or an error.
pub data Write : Type 0 where
  took : ℕ → Write
  would_block broken_pipe connection_reset other_error : Write

abbrev pub set_events : Change → TcpConnection → TcpConnection
set_events x c = record c { events = change_events x c.events }

-- `m_state == kConnected || m_state == kDisconnecting`
abbrev pub is_live : ConnectionState → Bool
is_live connected = true
is_live disconnecting = true
is_live _ = false

-- `connectionEstablished`, up to the callback.
unfoldable pub connection_established : TcpConnection → TcpConnection
connection_established c = set_events enable_reading (record c { state = connected })

-- `connectionDestructor`, up to the callback and the removal of the channel.
unfoldable pub connection_destructor : TcpConnection → TcpConnection
connection_destructor c =
    if is_live c.state then set_events disable_all (record c { state = disconnected }) else c

-- `handleClose`. `none` is the failure of the `assert`.
unfoldable pub handle_close : TcpConnection → Option TcpConnection
handle_close c =
    if is_live c.state
    then some (set_events disable_all (record c { state = disconnected; closes = c.closes + 1 }))
    else none

-- `handleRead`, with the message callback. `saved_errno` is still zero after an error.
unfoldable pub handle_read :
    (TcpConnection → Option TcpConnection) → Readv → TcpConnection → Option TcpConnection
unfolding read_fd handle_close
handle_read on_message r c =
    let (n, b) = read_fd c.input_buffer r in
    elim n [
      | none ↦ handle_close (record c { input_buffer = b })
      | some zero ↦ handle_close (record c { input_buffer = b })
      | some (suc _) ↦ on_message (record c { input_buffer = b })
    ]

-- `shutDownInLoop`
unfoldable pub shut_down_in_loop : TcpConnection → TcpConnection
shut_down_in_loop c = if c.events.writing then c else record c { shut = true }

-- `shutDown`
unfoldable pub shut_down : TcpConnection → TcpConnection
unfolding shut_down_in_loop
shut_down c = elim c.state [
  | connected ↦ shut_down_in_loop (record c { state = disconnecting })
  | _ ↦ c
]

-- The test behind `retrieve` in `handleWrite`.
unfoldable pub when_empty : TcpConnection → TcpConnection
unfolding shut_down_in_loop
when_empty c =
    if readable_bytes c.output_buffer == 0
    then elim c.state [
      | disconnecting ↦ shut_down_in_loop (set_events disable_writing c)
      | _ ↦ set_events disable_writing c
    ]
    else c

-- After `retrieve`, with what it has left.
abbrev pub after_write : ℕ → TcpConnection → Buffer → TcpConnection
after_write n c b = record c {
  output_buffer = b;
  wrote = c.wrote ++ take n (contents c.output_buffer);
}

-- `handleWrite`. `none` is the failure of the `assert` of `retrieve`.
unfoldable pub handle_write : Write → TcpConnection → Option TcpConnection
unfolding when_empty retrieve
handle_write (took (suc n)) c =
    if c.events.writing
    then (do b ← retrieve c.output_buffer (suc n); some (when_empty (after_write (suc n) c b)))
    else some c
handle_write _ c = some c

-- `forceClose`
unfoldable pub force_close : TcpConnection → TcpConnection
force_close c =
    if is_live c.state
    then record c { state = disconnecting; force_closes = c.force_closes + 1 }
    else c

-- `forceCloseInLoop`
unfoldable pub force_close_in_loop : TcpConnection → Option TcpConnection
unfolding handle_close
force_close_in_loop c = if is_live c.state then handle_close c else some c

-- The end of `sendInLoop`: what is left of the message goes to the output buffer.
unfoldable pub keep_rest : Bytes → TcpConnection → TcpConnection
keep_rest [] c = c
keep_rest (x ∷ rest) c =
    let c' = record c { output_buffer = append c.output_buffer (x ∷ rest) } in
    if c.events.writing then c' else set_events enable_writing c'

-- What `sendInLoop` does with the answer of its own `write`. `none` is the failure of the `assert`.
unfoldable pub sent_first : Write → Bytes → TcpConnection → Option TcpConnection
unfolding keep_rest
sent_first (took n) msg c =
    if leb n (length msg)
    then some (keep_rest (drop n msg) (record c { wrote = c.wrote ++ take n msg }))
    else none
sent_first broken_pipe msg c = some c
sent_first connection_reset msg c = some c
sent_first _ msg c = some (keep_rest msg c)

-- `sendInLoop`
unfoldable pub send_in_loop : Write → Bytes → TcpConnection → Option TcpConnection
unfolding keep_rest sent_first
send_in_loop w msg c = elim c.state [
  | disconnected ↦ some c
  | _ ↦
      if not c.events.writing && readable_bytes c.output_buffer == 0
      then sent_first w msg c
      else some (keep_rest msg c)
]

-- `send`
unfoldable pub send : Write → Bytes → TcpConnection → Option TcpConnection
unfolding send_in_loop
send w msg c = elim c.state [ connected ↦ send_in_loop w msg c | _ ↦ some c ]

-- `send(Buffer *)`, which leaves the buffer empty if it sends it.
unfoldable pub send_buffer : Write → Buffer → TcpConnection → Option (TcpConnection × Buffer)
unfolding send_in_loop
send_buffer w b c = elim c.state [
  | connected ↦ do c' ← send_in_loop w (contents b) c; some (c', retrieve_all b)
  | _ ↦ some (c, b)
]
