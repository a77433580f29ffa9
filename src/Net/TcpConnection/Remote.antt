-- ===== src/Net/TcpConnection/Remote.antt =====
-- Net/tcpconnection.cpp, `send`, `shutDown` and `forceClose` in threads other than the loop's.
-- The memory of the callers is a function from the address of an object to its bytes. A functor
-- holds a pointer to the message, so it finds what stands there when it runs. Between the test of
-- the state and `queueInLoop` other threads may come: `callers` is what is still to be queued.
pub mod History
pub mod Order
pub mod Reuse
pub mod Overtaking
use my_moduo.Base.{
  ℕ, List, [], ◌∷◌, ◌++◌, Option, some, Bytes, slice, concat, map, ◌==◌, if◌then◌else◌,
}
use my_moduo.Net.Buffer.{Buffer, readable_bytes, retrieve_all}
use my_moduo.Net.TcpConnection.{
  connected, disconnecting, TcpConnection, Write, is_live, shut_down_in_loop, force_close_in_loop,
  send_in_loop,
}

-- `const char *message` and `int len`; the pointer is an object's address and an offset.
pub record Message : Type 0 where
  pub address : ℕ
  pub offset : ℕ
  pub len : ℕ

-- What `std::bind` makes of the three functions.
pub data Call : Type 0 where
  sends_in_loop : Message → Call
  shuts_in_loop forces_in_loop : Call

-- A connection with the functors of its loop that concern it.
pub record Shared : Type 0 where
  pub connection : TcpConnection
  pub functors : List Call
  pub callers : List Call
  pub memory : ℕ → Bytes

abbrev pub message_bytes : (ℕ → Bytes) → Message → Bytes
message_bytes memory m = slice m.offset m.len (memory m.address)

abbrev pub call_with : Call → Shared → Shared
call_with f s = record s { callers = s.callers ++ f ∷ [] }

-- `send(const char *, int)`, up to `queueInLoop`
unfoldable pub send_remote : Message → Shared → Shared
send_remote m s = elim s.connection.state [ connected ↦ call_with (sends_in_loop m) s | _ ↦ s ]

-- `message->peek()` and `message->readableBytes()`.
abbrev pub buffer_message : ℕ → Buffer → Message
buffer_message a b = record { address = a; offset = b.read_index; len = readable_bytes b }

-- `send(Buffer *)`, where the storage of the buffer is the object at the address. Only the buffer's
-- own thread looks at its indices, so that `retrieveAll` may stand before `queueInLoop`.
unfoldable pub send_buffer_remote : ℕ → Buffer → Shared → Shared × Buffer
unfolding retrieve_all
send_buffer_remote a b s = elim s.connection.state [
  | connected ↦ (call_with (sends_in_loop (buffer_message a b)) s, retrieve_all b)
  | _ ↦ (s, b)
]

-- `shutDown`, up to `queueInLoop`: the state changes at once.
unfoldable pub shut_down_remote : Shared → Shared
shut_down_remote s = elim s.connection.state [
  | connected ↦
      call_with shuts_in_loop
        (record s { connection = record s.connection { state = disconnecting } })
  | _ ↦ s
]

-- `forceClose`, up to `queueInLoop`
unfoldable pub force_close_remote : Shared → Shared
force_close_remote s =
    if is_live s.connection.state
    then call_with forces_in_loop
        (record s { connection = record s.connection { state = disconnecting } })
    else s

-- A functor runs in the thread of the loop.
unfoldable pub run_call : Write → Call → Shared → Option TcpConnection
unfolding send_in_loop shut_down_in_loop force_close_in_loop
run_call w (sends_in_loop m) s = send_in_loop w (message_bytes s.memory m) s.connection
run_call w shuts_in_loop s = some (shut_down_in_loop s.connection)
run_call w forces_in_loop s = force_close_in_loop s.connection

-- What a functor sends, as it stands in the memory.
abbrev pub call_bytes : (ℕ → Bytes) → Call → Bytes
call_bytes memory (sends_in_loop m) = message_bytes memory m
call_bytes memory _ = []

abbrev pub queued : (ℕ → Bytes) → List Call → Bytes
queued memory fs = concat (map (call_bytes memory) fs)

-- Another object at an address.
abbrev pub store : ℕ → Bytes → (ℕ → Bytes) → ℕ → Bytes
store a bs memory x = if x == a then bs else memory x
