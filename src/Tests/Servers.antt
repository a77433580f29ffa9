-- ===== src/Tests/Servers.antt =====
-- Http/httpserver.cpp at concrete inputs.
use my_moduo.Base.{none, false, ◌≡◌, refl, inl, [], ◌∷◌, ◌++◌, some, arith, Bytes, codes, length}
use my_moduo.Http.Parser.{initial, got_complete_request}
use my_moduo.Http.Request.{Method, Version, HttpRequest, empty}
use my_moduo.Http.Server.Replies.{Replies}
use my_moduo.Http.Server.Answers.{on_message_refuses, on_message_discards}
use my_moduo.Http.Server.Idle.{watch, Stops, idle_shut}
use my_moduo.Timer.RbTreeTimer.{run_after}
use my_moduo.Http.Server.Sending.{CanSend}
use my_moduo.Http.Server.{
  idle_connection_time_outs, Session, default_http_callback, bad_request, on_message,
}
use my_moduo.Net.Buffer.Search.{split_line}
use my_moduo.Net.Buffer.Valid.{IsValid}
use my_moduo.Net.Buffer.{Buffer, contents}
use my_moduo.Net.Buffer
use my_moduo.Net.Channel.{change_events}
use my_moduo.Net.TcpConnection.Closing.{
  established, established-IsCoherent, input_buffer-IsCoherent,
}
use my_moduo.Net.TcpConnection.Stream.{stream}
use my_moduo.Net.TcpConnection.Remote.{Shared}
use my_moduo.Net.TcpConnection.{
  TcpConnection, would_block, connected, disconnecting, connection_established,
}

abbrev get : HttpRequest
get = record empty { method = Method.get; version = Version.http11; path = codes "/" }

-- A buffer that holds this text behind the header.
abbrev holding : Bytes → Buffer
holding text = record {
  bytes = codes "........" ++ text;
  read_index = 8;
  write_index = length (codes "........" ++ text);
}

abbrev connection : Bytes → TcpConnection
connection text = record established { input_buffer = holding text }

CanSend-connection : (text msg : Bytes) → CanSend would_block msg (connection text)
unfolding connection_established change_events Buffer.init
CanSend-connection text msg = record {
  coherent = input_buffer-IsCoherent established (holding text) established-IsCoherent;
  is_open = refl;
  healthy = tt;
  answers = tt;
  keeps = ground arith;
}

-- The second request of a connection that has been kept alive.
abbrev next_line : Bytes
next_line = codes "GET / HTTP/1.1\r\n"

abbrev again : Session
again = record {
  connection = connection next_line;
  parser = record { request = get; state = got_complete_request };
}

again-IsValid : IsValid again.connection.input_buffer
again-IsValid = omega arith

on_message_refuses_example :
    Replies bad_request disconnecting again (on_message default_http_callback would_block again)
on_message_refuses_example =
    on_message_refuses default_http_callback would_block again {line = codes "GET / HTTP/1.1"}
      {rest = []} again-IsValid (inl refl) (unfold split_line in refl)
      (CanSend-connection next_line bad_request)

-- The first half of a request line.
abbrev cut : Session
cut = record { connection = connection (codes "GET /ind"); parser = initial }

cut-IsValid : IsValid cut.connection.input_buffer
cut-IsValid = omega arith

on_message_discards_example :
    (t : Session) × (on_message default_http_callback would_block cut ≡ some t)
    × (t.parser ≡ initial)
    × (stream t.connection ≡ stream cut.connection)
    × (contents t.connection.input_buffer ≡ [])
on_message_discards_example =
    on_message_discards default_http_callback would_block cut cut-IsValid (λ o. ground (arith, o))
      (ground arith)

-- A connection that is made at 1 s, gets a message at 2 s and is looked at behind 9 s and 17 s, in
-- the thread of another loop.
abbrev idle : Shared
idle = record { connection = established; functors = []; callers = []; memory = λ a. [] }

established-connected : established.state ≡ connected
unfolding connection_established change_events
established-connected = refl

idle_shut_example :
    let (s, left) =
      watch false 5 2_000_000_000
        ((9_100_000_000, 9_100_000_000) ∷ (17_200_000_000, 17_200_000_000) ∷ [])
        idle
        (some (run_after idle_connection_time_outs 5 1_000_000_000)) in
    (left ≡ none) × (s.connection.state ≡ disconnecting) × Stops false would_block idle s
idle_shut_example =
    idle_shut false 5 2_000_000_000 9_100_000_000 9_100_000_000 17_200_000_000 17_200_000_000 []
      (run_after idle_connection_time_outs 5 1_000_000_000) idle would_block (omega arith)
      (omega arith, omega arith, (omega arith, omega arith, tt)) established-connected
