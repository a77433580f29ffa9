-- ===== src/Http/Server.antt =====
-- Http/httpserver.{h,cpp}: what the server does with the input of a connection.
-- The response callback is an argument, and so are the answers of `write`.
pub mod Sending
pub mod Replies
pub mod Answers
pub mod Reading
pub mod Idle
use my_moduo.Base.{
  ℕ, zero, suc, ◌+◌, Bool, true, false, not, List, [], ◌∷◌, ◌++◌, Option, none, some, Bytes, codes,
  eq_bytes, length, ltb, if◌then◌else◌, ◌>>=◌,
}
use my_moduo.Http.Parser.{HttpRequestParser, got_complete_request, errno, parse_content}
use my_moduo.Http.Request.{Version, HttpRequest, header}
use my_moduo.Http.Response.{
  HttpResponse, not_found_404, append_to_buffer, set_status_code, set_status_message,
  set_close_connection,
}
use my_moduo.Http.Response
use my_moduo.Net.Buffer.{Buffer, Readv, initial_size, readable_bytes, retrieve_all, read_fd}
use my_moduo.Net.Buffer
use my_moduo.Net.TcpConnection.Remote.{Shared, shut_down_remote}
use my_moduo.Net.TcpConnection.{
  connected, TcpConnection, Write, send, send_buffer, shut_down, handle_close,
}
use my_moduo.Timer.RbTreeTimer.{Timer, run_after}
use my_moduo.Timer.Timestamp.{Timestamp, add_time}

-- A connection and its parser, `m_parser`.
pub record Session : Type 0 where
  pub connection : TcpConnection
  pub parser : HttpRequestParser

-- `ResponseCallback`
abbrev pub ResponseCallback : Type 0
ResponseCallback = HttpRequest → HttpResponse → HttpResponse

-- `defaultHttpCallback`
abbrev pub default_http_callback : ResponseCallback
default_http_callback request response =
    set_close_connection true
      (set_status_message (codes "Not Found") (set_status_code not_found_404 response))

-- `kIdleConnectionTimeOuts`, in microseconds.
abbrev pub idle_connection_time_outs : ℕ
idle_connection_time_outs = 8_000_000

-- `onConnection`, with `m_auto_close_idle_connection` and the time that `runAfter` reads: the input
-- is emptied, and the timer of `handleIdleConnection` is added, if the connection is new.
unfoldable pub on_connection : Bool → ℕ → Timestamp → TcpConnection → TcpConnection × Option Timer
on_connection auto cb now c = (
  record c { input_buffer = retrieve_all c.input_buffer },
  elim c.state [
    | connected ↦ if auto then some (run_after idle_connection_time_outs cb now) else none
    | _ ↦ none
  ],
)

-- The local `close` of `handleRequest`, by the value of the field.
abbrev pub closes : Version → Bytes → Bool
closes Version.http11 connection = not (eq_bytes connection (codes "Keep-Alive"))
closes _ connection = eq_bytes connection (codes "close")

-- `none` where the request has no field `Connection`: the source reads a string that is gone.
unfoldable pub wants_close : HttpRequest → Option Bool
unfolding header
wants_close r = do connection ← header r (codes "Connection"); some (closes r.version connection)

-- The response that is written into the local `buf`.
abbrev pub respond : ResponseCallback → Bool → HttpRequest → HttpResponse
respond callback close r = callback r (Response.init close)

-- `handleRequest`
unfoldable pub handle_request :
    ResponseCallback → Write → HttpRequest → TcpConnection → Option TcpConnection
unfolding wants_close
handle_request callback w r c = do
  close ← wants_close r
  let response = respond callback close r
  (c', _) ← send_buffer w (append_to_buffer response (Buffer.init initial_size)) c
  some (if response.close_connection then shut_down c' else c')

abbrev pub bad_request : Bytes
bad_request = codes "HTTP/1.1 400 Bad Request\r\n\r\n"

-- What `onMessage` does by the state that `parseContent` returns.
unfoldable pub answer :
    ResponseCallback → Write → HttpRequestParser → TcpConnection → Option TcpConnection
answer callback w p c = elim p.state [
  | errno ↦ do c' ← send w bad_request c; some (shut_down c')
  | got_complete_request ↦ handle_request callback w p.request c
  | _ ↦ some c
]

-- `onMessage`, with fuel for `parseContent` that is enough.
unfoldable pub on_message : ResponseCallback → Write → Session → Option Session
unfolding parse_content answer
on_message callback w s = do
  let fuel = suc (readable_bytes s.connection.input_buffer)
  (p, b) ← parse_content fuel s.parser s.connection.input_buffer
  c ← answer callback w p (record s.connection { input_buffer = retrieve_all b })
  some (record { connection = c; parser = p })

-- `TcpConnection::handleRead` with `onMessage` as its callback.
unfoldable pub on_read : ResponseCallback → Write → Readv → Session → Option Session
unfolding on_message read_fd handle_close
on_read callback w r s =
    let (n, b) = read_fd s.connection.input_buffer r in
    let c = record s.connection { input_buffer = b } in
    elim n [
      | none ↦ do c' ← handle_close c; some (record s { connection = c' })
      | some zero ↦ do c' ← handle_close c; some (record s { connection = c' })
      | some (suc _) ↦ on_message callback w (record s { connection = c })
    ]

-- `shutDown` in the thread of the connection's loop, or in another one, which leaves the rest to a
-- functor.
abbrev pub shut_down_from : Bool → Shared → Shared
shut_down_from true s = record s { connection = shut_down s.connection }
shut_down_from false s = shut_down_remote s

-- `handleIdleConnection` of a connection that still exists: it is shut down, or looked at again
-- after the same time. It runs in the loop of the server, which is the connection's own only if the
-- server has no other threads: this is the first argument. `later` is read in `runAfter`.
unfoldable pub handle_idle_connection :
    Bool → ℕ → Timestamp → Timestamp → Timestamp → Shared → Shared × Option Timer
unfolding shut_down shut_down_remote
handle_idle_connection in_loop_thread cb last_receive now later s =
    if ltb (add_time last_receive idle_connection_time_outs) now
    then (shut_down_from in_loop_thread s, none)
    else (s, some (run_after idle_connection_time_outs cb later))
