-- ===== src/Http/Server/Answers.antt =====
-- What the peer of a connection gets for its input.
use my_moduo.Http.Server.Replies.{
  emptied, on_message_parsed, Replies, fuel_lem, CanSend-input, answer-complete, answer-errno,
  Replies-Sent,
}
use my_moduo.Base.{suc, Bool, ◌≡◌, refl, ap, ◌∙◌, [], some, arith, Bytes, ◌>>=◌}
use my_moduo.Http.Parser.RoundTrip.{started, complete, parse_content-request_text}
use my_moduo.Http.Parser.States.{IsOver, parse_content-over}
use my_moduo.Http.Parser.Texts.{request_text, IsPrintable, ArePrintable}
use my_moduo.Http.Parser.Total.{parse_content-stop}
use my_moduo.Http.Parser.{HttpRequestParser, initial, parse_content}
use my_moduo.Http.Request.Form.{assign_all}
use my_moduo.Http.Request.{Fields, HttpRequest}
use my_moduo.Http.Response.Render.{response_text}
use my_moduo.Http.Server.{
  Session, ResponseCallback, wants_close, respond, bad_request, answer, on_message,
}
use my_moduo.Net.Buffer.Contents.{contents-retrieve_all}
use my_moduo.Net.Buffer.Search.{
  NoCrlf, line_end, split_line, split_line-NoCrlf, find_crlf-split_line,
}
use my_moduo.Net.Buffer.Valid.{IsValid}
use my_moduo.Net.Buffer.{Buffer, contents, readable_bytes, retrieve_all}
use my_moduo.Net.TcpConnection.Stream.{stream}
use my_moduo.Net.TcpConnection.{disconnecting, TcpConnection, Write, shut_down}
use my_moduo.Http.Server.Sending.{
  CanSend, state_after, send_lem, Sent-shut_down, handle_request_lem,
}

-- The request that the callback is given.
abbrev pub request_of : HttpRequest → Fields → HttpRequest
request_of r fields = record (started r) { headers = assign_all fields [] }

-- Where `parseContent` leaves a complete request, the response of the callback is sent.
pub on_message_completes :
    (callback : ResponseCallback) (w : Write) (r : HttpRequest) (m : Fields) (close : Bool)
    (s : Session) {b : Buffer}
    → wants_close (record r { headers = m }) ≡ some close
    → parse_content
        (suc (readable_bytes s.connection.input_buffer))
        s.parser
        s.connection.input_buffer
      ≡ some (complete r m, b)
    → CanSend w (response_text (respond callback close (record r { headers = m }))) s.connection
    → Replies
        (response_text (respond callback close (record r { headers = m })))
        (state_after (respond callback close (record r { headers = m })).close_connection)
        s
        (on_message callback w s)
on_message_completes callback w r m close s {b} asks parsed c =
    let request : HttpRequest = record r { headers = m } in
    let text = response_text (respond callback close request) in
    let (d, handled, sent) =
      handle_request_lem callback w request close (emptied s.connection b) asks
        (CanSend-input w text s.connection (retrieve_all b) c) in
    Replies-Sent callback w s _ b text _ d parsed
      (answer-complete callback w r m (emptied s.connection b) ∙ handled) sent

-- If the input of a connected connection with a new parser is a printable request that has the field
-- `Connection`, `onMessage`
-- sends the response of the callback to that request, with its header fields, shuts the connection
-- down if the response closes it, and leaves no input; if nothing that is sent is lost.
on_message_serves :
    (callback : ResponseCallback) (w : Write) (r : HttpRequest) (fields : Fields) (close : Bool)
    (s : Session)
    → wants_close (request_of r fields) ≡ some close
    → IsValid s.connection.input_buffer
    → s.parser ≡ initial
    → contents s.connection.input_buffer ≡ request_text r fields []
    → IsPrintable r
    → ArePrintable fields
    → CanSend w (response_text (respond callback close (request_of r fields))) s.connection
    → Replies
        (response_text (respond callback close (request_of r fields)))
        (state_after (respond callback close (request_of r fields)).close_connection)
        s
        (on_message callback w s)
on_message_serves callback w r fields close s asks v p e h k c =
    let (b, parsed, _) =
      parse_content-request_text (suc (readable_bytes s.connection.input_buffer)) r fields []
        {b = s.connection.input_buffer} v (fuel_lem v) e h k tt in
    on_message_completes callback w (started r) (assign_all fields []) close s asks
      (ap
          (λ q.
            parse_content (suc (readable_bytes s.connection.input_buffer)) q
              s.connection.input_buffer)
          p
        ∙ parsed)
      c

-- If the parser of a connected connection has completed a request before, or met an error, and the
-- input holds a line, as of the next request, then `onMessage` sends 400 and shuts the connection
-- down; if nothing that is sent is lost.
pub on_message_refuses :
    (callback : ResponseCallback) (w : Write) (s : Session) {line rest : Bytes}
    → IsValid s.connection.input_buffer
    → IsOver s.parser
    → split_line (contents s.connection.input_buffer) ≡ some (line, rest)
    → CanSend w bad_request s.connection
    → Replies bad_request disconnecting s (on_message callback w s)
on_message_refuses callback w s v o e c =
    let (b, parsed, _) =
      parse_content-over (suc (readable_bytes s.connection.input_buffer)) s.parser
        {b = s.connection.input_buffer} v (fuel_lem v) o e in
    let (d, done, sent) =
      send_lem w bad_request (emptied s.connection b)
        (CanSend-input w bad_request s.connection (retrieve_all b) c) in
    Replies-Sent callback w s _ b bad_request disconnecting (shut_down d) parsed
      (answer-errno callback w s.parser.request (emptied s.connection b)
        ∙ ap (λ o. o >>= λ d. some (shut_down d)) done)
      (Sent-shut_down bad_request (emptied s.connection b) d sent)

answer-none :
    (callback : ResponseCallback) (w : Write) (p : HttpRequestParser) (c : TcpConnection)
    → (IsOver p → ⊥)
    → answer callback w p c ≡ some c
unfolding answer
answer-none callback w p c h = ground arith

-- Where `parseContent` is still in the middle of a request, nothing is sent.
pub on_message_continues :
    (callback : ResponseCallback) (w : Write) (s : Session) {p : HttpRequestParser} {b : Buffer}
    → parse_content
        (suc (readable_bytes s.connection.input_buffer))
        s.parser
        s.connection.input_buffer
      ≡ some (p, b)
    → (IsOver p → ⊥)
    → on_message callback w s ≡ some (record { connection = emptied s.connection b; parser = p })
on_message_continues callback w s {p} {b} parsed h =
    on_message_parsed callback w s parsed
    ∙ ap (λ o. o >>= λ c. some (record { connection = c; parser = p }))
        (answer-none callback w p (emptied s.connection b) h)

-- If the input ends before its first CRLF and the parser is still in the middle of a request,
-- `onMessage` throws the input away: nothing is sent, no input is left and the parser has not
-- changed, so that the line is lost when its end arrives.
pub on_message_discards :
    (callback : ResponseCallback) (w : Write) (s : Session)
    → IsValid s.connection.input_buffer
    → (IsOver s.parser → ⊥)
    → NoCrlf (contents s.connection.input_buffer)
    → (t : Session) × (on_message callback w s ≡ some t)
      × (t.parser ≡ s.parser)
      × (stream t.connection ≡ stream s.connection)
      × (contents t.connection.input_buffer ≡ [])
on_message_discards callback w s v h n =
    let b = s.connection.input_buffer in
    let no_line = find_crlf-split_line v ∙ ap line_end (split_line-NoCrlf (contents b) n) in
    let stopped = parse_content-stop (readable_bytes b) s.parser b no_line in
    (
      record { connection = emptied s.connection b; parser = s.parser },
      on_message_continues callback w s stopped h,
      refl,
      refl,
      contents-retrieve_all b,
    )
