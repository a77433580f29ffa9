-- ===== src/Http/Server/Sending.antt =====
-- Messages and responses that the server sends on a connection.
use my_moduo.Base.{
  ◌≡◌, refl, ap, ◌∙◌, Bool, true, false, ◌++◌, none, some, arith, Bytes, codes, if◌then◌else◌,
  ◌>>=◌,
}
use my_moduo.Http.Request.{HttpRequest, header}
use my_moduo.Http.Response.Render.{response_text, contents-append_to_buffer}
use my_moduo.Http.Response.{HttpResponse, append_to_buffer}
use my_moduo.Http.Server.{ResponseCallback, closes, wants_close, respond, handle_request}
use my_moduo.Net.Buffer.Fresh.{init-IsFresh, contents-init}
use my_moduo.Net.Buffer.{Buffer, initial_size, contents, readable_bytes, retrieve_all, append}
use my_moduo.Net.Buffer
use my_moduo.Net.TcpConnection.Asserts.{Answers, send-Returns}
use my_moduo.Net.TcpConnection.Coherent.{IsCoherent, sends}
use my_moduo.Net.TcpConnection.Stream.{stream, IsHealthy, KeepsOutput, stream-send}
use my_moduo.Net.TcpConnection.{
  ConnectionState, connected, disconnecting, TcpConnection, Write, send, send_buffer, send_in_loop,
  sent_first, keep_rest, shut_down, shut_down_in_loop,
}

-- A connection that is open, and an answer of `write` to this message after which nothing is lost.
pub record CanSend (w : Write) (msg : Bytes) (c : TcpConnection) : Type 0 where
  pub coherent : IsCoherent c
  pub is_open : c.state ≡ connected
  pub healthy : IsHealthy w
  pub answers : Answers c (sends w msg)
  pub keeps : KeepsOutput c msg

-- `d` is `c` after the message has been sent, in this state.
abbrev pub Sent : Bytes → ConnectionState → TcpConnection → TcpConnection → Type 0
Sent msg state c d =
    (stream d ≡ stream c ++ msg) × (d.state ≡ state) × (d.input_buffer ≡ c.input_buffer)

kept-send :
    (w : Write) (msg : Bytes) (c : TcpConnection) {d : TcpConnection}
    → send w msg c ≡ some d
    → (d.state ≡ c.state) × (d.input_buffer ≡ c.input_buffer)
unfolding send send_in_loop sent_first keep_rest
kept-send w msg c e = ground arith

pub send_lem :
    (w : Write) (msg : Bytes) (c : TcpConnection)
    → CanSend w msg c
    → (d : TcpConnection) × (send w msg c ≡ some d) × Sent msg connected c d
send_lem w msg c h =
    let (d, e) = send-Returns c.state w msg c refl h.answers in
    let (state, input) = kept-send w msg c e in
    (d, e, (stream-send w msg c h.coherent h.is_open h.healthy h.keeps e, state ∙ h.is_open, input))

pub Sent-shut_down :
    (msg : Bytes) (c d : TcpConnection)
    → Sent msg connected c d
    → Sent msg disconnecting c (shut_down d)
unfolding shut_down shut_down_in_loop
Sent-shut_down msg c d h = (ground (arith, h.0, h.1), ground (arith, h.1), ground (arith, h.1, h.2))

send_buffer_lem :
    (w : Write) (b : Buffer) (c : TcpConnection)
    → c.state ≡ connected
    → send_buffer w b c ≡ (send w (contents b) c >>= λ d. some (d, retrieve_all b))
unfolding send_buffer send
send_buffer_lem w b c e = rw e refl

-- The state behind a message, if the server closes the connection or not.
abbrev pub state_after : Bool → ConnectionState
state_after close = if close then disconnecting else connected

Sent-close :
    (close : Bool) (msg : Bytes) (c d : TcpConnection)
    → Sent msg connected c d
    → Sent msg (state_after close) c (if close then shut_down d else d)
Sent-close true msg c d h = Sent-shut_down msg c d h
Sent-close false msg c d h = h

response_buffer_lem :
    (r : HttpResponse) → contents (append_to_buffer r (Buffer.init initial_size)) ≡ response_text r
response_buffer_lem r =
    (contents-append_to_buffer r {b = Buffer.init initial_size}
      (init-IsFresh initial_size (omega arith))).0
    ∙ ap (λ xs. xs ++ response_text r) (contents-init initial_size)

-- A request without the field `Connection` makes `handleRequest` read a string that is gone.
handle_request-dangles :
    (callback : ResponseCallback) (w : Write) (r : HttpRequest) (c : TcpConnection)
    → header r (codes "Connection") ≡ none
    → handle_request callback w r c ≡ none
unfolding handle_request wants_close
handle_request-dangles callback w r c h =
    ap
      (λ o. (o >>= λ v. some (closes r.version v)) >>= λ x.
        send_buffer w (append_to_buffer (respond callback x r) (Buffer.init initial_size)) c
        >>= λ (k, _). some (if (respond callback x r).close_connection then shut_down k else k))
      h

pub handle_request_lem :
    (callback : ResponseCallback) (w : Write) (r : HttpRequest) (close : Bool) (c : TcpConnection)
    → wants_close r ≡ some close
    → CanSend w (response_text (respond callback close r)) c
    → (d : TcpConnection) × (handle_request callback w r c ≡ some d)
      × Sent
          (response_text (respond callback close r))
          (state_after (respond callback close r).close_connection)
          c
          d
unfolding handle_request
handle_request_lem callback w r close c asks h =
    let response = respond callback close r in
    let b = append_to_buffer response (Buffer.init initial_size) in
    let (d, e, s) = send_lem w (response_text response) c h in
    let same : send w (contents b) c ≡ some d =
      ap (λ xs. send w xs c) (response_buffer_lem response) ∙ e in
    (
      if response.close_connection then shut_down d else d,
      ap
            (λ o. o >>= λ x.
              send_buffer w (append_to_buffer (respond callback x r) (Buffer.init initial_size)) c
              >>= λ (k, _).
                  some (if (respond callback x r).close_connection then shut_down k else k))
            asks
          ∙ ap (λ o. o >>= λ (k, _). some (if response.close_connection then shut_down k else k))
              (send_buffer_lem w b c h.is_open
                ∙ ap (λ o. o >>= λ k. some (k, retrieve_all b)) same),
      Sent-close response.close_connection (response_text response) c d s,
    )
