-- ===== src/Http/Server/Replies.antt =====
-- What `onMessage` leaves behind the message that it sends.
use my_moduo.Base.{
  suc, ◌<◌, ◌≡◌, refl, ap, ◌∙◌, [], ◌++◌, Option, some, arith, Bytes, length, ◌>>=◌,
}
use my_moduo.Http.Parser.RoundTrip.{complete}
use my_moduo.Http.Parser.{HttpRequestParser, errno, parse_content}
use my_moduo.Http.Request.{Fields, HttpRequest}
use my_moduo.Http.Server.{
  Session, ResponseCallback, handle_request, bad_request, answer, on_message,
}
use my_moduo.Net.Buffer.Contents.{contents-retrieve_all, length-contents}
use my_moduo.Net.Buffer.Valid.{IsValid}
use my_moduo.Net.Buffer.{Buffer, contents, readable_bytes, retrieve_all}
use my_moduo.Net.TcpConnection.Asserts.{Answers}
use my_moduo.Net.TcpConnection.Closing.{input_buffer-IsCoherent}
use my_moduo.Net.TcpConnection.Coherent.{sends}
use my_moduo.Net.TcpConnection.Stream.{stream}
use my_moduo.Net.TcpConnection.{ConnectionState, TcpConnection, Write, took, send, shut_down}
use my_moduo.Http.Server.Sending.{CanSend, Sent}

-- The connection with its input taken off.
abbrev pub emptied : TcpConnection → Buffer → TcpConnection
emptied c b = record c { input_buffer = retrieve_all b }

pub on_message_parsed :
    (callback : ResponseCallback) (w : Write) (s : Session) {p : HttpRequestParser} {b : Buffer}
    → parse_content
        (suc (readable_bytes s.connection.input_buffer))
        s.parser
        s.connection.input_buffer
      ≡ some (p, b)
    → on_message callback w s ≡ (
        answer callback w p (emptied s.connection b) >>= λ c.
        some (record { connection = c; parser = p }))
unfolding on_message
on_message_parsed callback w s e =
    ap
      (λ o. o >>= λ (p, b). answer callback w p (emptied s.connection b) >>= λ c.
        some (record { connection = c; parser = p }))
      e

-- `onMessage` leaves the session `t`, with this message sent and no input left.
abbrev pub Replies : Bytes → ConnectionState → Session → Option Session → Type 0
Replies msg state s r =
    (t : Session) × (r ≡ some t)
    × (stream t.connection ≡ stream s.connection ++ msg)
    × (t.connection.state ≡ state)
    × (contents t.connection.input_buffer ≡ [])

pub fuel_lem : {b : Buffer} → IsValid b → length (contents b) < suc (readable_bytes b)
fuel_lem v = omega (arith, length-contents v)

Answers-any :
    (w : Write) (msg : Bytes) (c d : TcpConnection)
    → Answers c (sends w msg)
    → Answers d (sends w msg)
Answers-any (took n) msg c d h = h
Answers-any _ msg c d h = tt

-- What the input is does not matter.
pub CanSend-input :
    (w : Write) (msg : Bytes) (c : TcpConnection) (b : Buffer)
    → CanSend w msg c
    → CanSend w msg (record c { input_buffer = b })
CanSend-input w msg c b h = record {
  coherent = input_buffer-IsCoherent c b h.coherent;
  is_open = h.is_open;
  healthy = h.healthy;
  answers = Answers-any w msg c (record c { input_buffer = b }) h.answers;
  keeps = h.keeps;
}

pub answer-complete :
    (callback : ResponseCallback) (w : Write) (r : HttpRequest) (fields : Fields)
    (c : TcpConnection)
    → answer callback w (complete r fields) c
      ≡ handle_request callback w (record r { headers = fields }) c
unfolding answer
answer-complete callback w r fields c = refl

pub answer-errno :
    (callback : ResponseCallback) (w : Write) (r : HttpRequest) (c : TcpConnection)
    → answer callback w (record { request = r; state = errno }) c
      ≡ (send w bad_request c >>= λ d. some (shut_down d))
unfolding answer
answer-errno callback w r c = refl

pub Replies-Sent :
    (callback : ResponseCallback) (w : Write) (s : Session) (p : HttpRequestParser) (b : Buffer)
    (msg : Bytes) (state : ConnectionState) (d : TcpConnection)
    → parse_content
        (suc (readable_bytes s.connection.input_buffer))
        s.parser
        s.connection.input_buffer
      ≡ some (p, b)
    → answer callback w p (emptied s.connection b) ≡ some d
    → Sent msg state (emptied s.connection b) d
    → Replies msg state s (on_message callback w s)
Replies-Sent callback w s p b msg state d e a h = (
  record { connection = d; parser = p },
  on_message_parsed callback w s e
      ∙ ap (λ o. o >>= λ c. some (record { connection = c; parser = p })) a,
  h.0,
  h.1,
  ap contents h.2 ∙ contents-retrieve_all b,
)
