-- ===== src/Http/Server/Reading.antt =====
-- A request that arrives in one read or in several, from the socket to the socket.
use mathlib.Core.Path.{subst, subst₂}
use my_moduo.Base.{
  Bool, sym, arith, ℕ, ◌≤◌, ◌≡◌, refl, ap, ◌∙◌, suc, List, [], ◌∷◌, ◌++◌, concat, map, Option, some,
  ◌>>=◌, Bytes,
}
use my_moduo.Http.Parser.Texts.{IsPrintable, ArePrintable}
use my_moduo.Http.Parser.RoundTrip.{started, complete}
use my_moduo.Http.Request.Form.{assign_all}
use my_moduo.Http.Parser.Steps.{
  lines_text, request_lines, Steps, parse_content-Steps, Steps-append, Steps-ongoing,
  Steps-request_lines,
}
use my_moduo.Http.Parser.{HttpRequestParser, initial, parse_content}
use my_moduo.Http.Request.{Fields, HttpRequest}
use my_moduo.Http.Response.Render.{response_text}
use my_moduo.Http.Server.{Session, ResponseCallback, wants_close, respond, on_message, on_read}
use my_moduo.Net.Buffer.Contents.{read_fd_intact, contents-retrieve_all}
use my_moduo.Net.Buffer.Valid.{IsValid, read_fd-IsValid, retrieve_all-IsValid}
use my_moduo.Net.Buffer.{
  Buffer, received, contents, prepend_index, read_fd, readable_bytes, retrieve_all,
}
use my_moduo.Net.TcpConnection.{Write}
use my_moduo.Http.Server.Sending.{CanSend, state_after}
use my_moduo.Http.Server.Replies.{Replies, CanSend-input, fuel_lem, emptied}
use my_moduo.Http.Server.Answers.{request_of, on_message_completes, on_message_continues}

-- A session that waits for the first request: all of its input has been read.
pub record Waits (s : Session) : Type 0 where
  pub valid : IsValid s.connection.input_buffer
  pub header_only : s.connection.input_buffer.read_index ≤ prepend_index
  pub no_input : contents s.connection.input_buffer ≡ []
  pub new_parser : s.parser ≡ initial

-- The session with these bytes read.
abbrev with_input : Session → Bytes → Session
with_input s xs = record s {
  connection = record s.connection {
    input_buffer = (read_fd s.connection.input_buffer (received xs)).1;
  };
}

on_read_received :
    (callback : ResponseCallback) (w : Write) (x : ℕ) (xs : Bytes) (s : Session)
    → on_read callback w (received (x ∷ xs)) s ≡ on_message callback w (with_input s (x ∷ xs))
unfolding on_read read_fd
on_read_received callback w x xs s = refl

-- A text that ends in one of these is not empty.
on_read_ending :
    (callback : ResponseCallback) (w : Write) (xs : Bytes) (y : ℕ) (ys : Bytes) (s : Session)
    → on_read callback w (received (xs ++ (y ∷ ys))) s
      ≡ on_message callback w (with_input s (xs ++ (y ∷ ys)))
on_read_ending callback w [] y ys s = on_read_received callback w y ys s
on_read_ending callback w (x ∷ xs) y ys s = on_read_received callback w x (xs ++ (y ∷ ys)) s

-- The reads of a session, one after the other; each delivers some bytes.
unfoldable pub on_reads : ResponseCallback → Write → List Bytes → Session → Option Session
unfolding on_read
on_reads callback w [] s = some s
on_reads callback w (xs ∷ more) s =
    on_read callback w (received xs) s >>= λ t. on_reads callback w more t

abbrev pub AreFilled : List (List Bytes) → Type 0
AreFilled [] = Unit {0}
AreFilled ([] ∷ gs) = ⊥
AreFilled ((l ∷ g) ∷ gs) = AreFilled gs

on_read_lines :
    (callback : ResponseCallback) (w : Write) (l : Bytes) (g : List Bytes) (s : Session)
    → on_read callback w (received (lines_text (l ∷ g))) s
      ≡ on_message callback w (with_input s (lines_text (l ∷ g)))
on_read_lines callback w l g s = on_read_ending callback w l _ _ s

-- A session all of whose input has been read, with lines that take its parser to `q`.
record Awaits (q : HttpRequestParser) (ls : List Bytes) (s : Session) : Type 0 where
  valid : IsValid s.connection.input_buffer
  header_only : s.connection.input_buffer.read_index ≤ prepend_index
  no_input : contents s.connection.input_buffer ≡ []
  steps : Steps q s.parser ls

-- What `parseContent` makes of lines that arrive.
parse_lines :
    (q r : HttpRequestParser) (l : Bytes) (g ls : List Bytes) (s : Session)
    → Awaits q ls s
    → Steps r s.parser (l ∷ g)
    → let t = with_input s (lines_text (l ∷ g)) in
      (c : Buffer) × (parse_content
          (suc (readable_bytes t.connection.input_buffer))
          t.parser
          t.connection.input_buffer
        ≡ some (r, c))
      × IsValid c
parse_lines q r l g ls s a h =
    let xs = lines_text (l ∷ g) in
    let v = read_fd-IsValid (received xs) a.valid in
    parse_content-Steps _ r s.parser (l ∷ g) v (fuel_lem v)
      ((read_fd_intact (received xs) a.valid a.header_only).1 ∙ ap (λ ys. ys ++ xs) a.no_input) h

-- The session that has taken in lines and is not through with its request.
abbrev went_on : Session → List Bytes → HttpRequestParser → Buffer → Session
went_on s ls r c = record {
  connection = emptied (with_input s (lines_text ls)).connection c;
  parser = r;
}

on_read_continues :
    (callback : ResponseCallback) (w : Write) (q r : HttpRequestParser) (l : Bytes) (g : List Bytes)
    (l' : Bytes) (ls : List Bytes) (s : Session)
    → Awaits q ((l ∷ g) ++ (l' ∷ ls)) s
    → Steps r s.parser (l ∷ g)
    → Steps q r (l' ∷ ls)
    → (c : Buffer) × (on_read callback w (received (lines_text (l ∷ g))) s
        ≡ some (went_on s (l ∷ g) r c))
      × Awaits q (l' ∷ ls) (went_on s (l ∷ g) r c)
unfolding retrieve_all
on_read_continues callback w q r l g l' ls s a before after =
    let (c, parsed, v) = parse_lines q r l g ((l ∷ g) ++ (l' ∷ ls)) s a before in
    (
      c,
      on_read_lines callback w l g s
          ∙ on_message_continues callback w (with_input s (lines_text (l ∷ g))) parsed
              (Steps-ongoing q r l' ls after),
      record {
        valid = retrieve_all-IsValid v;
        header_only = omega arith;
        no_input = contents-retrieve_all c;
        steps = after;
      },
    )

on_reads-Replies :
    (callback : ResponseCallback) (w : Write) (r : HttpRequest) (m : Fields) (close : Bool)
    (l : Bytes) (g : List Bytes) (gs : List (List Bytes)) (s : Session)
    → wants_close (record r { headers = m }) ≡ some close
    → AreFilled gs
    → Awaits (complete r m) ((l ∷ g) ++ concat gs) s
    → CanSend w (response_text (respond callback close (record r { headers = m }))) s.connection
    → Replies
        (response_text (respond callback close (record r { headers = m })))
        (state_after (respond callback close (record r { headers = m })).close_connection)
        s
        (on_reads callback w (map lines_text ((l ∷ g) ∷ gs)) s)
unfolding on_reads
on_reads-Replies callback w r m close l g [] s asks f a k =
    let (p, before, same) = Steps-append (complete r m) s.parser (l ∷ g) [] a.steps in
    let all : Steps (complete r m) s.parser (l ∷ g) =
      subst (λ x. Steps x s.parser (l ∷ g)) (sym same) before in
    let (c, parsed, _) = parse_lines (complete r m) (complete r m) l g _ s a all in
    let t = with_input s (lines_text (l ∷ g)) in
    let (d, e, sent, after, left) =
      on_message_completes callback w r m close t asks parsed
        (CanSend-input w _ s.connection t.connection.input_buffer k) in
    (d, ap (λ o. o >>= λ x. some x) (on_read_lines callback w l g s ∙ e), sent, after, left)
on_reads-Replies callback w r m close l g ([] ∷ gs) s asks f a k = absurd f
on_reads-Replies callback w r m close l g ((l' ∷ g') ∷ gs) s asks f a k =
    let (p, before, after) =
      Steps-append (complete r m) s.parser (l ∷ g) ((l' ∷ g') ++ concat gs) a.steps in
    let (c, e, b) =
      on_read_continues callback w (complete r m) p l g l' (g' ++ concat gs) s a before after in
    let t = went_on s (l ∷ g) p c in
    let (d, done, sent, later, left) =
      on_reads-Replies callback w r m close l' g' gs t asks f b
        (CanSend-input w _ s.connection t.connection.input_buffer k) in
    (
      d,
      ap (λ o. o >>= λ x. on_reads callback w (map lines_text ((l' ∷ g') ∷ gs)) x) e ∙ done,
      sent,
      later,
      left,
    )

-- If the lines of a printable request that has the field `Connection`, the empty line at its end
-- included, arrive at a connected session that waits for the first request, in reads of one or more
-- whole lines each, `handleRead` and `onMessage` send the response of the callback to that request,
-- with its header fields, once the last line is there, shut the connection down if the response
-- closes it, and leave no input; if nothing that is sent is lost.
pub on_reads_serve :
    (callback : ResponseCallback) (w : Write) (r : HttpRequest) (fields : Fields) (close : Bool)
    (groups : List (List Bytes)) (s : Session)
    → wants_close (request_of r fields) ≡ some close
    → AreFilled groups
    → concat groups ≡ request_lines r fields
    → Waits s
    → IsPrintable r
    → ArePrintable fields
    → CanSend w (response_text (respond callback close (request_of r fields))) s.connection
    → Replies
        (response_text (respond callback close (request_of r fields)))
        (state_after (respond callback close (request_of r fields)).close_connection)
        s
        (on_reads callback w (map lines_text groups) s)
on_reads_serve callback w r fields close [] s asks f e v h k c = cc
on_reads_serve callback w r fields close ([] ∷ groups) s asks f e v h k c = absurd f
on_reads_serve callback w r fields close ((l ∷ g) ∷ groups) s asks f e v h k c =
    let q = complete (started r) (assign_all fields []) in
    on_reads-Replies callback w (started r) (assign_all fields []) close l g groups s asks f
      (record {
        valid = v.valid;
        header_only = v.header_only;
        no_input = v.no_input;
        steps = subst₂ (Steps q) (sym v.new_parser) (sym e) (Steps-request_lines r fields h k);
      })
      c
