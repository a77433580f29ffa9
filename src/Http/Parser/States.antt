-- ===== src/Http/Parser/States.antt =====
-- The states that the machine goes through.
use mathlib.Core.Path.{subst₂}
use my_moduo.Base.{
  ℕ, ◌≤◌, ◌<◌, ◌≡◌, refl, ap, ◌∙◌, ◌≢◌, ◌⊎◌, [], ◌∷◌, Option, some, arith, Bytes, length,
}
use my_moduo.Http.Parser.Lines.{Parses, stop, halt, next, Parses-unique}
use my_moduo.Http.Parser.Total.{Runs, parse_content-Runs}
use my_moduo.Http.Parser.{
  ParseState, request_line, header, body, got_complete_request, errno, HttpRequestParser, returns,
  parser_of, pass_in, at_end, parse_content, initial,
}
use my_moduo.Http.Request.{
  HttpRequest, set_method, set_target, set_version, parse_target, parse_request_line, add_header,
}
use my_moduo.Net.Buffer.Search.{split_line}
use my_moduo.Net.Buffer.Valid.{IsValid}
use my_moduo.Net.Buffer.{Buffer, contents}

-- How far a request has come.
abbrev pub rank : ParseState → ℕ
rank request_line = 0
rank header = 1
rank body = 2
rank got_complete_request = 3
rank errno = 4

rank-pass_in :
    (s : ParseState) (r : HttpRequest) (line : Bytes)
    → rank s ≤ rank (parser_of (pass_in s r line)).state
unfolding pass_in
rank-pass_in request_line r line = ground arith
rank-pass_in header r [] = ground arith
rank-pass_in header r (c ∷ cs) = ground arith
rank-pass_in body r [] = ground arith
rank-pass_in body r (c ∷ cs) = ground arith
rank-pass_in _ r line = ground arith

rank-at_end : (p : HttpRequestParser) (n : ℕ) → rank p.state ≤ rank (at_end p n).state
rank-at_end p n = ground arith

Parses-rank :
    {q : HttpRequestParser} {ys : Bytes} {p : HttpRequestParser} {xs : Bytes}
    → Parses q ys p xs
    → rank p.state ≤ rank q.state
Parses-rank (stop e a b) = ground arith
Parses-rank {p} (halt {line} e s b) = ground (arith, rank-pass_in p.state p.request line)
Parses-rank {p} (next {r} {line} {rest} e s t) =
    ground (arith, rank-pass_in p.state p.request line, rank-at_end r (length rest), Parses-rank t)

-- On a valid buffer, with more fuel than readable bytes, a call of `parseContent` returns, with a
-- state no earlier than the one before.
pub parse_content-rank :
    (f : ℕ) (p : HttpRequestParser) {b : Buffer}
    → IsValid b
    → length (contents b) < f
    → (q : HttpRequestParser) × (c : Buffer) × (parse_content f p b ≡ some (q, c))
      × (rank p.state ≤ rank q.state)
parse_content-rank f p v h =
    let (q, c, ran, _, parses) = parse_content-Runs f p v h in (q, c, ran, Parses-rank parses)

-- Not in `kParseBody`, and with nothing posted.
abbrev pub NoBody : HttpRequestParser → Type 0
NoBody p = (p.state ≢ body) × (p.request.post ≡ [])

post-parse_request_line :
    (r : HttpRequest) (line : Bytes) → (parse_request_line r line).0.post ≡ r.post
unfolding parse_request_line set_method parse_target set_target set_version
post-parse_request_line r line = ground arith

NoBody-pass_in :
    (s : ParseState) (r : HttpRequest) (line : Bytes)
    → s ≢ body
    → r.post ≡ []
    → NoBody (parser_of (pass_in s r line))
unfolding pass_in add_header
NoBody-pass_in request_line r line h k = ground (arith, post-parse_request_line r line)
NoBody-pass_in header r [] h k = ((λ e. cc), k)
NoBody-pass_in header r (c ∷ cs) h k = ground arith
NoBody-pass_in body r line h k = absurd (h refl)
NoBody-pass_in _ r line h k = ((λ e. cc), k)

NoBody-at_end : (p : HttpRequestParser) (n : ℕ) → NoBody p → NoBody (at_end p n)
NoBody-at_end p n h = ground arith

Parses-NoBody :
    {q : HttpRequestParser} {ys : Bytes} {p : HttpRequestParser} {xs : Bytes}
    → Parses q ys p xs
    → NoBody p
    → NoBody q
Parses-NoBody {q} (stop e a b) h = rw a h
Parses-NoBody {p} (halt {line} e s b) h = rw s at (NoBody-pass_in p.state p.request line h.0 h.1)
Parses-NoBody {p} (next {r} {line} {rest} e s t) h =
    Parses-NoBody t
      (NoBody-at_end r (length rest) (rw s at (NoBody-pass_in p.state p.request line h.0 h.1)))

-- Texts that reach a parser one after another, each in a buffer of its own.
pub data Feeds (p : HttpRequestParser) : HttpRequestParser → Type 0 where
  fresh : Feeds p p
  feed :
      {q r : HttpRequestParser} {b c : Buffer} (f : ℕ)
      → Feeds p q
      → IsValid b
      → length (contents b) < f
      → parse_content f q b ≡ some (r, c)
      → Feeds p r

Runs-Parses :
    (p q : HttpRequestParser) (b c : Buffer) {m : Option (HttpRequestParser × Buffer)}
    → Runs p b m
    → m ≡ some (q, c)
    → Parses q (contents c) p (contents b)
Runs-Parses p q b c (q', c', ran, _, parses) e =
    subst₂ (λ x y. Parses x y p (contents b)) same_parser same_rest parses
  where
    same_parser : q' ≡ q
    same_parser = cc

    same_buffer : c' ≡ c
    same_buffer = cc

    same_rest : contents c' ≡ contents c
    same_rest = ap contents same_buffer

-- After any calls of `parseContent` on valid buffers a new parser is not in `kParseBody`, and no
-- assignment of a body is stored in its request.
pub Feeds-NoBody : {p : HttpRequestParser} → Feeds initial p → NoBody p
Feeds-NoBody fresh = ((λ e. cc), refl)
Feeds-NoBody (feed {q} {r} {b} {c} f t v h e) =
    Parses-NoBody (Runs-Parses q r b c (parse_content-Runs f q v h) e) (Feeds-NoBody t)

-- After a complete request, or an error.
abbrev pub IsOver : HttpRequestParser → Type 0
IsOver p = (p.state ≡ got_complete_request) ⊎ (p.state ≡ errno)

pub pass_in-over :
    (s : ParseState) (r : HttpRequest) (line : Bytes)
    → (s ≡ got_complete_request) ⊎ (s ≡ errno)
    → pass_in s r line ≡ returns (record { request = r; state = errno })
unfolding pass_in
pass_in-over request_line r line h = absurd (ground arith)
pass_in-over header r line h = absurd (ground arith)
pass_in-over body r line h = absurd (ground arith)
pass_in-over _ r line h = refl

-- After a complete request or an error, a call on a valid buffer that holds a line, with more fuel
-- than readable bytes, returns with `kParseErrno`: it takes off that line and keeps the request.
pub parse_content-over :
    (f : ℕ) (p : HttpRequestParser) {b : Buffer} {line rest : Bytes}
    → IsValid b
    → length (contents b) < f
    → IsOver p
    → split_line (contents b) ≡ some (line, rest)
    → (c : Buffer) × (parse_content f p b ≡ some (record p { state = errno }, c))
      × (contents c ≡ rest)
parse_content-over f p {b} {line} {rest} v h o e =
    let (q, c, ran, _, parses) = parse_content-Runs f p v h in
    let over : Parses (record p { state = errno }) rest p (contents b) =
      halt e (pass_in-over p.state p.request line o) refl in
    let (same, left) = Parses-unique parses over in (c, ran ∙ ap (λ x. some (x, c)) same, left)
