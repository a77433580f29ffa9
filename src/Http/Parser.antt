-- ===== src/Http/Parser.antt =====
-- Http/httpstate.h and Http/httprequestparser.{h,cpp}: the state machine over a buffer's lines.
pub mod Lines
pub mod Texts
pub mod Total
pub mod States
pub mod RoundTrip
pub mod Steps
use my_moduo.Base.{
  ℕ, zero, suc, ◌+◌, Bool, true, false, List, [], ◌∷◌, Option, none, some, Bytes, break_at, take,
  ◌>>=◌, if◌then◌else◌,
}
use my_moduo.Http.Request.{HttpRequest, empty, parse_request_line, add_header, parse_request_body}
use my_moduo.Net.Buffer.{Buffer, contents, readable_bytes, find_crlf, retrieve_until_index}

-- `HttpRequestParseState`
pub data ParseState : Type 0 where
  request_line header body got_complete_request errno : ParseState

pub record HttpRequestParser : Type 0 where
  pub request : HttpRequest
  pub state : ParseState

-- `HttpRequestParser()`
abbrev pub initial : HttpRequestParser
initial = record { request = empty; state = request_line }

-- `swap` of `HttpRequest`, as it leaves its first argument: it does not exchange `m_post`.
abbrev pub swap_request : HttpRequest → HttpRequest → HttpRequest
swap_request r that = record that { post = r.post }

-- `reset`
unfoldable pub reset : HttpRequestParser → HttpRequestParser
reset p = record { request = swap_request p.request empty; state = request_line }

-- `gotAll`
abbrev pub got_all : HttpRequestParser → Bool
got_all p = elim p.state [ got_complete_request ↦ true | _ ↦ false ]

-- How a pass through the `switch` ends: by `break`, or by `return m_state`.
pub data Pass : Type 0 where
  breaks returns : HttpRequestParser → Pass

abbrev pub parser_of : Pass → HttpRequestParser
parser_of (breaks p) = p
parser_of (returns p) = p

abbrev fail : HttpRequest → Pass
fail r = returns (record { request = r; state = errno })

pass_request_line : HttpRequest → Bytes → Pass
pass_request_line r line =
    let (r', parsed) = parse_request_line r line in
    if parsed then breaks (record { request = r'; state = header }) else fail r'

pass_header : HttpRequest → Bytes → Pass
pass_header r [] = breaks (record { request = r; state = got_complete_request })
pass_header r (c ∷ cs) = elim (break_at b':' (c ∷ cs)) [
  | none ↦ fail r
  | some (field, rest) ↦ breaks (record { request = add_header r field rest; state = header })
]

pass_body : HttpRequest → Bytes → Pass
pass_body r [] = returns (record { request = r; state = got_complete_request })
pass_body r (c ∷ cs) =
    let (r', parsed) = parse_request_body r (c ∷ cs) in
    if parsed then returns (record { request = r'; state = got_complete_request }) else fail r'

-- The `switch` on `m_state`, for one line without its end.
unfoldable pub pass_in : ParseState → HttpRequest → Bytes → Pass
unfolding pass_request_line pass_header pass_body
pass_in request_line r line = pass_request_line r line
pass_in header r line = pass_header r line
pass_in body r line = pass_body r line
pass_in _ r line = fail r

abbrev pub pass : HttpRequestParser → Bytes → Pass
pass p line = pass_in p.state p.request line

-- The test behind the `switch`.
abbrev pub at_end : HttpRequestParser → ℕ → HttpRequestParser
at_end p zero = elim p.state [ body ↦ record p { state = got_complete_request } | _ ↦ p ]
at_end p (suc n) = p

-- `parseContent` on fuel: `none` if that runs out or an `assert` fails. The state that it returns is
-- that of the parser. The line is taken before the read index moves, over the same bytes.
unfoldable pub parse_content : ℕ → HttpRequestParser → Buffer → Option (HttpRequestParser × Buffer)
parse_content zero p b = none
parse_content (suc f) p b = elim (readable_bytes b) [
  | zero ↦ some (p, b)
  | suc _ ↦ elim (find_crlf b) [
    | none ↦ some (p, b)
    | some crlf ↦ elim (retrieve_until_index b (crlf + 2)) [
      | none ↦ none
      | some c ↦ elim (pass p (take crlf (contents b))) [
        | returns q ↦ some (q, c)
        | breaks q ↦ parse_content f (at_end q (readable_bytes c)) c
      ]
    ]
  ]
]
