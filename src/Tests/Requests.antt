-- ===== src/Tests/Requests.antt =====
-- Http/httprequest.cpp and Http/httprequestparser.cpp at concrete inputs.
use my_moduo.Base.{◌≤◌, ◌≡◌, refl, ◌↔◌, true, [], ◌∷◌, ◌++◌, some, arith, codes, length, Bytes}
use my_moduo.Http.Parser.RoundTrip.{started, complete, parse_content-request_text}
use my_moduo.Http.Parser.States.{rank, parse_content-rank, Feeds, fresh, feed, NoBody, Feeds-NoBody}
use my_moduo.Http.Parser.Texts.{request_text, IsPrintable, ArePrintable}
use my_moduo.Http.Parser.Total.{Runs, parse_content-Runs}
use my_moduo.Http.Parser.{HttpRequestParser, initial, parse_content}
use my_moduo.Http.Request.Form.{render_pairs, assign_all, parse_post-render_pairs}
use my_moduo.Http.Request.Line.{ReadsLine, parse_request_line_iff}
use my_moduo.Http.Request.{
  Method, Version, Fields, HttpRequest, empty, parse_request_line, parse_post, is_space,
}
use my_moduo.Net.Buffer.Valid.{IsValid}
use my_moduo.Net.Buffer.{Buffer, contents}

abbrev space : Bytes
space = b' ' ∷ []

abbrev host : Bytes
host = codes "Host"

abbrev line : Bytes
line = codes "GET /a?b HTTP/1.1"

abbrev asked : HttpRequest
asked = record empty {
  method = Method.get;
  version = Version.http11;
  path = codes "/a";
  query = codes "b";
}

parse_request_line_iff_example :
    (parse_request_line empty line ≡ (asked, true)) ↔ ReadsLine empty line asked
parse_request_line_iff_example = parse_request_line_iff empty asked line

abbrev form : Fields
form = (codes "user", codes "me") ∷ (codes "id", codes "7") ∷ []

parse_post-render_pairs_example :
    parse_post empty (render_pairs form) ≡ (record empty { post = assign_all form [] }, true)
parse_post-render_pairs_example = parse_post-render_pairs empty form (ground arith)

abbrev fields : Fields
fields = (host, codes "a.com") ∷ []

-- A buffer that holds the request and then `rest`.
abbrev holding : Bytes → Buffer
holding rest = record {
  bytes = codes "........" ++ request_text asked fields rest;
  read_index = 8;
  write_index = length (codes "........" ++ request_text asked fields rest);
}

abbrev one : Buffer
one = holding []

one-IsValid : IsValid one
one-IsValid = omega arith

parse_content-Runs_example : Runs initial one (parse_content 99 initial one)
parse_content-Runs_example = parse_content-Runs 99 initial {b = one} one-IsValid (omega arith)

parse_content-rank_example :
    (q : HttpRequestParser) × (c : Buffer) × (parse_content 99 initial one ≡ some (q, c))
    × (rank initial.state ≤ rank q.state)
parse_content-rank_example = parse_content-rank 99 initial {b = one} one-IsValid (omega arith)

asked-IsPrintable : IsPrintable asked
asked-IsPrintable = record {
  known = λ e. cc;
  version_known = λ e. cc;
  path_space = ground arith;
  path_mark = ground arith;
  path_line = ground arith;
  query_space = ground arith;
  query_line = ground arith;
}

fields-ArePrintable : ArePrintable fields
fields-ArePrintable =
    (ground arith, ground arith, ground arith, unfold is_space in (refl, refl), tt)

-- What the first call leaves.
abbrev done : HttpRequestParser
done = complete (started asked) (assign_all fields [])

parse_content-request_text_example :
    (c : Buffer) × (parse_content 99 initial one ≡ some (done, c)) × (contents c ≡ [])
parse_content-request_text_example =
    parse_content-request_text 99 asked fields [] {b = one} one-IsValid (omega arith) refl
      asked-IsPrintable fields-ArePrintable tt

abbrev next_line : Bytes
next_line = codes "GET / HTTP/1.1\r\n"

abbrev two : Buffer
two = holding next_line

two-IsValid : IsValid two
two-IsValid = omega arith

-- The next request of a connection that stays open.
abbrev second : Buffer
second = record { bytes = codes "........" ++ next_line; read_index = 8; write_index = 24 }

second-IsValid : IsValid second
second-IsValid = omega arith

one-read : (c : Buffer) × (parse_content 99 initial one ≡ some (done, c)) × (contents c ≡ [])
one-read =
    parse_content-request_text 99 asked fields [] {b = one} one-IsValid (omega arith) refl
      asked-IsPrintable fields-ArePrintable tt

one-Feeds : Feeds initial done
one-Feeds = feed {b = one} 99 fresh one-IsValid (omega arith) one-read.1

Feeds-NoBody_example : NoBody done
Feeds-NoBody_example = Feeds-NoBody one-Feeds
