-- ===== src/Tests/Programs.antt =====
-- main.cpp at concrete inputs.
use my_moduo.Base.{
  ◌≡◌, false, none, some, eq_bytes, refl, List, map, [], ◌∷◌, ◌++◌, arith, Bytes, codes,
}
use my_moduo.Http.Parser.Steps.{lines_text, field_lines}
use my_moduo.Http.Parser.Texts.{line_text, IsPrintable, ArePrintable}
use my_moduo.Http.Parser.{initial}
use my_moduo.Http.Request.{
  Method, Version, Fields, HttpRequest, empty, is_space, find, assign, header,
}
use my_moduo.Http.Response.Render.{response_text}
use my_moduo.Http.Response.{HttpResponse}
use my_moduo.Http.Server.Replies.{Replies}
use my_moduo.Http.Server.Answers.{request_of}
use my_moduo.Http.Server.Reading.{Waits, on_reads}
use my_moduo.Http.Server.Sending.{CanSend, state_after}
use my_moduo.Http.Server.{Session, wants_close}
use my_moduo.Net.Buffer.{Buffer}
use my_moduo.Net.Buffer
use my_moduo.Net.Channel.{change_events}
use my_moduo.Net.TcpConnection.Closing.{established, established-IsCoherent}
use my_moduo.Net.TcpConnection.{took, connection_established}
use my_moduo.Program.Pages.{Expected}
use my_moduo.Program.Serving.{program_serves}
use my_moduo.Program.{res_callback}

abbrev hello : HttpRequest
hello = record empty { method = Method.get; version = Version.http11; path = codes "/hello" }

abbrev fields : Fields
fields = (codes "Connection", codes "Keep-Alive") ∷ []

hello-IsPrintable : IsPrintable hello
hello-IsPrintable = record {
  known = λ e. cc;
  version_known = λ e. cc;
  path_space = ground arith;
  path_mark = ground arith;
  path_line = ground arith;
  query_space = ground arith;
  query_line = ground arith;
}

fields-ArePrintable : ArePrintable fields
fields-ArePrintable =
    (ground arith, ground arith, ground arith, unfold is_space in (refl, refl), tt)

abbrev waiting : Session
waiting = record { connection = established; parser = initial }

waiting-Waits : Waits waiting
unfolding connection_established change_events Buffer.init
waiting-Waits = record {
  valid = omega arith;
  header_only = omega arith;
  no_input = refl;
  new_parser = refl;
}

-- `write` takes the first nine bytes.
CanSend-waiting : (msg : Bytes) → CanSend (took 9) (codes "HTTP/1.1 " ++ msg) established
unfolding connection_established change_events Buffer.init
CanSend-waiting msg = record {
  coherent = established-IsCoherent;
  is_open = refl;
  healthy = tt;
  answers = omega arith;
  keeps = ground arith;
}

-- The request line comes in the first read, and the other two lines in the second.
abbrev groups : List (List Bytes)
groups = (line_text hello ∷ []) ∷ field_lines fields ∷ []

-- `Connection: Keep-Alive` on HTTP/1.1.
keeps : wants_close (request_of hello fields) ≡ some false
unfolding wants_close header find assign eq_bytes
keeps = refl

-- Without the field the source reads what is no longer there.
dangles : wants_close (request_of hello []) ≡ none
unfolding wants_close header find
dangles = refl

program_serves_example :
    (response : HttpResponse) × Expected (request_of hello fields) false response
    × Replies
        (response_text response)
        (state_after response.close_connection)
        waiting
        (on_reads res_callback (took 9) (map lines_text groups) waiting)
program_serves_example =
    program_serves (took 9) hello fields false groups waiting keeps tt refl waiting-Waits
      hello-IsPrintable fields-ArePrintable (CanSend-waiting _)
