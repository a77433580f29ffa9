-- ===== src/Program/Serving.antt =====
-- The program as its users see it: a request goes in and a page comes out.
use my_moduo.Base.{◌≡◌, Bool, some, List, map, concat, Bytes}
use my_moduo.Http.Parser.Steps.{lines_text, request_lines}
use my_moduo.Http.Parser.Texts.{IsPrintable, ArePrintable}
use my_moduo.Http.Request.{Fields, HttpRequest}
use my_moduo.Http.Response.Render.{response_text}
use my_moduo.Http.Response.{HttpResponse}
use my_moduo.Http.Server.Replies.{Replies}
use my_moduo.Http.Server.Answers.{request_of}
use my_moduo.Http.Server.Reading.{Waits, AreFilled, on_reads, on_reads_serve}
use my_moduo.Http.Server.Sending.{CanSend, state_after}
use my_moduo.Http.Server.{Session, wants_close, respond}
use my_moduo.Net.TcpConnection.{Write}
use my_moduo.Program.Pages.{Expected, res_callback-Expected}
use my_moduo.Program.{res_callback}

-- If the lines of a printable request that has the field `Connection`, by whose value and the
-- version the request asks to close the connection or to keep it, the empty line at its end
-- included, arrive at a connected session that waits for the first request, in reads of one or more
-- whole lines each, and nothing that is sent is lost, the program sends the response that the
-- request shall have - the page under its path, 404 or 400 - once the last line is there, shuts the
-- connection down if that response closes it, and leaves no input.
pub program_serves :
    (w : Write) (r : HttpRequest) (fields : Fields) (close : Bool) (groups : List (List Bytes))
    (s : Session)
    → wants_close (request_of r fields) ≡ some close
    → AreFilled groups
    → concat groups ≡ request_lines r fields
    → Waits s
    → IsPrintable r
    → ArePrintable fields
    → CanSend w (response_text (respond res_callback close (request_of r fields))) s.connection
    → (response : HttpResponse) × Expected (request_of r fields) close response
      × Replies
          (response_text response)
          (state_after response.close_connection)
          s
          (on_reads res_callback w (map lines_text groups) s)
program_serves w r fields close groups s asks f e v h k c = (
  respond res_callback close (request_of r fields),
  res_callback-Expected (request_of r fields) close,
  on_reads_serve res_callback w r fields close groups s asks f e v h k c,
)
