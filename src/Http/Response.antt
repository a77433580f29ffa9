-- ===== src/Http/Response.antt =====
-- Http/httpresponse.h and Http/httpresponse.cpp: the response and how it is written out.
pub mod Render
use my_moduo.Base.{ℕ, Bool, List, [], ◌∷◌, ◌++◌, Bytes, codes, length, to_decimal, if◌then◌else◌}
use my_moduo.Net.Buffer.{Buffer, append}

pub data HttpStatusCode : Type 0 where
  continue_100 ok_200 bad_request_400 forbidden_403 not_found_404 internal_server_errno_500 :
      HttpStatusCode

-- `static_cast<int>`
abbrev pub status_number : HttpStatusCode → ℕ
status_number continue_100 = 100
status_number ok_200 = 200
status_number bad_request_400 = 400
status_number forbidden_403 = 403
status_number not_found_404 = 404
status_number internal_server_errno_500 = 500

pub record HttpResponse : Type 0 where
  pub status_code : HttpStatusCode
  pub status_message : Bytes
  pub body : Bytes
  pub content_type : Bytes
  pub close_connection : Bool

-- `HttpResponse(bool close)`
abbrev pub init : Bool → HttpResponse
init close = record {
  status_code = ok_200;
  status_message = [];
  body = [];
  content_type = codes "text/html";
  close_connection = close;
}

abbrev pub set_status_code : HttpStatusCode → HttpResponse → HttpResponse
set_status_code code r = record r { status_code = code }

abbrev pub set_status_message : Bytes → HttpResponse → HttpResponse
set_status_message message r = record r { status_message = message }

abbrev pub set_close_connection : Bool → HttpResponse → HttpResponse
set_close_connection on r = record r { close_connection = on }

abbrev pub set_content_type : Bytes → HttpResponse → HttpResponse
set_content_type type r = record r { content_type = type }

abbrev pub set_body : Bytes → HttpResponse → HttpResponse
set_body text r = record r { body = text }

abbrev pub server_name : Bytes
server_name = codes "Ymirth server"

abbrev pub crlf : Bytes
crlf = b'\r' ∷ b'\n' ∷ []

abbrev append_status : HttpResponse → Buffer → Buffer
append_status r b = append b (
    codes "HTTP/1.1 "
    ++ (to_decimal (status_number r.status_code) ++ (codes " " ++ (r.status_message ++ crlf))))

abbrev append_connection : HttpResponse → Buffer → Buffer
append_connection r b =
    if r.close_connection
    then append b (codes "Connection: close" ++ crlf)
    else append (append b (codes "Content-length: " ++ (to_decimal (length r.body) ++ crlf)))
        (codes "Connection: Keep-Alive" ++ crlf)

abbrev append_rest : HttpResponse → Buffer → Buffer
append_rest r b =
    append
      (append
        (append (append b (codes "Content-type: " ++ (r.content_type ++ crlf)))
          (codes "Server: " ++ (server_name ++ crlf)))
        crlf)
      r.body

unfoldable pub append_to_buffer : HttpResponse → Buffer → Buffer
append_to_buffer r b = append_rest r (append_connection r (append_status r b))
