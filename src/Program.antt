-- ===== src/Program.antt =====
-- main.cpp: the responses of the program.
pub mod Icon
pub mod Website
pub mod Pages
pub mod Serving
pub mod Log
pub mod Logged
use my_moduo.Base.{Bool, true, false, not, codes, eq_bytes, ◌||◌, if◌then◌else◌}
use my_moduo.Http.Request.{Method}
use my_moduo.Http.Response.{
  ok_200, bad_request_400, not_found_404, set_status_code, set_status_message, set_close_connection,
  set_content_type, set_body,
}
use my_moduo.Http.Server.{ResponseCallback}
use Icon.{favicon}
use Website.{website}

-- `request.method() == HttpRequest::Method::kGet`
abbrev pub is_get : Method → Bool
is_get Method.get = true
is_get _ = false

-- `resCallback`
unfoldable pub res_callback : ResponseCallback
res_callback request response =
    if not (is_get request.method)
    then set_close_connection true
        (set_status_message (codes "Bad Request") (set_status_code bad_request_400 response))
    else if eq_bytes request.path (codes "/")
    then set_body website (
        set_content_type (codes "text/html")
          (set_status_message (codes "OK") (set_status_code ok_200 response)))
    else if eq_bytes request.path (codes "/hello")
    then set_body (codes "Hello, world!\n") (
        set_content_type (codes "text/html")
          (set_status_message (codes "OK") (set_status_code ok_200 response)))
    else if eq_bytes request.path (codes "/favicon.ico") || eq_bytes request.path (codes "/favicon")
    then set_body favicon (
        set_content_type (codes "image/png")
          (set_status_message (codes "OK") (set_status_code ok_200 response)))
    else set_close_connection true
        (set_status_message (codes "Not Found") (set_status_code not_found_404 response))
