-- ===== src/Program/Pages.antt =====
-- What the program answers to a request, end to end.
use my_moduo.Base.{
  arith, not, ◌≡◌, ◌≢◌, sym, ap, inl, inr, Bool, true, false, ◌||◌, [], Bytes, codes, eq_bytes,
  eq_bytes_iff, Bool-cases, if-false,
}
use mathlib.Core.Path.{subst}
use my_moduo.Http.Request.{Method, HttpRequest}
use my_moduo.Http.Response.{HttpResponse, ok_200, not_found_404, bad_request_400, init}
use my_moduo.Program.Icon.{favicon}
use my_moduo.Program.Website.{website}
use my_moduo.Program.{res_callback, is_get}

-- The pages: path, content type and body.
pub data Page : Bytes → Bytes → Bytes → Type 0 where
  home : Page (codes "/") (codes "text/html") website
  hello : Page (codes "/hello") (codes "text/html") (codes "Hello, world!\n")
  icon_file : Page (codes "/favicon.ico") (codes "image/png") favicon
  icon : Page (codes "/favicon") (codes "image/png") favicon

abbrev found : Bool → Bytes → Bytes → HttpResponse
found close kind text = record {
  status_code = ok_200;
  status_message = codes "OK";
  body = text;
  content_type = kind;
  close_connection = close;
}

abbrev missing : HttpResponse
missing = record {
  status_code = not_found_404;
  status_message = codes "Not Found";
  body = [];
  content_type = codes "text/html";
  close_connection = true;
}

abbrev refused : HttpResponse
refused = record {
  status_code = bad_request_400;
  status_message = codes "Bad Request";
  body = [];
  content_type = codes "text/html";
  close_connection = true;
}

-- The response that a request shall have, where the connection is to be closed or not.
pub data Expected (r : HttpRequest) (close : Bool) : HttpResponse → Type 0 where
  page :
      {kind text : Bytes}
      → r.method ≡ Method.get
      → Page r.path kind text
      → Expected r close (found close kind text)
  no_page :
      r.method ≡ Method.get
      → ((kind text : Bytes) → Page r.path kind text → ⊥)
      → Expected r close missing
  no_get : r.method ≢ Method.get → Expected r close refused

is_get_lem : (m : Method) → is_get m ≡ true → m ≡ Method.get
is_get_lem m h = ground arith

-- A path that none of the tests accepts has no page.
no_page_lem :
    {path kind text : Bytes}
    → eq_bytes path (codes "/") ≡ false
    → eq_bytes path (codes "/hello") ≡ false
    → (eq_bytes path (codes "/favicon.ico") || eq_bytes path (codes "/favicon")) ≡ false
    → Page path kind text
    → ⊥
unfolding eq_bytes
no_page_lem h1 h2 h3 home = cc
no_page_lem h1 h2 h3 hello = cc
no_page_lem h1 h2 h3 icon_file = cc
no_page_lem h1 h2 h3 icon = cc

page_at :
    (r : HttpRequest) (close : Bool) {path kind text : Bytes}
    → r.method ≡ Method.get
    → Page path kind text
    → eq_bytes r.path path ≡ true
    → Expected r close (found close kind text)
page_at r close {path} {kind} {text} g p e =
    page g (subst (λ x. Page x kind text) (sym ((eq_bytes_iff r.path path).0 e)) p)

res_callback-get :
    (r : HttpRequest) (close : Bool)
    → r.method ≡ Method.get
    → Expected r close (res_callback r (init close))
unfolding res_callback
res_callback-get r close g =
    subst (Expected r close) (sym (if-false _ _ _ (ap (λ m. not (is_get m)) g)))
      (elim (Bool-cases (eq_bytes r.path (codes "/"))) [
        | inl e ↦ rw e (page_at r close g home e)
        | inr h1 ↦ rw h1 (elim (Bool-cases (eq_bytes r.path (codes "/hello"))) [
          | inl e ↦ rw e (page_at r close g hello e)
          | inr h2 ↦ rw h2 (elim (Bool-cases (eq_bytes r.path (codes "/favicon.ico"))) [
            | inl e ↦ rw e (page_at r close g icon_file e)
            | inr h3 ↦ rw h3 (elim (Bool-cases (eq_bytes r.path (codes "/favicon"))) [
              | inl e ↦ rw e (page_at r close g icon e)
              | inr h4 ↦ rw h4 (no_page g (λ kind text p. no_page_lem h1 h2 (rw h3 h4) p))
            ])
          ])
        ])
      ])

-- `resCallback` gives a request the response it shall have: the page, and 404 or 400 with the
-- connection closed.
pub res_callback-Expected :
    (r : HttpRequest) (close : Bool) → Expected r close (res_callback r (init close))
unfolding res_callback
res_callback-Expected r close = elim (Bool-cases (is_get r.method)) [
  | inl e ↦ res_callback-get r close (is_get_lem r.method e)
  | inr e ↦ rw e (no_get (λ g. ground (arith, g, e)))
]
