-- ===== src/Http/Response/Render.antt =====
-- What a response looks like on the wire, and that a client reads its fields back.
use mathlib.Core.Option
use my_moduo.Base.{
  concat, ◌≡◌, refl, ap, ◌∙◌, inl, inr, List, [], ◌∷◌, ◌++◌, append_assoc, append-nil, none, some,
  Bytes, codes, Bool-cases, length, to_decimal, of_decimal, of_decimal-to_decimal, if◌then◌else◌,
  eq_bytes,
}
use my_moduo.Http.Parser.Texts.{fields_text}
use my_moduo.Http.Request.{Fields, find}
use my_moduo.Http.Response.{HttpResponse, status_number, server_name, crlf, append_to_buffer}
use my_moduo.Net.Buffer.Fresh.{IsFresh, append_all, append_all-IsFresh, contents-append_all}
use my_moduo.Net.Buffer.{Buffer, contents}

-- The header fields in the order in which they are sent.
abbrev pub fields_of : HttpResponse → Fields
fields_of r =
    (if r.close_connection
      then (codes "Connection", codes "close") ∷ []
      else (codes "Content-length", to_decimal (length r.body))
        ∷ (codes "Connection", codes "Keep-Alive")
        ∷ [])
    ++ ((codes "Content-type", r.content_type) ∷ (codes "Server", server_name) ∷ [])

-- The status line, the fields, an empty line and the body.
abbrev pub response_text : HttpResponse → Bytes
response_text r =
    codes "HTTP/1.1 "
    ++ (to_decimal (status_number r.status_code)
        ++ (b' ' ∷ (r.status_message ++ (b'\r' ∷ b'\n' ∷ fields_text (fields_of r) r.body))))

-- The pieces that are appended one by one.
abbrev pieces : HttpResponse → List Bytes
pieces r =
    (codes "HTTP/1.1 "
      ++ (to_decimal (status_number r.status_code) ++ (codes " " ++ (r.status_message ++ crlf))))
    ∷ ((if r.close_connection
          then (codes "Connection: close" ++ crlf) ∷ []
          else (codes "Content-length: " ++ (to_decimal (length r.body) ++ crlf))
            ∷ (codes "Connection: Keep-Alive" ++ crlf)
            ∷ [])
        ++ ((codes "Content-type: " ++ (r.content_type ++ crlf))
            ∷ (codes "Server: " ++ (server_name ++ crlf))
            ∷ crlf
            ∷ r.body
            ∷ []))

append_to_buffer-pieces :
    (r : HttpResponse) (b : Buffer) → append_to_buffer r b ≡ append_all b (pieces r)
unfolding append_to_buffer
append_to_buffer-pieces r b = elim (Bool-cases r.close_connection) [ inl e ↦ rw e | inr e ↦ rw e ]

concat-pieces : (r : HttpResponse) → concat (pieces r) ≡ response_text r
concat-pieces r = elim (Bool-cases r.close_connection) [
  | inl e ↦ rw e (simp (append_assoc, append-nil))
  | inr e ↦ rw e (simp (append_assoc, append-nil))
]

-- Into a buffer of which nothing but the header has been read, `appendToBuffer` puts the status
-- line, the header fields, an empty line and the body, behind what was there.
pub contents-append_to_buffer :
    (r : HttpResponse) {b : Buffer}
    → IsFresh b
    → (contents (append_to_buffer r b) ≡ contents b ++ response_text r)
      × IsFresh (append_to_buffer r b)
contents-append_to_buffer r {b} h = rw (append_to_buffer-pieces r b) (
  contents-append_all b (pieces r) h ∙ ap (◌++◌ (contents b)) (concat-pieces r),
  append_all-IsFresh b (pieces r) h,
)

find-fields_of :
    (r : HttpResponse)
    → (find (codes "Connection") (fields_of r)
        ≡ some (if r.close_connection then codes "close" else codes "Keep-Alive"))
      × (Option.map of_decimal (find (codes "Content-length") (fields_of r))
          ≡ (if r.close_connection then none else some (length r.body)))
unfolding find eq_bytes
find-fields_of r = elim (Bool-cases r.close_connection) [
  | inl e ↦ rw e (refl, refl)
  | inr e ↦ rw e (refl, ap some (of_decimal-to_decimal (length r.body)))
]

-- Into a buffer of which nothing but the header has been read, `appendToBuffer` puts, behind what was
-- there, the status line with the number and the message, lines of header fields, an empty line and
-- the body, and nothing else. Of these fields, `Content-length` is sent exactly if the connection
-- stays open, and then it reads back as the number of bytes of the body; `Connection` says which of
-- the two it is; and the type of the content is the response's.
pub append_to_buffer-fields :
    (r : HttpResponse) {b : Buffer}
    → IsFresh b
    → (fields : Fields) × (contents (append_to_buffer r b)
        ≡ contents b
          ++ (codes "HTTP/1.1 "
              ++ (to_decimal (status_number r.status_code)
                  ++ (b' ' ∷ (r.status_message ++ (b'\r' ∷ b'\n' ∷ fields_text fields r.body))))))
      × (find (codes "Connection") fields
          ≡ some (if r.close_connection then codes "close" else codes "Keep-Alive"))
      × (Option.map of_decimal (find (codes "Content-length") fields)
          ≡ (if r.close_connection then none else some (length r.body)))
      × (find (codes "Content-type") fields ≡ some r.content_type)
unfolding find eq_bytes
append_to_buffer-fields r {b} h =
    let (connection, size) = find-fields_of r in
    let type : find (codes "Content-type") (fields_of r) ≡ some r.content_type =
      elim (Bool-cases r.close_connection) [ inl e ↦ rw e refl | inr e ↦ rw e refl ] in
    (fields_of r, (contents-append_to_buffer r h).0, connection, size, type)
