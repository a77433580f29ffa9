-- ===== src/Http/Parser/RoundTrip.antt =====
-- A request, written out, is read back by `parseContent`.
use mathlib.Core.Path.{subst}
use my_moduo.Base.{
  ℕ, zero, suc, inl, ◌<◌, ◌≡◌, refl, sym, ap, ◌∙◌, ◌≢◌, true, [], ◌∷◌, ◌++◌, append-nil, some,
  arith, Bytes, Lacks, Lacks-append, break_at-append, break_at-Lacks, length, ◌==◌, false, eq_bytes,
}
use my_moduo.Http.Parser.Lines.{Parses, stop, halt, next, Parses-unique}
use my_moduo.Http.Parser.States.{pass_in-over}
use my_moduo.Http.Parser.Texts.{
  method_text, version_text, target_text, line_text, field_text, fields_text, request_text,
  IsPrintable, ArePrintable,
}
use my_moduo.Http.Parser.Total.{parse_content-Runs}
use my_moduo.Http.Parser.{
  HttpRequestParser, breaks, header, body, errno, got_complete_request, pass_request_line,
  pass_header, pass_in, pass, at_end, parse_content, initial,
}
use my_moduo.Http.Request.Form.{assign_all}
use my_moduo.Http.Request.Headers.{IsTrimmed, trim_value}
use my_moduo.Http.Request.Line.{parse_request_line_iff, version_of}
use my_moduo.Http.Request.{
  Method, Version, Fields, HttpRequest, empty, string_to_method, is_known, set_target, add_header,
  is_space, drop_trailing_spaces, skip_spaces, parse_request_line, assign, eq_ignore_case, to_lower,
}
use my_moduo.Net.Buffer.Search.{NoCrlf, split_line, split_line-NoCrlf, split_line-Lacks}
use my_moduo.Net.Buffer.Valid.{IsValid}
use my_moduo.Net.Buffer.{Buffer, contents}

string_to_method-method_text : (m : Method) → string_to_method (method_text m) ≡ m
unfolding string_to_method eq_bytes
string_to_method-method_text Method.get = refl
string_to_method-method_text _ = refl

is_known_lem : (m : Method) → m ≢ Method.invalid → is_known m ≡ true
is_known_lem Method.invalid h = absurd (h refl)
is_known_lem _ h = refl

Lacks-method_text : (m : Method) → Lacks b' ' (method_text m) × Lacks b'\r' (method_text m)
Lacks-method_text Method.get = ground arith
Lacks-method_text _ = ground arith

version_of-version_text : (v : Version) → v ≢ Version.unknown → version_of (version_text v) ≡ some v
unfolding version_of eq_ignore_case to_lower eq_bytes
version_of-version_text Version.http10 h = refl
version_of-version_text Version.http11 h = refl
version_of-version_text Version.unknown h = absurd (h refl)

Lacks-version_text : (v : Version) → Lacks b'\r' (version_text v)
Lacks-version_text Version.http10 = ground arith
Lacks-version_text _ = ground arith

set_target-target_text :
    (r : HttpRequest) (path query : Bytes)
    → r.query ≡ []
    → Lacks b'?' path
    → set_target r (target_text path query) ≡ record r { path = path; query = query }
unfolding set_target
set_target-target_text r path [] e h = ground (arith, break_at-Lacks b'?' path h)
set_target-target_text r path (c ∷ query) e h =
    ground (arith, break_at-append b'?' path (c ∷ query) h)

Lacks-target_text :
    (c : ℕ) (path query : Bytes)
    → (b'?' == c) ≡ false
    → Lacks c path
    → Lacks c query
    → Lacks c (target_text path query)
Lacks-target_text c path [] n h k = h
Lacks-target_text c path (x ∷ query) n h k = Lacks-append c path _ h (n, k)

-- What `parseRequestLine` makes of a request line.
abbrev pub started : HttpRequest → HttpRequest
started r = record empty { method = r.method; version = r.version; path = r.path; query = r.query }

parse_request_line-line_text :
    (r : HttpRequest) → IsPrintable r → parse_request_line empty (line_text r) ≡ (started r, true)
parse_request_line-line_text r h = (parse_request_line_iff empty (started r) (line_text r)).1 (
  method_text r.method,
  target_text r.path r.query,
  version_text r.version,
  r.version,
  refl,
  (Lacks-method_text r.method).0,
  Lacks-target_text b' ' r.path r.query refl h.path_space h.query_space,
  rw (string_to_method-method_text r.method) (is_known_lem r.method h.known),
  version_of-version_text r.version h.version_known,
  rw (
    string_to_method-method_text r.method,
    set_target-target_text (record empty { method = r.method }) r.path r.query refl h.path_mark,
  ),
)

abbrev pub with_headers : HttpRequest → Fields → HttpRequestParser
with_headers r m = record { request = record r { headers = m }; state = header }

pub pass_request_line_text :
    (r : HttpRequest)
    → IsPrintable r
    → pass initial (line_text r) ≡ breaks (with_headers (started r) [])
unfolding pass_in
pass_request_line_text r h = rw (parse_request_line-line_text r h, pass_request_line)

pass_header-colon :
    (r : HttpRequest) (key rest : Bytes)
    → Lacks b':' key
    → pass_header r (key ++ (b':' ∷ rest))
      ≡ breaks (record { request = add_header r key rest; state = header })
unfolding pass_header
pass_header-colon r [] rest h = ground (arith, break_at-append b':' [] rest h)
pass_header-colon r (c ∷ key) rest h = ground (arith, break_at-append b':' (c ∷ key) rest h)

pub pass-field_text :
    (r : HttpRequest) (m : Fields) (k v : Bytes)
    → Lacks b':' k
    → IsTrimmed v
    → pass (with_headers r m) (field_text k v) ≡ breaks (with_headers r (assign k v m))
unfolding pass_in add_header is_space
pass-field_text r m k v h t =
    pass_header-colon (record r { headers = m }) k (b' ' ∷ v) h
    ∙ ap (λ x. breaks (with_headers r (assign k x m))) trimmed
  where
    trimmed : drop_trailing_spaces (skip_spaces (b' ' ∷ v)) ≡ v
    trimmed = rw append-nil at (trim_value (b' ' ∷ []) v [] (refl, tt) tt t)

-- A complete request with these headers.
abbrev pub complete : HttpRequest → Fields → HttpRequestParser
complete r m = record { request = record r { headers = m }; state = got_complete_request }

pub Lacks-field_text : (k v : Bytes) → Lacks b'\r' k → Lacks b'\r' v → Lacks b'\r' (field_text k v)
Lacks-field_text k v h t = Lacks-append b'\r' k _ h (refl, (refl, t))

at_end_lem : (p : HttpRequestParser) (n : ℕ) → p.state ≢ body → at_end p n ≡ p
at_end_lem p zero h = ground arith
at_end_lem p (suc n) h = refl

-- A pass that does not lead to the body goes on with the rest of the text.
pub Parses-next :
    {q : HttpRequestParser} {ys : Bytes} (p r : HttpRequestParser) (line rest : Bytes)
    → Lacks b'\r' line
    → pass p line ≡ breaks r
    → r.state ≢ body
    → Parses q ys r rest
    → Parses q ys p (line ++ (b'\r' ∷ b'\n' ∷ rest))
Parses-next {q} {ys} p r line rest h e n t =
    next (split_line-Lacks line rest h) e
      (subst (λ x. Parses q ys x rest) (sym (at_end_lem r (length rest) n)) t)

pub pass_empty_line :
    (r : HttpRequest) (m : Fields) → pass (with_headers r m) [] ≡ breaks (complete r m)
unfolding pass_in pass_header
pass_empty_line r m = refl

Parses-fields_text :
    {q : HttpRequestParser} {ys : Bytes} (r : HttpRequest) (fields m : Fields) (rest : Bytes)
    → ArePrintable fields
    → Parses q ys (complete r (assign_all fields m)) rest
    → Parses q ys (with_headers r m) (fields_text fields rest)
Parses-fields_text r [] m rest h t =
    Parses-next (with_headers r m) (complete r m) [] rest tt (pass_empty_line r m) (λ e. cc) t
Parses-fields_text r ((k, v) ∷ fields) m rest h t =
    Parses-next (with_headers r m) (with_headers r (assign k v m)) (field_text k v)
      (fields_text fields rest) (Lacks-field_text k v h.1 h.2) (pass-field_text r m k v h.0 h.3)
      (λ e. cc) (Parses-fields_text r fields (assign k v m) rest h.4 t)

pub Lacks-line_text : (r : HttpRequest) → IsPrintable r → Lacks b'\r' (line_text r)
Lacks-line_text r h = Lacks-append b'\r' (method_text r.method) _ (Lacks-method_text r.method).1 (
  refl,
  Lacks-append b'\r' (target_text r.path r.query) _
      (Lacks-target_text b'\r' r.path r.query refl h.path_line h.query_line)
      (refl, Lacks-version_text r.version),
)

Parses-request_text :
    {q : HttpRequestParser} {ys : Bytes} (r : HttpRequest) (fields : Fields) (rest : Bytes)
    → IsPrintable r
    → ArePrintable fields
    → Parses q ys (complete (started r) (assign_all fields [])) rest
    → Parses q ys initial (request_text r fields rest)
Parses-request_text r fields rest h k t =
    Parses-next initial (with_headers (started r) []) (line_text r) (fields_text fields rest)
      (Lacks-line_text r h) (pass_request_line_text r h) (λ e. cc)
      (Parses-fields_text (started r) fields [] rest k t)

-- From a new parser, on a valid buffer that holds a printable request and no further line, with
-- more fuel than readable bytes, `parseContent` returns with the request complete, with its method,
-- path, query, version and header fields in order, and leaves what follows the empty line.
pub parse_content-request_text :
    (f : ℕ) (r : HttpRequest) (fields : Fields) (rest : Bytes) {b : Buffer}
    → IsValid b
    → length (contents b) < f
    → contents b ≡ request_text r fields rest
    → IsPrintable r
    → ArePrintable fields
    → NoCrlf rest
    → (c : Buffer) × (parse_content f initial b
        ≡ some (complete (started r) (assign_all fields []), c))
      × (contents c ≡ rest)
parse_content-request_text f r fields rest {b} v n e h k t =
    let (q, c, ran, _, parses) = parse_content-Runs f initial v n in
    let read : Parses (complete (started r) (assign_all fields [])) rest initial (contents b) =
      rw e (Parses-request_text r fields rest h k (stop (split_line-NoCrlf rest t) refl refl)) in
    let (same, left) = Parses-unique parses read in (c, ran ∙ ap (λ x. some (x, c)) same, left)

-- If a further line follows a printable request in a valid buffer, as of a pipelined request, then a
-- call from a new parser, with more fuel than readable bytes, returns with `kParseErrno`, though the
-- first request is well formed, and takes off that line.
parse_content_pipelined :
    (f : ℕ) (r : HttpRequest) (fields : Fields) (rest line more : Bytes) {b : Buffer}
    → IsValid b
    → length (contents b) < f
    → contents b ≡ request_text r fields rest
    → IsPrintable r
    → ArePrintable fields
    → split_line rest ≡ some (line, more)
    → (c : Buffer) × (parse_content f initial b
        ≡ some (record (complete (started r) (assign_all fields [])) { state = errno }, c))
      × (contents c ≡ more)
parse_content_pipelined f r fields rest line more {b} v n e h k t =
    let (q, c, ran, _, parses) = parse_content-Runs f initial v n in
    let failed = record (complete (started r) (assign_all fields [])) { state = errno } in
    let read : Parses failed more initial (contents b) = rw e (
      Parses-request_text r fields rest h k
        (halt t (pass_in-over got_complete_request _ line (inl refl)) refl)) in
    let (same, left) = Parses-unique parses read in (c, ran ∙ ap (λ x. some (x, c)) same, left)
