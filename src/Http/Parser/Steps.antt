-- ===== src/Http/Parser/Steps.antt =====
-- A request whose lines arrive in several texts.
use my_moduo.Base.{◌≡◌, ◌≢◌, refl, ap, ◌∙◌, List, [], ◌∷◌, ◌++◌, some, Bytes, Lacks, ℕ, ◌<◌, length}
use my_moduo.Http.Parser.Lines.{Parses, stop, Parses-unique}
use my_moduo.Http.Parser.RoundTrip.{
  started, complete, with_headers, pass_request_line_text, pass-field_text, pass_empty_line,
  Lacks-line_text, Lacks-field_text, Parses-next,
}
use my_moduo.Http.Parser.States.{IsOver, pass_in-over}
use my_moduo.Http.Parser.Texts.{
  line_text, field_text, fields_text, request_text, IsPrintable, ArePrintable,
}
use my_moduo.Http.Parser.Total.{parse_content-Runs}
use my_moduo.Http.Parser.{HttpRequestParser, body, breaks, pass, initial, parse_content}
use my_moduo.Http.Request.Form.{assign_all}
use my_moduo.Http.Request.{Fields, HttpRequest}
use my_moduo.Net.Buffer.Search.{split_line}
use my_moduo.Net.Buffer.Valid.{IsValid}
use my_moduo.Net.Buffer.{Buffer, contents}

-- Lines, each with its end.
abbrev pub lines_text : List Bytes → Bytes
lines_text [] = []
lines_text (l ∷ ls) = l ++ (b'\r' ∷ b'\n' ∷ lines_text ls)

abbrev pub field_lines : Fields → List Bytes
field_lines [] = [] ∷ []
field_lines ((k, v) ∷ m) = field_text k v ∷ field_lines m

-- The lines of a request, the empty one included.
abbrev pub request_lines : HttpRequest → Fields → List Bytes
request_lines r fields = line_text r ∷ field_lines fields

fields_text-field_lines : (m : Fields) → lines_text (field_lines m) ≡ fields_text m []
fields_text-field_lines [] = refl
fields_text-field_lines ((k, v) ∷ m) =
    ap (λ t. field_text k v ++ (b'\r' ∷ b'\n' ∷ t)) (fields_text-field_lines m)

-- They make up its text.
request_text-request_lines :
    (r : HttpRequest) (fields : Fields)
    → lines_text (request_lines r fields) ≡ request_text r fields []
request_text-request_lines r fields =
    ap (λ t. line_text r ++ (b'\r' ∷ b'\n' ∷ t)) (fields_text-field_lines fields)

-- The passes over these lines take the parser from `p` to `q`, none of them to the body.
abbrev pub Steps : HttpRequestParser → HttpRequestParser → List Bytes → Type 0
Steps q p [] = q ≡ p
Steps q p (l ∷ ls) =
    Lacks b'\r' l
    × ((r : HttpRequestParser) × (pass p l ≡ breaks r) × (r.state ≢ body) × Steps q r ls)

Parses-Steps :
    (q p : HttpRequestParser) (ls : List Bytes) → Steps q p ls → Parses q [] p (lines_text ls)
unfolding split_line
Parses-Steps q p [] h = stop refl h refl
Parses-Steps q p (l ∷ ls) (n, (r, e, s, t)) =
    Parses-next p r l (lines_text ls) n e s (Parses-Steps q r ls t)

-- A call on the text of the lines does these passes.
pub parse_content-Steps :
    (f : ℕ) (q p : HttpRequestParser) (ls : List Bytes) {b : Buffer}
    → IsValid b
    → length (contents b) < f
    → contents b ≡ lines_text ls
    → Steps q p ls
    → (c : Buffer) × (parse_content f p b ≡ some (q, c)) × IsValid c
parse_content-Steps f q p ls {b} v n e h =
    let (q', c, ran, valid, parses) = parse_content-Runs f p v n in
    let read : Parses q [] p (contents b) = rw e (Parses-Steps q p ls h) in
    let (same, _) = Parses-unique parses read in (c, ran ∙ ap (λ x. some (x, c)) same, valid)

-- The passes over some of the lines, and then those over the others.
pub Steps-append :
    (q p : HttpRequestParser) (ls ms : List Bytes)
    → Steps q p (ls ++ ms)
    → (r : HttpRequestParser) × Steps r p ls × Steps q r ms
Steps-append q p [] ms h = (p, refl, h)
Steps-append q p (l ∷ ls) ms (n, (r, e, s, t)) =
    let (r', before, after) = Steps-append q r ls ms t in (r', (n, (r, e, s, before)), after)

-- A parser that takes a further line without failing is not over.
pub Steps-ongoing :
    (q p : HttpRequestParser) (l : Bytes) (ls : List Bytes) → Steps q p (l ∷ ls) → IsOver p → ⊥
Steps-ongoing q p l ls (_, (r, e, _, _)) o = let fails = pass_in-over p.state p.request l o in cc

Steps-field_lines :
    (r : HttpRequest) (fields m : Fields)
    → ArePrintable fields
    → Steps (complete r (assign_all fields m)) (with_headers r m) (field_lines fields)
Steps-field_lines r [] m h = (tt, (complete r m, pass_empty_line r m, λ e. cc, refl))
Steps-field_lines r ((k, v) ∷ fields) m h = (
  Lacks-field_text k v h.1 h.2,
  (
    with_headers r (assign_all ((k, v) ∷ []) m),
    pass-field_text r m k v h.0 h.3,
    λ e. cc,
    Steps-field_lines r fields _ h.4,
  ),
)

pub Steps-request_lines :
    (r : HttpRequest) (fields : Fields)
    → IsPrintable r
    → ArePrintable fields
    → Steps (complete (started r) (assign_all fields [])) initial (request_lines r fields)
Steps-request_lines r fields h k = (
  Lacks-line_text r h,
  (
    with_headers (started r) [],
    pass_request_line_text r h,
    λ e. cc,
    Steps-field_lines (started r) fields [] k,
  ),
)
