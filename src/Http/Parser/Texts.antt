-- ===== src/Http/Parser/Texts.antt =====
-- The text of a request, and what it can express.
use my_moduo.Base.{◌≢◌, [], ◌∷◌, ◌++◌, Bytes, codes, Lacks}
use my_moduo.Http.Request.Headers.{IsTrimmed}
use my_moduo.Http.Request.{Method, Version, Fields, HttpRequest}

abbrev pub method_text : Method → Bytes
method_text Method.get = codes "GET"
method_text Method.post = codes "POST"
method_text Method.head = codes "HEAD"
method_text Method.put = codes "PUT"
method_text Method.delete = codes "DELETE"
method_text Method.trace = codes "TRACE"
method_text Method.options = codes "OPTIONS"
method_text Method.connect = codes "CONNECT"
method_text Method.patch = codes "PATCH"
method_text Method.invalid = codes "?"

abbrev pub version_text : Version → Bytes
version_text Version.http11 = codes "HTTP/1.1"
version_text Version.http10 = codes "HTTP/1.0"
version_text Version.unknown = codes "?"

abbrev pub target_text : Bytes → Bytes → Bytes
target_text path [] = path
target_text path (c ∷ query) = path ++ (b'?' ∷ c ∷ query)

abbrev pub line_text : HttpRequest → Bytes
line_text r =
    method_text r.method ++ (b' ' ∷ (target_text r.path r.query ++ (b' ' ∷ version_text r.version)))

abbrev pub field_text : Bytes → Bytes → Bytes
field_text key value = key ++ (b':' ∷ b' ' ∷ value)

-- The header lines, the empty line and what follows.
abbrev pub fields_text : Fields → Bytes → Bytes
fields_text [] rest = b'\r' ∷ b'\n' ∷ rest
fields_text ((k, v) ∷ m) rest = field_text k v ++ (b'\r' ∷ b'\n' ∷ fields_text m rest)

-- A request with these headers, and what follows it.
abbrev pub request_text : HttpRequest → Fields → Bytes → Bytes
request_text r m rest = line_text r ++ (b'\r' ∷ b'\n' ∷ fields_text m rest)

-- What the format of a request can express.
pub record IsPrintable (r : HttpRequest) : Type 0 where
  pub known : r.method ≢ Method.invalid
  pub version_known : r.version ≢ Version.unknown
  pub path_space : Lacks b' ' r.path
  pub path_mark : Lacks b'?' r.path
  pub path_line : Lacks b'\r' r.path
  pub query_space : Lacks b' ' r.query
  pub query_line : Lacks b'\r' r.query

abbrev pub ArePrintable : Fields → Type 0
ArePrintable [] = Unit {0}
ArePrintable ((k, v) ∷ m) =
    Lacks b':' k × Lacks b'\r' k × Lacks b'\r' v × IsTrimmed v × ArePrintable m
