-- ===== src/Http/Request.antt =====
-- Http/httprequest.h and Http/httprequest.cpp: the request, filled in piece by piece.
-- Texts are lists of bytes; `std::find` over a range is `break_at`. A `std::map` is an association
-- list with one entry for each key.
pub mod Headers
pub mod Line
pub mod Form
use mathlib.Core.List.{reverse}
use my_moduo.Base.{
  ℕ, zero, suc, ◌+◌, ◌≡◌, Bool, true, false, not, ◌&&◌, ◌||◌, List, [], ◌∷◌, ◌++◌, map, Option,
  none, some, Bytes, codes, eq_bytes, break_at, length, ltb, leb, ◌==◌, if◌then◌else◌,
}

pub data Method : Type 0 where
  get post head put delete trace options connect patch invalid : Method

pub data Version : Type 0 where
  http10 http11 unknown : Version

abbrev pub Fields : Type 0
Fields = List (Bytes × Bytes)

-- `std::map::operator[]` and an assignment.
unfoldable pub assign : Bytes → Bytes → Fields → Fields
assign k v [] = (k, v) ∷ []
assign k v ((j, w) ∷ m) = if eq_bytes j k then (j, v) ∷ m else (j, w) ∷ assign k v m

unfoldable pub find : Bytes → Fields → Option Bytes
find k [] = none
find k ((j, w) ∷ m) = if eq_bytes j k then some w else find k m

pub record HttpRequest : Type 0 where
  pub method : Method
  pub version : Version
  pub path : Bytes
  pub query : Bytes
  pub headers : Fields
  pub post : Fields

-- `HttpRequest()`
abbrev pub empty : HttpRequest
empty = record {
  method = Method.invalid;
  version = Version.unknown;
  path = [];
  query = [];
  headers = [];
  post = [];
}

-- `header`: `none` where the field is missing, since the reference that the source returns then
-- dangles.
unfoldable pub header : HttpRequest → Bytes → Option Bytes
unfolding find
header r field = find field r.headers

unfoldable pub string_to_method : Bytes → Method
string_to_method s =
    if eq_bytes s (codes "GET")
    then Method.get
    else if eq_bytes s (codes "POST")
    then Method.post
    else if eq_bytes s (codes "HEAD")
    then Method.head
    else if eq_bytes s (codes "PUT")
    then Method.put
    else if eq_bytes s (codes "DELETE")
    then Method.delete
    else if eq_bytes s (codes "TRACE")
    then Method.trace
    else if eq_bytes s (codes "OPTIONS")
    then Method.options
    else if eq_bytes s (codes "CONNECT")
    then Method.connect
    else if eq_bytes s (codes "PATCH")
    then Method.patch
    else Method.invalid

-- `method != Method::kInvalid`
abbrev pub is_known : Method → Bool
is_known Method.invalid = false
is_known _ = true

unfoldable pub set_method : HttpRequest → Bytes → HttpRequest × Bool
set_method r s = let m = string_to_method s in (record r { method = m }, is_known m)

-- `setPath` and, behind a question mark, `setQuery`.
unfoldable pub set_target : HttpRequest → Bytes → HttpRequest
set_target r target = elim (break_at b'?' target) [
  | none ↦ record r { path = target }
  | some (path, query) ↦ record r { path = path; query = query }
]

-- `tolower` of the C locale.
unfoldable pub to_lower : ℕ → ℕ
to_lower c = if leb b'A' c && leb c b'Z' then c + 32 else c

-- `strncasecmp(a, b, 8) == 0`, where `b` has no zero byte among its eight.
unfoldable pub eq_ignore_case : Bytes → Bytes → Bool
eq_ignore_case a b = eq_bytes (map to_lower a) (map to_lower b)

unfoldable pub set_version : HttpRequest → Bytes → HttpRequest × Bool
set_version r v =
    if not (length v == 8)
    then (r, false)
    else if eq_ignore_case v (codes "HTTP/1.1")
    then (record r { version = Version.http11 }, true)
    else if eq_ignore_case v (codes "HTTP/1.0")
    then (record r { version = Version.http10 }, true)
    else (r, false)

-- `parseRequestLine` behind the method and its space.
unfoldable pub parse_target : HttpRequest → Bytes → HttpRequest × Bool
parse_target r rest = elim (break_at b' ' rest) [
  | none ↦ (r, false)
  | some (target, version) ↦ set_version (set_target r target) version
]

-- Each exit leaves in the request what has been set up to it.
unfoldable pub parse_request_line : HttpRequest → Bytes → HttpRequest × Bool
parse_request_line r line = elim (break_at b' ' line) [
  | none ↦ (r, false)
  | some (method, rest) ↦
      let (r', known) = set_method r method in if known then parse_target r' rest else (r', false)
]

-- `isspace` of the C locale.
unfoldable pub is_space : ℕ → Bool
is_space c = c == b' ' || (leb b'\t' c && leb c b'\r')

-- The loop that moves `colon` over leading spaces.
unfoldable pub skip_spaces : Bytes → Bytes
skip_spaces [] = []
skip_spaces (c ∷ cs) = if is_space c then skip_spaces cs else c ∷ cs

-- The loop that takes spaces off the end of `value`: the last byte is the first of the reverse.
unfoldable pub drop_trailing_spaces : Bytes → Bytes
drop_trailing_spaces value = reverse (skip_spaces (reverse value))

-- The two arguments are what stands before the colon and behind it.
unfoldable pub add_header : HttpRequest → Bytes → Bytes → HttpRequest
add_header r field rest = record r {
  headers = assign field (drop_trailing_spaces (skip_spaces rest)) r.headers;
}

-- The second group of the pattern, up to `=` or `&`, and the suffix of the match.
unfoldable pub match_value : Bytes → Bytes × Bytes
match_value [] = ([], [])
match_value (c ∷ cs) =
    if c == b'=' || c == b'&'
    then ([], c ∷ cs)
    else (let (value, suffix) = match_value cs in (c ∷ value, suffix))

-- `std::regex_search` with `([^=&]*)=([^=&]*)`: the leftmost match starts where the run of other
-- bytes before the first `=` that follows no `&` of that run starts. `key` is the run read so far.
unfoldable pub search_pair : Bytes → Bytes → Option (Bytes × Bytes × Bytes)
search_pair key [] = none
search_pair key (c ∷ cs) =
    let later = search_pair (if c == b'&' then [] else key ++ c ∷ []) cs in
    if c == b'=' then (let (value, suffix) = match_value cs in some (key, value, suffix)) else later

-- The loop over `body`, on fuel.
unfoldable pub parse_pairs : ℕ → Bytes → Fields → Fields
parse_pairs zero body m = m
parse_pairs (suc f) body m = elim (search_pair [] body) [
  | none ↦ m
  | some (key, value, suffix) ↦ parse_pairs f suffix (assign key value m)
]

-- Each match takes a byte at least, so the length of the body is enough fuel.
unfoldable pub parse_post : HttpRequest → Bytes → HttpRequest × Bool
parse_post r body = (record r { post = parse_pairs (length body) body r.post }, true)

unfoldable pub parse_request_body : HttpRequest → Bytes → HttpRequest × Bool
parse_request_body r body = elim r.method [ Method.post ↦ parse_post r body | _ ↦ (r, true) ]
