-- ===== src/Http/Request/Line.antt =====
-- `parseRequestLine`.
use my_moduo.Base.{
  ◌≡◌, refl, ◌↔◌, true, false, not, ap, ◌∙◌, Bool-cases, inl, inr, ◌∷◌, ◌++◌, Option, none, some,
  arith, Bytes, codes, break_at, Breaks, break_at-Breaks, break_at-append, Lacks, length, ◌==◌,
  if◌then◌else◌,
}
use my_moduo.Http.Request.{
  Version, HttpRequest, string_to_method, is_known, set_method, set_target, eq_ignore_case,
  set_version, parse_target, parse_request_line,
}

-- The version that a text of eight bytes names, in any case of letters.
unfoldable pub version_of : Bytes → Option Version
version_of v =
    if not (length v == 8)
    then none
    else if eq_ignore_case v (codes "HTTP/1.1")
    then some Version.http11
    else if eq_ignore_case v (codes "HTTP/1.0")
    then some Version.http10
    else none

-- `line` is a method, a target and a version with one space between, and `q` is `r` with them.
abbrev pub ReadsLine : HttpRequest → Bytes → HttpRequest → Type 0
ReadsLine r line q =
    (method target version : Bytes) × (v : Version) × (line
      ≡ method ++ (b' ' ∷ (target ++ (b' ' ∷ version))))
    × Lacks b' ' method
    × Lacks b' ' target
    × (is_known (string_to_method method) ≡ true)
    × (version_of version ≡ some v)
    × (q ≡ record (set_target (record r { method = string_to_method method }) target) {
      version = v;
    })

set_version-version_of :
    (r : HttpRequest) (text : Bytes)
    → set_version r text
      ≡ elim (version_of text) [ none ↦ (r, false) | some v ↦ (record r { version = v }, true) ]
unfolding set_version version_of
set_version-version_of r text = ground arith

set_version_lem :
    (r q : HttpRequest) (text : Bytes) (o : Option Version)
    → version_of text ≡ o
    → set_version r text ≡ (q, true)
    → (v : Version) × (version_of text ≡ some v) × (q ≡ record r { version = v })
set_version_lem r q text none e h = absurd (ground (arith, set_version-version_of r text))
set_version_lem r q text (some v) e h = (v, e, ground (arith, set_version-version_of r text))

-- What stands behind the method: a target and a version.
abbrev ReadsTarget : HttpRequest → Bytes → HttpRequest → Type 0
ReadsTarget r rest q =
    (target version : Bytes) × (v : Version) × (rest ≡ target ++ (b' ' ∷ version))
    × Lacks b' ' target
    × (version_of version ≡ some v)
    × (q ≡ record (set_target r target) { version = v })

parse_target-ReadsTarget :
    (r q : HttpRequest) (rest : Bytes) (parts : Option (Bytes × Bytes))
    → break_at b' ' rest ≡ parts
    → Breaks b' ' rest parts
    → parse_target r rest ≡ (q, true)
    → ReadsTarget r rest q
unfolding parse_target
parse_target-ReadsTarget r q rest none e b h = absurd (ground arith)
parse_target-ReadsTarget r q rest (some (target, version)) e b h =
    let (v, known, same) = set_version_lem (set_target r target) q version _ refl (ground arith) in
    (target, version, v, b.0, b.1, known, same)

ReadsTarget-parse_target :
    (r q : HttpRequest) (rest : Bytes) → ReadsTarget r rest q → parse_target r rest ≡ (q, true)
unfolding parse_target
ReadsTarget-parse_target r q rest (target, version, v, e, l, known, same) = ground (
  arith,
  break_at-append b' ' target version l,
  set_version-version_of (set_target r target) version,
)

parse_request_line-ReadsLine :
    (r q : HttpRequest) (line : Bytes) (parts : Option (Bytes × Bytes))
    → break_at b' ' line ≡ parts
    → Breaks b' ' line parts
    → parse_request_line r line ≡ (q, true)
    → ReadsLine r line q
unfolding parse_request_line set_method
parse_request_line-ReadsLine r q line none e b h = absurd (ground arith)
parse_request_line-ReadsLine r q line (some (method, rest)) e b h =
    elim (Bool-cases (is_known (string_to_method method))) [
      | inl known ↦
          let (target, version, v, f, l, named, same) =
            parse_target-ReadsTarget (record r { method = string_to_method method }) q rest _ refl
              (break_at-Breaks b' ' rest) (ground arith) in
          (
            method,
            target,
            version,
            v,
            b.0 ∙ ap (λ xs. method ++ (b' ' ∷ xs)) f,
            b.1,
            l,
            known,
            named,
            same,
          )
      | inr unknown ↦ absurd (ground arith)
    ]

ReadsLine-parse_request_line :
    (r q : HttpRequest) (line : Bytes) → ReadsLine r line q → parse_request_line r line ≡ (q, true)
unfolding parse_request_line set_method
ReadsLine-parse_request_line r q line (method, target, version, v, e, l, k, known, named, same) =
    let rest = target ++ (b' ' ∷ version) in
    ground (
      arith,
      break_at-append b' ' method rest l,
      ReadsTarget-parse_target (record r { method = string_to_method method }) q rest
          (target, version, v, refl, k, named, same),
    )

-- `parseRequestLine` succeeds exactly on a known method, a target and the version HTTP/1.0 or
-- HTTP/1.1 in any case of letters, with one space between; the request then holds the three.
pub parse_request_line_iff :
    (r q : HttpRequest) (line : Bytes)
    → (parse_request_line r line ≡ (q, true)) ↔ ReadsLine r line q
parse_request_line_iff r q line = (
  parse_request_line-ReadsLine r q line _ refl (break_at-Breaks b' ' line),
  ReadsLine-parse_request_line r q line,
)
