-- ===== src/Http/Parser/Total.antt =====
-- `parseContent` over a buffer is the machine of `Lines` over the buffer's readable bytes.
use mathlib.Core.Path.{subst, subst₂}
use my_moduo.Base.{
  ℕ, zero, suc, ◌+◌, ◌<◌, ◌≡◌, refl, sym, ap, ◌≢◌, inl, inr, Option, none, some, arith, Bytes,
  length, take, Option-cases,
}
use my_moduo.Http.Parser.Lines.{Parses, stop, halt, next}
use my_moduo.Http.Parser.{HttpRequestParser, Pass, breaks, returns, pass, at_end, parse_content}
use my_moduo.Net.Buffer.Contents.{length-contents}
use my_moduo.Net.Buffer.Search.{split_line, split_line-length, find_crlf-split_line, take_line}
use my_moduo.Net.Buffer.Valid.{IsValid}
use my_moduo.Net.Buffer.{Buffer, contents, readable_bytes, find_crlf, retrieve_until_index}

-- The call returns, leaves a valid buffer, and has done to the readable bytes what `Lines` says.
abbrev pub Runs : HttpRequestParser → Buffer → Option (HttpRequestParser × Buffer) → Type 0
Runs p b r =
    (q : HttpRequestParser) × (c : Buffer) × (r ≡ some (q, c))
    × IsValid c
    × Parses q (contents c) p (contents b)

pub parse_content-stop :
    (f : ℕ) (p : HttpRequestParser) (b : Buffer)
    → find_crlf b ≡ none
    → parse_content (suc f) p b ≡ some (p, b)
unfolding parse_content
parse_content-stop f p b e = ground arith

-- How the loop goes on behind the `switch`.
abbrev go_on : ℕ → Buffer → Pass → Option (HttpRequestParser × Buffer)
go_on f c (returns q) = some (q, c)
go_on f c (breaks q) = parse_content f (at_end q (readable_bytes c)) c

parse_content-line :
    (f : ℕ) (p : HttpRequestParser) (b c : Buffer) (i : ℕ) (line : Bytes)
    → readable_bytes b ≢ 0
    → find_crlf b ≡ some i
    → retrieve_until_index b (i + 2) ≡ some c
    → take i (contents b) ≡ line
    → parse_content (suc f) p b ≡ go_on f c (pass p line)
unfolding parse_content
parse_content-line f p b c i line n e r l = rw (← l) (ground arith)

go_on-Runs :
    (f : ℕ) (p : HttpRequestParser) (b c : Buffer) (line rest : Bytes) (s : Pass)
    → split_line (contents b) ≡ some (line, rest)
    → contents c ≡ rest
    → IsValid c
    → pass p line ≡ s
    → ((r : HttpRequestParser) → Runs r c (parse_content f r c))
    → Runs p b (go_on f c s)
go_on-Runs f p b c line rest (returns q) e k v h ih = (q, c, refl, v, halt e h k)
go_on-Runs f p b c line rest (breaks r) e k v h ih =
    let (q, d, ran, valid, parses) = ih (at_end r (readable_bytes c)) in
    (
      q,
      d,
      ran,
      valid,
      next e h (subst₂ (λ x y. Parses q (contents d) (at_end r x) y) size k parses),
    )
  where
    size : readable_bytes c ≡ length rest
    size = omega (arith, ap length k, length-contents v)

-- On a valid buffer, with more fuel than readable bytes, `parseContent` returns, no `assert` fails,
-- the buffer that it leaves is valid, and parser and left-over bytes are those of the line machine.
pub parse_content-Runs :
    (f : ℕ) (p : HttpRequestParser) {b : Buffer}
    → IsValid b
    → length (contents b) < f
    → Runs p b (parse_content f p b)
parse_content-Runs zero p v h = absurd (omega arith)
parse_content-Runs (suc f) p {b} v h = elim (Option-cases (split_line (contents b))) [
  | inl e ↦ (p, b, parse_content-stop f p b (rw (find_crlf-split_line v, e)), v, stop e refl refl)
  | inr ((line, rest), e) ↦
      let (c, found, taken, front, left, valid) = take_line v e in
      let shorter = split_line-length (contents b) line rest e in
      let filled : readable_bytes b ≢ 0 = omega (arith, length-contents v) in
      subst (Runs p b)
        (sym (parse_content-line f p b c (length line) line filled found taken front))
        (go_on-Runs f p b c line rest (pass p line) e left valid refl
          λ r. parse_content-Runs f r valid (omega (arith, ap length left)))
]
