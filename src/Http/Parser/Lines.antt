-- ===== src/Http/Parser/Lines.antt =====
-- The state machine over a text, line by line, with no buffer and no fuel.
use mathlib.Core.Path.{subst₂}
use my_moduo.Base.{◌≡◌, sym, ◌∙◌, none, some, arith, Bytes, length}
use my_moduo.Http.Parser.{HttpRequestParser, breaks, returns, pass, at_end}
use my_moduo.Net.Buffer.Search.{split_line}

-- From parser `p` the text `xs` takes the machine to `q`, with `ys` left over.
pub data Parses (q : HttpRequestParser) (ys : Bytes) : HttpRequestParser → Bytes → Type 0 where
  stop :
      {p : HttpRequestParser} {xs : Bytes}
      → split_line xs ≡ none
      → q ≡ p
      → ys ≡ xs
      → Parses q ys p xs
  halt :
      {p : HttpRequestParser} {xs line rest : Bytes}
      → split_line xs ≡ some (line, rest)
      → pass p line ≡ returns q
      → ys ≡ rest
      → Parses q ys p xs
  next :
      {p r : HttpRequestParser} {xs line rest : Bytes}
      → split_line xs ≡ some (line, rest)
      → pass p line ≡ breaks r
      → Parses q ys (at_end r (length rest)) rest
      → Parses q ys p xs

-- There is one outcome.
pub Parses-unique :
    {q r : HttpRequestParser} {ys zs : Bytes} {p : HttpRequestParser} {xs : Bytes}
    → Parses q ys p xs
    → Parses r zs p xs
    → (q ≡ r) × (ys ≡ zs)
Parses-unique (stop e a b) (stop e' a' b') = (a ∙ sym a', b ∙ sym b')
Parses-unique (stop e a b) (halt e' s b') = absurd (ground (arith, e, e'))
Parses-unique (stop e a b) (next e' s t) = absurd (ground (arith, e, e'))
Parses-unique (halt e s b) (stop e' a b') = absurd (ground (arith, e, e'))
Parses-unique (halt {line} e s b) (halt {line = line'} e' s' b') =
    let same : line ≡ line' = cc in (cc, cc)
Parses-unique (halt e s b) (next e' s' t) = absurd (ground arith)
Parses-unique (next e s t) (stop e' a b) = absurd (ground (arith, e, e'))
Parses-unique (next e s t) (halt e' s' b) = absurd (ground arith)
Parses-unique {r} {zs} (next {r = a} {rest} e s t) (next {r = a'} {rest = rest'} e' s' t') =
    Parses-unique t (subst₂ (λ x y. Parses r zs (at_end x (length y)) y) same_parser same_rest t')
  where
    same_rest : rest' ≡ rest
    same_rest = cc

    same_parser : a' ≡ a
    same_parser = cc
