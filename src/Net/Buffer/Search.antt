-- ===== src/Net/Buffer/Search.antt =====
-- `findCRLF`.
use my_moduo.Base.{
  ℕ, ◌+◌, ◌≤◌, ◌≡◌, refl, ap, ◌∙◌, inl, inr, false, ◌&&◌, List, [], ◌∷◌, ◌++◌, Option, none, some,
  arith, ◌==◌, Bool-cases, ◌>>=◌, if◌then◌else◌, length, take, drop, sym, le→leb,
  take-append_length, drop-drop, drop-append_length, ◌+◌, ◌≤◌, Bytes, Lacks, length-append, ne→==,
}
use my_moduo.Net.Buffer.Contents.{length-contents, contents-retrieve}
use my_moduo.Net.Buffer.Valid.{IsValid}
use my_moduo.Net.Buffer.{
  Buffer, contents, search_crlf, find_crlf, readable_bytes, retrieve, retrieve_until_index,
}

-- No carriage return stands before a line feed.
abbrev pub NoCrlf : List ℕ → Type 0
NoCrlf [] = Unit {0}
NoCrlf (c ∷ []) = Unit {0}
NoCrlf (c ∷ d ∷ cs) = ((c == b'\r' && d == b'\n') ≡ false) × NoCrlf (d ∷ cs)

-- The first line of a text, without its end, and what follows the end.
unfoldable pub split_line : List ℕ → Option (List ℕ × List ℕ)
split_line [] = none
split_line (c ∷ []) = none
split_line (c ∷ d ∷ cs) =
    if c == b'\r' && d == b'\n'
    then some ([], cs)
    else (split_line (d ∷ cs) >>= λ (line, rest). some (c ∷ line, rest))

-- How an offset found by `search_crlf` splits the text.
abbrev pub Splits : List ℕ → Option (List ℕ × List ℕ) → Type 0
Splits xs none = (search_crlf xs ≡ length xs) × NoCrlf xs
Splits xs (some (line, rest)) =
    (search_crlf xs ≡ length line)
    × (xs ≡ line ++ (b'\r' ∷ b'\n' ∷ rest))
    × NoCrlf (line ++ b'\r' ∷ [])

cons-Splits :
    (c d : ℕ) (cs : List ℕ) (r : Option (List ℕ × List ℕ))
    → (c == b'\r' && d == b'\n') ≡ false
    → Splits (d ∷ cs) r
    → Splits (c ∷ d ∷ cs) (r >>= λ (line, rest). some (c ∷ line, rest))
unfolding search_crlf
cons-Splits c d cs none t h = rw t (ground arith)
cons-Splits c d cs (some ([], rest)) t h = rw t (ground arith, ap (◌∷◌ c) h.1, ground arith)
cons-Splits c d cs (some (x ∷ line, rest)) t h =
    rw t (ground arith, ap (◌∷◌ c) h.1, (ground arith, h.2))

split_line-Splits : (xs : List ℕ) → Splits xs (split_line xs)
unfolding split_line search_crlf
split_line-Splits [] = ground arith
split_line-Splits (c ∷ []) = ground arith
split_line-Splits (c ∷ d ∷ cs) = elim (Bool-cases (c == b'\r' && d == b'\n')) [
  | inl end ↦ rw end (ground arith, ground arith, tt)
  | inr more ↦ rw more (cons-Splits c d cs (split_line (d ∷ cs)) more (split_line-Splits (d ∷ cs)))
]

-- What a pointer into a text says of it, and what the null pointer says.
abbrev pub Found : List ℕ → Option ℕ → Type 0
Found xs none = NoCrlf xs
Found xs (some i) =
    (line rest : List ℕ) × (xs ≡ line ++ (b'\r' ∷ b'\n' ∷ rest))
    × (length line ≡ i)
    × NoCrlf (line ++ b'\r' ∷ [])

-- The offset of the first line's end, by `split_line`.
abbrev pub line_end : Option (List ℕ × List ℕ) → Option ℕ
line_end none = none
line_end (some (line, rest)) = some (length line)

find_crlf_at :
    (b : Buffer) (r : Option (List ℕ × List ℕ))
    → IsValid b
    → Splits (contents b) r
    → find_crlf b ≡ line_end r
unfolding find_crlf
find_crlf_at b none v h = ground (arith, length-contents v)
find_crlf_at b (some (line, rest)) v h = rw (
  h.0,
  ne→== (length line) (readable_bytes b)
      (omega (arith, length-contents v, ap length h.1, length-append line (b'\r' ∷ b'\n' ∷ rest))),
)

pub find_crlf-split_line :
    {b : Buffer} → IsValid b → find_crlf b ≡ line_end (split_line (contents b))
find_crlf-split_line {b} v = find_crlf_at b _ v (split_line-Splits (contents b))

Splits-Found : (xs : List ℕ) (r : Option (List ℕ × List ℕ)) → Splits xs r → Found xs (line_end r)
Splits-Found xs none h = h.1
Splits-Found xs (some (line, rest)) h = (line, rest, h.1, refl, h.2)

-- On a valid buffer `findCRLF` returns the offset of the first CRLF of the readable bytes, or null,
-- and then they hold none.
find_crlf-Found : {b : Buffer} → IsValid b → Found (contents b) (find_crlf b)
find_crlf-Found {b} v =
    rw (find_crlf-split_line v) (Splits-Found (contents b) _ (split_line-Splits (contents b)))

-- What is left of a text once its first line is taken off.
abbrev pub TakesLine : Buffer → Bytes → Bytes → Type 0
TakesLine b line rest =
    (c : Buffer) × (find_crlf b ≡ some (length line))
    × (retrieve_until_index b (length line + 2) ≡ some c)
    × (take (length line) (contents b) ≡ line)
    × (contents c ≡ rest)
    × IsValid c

retrieve_until_index-le :
    (b : Buffer) (offset : ℕ)
    → offset ≤ readable_bytes b
    → retrieve_until_index b offset ≡ retrieve b offset
unfolding retrieve_until_index
retrieve_until_index-le b offset h = rw (le→leb _ _ h)

-- With a line at hand, `findCRLF` and `retrieveUntilIndex` take it off, and no `assert` fails.
pub take_line :
    {b : Buffer} {line rest : Bytes}
    → IsValid b
    → split_line (contents b) ≡ some (line, rest)
    → TakesLine b line rest
take_line {b} {line} {rest} v e =
    let (c, got, left, valid) = contents-retrieve (length line + 2) v room in
    (
      c,
      found,
      retrieve_until_index-le b _ room ∙ got,
      ap (take (length line)) splits ∙ take-append_length line (b'\r' ∷ b'\n' ∷ rest),
      left ∙ ap (drop (length line + 2)) splits ∙ behind,
      valid,
    )
  where
    splits : contents b ≡ line ++ (b'\r' ∷ b'\n' ∷ rest)
    splits = (rw e at (split_line-Splits (contents b))).1

    room : length line + 2 ≤ readable_bytes b
    room =
        omega
          (arith, length-contents v, ap length splits, length-append line (b'\r' ∷ b'\n' ∷ rest))

    found : find_crlf b ≡ some (length line)
    found = rw (find_crlf-split_line v, e)

    behind : drop (length line + 2) (line ++ (b'\r' ∷ b'\n' ∷ rest)) ≡ rest
    behind =
        sym (drop-drop 2 (length line) (line ++ (b'\r' ∷ b'\n' ∷ rest)))
        ∙ ap (drop 2) (drop-append_length line (b'\r' ∷ b'\n' ∷ rest))

pub split_line-length :
    (xs line rest : Bytes) → split_line xs ≡ some (line, rest) → length rest + 2 ≤ length xs
split_line-length xs line rest e =
    omega (
      arith,
      ap length (rw e at (split_line-Splits xs)).1,
      length-append line (b'\r' ∷ b'\n' ∷ rest),
    )

pub split_line-NoCrlf : (xs : Bytes) → NoCrlf xs → split_line xs ≡ none
unfolding split_line
split_line-NoCrlf [] h = refl
split_line-NoCrlf (c ∷ []) h = refl
split_line-NoCrlf (c ∷ d ∷ cs) h = rw (h.0, split_line-NoCrlf (d ∷ cs) h.1)

-- A line with no carriage return is found whole.
pub split_line-Lacks :
    (line rest : Bytes)
    → Lacks b'\r' line
    → split_line (line ++ (b'\r' ∷ b'\n' ∷ rest)) ≡ some (line, rest)
unfolding split_line
split_line-Lacks [] rest h = refl
split_line-Lacks (c ∷ []) rest h = rw h.0
split_line-Lacks (c ∷ d ∷ line) rest h = rw (h.0, split_line-Lacks (d ∷ line) rest h.1)
