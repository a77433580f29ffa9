-- ===== src/Http/Request/Form.antt =====
-- `parsePost`: pairs `key=value` with `&` between.
use my_moduo.Base.{
  ℕ, zero, suc, ◌+◌, ◌≤◌, ◌≡◌, refl, ap, ◌∙◌, true, false, [], ◌∷◌, ◌++◌, append_assoc, append-nil,
  ◌<◌, ◌⊎◌, inl, inr, Option-cases, none, some, arith, Bytes, length, length-append, ◌==◌,
  if◌then◌else◌,
}
use my_moduo.Http.Request.{
  HttpRequest, Fields, assign, match_value, search_pair, parse_pairs, parse_post,
}

-- No byte that separates.
abbrev pub IsToken : Bytes → Type 0
IsToken [] = Unit {0}
IsToken (c ∷ cs) = ((c == b'=') ≡ false) × ((c == b'&') ≡ false) × IsToken cs

abbrev pub AreTokens : Fields → Type 0
AreTokens [] = Unit {0}
AreTokens ((k, v) ∷ m) = IsToken k × IsToken v × AreTokens m

-- The form with these pairs.
abbrev pub render_pairs : Fields → Bytes
render_pairs [] = []
render_pairs ((k, v) ∷ []) = k ++ (b'=' ∷ v)
render_pairs ((k, v) ∷ m) = k ++ (b'=' ∷ (v ++ (b'&' ∷ render_pairs m)))

-- The assignments in order.
abbrev pub assign_all : Fields → Fields → Fields
assign_all [] m = m
assign_all ((k, v) ∷ ps) m = assign_all ps (assign k v m)

match_value-IsToken_end : (v : Bytes) → IsToken v → match_value v ≡ (v, [])
unfolding match_value
match_value-IsToken_end [] h = refl
match_value-IsToken_end (c ∷ v) h = rw (h.0, h.1, match_value-IsToken_end v h.2)

match_value-IsToken :
    (v rest : Bytes) → IsToken v → match_value (v ++ (b'&' ∷ rest)) ≡ (v, b'&' ∷ rest)
unfolding match_value
match_value-IsToken [] rest h = refl
match_value-IsToken (c ∷ v) rest h = rw (h.0, h.1, match_value-IsToken v rest h.2)

search_pair-IsToken :
    (key k rest : Bytes)
    → IsToken k
    → search_pair key (k ++ (b'=' ∷ rest))
      ≡ (let (value, suffix) = match_value rest in some (key ++ k, value, suffix))
unfolding search_pair
search_pair-IsToken key [] rest h = rw append-nil
search_pair-IsToken key (c ∷ k) rest h =
    rw (h.1, h.0) (search_pair-IsToken (key ++ c ∷ []) k rest h.2 ∙ rw append_assoc)

match_value-length : (xs : Bytes) → length (match_value xs).1 ≤ length xs
unfolding match_value
match_value-length [] = omega arith
match_value-length (c ∷ cs) = ground (arith, match_value-length cs)

-- A match takes a byte at least.
search_pair-length :
    (key xs k v suffix : Bytes)
    → search_pair key xs ≡ some (k, v, suffix)
    → length suffix < length xs
unfolding search_pair
search_pair-length key [] k v suffix e = absurd (ground arith)
search_pair-length key (c ∷ cs) k v suffix e = ground (
  arith,
  match_value-length cs,
  search_pair-length (if c == b'&' then [] else key ++ c ∷ []) cs k v suffix,
)

search_pair-cases :
    (xs : Bytes)
    → (search_pair [] xs ≡ none)
      ⊎ ((k v suffix : Bytes) × (search_pair [] xs ≡ some (k, v, suffix))
          × (length suffix < length xs))
search_pair-cases xs = elim (Option-cases (search_pair [] xs)) [
  | inl e ↦ inl e
  | inr ((k, v, suffix), e) ↦ inr (k, v, suffix, e, search_pair-length [] xs k v suffix e)
]

parse_pairs-fuel :
    (f g : ℕ) (body : Bytes) (m : Fields)
    → length body ≤ f
    → length body ≤ g
    → parse_pairs f body m ≡ parse_pairs g body m
unfolding parse_pairs
parse_pairs-fuel zero zero body m h k = refl
parse_pairs-fuel zero (suc g) [] m h k = unfold search_pair in refl
parse_pairs-fuel zero (suc g) (c ∷ cs) m h k = absurd (omega arith)
parse_pairs-fuel (suc f) zero [] m h k = unfold search_pair in refl
parse_pairs-fuel (suc f) zero (c ∷ cs) m h k = absurd (omega arith)
parse_pairs-fuel (suc f) (suc g) body m h k = elim (search_pair-cases body) [
  | inl e ↦ rw (e, parse_pairs)
  | inr (key, value, suffix, e, shorter) ↦
      rw (e, parse_pairs)
        (parse_pairs-fuel f g suffix (assign key value m) (omega arith) (omega arith))
]

parse_pairs-amp :
    (f : ℕ) (body : Bytes) (m : Fields) → parse_pairs f (b'&' ∷ body) m ≡ parse_pairs f body m
unfolding parse_pairs
parse_pairs-amp zero body m = refl
parse_pairs-amp (suc f) body m = rw (skip body, parse_pairs)
  where
    skip : (xs : Bytes) → search_pair [] (b'&' ∷ xs) ≡ search_pair [] xs
    skip xs = unfold search_pair in refl

parse_pairs-step :
    (f : ℕ) (k value v suffix : Bytes) (m : Fields)
    → IsToken k
    → match_value value ≡ (v, suffix)
    → parse_pairs (suc f) (k ++ (b'=' ∷ value)) m ≡ parse_pairs f suffix (assign k v m)
unfolding parse_pairs
parse_pairs-step f k value v suffix m h e = rw (found, parse_pairs)
  where
    found : search_pair [] (k ++ (b'=' ∷ value)) ≡ some (k, v, suffix)
    found = search_pair-IsToken [] k value h ∙ ap (λ p. some (k, p.0, p.1)) e

parse_pairs-render_pairs :
    (ps : Fields) (f : ℕ) (m : Fields)
    → AreTokens ps
    → length (render_pairs ps) ≤ f
    → parse_pairs f (render_pairs ps) m ≡ assign_all ps m
parse_pairs-render_pairs [] f m h k =
    parse_pairs-fuel f 0 [] m (omega arith) (omega arith) ∙ unfold parse_pairs in refl
parse_pairs-render_pairs ((key, v) ∷ []) zero m h k =
    absurd (omega (arith, length-append key (b'=' ∷ v)))
parse_pairs-render_pairs ((key, v) ∷ []) (suc f) m h k =
    parse_pairs-step f key v v [] m h.0 (match_value-IsToken_end v h.1)
    ∙ parse_pairs-fuel f 0 [] _ (omega arith) (omega arith)
    ∙ unfold parse_pairs in refl
parse_pairs-render_pairs ((key, v) ∷ p ∷ ps) zero m h k =
    absurd (omega (arith, length-append key (b'=' ∷ (v ++ (b'&' ∷ render_pairs (p ∷ ps))))))
parse_pairs-render_pairs ((key, v) ∷ p ∷ ps) (suc f) m h k =
    parse_pairs-step f key _ v (b'&' ∷ render_pairs (p ∷ ps)) m h.0
      (match_value-IsToken v (render_pairs (p ∷ ps)) h.1)
    ∙ parse_pairs-amp f (render_pairs (p ∷ ps)) (assign key v m)
    ∙ parse_pairs-render_pairs (p ∷ ps) f (assign key v m) h.2 (
        omega (
          arith,
          length-append key (b'=' ∷ (v ++ (b'&' ∷ render_pairs (p ∷ ps)))),
          length-append v (b'&' ∷ render_pairs (p ∷ ps)),
        ))

-- `parsePost` reads a form back: its assignments are the form's pairs in order, if no key and no
-- value holds a separator, and it succeeds.
pub parse_post-render_pairs :
    (r : HttpRequest) (ps : Fields)
    → AreTokens ps
    → parse_post r (render_pairs ps) ≡ (record r { post = assign_all ps r.post }, true)
unfolding parse_post
parse_post-render_pairs r ps h =
    ap (λ m. (record r { post = m }, true))
      (parse_pairs-render_pairs ps (length (render_pairs ps)) r.post h (omega arith))

-- The loop of `parsePost` ends by its own test on every body: more rounds than the body has bytes
-- change nothing.
parse_pairs_enough :
    (n : ℕ) (r : HttpRequest) (body : Bytes)
    → parse_post r body ≡ (record r { post = parse_pairs (length body + n) body r.post }, true)
unfolding parse_post
parse_pairs_enough n r body =
    ap (λ m. (record r { post = m }, true))
      (parse_pairs-fuel (length body) (length body + n) body r.post (omega arith) (omega arith))
