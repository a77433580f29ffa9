-- ===== src/Net/Buffer/Fresh.antt =====
-- Buffers of which at most the header has been read: those that `append` never damages.
use my_moduo.Base.{
  concat, ℕ, ◌≤◌, ◌≡◌, refl, ◌∙◌, ap, List, [], ◌∷◌, ◌++◌, arith, append_assoc, append-nil,
}
use my_moduo.Net.Buffer.Contents.{append_intact}
use my_moduo.Net.Buffer.Valid.{IsValid, append-IsValid, init-IsValid}
use my_moduo.Net.Buffer.{Buffer, contents, prepend_index, init, append, ensure_writeable_bytes}

pub record IsFresh (b : Buffer) : Type 0 where
  pub valid : IsValid b
  pub header_only : b.read_index ≤ prepend_index

pub init-IsFresh : (n : ℕ) → prepend_index ≤ n → IsFresh (init n)
unfolding init
init-IsFresh n h = record { valid = init-IsValid n h; header_only = omega arith }

pub contents-init : (n : ℕ) → contents (init n) ≡ []
unfolding init
contents-init n = refl

read_index-append :
    (b : Buffer) (xs : List ℕ)
    → b.read_index ≤ prepend_index
    → (append b xs).read_index ≤ prepend_index
unfolding append ensure_writeable_bytes
read_index-append b xs h = ground arith

append-IsFresh : {b : Buffer} (xs : List ℕ) → IsFresh b → IsFresh (append b xs)
append-IsFresh {b} xs h = record {
  valid = append-IsValid xs h.valid;
  header_only = read_index-append b xs h.header_only;
}

-- `append` for each text in turn.
abbrev pub append_all : Buffer → List (List ℕ) → Buffer
append_all b [] = b
append_all b (xs ∷ rest) = append_all (append b xs) rest

pub append_all-IsFresh : (b : Buffer) (xss : List (List ℕ)) → IsFresh b → IsFresh (append_all b xss)
append_all-IsFresh b [] h = h
append_all-IsFresh b (xs ∷ rest) h = append_all-IsFresh (append b xs) rest (append-IsFresh xs h)

pub contents-append_all :
    (b : Buffer) (xss : List (List ℕ))
    → IsFresh b
    → contents (append_all b xss) ≡ contents b ++ concat xss
contents-append_all b [] h = rw append-nil
contents-append_all b (xs ∷ rest) h =
    contents-append_all (append b xs) rest (append-IsFresh xs h)
    ∙ ap (λ ys. ys ++ concat rest) (append_intact xs h.valid h.header_only)
    ∙ append_assoc (contents b) xs (concat rest)
