-- ===== src/Logging/AsyncLogging/Appending.antt =====
-- What `append` does to the buffers.
use mathlib.Core.Path.{subst}
use my_moduo.Base.{
  ◌≡◌, ◌≢◌, refl, sym, ap, ◌∙◌, ◌⊎◌, inl, inr, true, false, List, [], ◌∷◌, ◌++◌, append-nil,
  append_assoc, none, some, arith, tests, Bytes, length, length-append, ltb, lt→ltb, concat,
  Bool-cases, if-true, if-false, if◌then◌else◌,
}
use my_moduo.Logging.AsyncLogging.{AsyncLogging, append, fresh_current}
use my_moduo.Logging.LogStream.{avail, large_buffer}
use my_moduo.Logging.LogStream

-- The second buffer is there and empty, unless a full one is waiting.
abbrev pub NextThere : AsyncLogging → Type 0
NextThere a = (a.next ≡ some []) ⊎ ((a.next ≡ none) × (a.buffers ≢ []))

-- What waits in the buffers, in order.
abbrev pub buffered : AsyncLogging → Bytes
buffered a = concat a.buffers ++ a.current

-- What `append` takes of a line: all, if a whole buffer has room for it.
abbrev pub accepted : Bytes → Bytes
accepted line = if ltb (length line) large_buffer then line else []

pub concat-append : (bs : List Bytes) (b : Bytes) → concat (bs ++ b ∷ []) ≡ concat bs ++ b
concat-append [] b = append-nil b
concat-append (x ∷ bs) b = ap (◌++◌ x) (concat-append bs b) ∙ sym (append_assoc x (concat bs) b)

fresh_current_lem : (a : AsyncLogging) → NextThere a → fresh_current a.next ≡ []
fresh_current_lem a h = ground (arith, h)

-- Where the current buffer has room.
append-room :
    (line : Bytes) (a : AsyncLogging)
    → ltb (length line) (avail large_buffer a.current) ≡ true
    → append line a ≡ record a { current = a.current ++ line }
unfolding append LogStream.append
append-room line a r = if-true _ _ _ r ∙ ap (λ b. record a { current = b }) (if-true _ _ _ r)

append-full :
    (line : Bytes) (a : AsyncLogging)
    → NextThere a
    → ltb (length line) (avail large_buffer a.current) ≡ false
    → append line a
      ≡ record a { buffers = a.buffers ++ a.current ∷ []; current = accepted line; next = none }
unfolding append LogStream.append
append-full line a h r =
    if-false _ _ _ r
    ∙ ap
        (λ b. record a {
          buffers = a.buffers ++ a.current ∷ [];
          current = LogStream.append large_buffer b line;
          next = none;
        })
        (fresh_current_lem a h)

snoc-nonempty : (bs : List Bytes) (b : Bytes) → bs ++ b ∷ [] ≢ []
snoc-nonempty bs b e = absurd (omega (arith, ap length e, length-append bs (b ∷ [])))

pub append-NextThere : (line : Bytes) (a : AsyncLogging) → NextThere a → NextThere (append line a)
append-NextThere line a h = elim (Bool-cases (ltb (length line) (avail large_buffer a.current))) [
  | inl room ↦ subst NextThere (sym (append-room line a room)) h
  | inr full ↦
      subst NextThere (sym (append-full line a h full))
        (inr (refl, snoc-nonempty a.buffers a.current))
]

-- What `append` does not touch.
pub append-spares :
    (line : Bytes) (a : AsyncLogging)
    → ((append line a).spare1 ≡ a.spare1)
      × ((append line a).spare2 ≡ a.spare2)
      × ((append line a).file ≡ a.file)
unfolding append
append-spares line a = ground arith

pub buffered-append :
    (line : Bytes) (a : AsyncLogging)
    → NextThere a
    → buffered (append line a) ≡ buffered a ++ accepted line
buffered-append line a h = elim (Bool-cases (ltb (length line) (avail large_buffer a.current))) [
  | inl room ↦
      let whole : ltb (length line) large_buffer ≡ true = lt→ltb _ _ (omega (tests, room)) in
      ap buffered (append-room line a room) ∙ rw (if-true _ line [] whole) (simp (append_assoc))
  | inr full ↦
      ap buffered (append-full line a h full)
      ∙ ap (λ xs. xs ++ accepted line) (concat-append a.buffers a.current)
]
