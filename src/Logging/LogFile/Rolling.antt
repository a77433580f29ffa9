-- ===== src/Logging/LogFile/Rolling.antt =====
-- Log files that are never replaced.
use my_moduo.Base.{
  ℕ, ◌≤◌, ◌≡◌, refl, sym, ap, ◌∙◌, true, Bool, none, List, [], ◌∷◌, ◌++◌, append_assoc, append-nil,
  Option, some, Bytes, length, ◌>>=◌, if-true,
}
use my_moduo.Logging.LogFile.Written.{if_open, NoErrors, write_loop-returns}
use my_moduo.Logging.LogFile.{LogFile, after_write, append, exceeds, take_in, flush}
use my_moduo.Timer.Timestamp.{Timestamp, time_difference}

-- A call of `append`: the answers of `fwrite` and `fopen`, the two times and the text.
pub record Call : Type 0 where
  pub answers : List ℕ
  pub now : Timestamp
  pub later : Timestamp
  pub opened : Bool
  pub text : Bytes

-- The calls one after the other.
unfoldable pub append_all : List Call → LogFile → Option LogFile
append_all [] f = some f
append_all (c ∷ cs) f = append c.answers c.now c.later c.opened c.text f >>= (λ g. append_all cs g)

abbrev pub texts : List Call → Bytes
texts [] = []
texts (c ∷ cs) = c.text ++ texts cs

-- Each call comes later than the interval behind the one before, the first one behind `last`.
abbrev pub AreRare : Timestamp → ℕ → List Call → Type 0
AreRare last interval [] = Unit {0}
AreRare last interval (c ∷ cs) =
    (exceeds (time_difference c.now last) interval ≡ true)
    × NoErrors c.answers
    × (length c.text ≤ length c.answers)
    × AreRare c.now interval cs

-- The text is added and everything flushed.
abbrev flushed_file : Call → LogFile → LogFile
flushed_file c f = record (flush (take_in c.text c.text f)) { last_flush = c.now }

append_rare :
    (c : Call) (f : LogFile)
    → f.is_open ≡ true
    → exceeds (time_difference c.now f.last_flush) f.flush_interval ≡ true
    → NoErrors c.answers
    → length c.text ≤ length c.answers
    → append c.answers c.now c.later c.opened c.text f ≡ some (flushed_file c f)
unfolding append after_write
append_rare c f is due h k =
    if_open f c.text _ none is
    ∙ ap
        (λ o. o >>= λ written. some (after_write c.now c.later c.opened (take_in c.text written f)))
        (write_loop-returns c.answers c.text h k)
    ∙ ap (λ g. some g) (if-true _ _ _ due)

-- If the file is open, every call of `append` comes later than the flush interval behind the one
-- before, no call of `fwrite` fails and there are answers enough, then the file is never replaced,
-- however long it grows: all texts go to the same file.
pub append_all_rare :
    (cs : List Call) (f : LogFile)
    → f.is_open ≡ true
    → AreRare f.last_flush f.flush_interval cs
    → (g : LogFile) × (append_all cs f ≡ some g)
      × (g.closed ≡ f.closed)
      × (g.file ≡ f.file ++ texts cs)
unfolding append_all
append_all_rare [] f is h = (f, refl, refl, sym (append-nil f.file))
append_all_rare (c ∷ cs) f is h =
    let (g, e, same, file) = append_all_rare cs (flushed_file c f) is h.3 in
    (
      g,
      ap (λ o. o >>= λ d. append_all cs d) (append_rare c f is h.0 h.1 h.2) ∙ e,
      same,
      file ∙ append_assoc f.file c.text (texts cs),
    )
