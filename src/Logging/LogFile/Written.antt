-- ===== src/Logging/LogFile/Written.antt =====
-- What `append` writes to a log file.
use my_moduo.Base.{
  ℕ, zero, suc, ◌≤◌, ◌≡◌, refl, sym, ap, ◌∙◌, ◌⊎◌, inl, inr, true, false, List, [], ◌∷◌, ◌++◌, Bool,
  none, ◌||◌, append_assoc, append-nil, some, arith, Bytes, length, length-append, length-drop,
  take, drop, take-append-drop, concat, tally, ◌==◌, ltb, ltb→le, if◌then◌else◌, Bool-cases, ◌>>=◌,
}
use my_moduo.Logging.LogFile.{LogFile, roll_file, write_loop, after_write, append, exceeds, take_in}
use my_moduo.Timer.Timestamp.{Timestamp, time_difference}

-- `fwrite` answers zero only if it meets an error.
abbrev pub NoErrors : List ℕ → Type 0
NoErrors answers = tally (λ n. if n == 0 then 1 else 0) answers ≡ 0

pub write_loop-returns :
    (answers : List ℕ) (xs : Bytes)
    → NoErrors answers
    → length xs ≤ length answers
    → write_loop answers xs ≡ some xs
unfolding write_loop tally
write_loop-returns [] [] h k = refl
write_loop-returns (n ∷ answers) [] h k = refl
write_loop-returns [] (x ∷ xs) h k = absurd (omega (arith, k))
write_loop-returns (zero ∷ answers) (x ∷ xs) h k = absurd (omega (arith, h))
write_loop-returns (suc n ∷ answers) (x ∷ xs) h k =
    ap (λ o. o >>= λ more. some (take (suc n) (x ∷ xs) ++ more))
      (write_loop-returns answers (drop n xs) (omega (arith, h))
        (omega (arith, k, length-drop n xs)))
    ∙ ap (λ ys. some ys) (take-append-drop (suc n) (x ∷ xs))

-- All that was written, to whatever file.
abbrev pub all_text : LogFile → Bytes
all_text f = concat f.closed ++ f.file

abbrev pub IsCounted : LogFile → Type 0
IsCounted f = f.written_bytes ≡ length f.file

concat-append : (xss yss : List Bytes) → concat (xss ++ yss) ≡ concat xss ++ concat yss
concat-append [] yss = refl
concat-append (xs ∷ xss) yss =
    ap (◌++◌ xs) (concat-append xss yss) ∙ sym (append_assoc xs (concat xss) (concat yss))

all_text-roll_file :
    (opened : Bool) (later : Timestamp) (f : LogFile)
    → all_text (roll_file opened later f) ≡ all_text f
unfolding roll_file
all_text-roll_file opened later f =
    append-nil (concat (f.closed ++ f.file ∷ []))
    ∙ concat-append f.closed (f.file ∷ [])
    ∙ ap (◌++◌ (concat f.closed)) (append-nil f.file)

-- `append` flushes all that is in the file, or it leaves a file of at most `m_rollSize` bytes.
abbrev pub Settles : Timestamp → LogFile → LogFile → Type 0
Settles now f g =
    ((exceeds (time_difference now f.last_flush) f.flush_interval ≡ true)
      × (g.flushed ≡ length g.file)
      × (g.last_flush ≡ now)
      × (g.closed ≡ f.closed))
    ⊎ ((exceeds (time_difference now f.last_flush) f.flush_interval ≡ false)
        × (length g.file ≤ g.roll_size))

after_write-Settles :
    (now later : Timestamp) (opened : Bool) (f : LogFile)
    → IsCounted f
    → (all_text (after_write now later opened f) ≡ all_text f)
      × IsCounted (after_write now later opened f)
      × Settles now f (after_write now later opened f)
unfolding after_write
after_write-Settles now later opened f c =
    elim (Bool-cases (exceeds (time_difference now f.last_flush) f.flush_interval)) [
      | inl due ↦ rw due (refl, c, inl (refl, refl, refl, refl))
      | inr off ↦ elim (Bool-cases (ltb f.roll_size f.written_bytes)) [
        | inl big ↦
            rw (off, big)
              (
                all_text-roll_file opened later f,
                unfold roll_file in refl,
                unfold roll_file in inr (refl, omega arith),
              )
        | inr fits ↦ rw (off, fits) (refl, c, inr (refl, omega (arith, c, ltb→le _ _ fits)))
      ]
    ]

is_open-after_write :
    (now later : Timestamp) (opened : Bool) (f : LogFile)
    → f.is_open ≡ true
    → opened ≡ true
    → (after_write now later opened f).is_open ≡ true
unfolding after_write roll_file
is_open-after_write now later opened f h k = ground (arith, h, k)

take_in-IsCounted : (xs : Bytes) (f : LogFile) → IsCounted f → IsCounted (take_in xs xs f)
take_in-IsCounted xs f c = ground (arith, c, length-append f.file xs)

pub if_open :
    {A : Type 0} (f : LogFile) (text : Bytes) (a b : A)
    → f.is_open ≡ true
    → (if f.is_open || length text == 0 then a else b) ≡ a
if_open f text a b h = rw h refl

-- If the file is open, its count is right, no call of `fwrite` fails and there are answers enough -
-- one for each byte is always enough -, `append` returns; the files hold, in order, what they held
-- and then the whole text; the count is right again; and if the last flush is longer ago than the
-- interval, all of the file is flushed and the file goes on, and otherwise the file that is left
-- has at most `m_rollSize` bytes. The file that is left is open if `fopen` opens a file whenever it
-- is called.
pub append_writes :
    (answers : List ℕ) (now later : Timestamp) (opened : Bool) (text : Bytes) (f : LogFile)
    → f.is_open ≡ true
    → IsCounted f
    → NoErrors answers
    → length text ≤ length answers
    → (g : LogFile) × (append answers now later opened text f ≡ some g)
      × (all_text g ≡ all_text f ++ text)
      × IsCounted g
      × Settles now f g
      × (opened ≡ true → g.is_open ≡ true)
unfolding append
append_writes answers now later opened text f is c h k =
    let taken = take_in text text f in
    let (same, counted, settled) =
      after_write-Settles now later opened taken (take_in-IsCounted text f c) in
    (
      after_write now later opened taken,
      if_open f text _ none is
          ∙ ap (λ o. o >>= λ written. some (after_write now later opened (take_in text written f)))
              (write_loop-returns answers text h k),
      same ∙ sym (append_assoc (concat f.closed) f.file text),
      counted,
      settled,
      is_open-after_write now later opened taken is,
    )
