-- ===== src/Logging/Logger/Lines.antt =====
-- What a log line looks like.
use my_moduo.Base.{
  ℕ, ◌+◌, ◌^◌, ◌≤◌, ◌<◌, ◌%◌, ◌≡◌, refl, sym, ap, ◌∙◌, List, [], ◌∷◌, ◌++◌, append_assoc,
  append-nil, arith, Bytes, codes, length, length-append, to_decimal, low_digits, lt→ltb, le→leb,
  if-true,
}
use my_moduo.Logging.LogStream.Numbers.{length-integer_text, integer_text-decimal_text}
use my_moduo.Logging.LogStream.{avail, max_numeric_size, small_buffer, append, format_integer}
use my_moduo.Logging.Logger.{
  LogLevel, get_log_level, add_text, put_int, format_time, finish_line, log_line, source_file,
}
use my_moduo.Timer.Timestamp.Dates.{length-to_default_log_string}
use my_moduo.Timer.Timestamp.Printing.{Tm, to_default_log_string}
use my_moduo.Timer.Timestamp.{Timestamp, pos, micros_since_epoch, micros_per_second}

-- What `operator<<` is given, one after the other.
data Item : Type 0 where
  text : Bytes → Item
  number : ℕ → Item

abbrev item_text : Item → Bytes
item_text (text xs) = xs
item_text (number n) = to_decimal n

abbrev put_item : Bytes → Item → Bytes
put_item stored (text xs) = add_text stored xs
put_item stored (number n) = put_int stored n

unfoldable put_items : Bytes → List Item → Bytes
put_items stored [] = stored
put_items stored (i ∷ is) = put_items (put_item stored i) is

-- At most so many bytes.
abbrev width : Item → ℕ
width (text xs) = length xs
width (number n) = 21

abbrev widths : List Item → ℕ
widths [] = 0
widths (i ∷ is) = width i + widths is

abbrev AreSmall : List Item → Type 0
AreSmall [] = Unit {0}
AreSmall (text xs ∷ is) = AreSmall is
AreSmall (number n ∷ is) = (n < 2 ^ 64) × AreSmall is

abbrev texts_of : List Item → Bytes
texts_of [] = []
texts_of (i ∷ is) = item_text i ++ texts_of is

add_text-fits :
    (stored xs : Bytes)
    → length stored + length xs + 48 ≤ small_buffer
    → add_text stored xs ≡ stored ++ xs
unfolding append
add_text-fits stored xs h =
    if-true _ _ _ (lt→ltb (length xs) (avail small_buffer stored) (omega (arith, h)))

put_int-fits :
    (stored : Bytes) (n : ℕ)
    → length stored + 48 ≤ small_buffer
    → put_int stored n ≡ stored ++ to_decimal n
unfolding format_integer
put_int-fits stored n h =
    if-true _ _ _ (le→leb max_numeric_size (avail small_buffer stored) (omega (arith, h)))
    ∙ ap (◌++◌ stored) (integer_text-decimal_text (pos n))

length-to_decimal_word : (n : ℕ) → n < 2 ^ 64 → length (to_decimal n) ≤ 21
length-to_decimal_word n h =
    omega (arith, ap length (integer_text-decimal_text (pos n)), length-integer_text (pos n) h)

put_items-fits :
    (is : List Item) (stored : Bytes)
    → AreSmall is
    → length stored + widths is + 48 ≤ small_buffer
    → put_items stored is ≡ stored ++ texts_of is
unfolding put_items
put_items-fits [] stored s h = sym (append-nil stored)
put_items-fits (text xs ∷ is) stored s h =
    let e = add_text-fits stored xs (omega (arith, h)) in
    ap (λ b. put_items b is) e
    ∙ put_items-fits is (stored ++ xs) s (omega (arith, h, length-append stored xs))
    ∙ append_assoc stored xs (texts_of is)
put_items-fits (number n ∷ is) stored s h =
    let e = put_int-fits stored n (omega (arith, h)) in
    ap (λ b. put_items b is) e
    ∙ put_items-fits is (stored ++ to_decimal n) s.1
        (omega (arith, h, length-append stored (to_decimal n), length-to_decimal_word n s.0))
    ∙ append_assoc stored (to_decimal n) (texts_of is)

-- The calls of `formatTime`, the user's text and `finish`.
abbrev items : Bytes → Bytes → Timestamp → LogLevel → Bytes → Bytes → ℕ → List Item
items date tid now level msg base line =
    text date
    ∷ text (codes ".")
    ∷ number (micros_since_epoch now % micros_per_second)
    ∷ text (codes " ")
    ∷ text tid
    ∷ text (codes " ")
    ∷ text (get_log_level level)
    ∷ text (codes " ")
    ∷ text msg
    ∷ text (codes " - ")
    ∷ text base
    ∷ number b':'
    ∷ number line
    ∷ number b'\n'
    ∷ []

log_line-items :
    (gmtime : ℕ → Tm) (tid : Bytes) (now : Timestamp) (level : LogLevel) (msg filename : Bytes)
    (line : ℕ)
    → (log_line gmtime tid now level msg filename line).0
      ≡ put_items []
          (items (to_default_log_string gmtime now) tid now level msg (source_file filename) line)
unfolding log_line format_time finish_line put_items
log_line-items gmtime tid now level msg filename line = refl

-- A log line on its own.
abbrev pub line_text : Bytes → Bytes → Timestamp → LogLevel → Bytes → Bytes → ℕ → Bytes
line_text date tid now level msg base line =
    date
    ++ (codes "."
        ++ (to_decimal (micros_since_epoch now % micros_per_second)
            ++ (codes " "
                ++ (tid
                    ++ (codes " "
                        ++ (get_log_level level
                            ++ (codes " "
                                ++ (msg
                                    ++ (codes " - "
                                        ++ (base
                                            ++ (codes "58"
                                                ++ (to_decimal line ++ codes "10"))))))))))))

colon_text : to_decimal b':' ≡ codes "58"
unfolding to_decimal low_digits
colon_text = refl

newline_text : to_decimal b'\n' ≡ codes "10"
unfolding to_decimal low_digits
newline_text = refl

length-get_log_level : (level : LogLevel) → length (get_log_level level) ≤ 5
length-get_log_level level = ground arith

texts_of-items :
    (date tid : Bytes) (now : Timestamp) (level : LogLevel) (msg base : Bytes) (line : ℕ)
    → texts_of (items date tid now level msg base line) ≡ line_text date tid now level msg base line
texts_of-items date tid now level msg base line = rw (colon_text, newline_text) refl

items-AreSmall :
    (date tid : Bytes) (now : Timestamp) (level : LogLevel) (msg base : Bytes) (line : ℕ)
    → line < 2 ^ 31
    → AreSmall (items date tid now level msg base line)
items-AreSmall date tid now level msg base line h =
    (omega arith, (omega arith, (omega (arith, h), (omega arith, tt))))

-- What a line may have for its own line to be put out whole: 217 bytes of the buffer are left free by
-- the thread, the text and the name.
abbrev pub Fits : Bytes → Bytes → Bytes → ℕ → Type 0
Fits tid msg base line =
    (line < 2 ^ 31) × (length tid + length msg + length base + 217 ≤ small_buffer)

-- If the texts of a line leave 217 bytes of the buffer free, the line that is put out is the date,
-- the microseconds, the thread, the level, the text, the file and the line's number, with the
-- numbers 58 and 10 where the colon and the newline should be.
pub log_line_lem :
    (gmtime : ℕ → Tm) (tid : Bytes) (now : Timestamp) (level : LogLevel) (msg filename : Bytes)
    (line : ℕ)
    → Fits tid msg (source_file filename) line
    → (log_line gmtime tid now level msg filename line).0
      ≡ line_text (to_default_log_string gmtime now) tid now level msg (source_file filename) line
log_line_lem gmtime tid now level msg filename line (h, k) =
    let base = source_file filename in
    let date = to_default_log_string gmtime now in
    log_line-items gmtime tid now level msg filename line
    ∙ put_items-fits (items date tid now level msg base line) []
        (items-AreSmall date tid now level msg base line h)
        (omega (arith, k, length-get_log_level level, length-to_default_log_string gmtime now))
    ∙ texts_of-items date tid now level msg base line

length-texts_of : (is : List Item) → AreSmall is → length (texts_of is) ≤ widths is
length-texts_of [] s = omega arith
length-texts_of (text xs ∷ is) s =
    omega (arith, length-append xs (texts_of is), length-texts_of is s)
length-texts_of (number n ∷ is) s = omega (
  arith,
  length-append (to_decimal n) (texts_of is),
  length-to_decimal_word n s.0,
  length-texts_of is s.1,
)

-- Such a line is shorter than the buffer.
pub length-line_text :
    (gmtime : ℕ → Tm) (tid : Bytes) (now : Timestamp) (level : LogLevel) (msg base : Bytes)
    (line : ℕ)
    → Fits tid msg base line
    → length (line_text (to_default_log_string gmtime now) tid now level msg base line)
      < small_buffer
length-line_text gmtime tid now level msg base line (h, k) =
    let date = to_default_log_string gmtime now in
    omega (
      arith,
      ap length (texts_of-items date tid now level msg base line),
      length-texts_of (items date tid now level msg base line)
          (items-AreSmall date tid now level msg base line h),
      k,
      length-get_log_level level,
      length-to_default_log_string gmtime now,
    )
