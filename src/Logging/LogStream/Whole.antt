-- ===== src/Logging/LogStream/Whole.antt =====
-- The values that are put into a `LogStream`, one behind the other.
use my_moduo.Base.{
  ◌+◌, ◌^◌, ◌≤◌, ◌<◌, ◌≡◌, sym, ap, ◌∙◌, ◌⊎◌, inl, inr, Bool, List, [], ◌∷◌, ◌++◌, map, append-nil,
  append_assoc, arith, Bytes, codes, length, length-append, concat, leb, leb→le, Option, none, some,
  Bool-cases, if-true, if-false, if◌then◌else◌,
}
use mathlib.Core.Path.{subst}
use my_moduo.Logging.LogStream.Numbers.{
  decimal_text, length-integer_text, integer_text-decimal_text,
}
use my_moduo.Logging.LogStream.{
  small_buffer, max_numeric_size, avail, append, magnitude, integer_text, format_integer, put_bool,
  put_double, put_pointer,
}
use my_moduo.Logging.Logger.{put_text}
use my_moduo.Timer.Timestamp.{Signed}

-- A value for `operator<<`; for a floating-point number and a pointer, what `snprintf` prints.
pub data Value : Type 0 where
  bool_value : Bool → Value
  integer_value : Signed → Value
  double_value pointer_value : Bytes → Value
  text_value : Option Bytes → Value

-- `operator<<`
unfoldable pub put_value : Bytes → Value → Bytes
unfolding put_bool format_integer put_double put_pointer put_text
put_value stored (bool_value v) = put_bool small_buffer stored v
put_value stored (integer_value num) = format_integer small_buffer stored num
put_value stored (double_value printed) = put_double small_buffer stored printed
put_value stored (pointer_value printed) = put_pointer small_buffer stored printed
put_value stored (text_value text) = put_text stored text

unfoldable pub put_values : Bytes → List Value → Bytes
unfolding put_value
put_values stored [] = stored
put_values stored (v ∷ vs) = put_values (put_value stored v) vs

-- The whole text of a value.
abbrev pub value_text : Value → Bytes
value_text (bool_value v) = if v then codes "1" else codes "0"
value_text (integer_value num) = decimal_text num
value_text (double_value printed) = printed
value_text (pointer_value printed) = codes "0x" ++ printed
value_text (text_value none) = codes "(null)"
value_text (text_value (some text)) = text

-- An integer has at most 64 bits, and what `snprintf` prints is shorter than its bound.
abbrev pub IsPrintable : Value → Type 0
IsPrintable (integer_value num) = magnitude num < 2 ^ 64
IsPrintable (double_value printed) = length printed < max_numeric_size
IsPrintable (pointer_value printed) = 2 + length printed < max_numeric_size
IsPrintable _ = Unit {0}

abbrev pub ArePrintable : List Value → Type 0
ArePrintable [] = Unit {0}
ArePrintable (v ∷ vs) = IsPrintable v × ArePrintable vs

-- A value is put whole or not at all, and there is room for a zero byte behind the text.
abbrev Puts : Bytes → Bytes → Bytes → Type 0
Puts stored text r = ((r ≡ stored) ⊎ (r ≡ stored ++ text)) × (length r < small_buffer)

-- What a test on the room guards.
guarded-Puts :
    (b : Bool) (stored text : Bytes)
    → length stored < small_buffer
    → (b ≡ Bool.true → length stored + length text < small_buffer)
    → Puts stored text (if b then stored ++ text else stored)
guarded-Puts b stored text h room = elim (Bool-cases b) [
  | inl t ↦
      let grows = if-true b (stored ++ text) stored t in
      (inr grows, omega (arith, ap length grows, length-append stored text, room t))
  | inr f ↦
      let same = if-false b (stored ++ text) stored f in
      (inl same, omega (arith, ap length same, h))
]

append-Puts :
    (stored text : Bytes)
    → length stored < small_buffer
    → Puts stored text (append small_buffer stored text)
unfolding append
append-Puts stored text h = guarded-Puts _ stored text h (λ t. ground arith)

-- The test on `kMaxNumericSize`.
number-Puts :
    (stored text : Bytes)
    → length stored < small_buffer
    → length text < max_numeric_size
    → Puts stored text
        (if leb max_numeric_size (avail small_buffer stored) then stored ++ text else stored)
number-Puts stored text h k = guarded-Puts _ stored text h (λ t. omega (arith, k, leb→le _ _ t))

put_value-Puts :
    (stored : Bytes) (v : Value)
    → length stored < small_buffer
    → IsPrintable v
    → Puts stored (value_text v) (put_value stored v)
unfolding put_value put_bool format_integer put_double put_pointer put_text
put_value-Puts stored (bool_value v) h p = append-Puts stored _ h
put_value-Puts stored (integer_value num) h p =
    subst (λ t. Puts stored t (format_integer small_buffer stored num))
      (integer_text-decimal_text num)
      (number-Puts stored (integer_text num) h (omega (arith, length-integer_text num p)))
put_value-Puts stored (double_value printed) h p = number-Puts stored printed h p
put_value-Puts stored (pointer_value printed) h p = number-Puts stored _ h (omega (arith, p))
put_value-Puts stored (text_value none) h p = append-Puts stored _ h
put_value-Puts stored (text_value (some text)) h p = append-Puts stored text h

-- Some of the values of a list, in its order.
pub data Chosen : List Value → List Value → Type 0 where
  chosen_none : Chosen [] []
  chosen : {v : Value} {ws vs : List Value} → Chosen ws vs → Chosen (v ∷ ws) (v ∷ vs)
  dropped : {v : Value} {ws vs : List Value} → Chosen ws vs → Chosen ws (v ∷ vs)

-- The texts of some of the values, behind what was there.
abbrev pub Whole : Bytes → List Value → Bytes → Type 0
Whole stored vs r = ((ws : List Value) × Chosen ws vs × (r ≡ stored ++ concat (map value_text ws)))

Whole-first :
    {stored mid r : Bytes} {v : Value} {vs : List Value}
    → (mid ≡ stored) ⊎ (mid ≡ stored ++ value_text v)
    → Whole mid vs r
    → Whole stored (v ∷ vs) r
Whole-first (inl same) (ws, c, e) =
    (ws, dropped c, e ∙ ap (λ m. m ++ concat (map value_text ws)) same)
Whole-first {stored} {v = v} (inr grows) (ws, c, e) = (
  v ∷ ws,
  chosen c,
  e
      ∙ ap (λ m. m ++ concat (map value_text ws)) grows
      ∙ append_assoc stored (value_text v) (concat (map value_text ws)),
)

-- The values that are put into a `LogStream` one behind the other are put whole or not at all: the
-- line is what was there and then the entire texts of some of the values, in their order. It stays
-- shorter than the storage, so that the zero byte has its place, and an integer is in decimal
-- notation. An integer has at most 64 bits, and what `snprintf` prints of a floating-point number
-- or a pointer is shorter than its bound.
pub put_values-Whole :
    (stored : Bytes) (vs : List Value)
    → length stored < small_buffer
    → ArePrintable vs
    → Whole stored vs (put_values stored vs) × (length (put_values stored vs) < small_buffer)
unfolding put_values
put_values-Whole stored [] h p = (([], chosen_none, sym (append-nil stored)), h)
put_values-Whole stored (v ∷ vs) h p =
    let (first, less) = put_value-Puts stored v h p.0 in
    let (rest, short) = put_values-Whole (put_value stored v) vs less p.1 in
    (Whole-first first rest, short)

put_value-all :
    (stored : Bytes) (v : Value)
    → length stored + length (value_text v) + max_numeric_size ≤ small_buffer
    → put_value stored v ≡ stored ++ value_text v
unfolding put_value put_bool format_integer put_double put_pointer put_text append
put_value-all stored (bool_value v) h = ground arith
put_value-all stored (integer_value num) h = ground (arith, integer_text-decimal_text num)
put_value-all stored (double_value printed) h = ground arith
put_value-all stored (pointer_value printed) h = ground arith
put_value-all stored (text_value none) h = ground arith
put_value-all stored (text_value (some text)) h = ground arith

-- As long as what was there, the texts of all values and `kMaxNumericSize` more bytes fit into the
-- storage, no value is left out: the line is what was there and then the texts of all values.
put_values-all :
    (stored : Bytes) (vs : List Value)
    → length stored + length (concat (map value_text vs)) + max_numeric_size ≤ small_buffer
    → put_values stored vs ≡ stored ++ concat (map value_text vs)
unfolding put_values
put_values-all stored [] h = sym (append-nil stored)
put_values-all stored (v ∷ vs) h =
    let later = concat (map value_text vs) in
    let first = put_value-all stored v (omega (arith, h, length-append (value_text v) later)) in
    put_values-all (put_value stored v) vs (
      omega (
        arith,
        h,
        ap length first,
        length-append stored (value_text v),
        length-append (value_text v) later,
      ))
    ∙ ap (λ m. m ++ later) first
    ∙ append_assoc stored (value_text v) later
