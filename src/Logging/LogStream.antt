-- ===== src/Logging/LogStream.antt =====
-- Logging/logstream.h: the fixed buffer of a log line, and how numbers and texts are put into it.
-- A `FixedBuffer<SIZE>` is the bytes from its start to the write pointer; SIZE is an argument.
pub mod Numbers
pub mod Whole
use my_moduo.Base.{
  ℕ, suc, ◌+◌, ◌-◌, ◌*◌, Bool, true, false, List, [], ◌∷◌, ◌++◌, Bytes, codes, length, leb, ltb,
  low_digits, if◌then◌else◌,
}
use mathlib.Core.List.{reverse}
use my_moduo.Timer.Timestamp.{Signed, pos, neg}

-- `kSmallBuffer`, `kLargeBuffer` and `kMaxNumericSize`
abbrev pub small_buffer : ℕ
small_buffer = 4096

abbrev pub large_buffer : ℕ
large_buffer = 4096 * 1000

abbrev pub max_numeric_size : ℕ
max_numeric_size = 48

abbrev pub avail : ℕ → Bytes → ℕ
avail size stored = size - length stored

-- `append`, which drops what does not fit.
unfoldable pub append : ℕ → Bytes → Bytes → Bytes
append size stored buf = if ltb (length buf) (avail size stored) then stored ++ buf else stored

-- `num < 0`
abbrev pub is_negative : Signed → Bool
is_negative (pos n) = false
is_negative (neg n) = ltb 0 n

-- The digits that the loop writes, the last one first. The remainders of a negative number are
-- negative, and `zero[-d]` is the digit d as well.
abbrev pub magnitude : Signed → ℕ
magnitude (pos n) = n
magnitude (neg n) = n

unfoldable pub digits_of : ℕ → Bytes
unfolding low_digits
digits_of n = low_digits (suc n) n

-- The text that `formatInteger` leaves between `buf` and `now`.
unfoldable pub integer_text : Signed → Bytes
unfolding digits_of
integer_text num =
    reverse (digits_of (magnitude num) ++ (if is_negative num then b'-' ∷ [] else []))

unfoldable pub format_integer : ℕ → Bytes → Signed → Bytes
unfolding integer_text
format_integer size stored num =
    if leb max_numeric_size (avail size stored) then stored ++ integer_text num else stored

-- `operator<<` on `bool`.
unfoldable pub put_bool : ℕ → Bytes → Bool → Bytes
unfolding append
put_bool size stored v = append size stored (if v then codes "1" else codes "0")

-- `operator<<` on `double`, with what `snprintf` prints, which is shorter than `kMaxNumericSize`.
unfoldable pub put_double : ℕ → Bytes → Bytes → Bytes
put_double size stored printed =
    if leb max_numeric_size (avail size stored) then stored ++ printed else stored

-- `operator<<` on `const void *`, with what `snprintf` prints behind the two characters.
unfoldable pub put_pointer : ℕ → Bytes → Bytes → Bytes
put_pointer size stored printed =
    if leb max_numeric_size (avail size stored) then stored ++ (codes "0x" ++ printed) else stored
