-- ===== src/Logging/LogStream/Numbers.antt =====
-- Integers in a log line.
use mathlib.Core.List.{reverse, reverse-append}
use my_moduo.Base.{
  ℕ, suc, ◌+◌, ◌^◌, ◌≤◌, ◌<◌, ◌≡◌, ap, ◌∙◌, ◌⊎◌, inl, inr, [], ◌∷◌, ◌++◌, append-nil, arith, Bytes,
  length, length-append, length-reverse, length-low_digits, low_digits, ltb, leb, leb→le, leb→lt,
  to_decimal, Bool-cases, if-true, if-false, if◌then◌else◌,
}
use my_moduo.Logging.LogStream.{
  max_numeric_size, avail, magnitude, digits_of, integer_text, format_integer, is_negative,
}
use my_moduo.Timer.Timestamp.{Signed, pos, neg}

-- The usual notation of a number.
abbrev pub decimal_text : Signed → Bytes
decimal_text (pos n) = to_decimal n
decimal_text (neg n) = if ltb 0 n then b'-' ∷ to_decimal n else to_decimal n

pub integer_text-decimal_text : (num : Signed) → integer_text num ≡ decimal_text num
unfolding integer_text digits_of to_decimal
integer_text-decimal_text (pos n) = ap reverse (append-nil (low_digits (suc n) n))
integer_text-decimal_text (neg n) = elim (Bool-cases (ltb 0 n)) [
  | inl below ↦ rw below (reverse-append (low_digits (suc n) n) (b'-' ∷ []))
  | inr nought ↦ rw nought (ap reverse (append-nil (low_digits (suc n) n)))
]

abbrev sign_text : Signed → Bytes
sign_text num = if is_negative num then b'-' ∷ [] else []

length-sign_text : (num : Signed) → length (sign_text num) ≤ 1
length-sign_text num = ground arith

pub length-integer_text : (num : Signed) → magnitude num < 2 ^ 64 → length (integer_text num) ≤ 21
unfolding integer_text digits_of
length-integer_text num h = omega (
  arith,
  length-reverse (low_digits (suc (magnitude num)) (magnitude num) ++ sign_text num),
  length-append (low_digits (suc (magnitude num)) (magnitude num)) (sign_text num),
  length-low_digits (suc (magnitude num)) (magnitude num) 19 (omega arith),
  length-sign_text num,
)

-- What `formatInteger` may leave behind.
abbrev pub Formats : ℕ → Bytes → Signed → Bytes → Type 0
Formats size stored num r =
    ((avail size stored < max_numeric_size) × (r ≡ stored))
    ⊎ ((r ≡ stored ++ decimal_text num) × (length r + 1 ≤ size))

-- `formatInteger` of a number of at most 64 bits either finds less than `kMaxNumericSize` bytes
-- free and changes nothing, or puts the number behind what was there in decimal notation, with room
-- for the zero byte behind it.
format_integer_lem :
    (size : ℕ) (stored : Bytes) (num : Signed)
    → length stored ≤ size
    → magnitude num < 2 ^ 64
    → Formats size stored num (format_integer size stored num)
unfolding format_integer
format_integer_lem size stored num h k =
    elim (Bool-cases (leb max_numeric_size (avail size stored))) [
      | inl room ↦
          let grows = if-true _ (stored ++ integer_text num) stored room in
          inr (
            grows ∙ ap (◌++◌ stored) (integer_text-decimal_text num),
            omega (
              arith,
              ap length grows,
              length-append stored (integer_text num),
              length-integer_text num k,
              leb→le _ _ room,
            ),
          )
      | inr full ↦ inl (leb→lt _ _ full, if-false _ _ _ full)
    ]
