-- ===== src/Timer/Timestamp/Dates.antt =====
-- What a printed date looks like.
use my_moduo.Base.{
  ℕ, suc, ◌+◌, ◌-◌, ◌*◌, ◌^◌, ◌≤◌, ◌<◌, ◌≡◌, sym, ap, ◌∙◌, ◌∷◌, ◌++◌, arith, take, length,
  replicate, length-append, length-replicate, length-take, take-all, take-append_length, to_decimal,
  length-to_decimal,
}
use my_moduo.Timer.Timestamp.Printing.{
  Tm, padded, date_text, print_time, to_string, to_default_log_string,
}
use my_moduo.Timer.Timestamp.{Timestamp, micros_since_epoch, seconds_since_epoch, micros_per_second}

pub length-padded : (fill k n : ℕ) → n < 10 ^ suc k → length (padded fill (suc k) n) ≡ suc k
unfolding padded
length-padded fill k n h = omega (
  arith,
  length-append (replicate (suc k - length (to_decimal n)) fill) (to_decimal n),
  length-replicate (suc k - length (to_decimal n)) fill,
  length-to_decimal n k h,
)

-- The fields that `gmtime` may give, up to the year 9999; a minute may have a leap second.
pub record InRange (tm : Tm) : Type 0 where
  pub year : tm.year + 1900 < 10000
  pub mon : tm.mon < 12
  pub mday : tm.mday ≤ 31
  pub hour : tm.hour < 24
  pub min : tm.min < 60
  pub sec : tm.sec ≤ 60

pub length-date_text : (tm : Tm) → InRange tm → length (date_text tm) ≡ 17
unfolding date_text
length-date_text tm h =
    let year = padded b' ' 4 (tm.year + 1900) in
    let mon = padded b'0' 2 (tm.mon + 1) in
    let mday = padded b'0' 2 tm.mday in
    let hour = padded b'0' 2 tm.hour in
    let min = padded b'0' 2 tm.min in
    let sec = padded b'0' 2 tm.sec in
    omega (
      arith,
      length-append year (mon ++ (mday ++ (b' ' ∷ (hour ++ (b':' ∷ (min ++ (b':' ∷ sec))))))),
      length-append mon (mday ++ (b' ' ∷ (hour ++ (b':' ∷ (min ++ (b':' ∷ sec)))))),
      length-append mday (b' ' ∷ (hour ++ (b':' ∷ (min ++ (b':' ∷ sec))))),
      length-append hour (b':' ∷ (min ++ (b':' ∷ sec))),
      length-append min (b':' ∷ sec),
      length-padded b' ' 3 (tm.year + 1900) h.year,
      length-padded b'0' 1 (tm.mon + 1) (omega (arith, h.mon)),
      length-padded b'0' 1 tm.mday (omega (arith, h.mday)),
      length-padded b'0' 1 tm.hour (omega (arith, h.hour)),
      length-padded b'0' 1 tm.min (omega (arith, h.min)),
      length-padded b'0' 1 tm.sec (omega (arith, h.sec)),
    )

pub length-to_default_log_string :
    (gmtime : ℕ → Tm) (t : Timestamp) → length (to_default_log_string gmtime t) ≤ 17
unfolding to_default_log_string
length-to_default_log_string gmtime t = omega (arith, length-take 17 (print_time gmtime t))

-- `toDefaultLogString` is the date, and no more.
pub to_default_log_string-date_text :
    (gmtime : ℕ → Tm) (t : Timestamp)
    → InRange (gmtime (seconds_since_epoch t))
    → to_default_log_string gmtime t ≡ date_text (gmtime (seconds_since_epoch t))
unfolding to_default_log_string print_time
to_default_log_string-date_text gmtime t h =
    let tm = gmtime (seconds_since_epoch t) in
    ap (λ n. take n (print_time gmtime t)) (sym (length-date_text tm h))
    ∙ take-append_length (date_text tm) _

-- All that is printed goes into the buffer of `toString`.
pub to_string-print_time :
    (gmtime : ℕ → Tm) (t : Timestamp)
    → InRange (gmtime (seconds_since_epoch t))
    → to_string gmtime t ≡ print_time gmtime t
unfolding to_string print_time
to_string-print_time gmtime t h =
    let tm = gmtime (seconds_since_epoch t) in
    let part = micros_since_epoch t - micros_per_second * seconds_since_epoch t in
    take-all 31 (print_time gmtime t) (
      omega (
        arith,
        length-append (date_text tm) (b'.' ∷ padded b'0' 6 part),
        length-date_text tm h,
        length-padded b'0' 5 part (omega arith),
      ))
