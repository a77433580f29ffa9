-- ===== src/Timer/Timestamp/Printing.antt =====
-- Timer/timestamp.h: `toString` and `toDefaultLogString`.
-- `gmtime` is an argument. The year of a `std::tm` counts from 1900 and is not negative, since no
-- point of the clock lies before 1970.
use my_moduo.Base.{ℕ, ◌+◌, ◌-◌, ◌*◌, ◌∷◌, ◌++◌, Bytes, take, length, replicate, to_decimal}
use my_moduo.Timer.Timestamp.{Timestamp, micros_since_epoch, seconds_since_epoch, micros_per_second}

-- The fields of `std::tm` that are printed.
pub record Tm : Type 0 where
  pub year : ℕ
  pub mon : ℕ
  pub mday : ℕ
  pub hour : ℕ
  pub min : ℕ
  pub sec : ℕ

-- A conversion of `snprintf` with a least width: `%4d` fills up with blanks, `%02d` with zeros.
unfoldable pub padded : ℕ → ℕ → ℕ → Bytes
unfolding to_decimal
padded fill width n = let digits = to_decimal n in replicate (width - length digits) fill ++ digits

-- "%4d%02d%02d %02d:%02d:%02d"
unfoldable pub date_text : Tm → Bytes
unfolding padded
date_text tm =
    padded b' ' 4 (tm.year + 1900)
    ++ (padded b'0' 2 (tm.mon + 1)
        ++ (padded b'0' 2 tm.mday
            ++ (b' '
                ∷ (padded b'0' 2 tm.hour
                    ++ (b':' ∷ (padded b'0' 2 tm.min ++ (b':' ∷ padded b'0' 2 tm.sec)))))))

-- What both functions print into `buf`, all of it: the date, and ".%06ld".
unfoldable pub print_time : (ℕ → Tm) → Timestamp → Bytes
unfolding date_text padded
print_time gmtime t =
    let micros_part = micros_since_epoch t - micros_per_second * seconds_since_epoch t in
    date_text (gmtime (seconds_since_epoch t)) ++ (b'.' ∷ padded b'0' 6 micros_part)

-- `toString`: `snprintf` keeps what goes into the 32 bytes of `buf` with a zero byte behind it.
unfoldable pub to_string : (ℕ → Tm) → Timestamp → Bytes
unfolding print_time
to_string gmtime t = take 31 (print_time gmtime t)

-- `toDefaultLogString`: the first 17 bytes of `buf`. At least 24 have been printed.
unfoldable pub to_default_log_string : (ℕ → Tm) → Timestamp → Bytes
unfolding print_time
to_default_log_string gmtime t = take 17 (print_time gmtime t)
