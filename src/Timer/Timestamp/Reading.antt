-- ===== src/Timer/Timestamp/Reading.antt =====
-- A printed date is read back.
use mathlib.Core.List.{reverse, reverse_aux, reverse-append}
use my_moduo.Base.{
  ℕ, zero, suc, ◌+◌, ◌-◌, ◌^◌, ◌≤◌, ◌<◌, ◌≡◌, refl, sym, ap, ◌∙◌, [], ◌∷◌, ◌++◌, arith, Bytes, take,
  drop, length, replicate, take-append_length, drop-append_length, to_decimal, of_decimal,
  of_decimal-to_decimal, value_of,
}
use my_moduo.Timer.Timestamp.Dates.{InRange, length-padded, to_default_log_string-date_text}
use my_moduo.Timer.Timestamp.Printing.{Tm, padded, date_text, to_default_log_string}
use my_moduo.Timer.Timestamp.{Timestamp, seconds_since_epoch}

value_of-append_replicate :
    (xs : Bytes) (k c : ℕ) → c ≤ b'0' → value_of (xs ++ replicate k c) ≡ value_of xs
unfolding value_of
value_of-append_replicate [] zero c h = refl
value_of-append_replicate [] (suc k) c h = omega (arith, value_of-append_replicate [] k c h)
value_of-append_replicate (x ∷ xs) k c h = omega (arith, value_of-append_replicate xs k c h)

reverse_aux-replicate :
    (k j c : ℕ) → reverse_aux (replicate k c) (replicate j c) ≡ replicate (k + j) c
reverse_aux-replicate zero j c = ap (λ n. replicate n c) (omega arith)
reverse_aux-replicate (suc k) j c =
    reverse_aux-replicate k (suc j) c ∙ ap (λ n. replicate n c) (omega arith)

reverse-replicate : (k c : ℕ) → reverse (replicate k c) ≡ replicate k c
reverse-replicate k c = reverse_aux-replicate k 0 c ∙ ap (λ n. replicate n c) (omega arith)

-- Blanks and zeros in front do not change what is read.
of_decimal-padded : (fill w n : ℕ) → fill ≤ b'0' → of_decimal (padded fill w n) ≡ n
unfolding of_decimal padded
of_decimal-padded fill w n h =
    let k = w - length (to_decimal n) in
    ap value_of (
      reverse-append (replicate k fill) (to_decimal n)
      ∙ ap (◌++◌ (reverse (to_decimal n))) (reverse-replicate k fill))
    ∙ value_of-append_replicate (reverse (to_decimal n)) k fill h
    ∙ of_decimal-to_decimal n

-- A number of so many digits, and what is behind it.
abbrev read_number : ℕ → Bytes → ℕ × Bytes
read_number n xs = (of_decimal (take n xs), drop n xs)

-- The date that a text gives.
abbrev pub read_date : Bytes → Tm
read_date xs =
    let (year, xs1) = read_number 4 xs in
    let (mon, xs2) = read_number 2 xs1 in
    let (mday, xs3) = read_number 2 xs2 in
    let (hour, xs4) = read_number 2 (drop 1 xs3) in
    let (min, xs5) = read_number 2 (drop 1 xs4) in
    record {
      year = year - 1900;
      mon = mon - 1;
      mday = mday;
      hour = hour;
      min = min;
      sec = of_decimal (drop 1 xs5);
    }

take-padded :
    (fill k n : ℕ) (rest : Bytes)
    → n < 10 ^ suc k
    → take (suc k) (padded fill (suc k) n ++ rest) ≡ padded fill (suc k) n
take-padded fill k n rest h =
    ap (λ m. take m (padded fill (suc k) n ++ rest)) (sym (length-padded fill k n h))
    ∙ take-append_length (padded fill (suc k) n) rest

drop-padded :
    (fill k n : ℕ) (rest : Bytes)
    → n < 10 ^ suc k
    → drop (suc k) (padded fill (suc k) n ++ rest) ≡ rest
drop-padded fill k n rest h =
    ap (λ m. drop m (padded fill (suc k) n ++ rest)) (sym (length-padded fill k n h))
    ∙ drop-append_length (padded fill (suc k) n) rest

-- The fields of a date that is read, one after the other.
abbrev tm_of : ℕ → ℕ → ℕ → ℕ → ℕ → ℕ → Tm
tm_of year mon mday hour min sec = record {
  year = year - 1900;
  mon = mon - 1;
  mday = mday;
  hour = hour;
  min = min;
  sec = sec;
}

read_date-parts :
    (year mon mday hour min sec : ℕ)
    → year < 10000
    → mon < 100
    → mday < 100
    → hour < 100
    → min < 100
    → read_date (
        padded b' ' 4 year
        ++ (padded b'0' 2 mon
            ++ (padded b'0' 2 mday
                ++ (b' '
                    ∷ (padded b'0' 2 hour
                        ++ (b':' ∷ (padded b'0' 2 min ++ (b':' ∷ padded b'0' 2 sec))))))))
      ≡ tm_of year mon mday hour min sec
read_date-parts year mon mday hour min sec hy ho hd hh hm =
    rw
      (
        take-padded b' ' 3 year _ hy,
        drop-padded b' ' 3 year _ hy,
        take-padded b'0' 1 mon _ ho,
        drop-padded b'0' 1 mon _ ho,
        take-padded b'0' 1 mday _ hd,
        drop-padded b'0' 1 mday _ hd,
        take-padded b'0' 1 hour _ hh,
        drop-padded b'0' 1 hour _ hh,
        take-padded b'0' 1 min _ hm,
        drop-padded b'0' 1 min _ hm,
        of_decimal-padded b' ' 4 year (omega arith),
        of_decimal-padded b'0' 2 mon (omega arith),
        of_decimal-padded b'0' 2 mday (omega arith),
        of_decimal-padded b'0' 2 hour (omega arith),
        of_decimal-padded b'0' 2 min (omega arith),
        of_decimal-padded b'0' 2 sec (omega arith),
      )
      refl

tm_of-fields : (tm : Tm) → tm_of (tm.year + 1900) (tm.mon + 1) tm.mday tm.hour tm.min tm.sec ≡ tm
tm_of-fields tm =
    ap (λ y. record tm { year = y; mon = (tm.mon + 1) - 1 }) (omega arith)
    ∙ ap (λ m. record tm { mon = m }) (omega arith)

-- The date that is printed reads back as the fields that `gmtime` gave.
pub read_date-to_default_log_string :
    (gmtime : ℕ → Tm) (t : Timestamp)
    → InRange (gmtime (seconds_since_epoch t))
    → read_date (to_default_log_string gmtime t) ≡ gmtime (seconds_since_epoch t)
unfolding date_text
read_date-to_default_log_string gmtime t h =
    let tm = gmtime (seconds_since_epoch t) in
    ap read_date (to_default_log_string-date_text gmtime t h)
    ∙ read_date-parts (tm.year + 1900) (tm.mon + 1) tm.mday tm.hour tm.min tm.sec h.year
        (omega (arith, h.mon)) (omega (arith, h.mday)) (omega (arith, h.hour))
        (omega (arith, h.min))
    ∙ tm_of-fields tm
