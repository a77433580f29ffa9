-- ===== src/Logging/LogFile/Names.antt =====
-- Logging/logfile.cpp: the names of log files. The printed hash of the thread is an argument.
use my_moduo.Base.{
  ℕ, ◌≡◌, ◌↔◌, sym, ap, ◌∙◌, ◌++◌, Bytes, codes, length, take, drop, take-append_length,
  drop-append_length,
}
use my_moduo.Timer.Timestamp.Dates.{InRange, length-date_text, to_default_log_string-date_text}
use my_moduo.Timer.Timestamp.Printing.{Tm, date_text, to_default_log_string}
use my_moduo.Timer.Timestamp.Reading.{read_date, read_date-to_default_log_string}
use my_moduo.Timer.Timestamp.{Timestamp, seconds_since_epoch}

-- `getLogFileName`
unfoldable pub get_log_file_name : (ℕ → Tm) → Bytes → Bytes → Timestamp → Bytes
unfolding to_default_log_string
get_log_file_name gmtime tid basename now =
    (codes "./log/" ++ (basename ++ codes " "))
    ++ (to_default_log_string gmtime now ++ (codes " " ++ (tid ++ codes ".log")))

-- The date in a name behind what stands in front of it.
abbrev date_in : Bytes → Bytes → Bytes
date_in front name = take 17 (drop (length front) name)

date_in-get_log_file_name :
    (gmtime : ℕ → Tm) (tid basename : Bytes) (now : Timestamp)
    → InRange (gmtime (seconds_since_epoch now))
    → date_in
        (codes "./log/" ++ (basename ++ codes " "))
        (get_log_file_name gmtime tid basename now)
      ≡ to_default_log_string gmtime now
unfolding get_log_file_name
date_in-get_log_file_name gmtime tid basename now h =
    let front = codes "./log/" ++ (basename ++ codes " ") in
    let date = to_default_log_string gmtime now in
    let back = codes " " ++ (tid ++ codes ".log") in
    let size =
      ap length (to_default_log_string-date_text gmtime now h)
      ∙ length-date_text (gmtime (seconds_since_epoch now)) h in
    ap (take 17) (drop-append_length front (date ++ back))
    ∙ ap (λ n. take n (date ++ back)) (sym size)
    ∙ take-append_length date back

-- The files that a thread names at two times have the same name if and only if `gmtime` gives the
-- same fields, up to the second, for both: two files of one second are one.
pub get_log_file_name_iff :
    (gmtime : ℕ → Tm) (tid basename : Bytes) (now later : Timestamp)
    → InRange (gmtime (seconds_since_epoch now))
    → InRange (gmtime (seconds_since_epoch later))
    → (get_log_file_name gmtime tid basename now ≡ get_log_file_name gmtime tid basename later)
      ↔ (gmtime (seconds_since_epoch now) ≡ gmtime (seconds_since_epoch later))
unfolding get_log_file_name
get_log_file_name_iff gmtime tid basename now later h k = (
  λ same.
      sym (read_date-to_default_log_string gmtime now h)
      ∙ ap read_date (
          sym (date_in-get_log_file_name gmtime tid basename now h)
          ∙ ap (date_in (codes "./log/" ++ (basename ++ codes " "))) same
          ∙ date_in-get_log_file_name gmtime tid basename later k)
      ∙ read_date-to_default_log_string gmtime later k,
  λ same.
      ap
        (λ date.
          (codes "./log/" ++ (basename ++ codes " "))
          ++ (date ++ (codes " " ++ (tid ++ codes ".log"))))
        (to_default_log_string-date_text gmtime now h
          ∙ ap date_text same
          ∙ sym (to_default_log_string-date_text gmtime later k)),
)
