-- ===== src/Tests/Logs.antt =====
-- Logging at concrete inputs.
use my_moduo.Base.{
  ◌≢◌, Option, ℕ, ◌≤◌, ◌<◌, true, none, Bytes, length, refl, tally, ◌++◌, ◌≡◌, List, [], ◌∷◌, some,
  arith, concat, codes, ◌/◌, ◌%◌, to_decimal, low_digits,
}
use my_moduo.Logging.AsyncLogging.Appending.{buffered}
use my_moduo.Logging.LogStream.Whole.{
  Value, bool_value, integer_value, text_value, Whole, put_values, put_values-Whole,
}
use my_moduo.Logging.LogStream.{small_buffer}
use my_moduo.Logging.LogFile.Rolling.{Call, append_all, texts, AreRare, append_all_rare}
use my_moduo.Logging.LogFile.Written.{NoErrors, all_text, IsCounted, Settles, append_writes}
use my_moduo.Logging.LogFile.{LogFile, append}
use my_moduo.Logging.LogFile
use my_moduo.Logging.Logger.Output.{Entry}
use my_moduo.Logging.Logger.{LogLevel, debug, info, error, is_logged, source_file, behind_slash}
use my_moduo.Logging.Pipeline.{Device}
use my_moduo.Logging.Writer.Complete.{writer_complete}
use my_moduo.Logging.Writer.Sound.{taken, lines_of}
use my_moduo.Logging.Writer.Stopping.{Ends, written_by_stop, stop_joins}
use my_moduo.Logging.Writer.{
  over, Writer, start_async_logging, Event, logs, turns, stops, step_at, step, run,
}
use my_moduo.Program.Log.{World, main_globals, LogEvent, says, writes, run_log, start_world}
use my_moduo.Program.Logged.{said, AllFit, lines_reach_files}
use my_moduo.Timer.Timestamp.Printing.{
  Tm, padded, date_text, print_time, to_string, to_default_log_string,
}
use my_moduo.Timer.Timestamp.{neg, time_difference}

abbrev values : List Value
values =
    text_value (some (codes "id "))
    ∷ integer_value (neg 42)
    ∷ text_value none
    ∷ bool_value true
    ∷ []

put_values-Whole_example :
    Whole [] values (put_values [] values) × (length (put_values [] values) < small_buffer)
put_values-Whole_example =
    put_values-Whole [] values (omega arith) (tt, (omega arith, (tt, (tt, tt))))

-- A file that is replaced behind more than ten bytes, and flushed every three seconds.
abbrev small_file : LogFile
small_file = LogFile.init true 10 3

-- `fwrite` takes two bytes at first.
append_writes_example :
    (g : LogFile) × (append (2 ∷ 4 ∷ 1 ∷ 1 ∷ []) 5 6 true (codes "line") small_file ≡ some g)
    × (all_text g ≡ all_text small_file ++ codes "line")
    × IsCounted g
    × Settles 5 small_file g
    × (true ≡ true → g.is_open ≡ true)
append_writes_example =
    append_writes (2 ∷ 4 ∷ 1 ∷ 1 ∷ []) 5 6 true (codes "line") small_file refl refl
      (unfold tally in refl) (omega arith)

-- Two lines that are four seconds apart.
abbrev calls : List Call
calls =
    record {
      answers = 4 ∷ 4 ∷ 4 ∷ 4 ∷ [];
      now = 4_000_000_000;
      later = 0;
      opened = true;
      text = codes "aaaa";
    }
    ∷ record {
      answers = 4 ∷ 4 ∷ 4 ∷ 4 ∷ [];
      now = 8_000_000_000;
      later = 0;
      opened = true;
      text = codes "bbbb";
    }
    ∷ []

calls-AreRare : AreRare small_file.last_flush small_file.flush_interval calls
unfolding time_difference tally
calls-AreRare = (refl, refl, omega arith, (refl, refl, omega arith, tt))

append_all_rare_example :
    (g : LogFile) × (append_all calls small_file ≡ some g)
    × (g.closed ≡ small_file.closed)
    × (g.file ≡ small_file.file ++ texts calls)
append_all_rare_example = append_all_rare calls small_file refl calls-AreRare

-- The first day of 1970, for every time of it.
abbrev first_day : ℕ → Tm
first_day s = record {
  year = 70;
  mon = 0;
  mday = 1;
  hour = s / 3600 % 24;
  min = s / 60 % 60;
  sec = s % 60;
}

-- An hour, a minute and a second after the epoch.
to_default_log_string-text :
    to_default_log_string first_day 3661000000000 ≡ codes "19700101 01:01:01"
unfolding to_default_log_string print_time date_text padded to_decimal low_digits
to_default_log_string-text = refl

to_string-text : to_string first_day 61000042000 ≡ codes "19700101 00:01:01.000042"
unfolding to_string print_time date_text padded to_decimal low_digits
to_string-text = refl

source_file-path : source_file (codes "a/b.cpp") ≡ codes "b.cpp"
unfolding source_file behind_slash
source_file-path = refl

-- `fwrite` takes one byte at a time.
abbrev ones : Bytes → List ℕ
ones [] = []
ones (x ∷ xs) = 1 ∷ ones xs

abbrev slow : Device
slow = record { answers = λ b f. ones b; now = λ b f. 7; later = λ b f. 8; opens = λ b f. true }

ones_lem : (b : Bytes) → NoErrors (ones b) × (length b ≤ length (ones b)) × (true ≡ true)
unfolding tally
ones_lem [] = (refl, omega arith, refl)
ones_lem (x ∷ xs) = (omega (arith, (ones_lem xs).0), omega (arith, (ones_lem xs).1), refl)

-- The second line is logged while the thread writes the first one, and stays behind.
abbrev events : List Event
events = logs (codes "one\n") ∷ turns ∷ turns ∷ logs (codes "two\n") ∷ turns ∷ stops ∷ turns ∷ []

writer_complete_example :
    (t : Writer) × (run slow events (start_async_logging true 10 3) ≡ some t)
    × (all_text t.output ++ (taken t.phase ++ buffered t.log) ≡ lines_of events)
writer_complete_example = writer_complete slow events 10 3 (λ b f. ones_lem b)

abbrev unwrap : Option Writer → Writer
unwrap none = start_async_logging true 10 3
unwrap (some s) = s

abbrev caught : Writer
caught = unwrap (run slow (logs (codes "one\n") ∷ turns ∷ []) (start_async_logging true 10 3))

run-caught :
    run slow (logs (codes "one\n") ∷ turns ∷ []) (start_async_logging true 10 3) ≡ some caught
unfolding run step step_at
run-caught = refl

caught-waiting : caught.phase ≢ over
unfolding run step step_at
caught-waiting e = cc

stop_joins_example :
    Ends slow (stops ∷ turns ∷ turns ∷ turns ∷ []) caught (written_by_stop caught.phase caught)
stop_joins_example =
    stop_joins slow (logs (codes "one\n") ∷ turns ∷ []) 10 3 (λ b f. ones_lem b) run-caught
      caught-waiting

-- Three uses of the macros, of which the first says nothing, with a round between.
abbrev said_by : LogLevel → Bytes → Entry
said_by level text = record {
  level = level;
  text = text;
  filename = codes "a/b.cpp";
  line = 12;
  tid = codes "7";
  now = 61000042000;
}

abbrev log_events : List LogEvent
log_events =
    says (said_by debug (codes "none"))
    ∷ says (said_by info (codes "up"))
    ∷ writes
    ∷ says (said_by error (codes "down"))
    ∷ []

log_events-AllFit : AllFit log_events
unfolding source_file behind_slash
log_events-AllFit =
    ((omega arith, omega arith), ((omega arith, omega arith), ((omega arith, omega arith), tt)))

lines_reach_files_example :
    (w : World) × (run_log slow main_globals first_day log_events start_world ≡ some w)
    × (all_text w.log_file ++ (concat w.asynclog.buffers ++ w.asynclog.current)
        ≡ said first_day log_events)
lines_reach_files_example =
    lines_reach_files slow first_day log_events (λ b f. ones_lem b) log_events-AllFit

-- The date of 1970, the microseconds without zeros in front, and the numbers for colon and newline.
said_text :
    said first_day (says (said_by info (codes "up")) ∷ [])
    ≡ codes "19700101 00:01:01.42 7 INFO up - b.cpp581210"
unfolding source_file behind_slash is_logged to_default_log_string print_time date_text padded
    to_decimal low_digits
said_text = refl
