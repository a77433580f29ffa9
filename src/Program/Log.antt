-- ===== src/Program/Log.antt =====
-- main.cpp: how `main` sets the log up, and a history of log lines and rounds of the thread that
-- writes them, Logging/asynclogging.cpp, with its log file.
use my_moduo.Base.{ℕ, ◌*◌, true, List, [], ◌∷◌, Option, some, Bytes, ◌>>=◌}
use my_moduo.Logging.AsyncLogging.{AsyncLogging}
use my_moduo.Logging.AsyncLogging
use my_moduo.Logging.LogFile.{LogFile}
use my_moduo.Logging.LogFile
use my_moduo.Logging.Logger.Output.{
  Stdout, default_output, default_flush, Entry, Globals, set_output, set_flush, set_log_level, log,
}
use my_moduo.Logging.Logger.{info}
use my_moduo.Logging.Pipeline.{Device, file_round}
use my_moduo.Timer.Timestamp.Printing.{Tm}

-- `asynclog`, the log file of its thread, and `stdout`.
pub record World : Type 0 where
  pub stdout : Stdout
  pub asynclog : AsyncLogging
  pub log_file : LogFile

-- The globals of Logging/logging.cpp before `main`.
abbrev default_globals : Globals World
default_globals = record {
  output = λ msg w. record w { stdout = default_output msg w.stdout };
  flush = λ w. record w { stdout = default_flush w.stdout };
  log_level = info;
}

-- `AsyncOutputFunc`
unfoldable pub async_output_func : Bytes → World → World
unfolding AsyncLogging.append
async_output_func msg w = record w { asynclog = AsyncLogging.append msg w.asynclog }

-- `AsyncFlushFunc`: `AsyncLogging::flush` flushes `stdout`.
abbrev pub async_flush_func : World → World
async_flush_func w = record w { stdout = default_flush w.stdout }

-- The first lines of `main`.
unfoldable pub main_globals : Globals World
unfolding async_output_func
main_globals =
    set_flush async_flush_func (set_output async_output_func (set_log_level info default_globals))

-- A line that is logged, or a round of the thread.
pub data LogEvent : Type 0 where
  says : Entry → LogEvent
  writes : LogEvent

unfoldable pub run_log : Device → Globals World → (ℕ → Tm) → List LogEvent → World → Option World
unfolding log file_round
run_log d g gmtime [] w = some w
run_log d g gmtime (says e ∷ events) w = run_log d g gmtime events (log g gmtime e w)
run_log d g gmtime (writes ∷ events) w = file_round d w.asynclog w.log_file >>= λ (a, f).
    run_log d g gmtime events (record w { asynclog = a; log_file = f })

-- What the program starts with, if `threadFunc` can open a file: `kRollSize` and an interval of 3.
abbrev pub start_world : World
start_world = record {
  stdout = record { written = []; flushed = 0 };
  asynclog = AsyncLogging.init;
  log_file = LogFile.init true (1024 * 1024 * 32) 3;
}
