-- ===== src/Logging/Logger/Output.antt =====
-- Logging/logging.{h,cpp}: where the lines go. `W` is what the output and flush functions act on.
use my_moduo.Base.{ℕ, ◌++◌, Bool, Bytes, length, if◌then◌else◌}
use my_moduo.Logging.Logger.{LogLevel, is_logged, log_line}
use my_moduo.Timer.Timestamp.Printing.{Tm}
use my_moduo.Timer.Timestamp.{Timestamp}

-- `stdout`: all that `fwrite` has put into it, of which the first `flushed` bytes are out.
pub record Stdout : Type 0 where
  pub written : Bytes
  pub flushed : ℕ

-- `DefaultOutput`, and `fflush(stdout)` of `DefaultFlush`.
abbrev pub default_output : Bytes → Stdout → Stdout
default_output msg out = record out { written = out.written ++ msg }

abbrev pub default_flush : Stdout → Stdout
default_flush out = record out { flushed = length out.written }

-- A use of one of the macros: what the temporary `Logger` is made from, the text that is put into
-- its stream, and the thread and the time that it reads.
pub record Entry : Type 0 where
  pub level : LogLevel
  pub text : Bytes
  pub filename : Bytes
  pub line : ℕ
  pub tid : Bytes
  pub now : Timestamp

abbrev pub line_of : (ℕ → Tm) → Entry → Bytes × Bool
line_of gmtime e = log_line gmtime e.tid e.now e.level e.text e.filename e.line

-- `g_output`, `g_flush` and `g_logLevel`
pub record Globals (W : Type 0) : Type 0 where
  pub output : Bytes → W → W
  pub flush : W → W
  pub log_level : LogLevel

module _ {W : Type 0} where
  abbrev pub set_output : (Bytes → W → W) → Globals W → Globals W
  set_output out g = record g { output = out }

  abbrev pub set_flush : (W → W) → Globals W → Globals W
  set_flush flush g = record g { flush = flush }

  abbrev pub set_log_level : LogLevel → Globals W → Globals W
  set_log_level level g = record g { log_level = level }

  -- `~Impl` behind `finish`.
  unfoldable pub put_out : Globals W → Bytes × Bool → W → W
  put_out g (msg, flushes) w = let out = g.output msg w in if flushes then g.flush out else out

  -- `LOG_DEBUG`, `LOG_INFO`, `LOG_WARN` and `LOG_ERROR`
  unfoldable pub log : Globals W → (ℕ → Tm) → Entry → W → W
  unfolding is_logged log_line put_out
  log g gmtime e w = if is_logged g.log_level e.level then put_out g (line_of gmtime e) w else w
