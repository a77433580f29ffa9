-- ===== src/Logging/Logger.antt =====
-- Logging/logging.{h,cpp}: the text of a log line, and when it is made and flushed.
-- The printed hash of the thread is an argument, and so is `gmtime`.
-- `LogStream` has no `operator<<` for `char`: a character is promoted to `int` and is printed as its
-- number.
pub mod Lines
pub mod Names
pub mod Output
use my_moduo.Base.{
  ℕ, ◌+◌, ◌%◌, Bool, true, false, List, [], ◌∷◌, ◌++◌, Option, none, some, Bytes, codes, ◌==◌,
  if◌then◌else◌,
}
use my_moduo.Logging.LogStream.{small_buffer, append, format_integer}
use my_moduo.Timer.Timestamp.Printing.{Tm, to_default_log_string}
use my_moduo.Timer.Timestamp.{Timestamp, pos, micros_since_epoch, micros_per_second}

pub data LogLevel : Type 0 where
  debug info warn error : LogLevel

-- `logLevel() <= LogLevel::DEBUG`, and so on: the tests of the macros. The last two have none.
unfoldable pub is_logged : LogLevel → LogLevel → Bool
is_logged debug debug = true
is_logged _ debug = false
is_logged debug info = true
is_logged info info = true
is_logged _ info = false
is_logged _ warn = true
is_logged _ error = true

-- `strrchr`, and `data` behind the slash that it finds.
unfoldable pub behind_slash : Bytes → Bytes → Bytes
behind_slash found [] = found
behind_slash found (c ∷ rest) =
    if c == b'/' then behind_slash rest rest else behind_slash found rest

-- `SourceFile`
unfoldable pub source_file : Bytes → Bytes
unfolding behind_slash
source_file filename = behind_slash filename filename

-- `getLogLevel`
abbrev pub get_log_level : LogLevel → Bytes
get_log_level debug = codes "DEBUG"
get_log_level info = codes "INFO"
get_log_level warn = codes "WARN"
get_log_level error = codes "ERROR"

-- `operator<<` on texts; `none` is the null pointer.
unfoldable pub put_text : Bytes → Option Bytes → Bytes
unfolding append
put_text stored none = append small_buffer stored (codes "(null)")
put_text stored (some text) = append small_buffer stored text

-- `operator<<` on `int`, to which a `char` goes as well.
abbrev pub put_int : Bytes → ℕ → Bytes
put_int stored n = format_integer small_buffer stored (pos n)

abbrev pub add_text : Bytes → Bytes → Bytes
add_text stored text = append small_buffer stored text

-- `formatTime`
unfoldable pub format_time : (ℕ → Tm) → Bytes → Timestamp → LogLevel → Bytes → Bytes
unfolding append format_integer to_default_log_string
format_time gmtime tid now level stored =
    let date = to_default_log_string gmtime now in
    let microseconds = micros_since_epoch now % micros_per_second in
    let dated =
      add_text (put_int (add_text (add_text stored date) (codes ".")) microseconds) (codes " ") in
    let threaded = add_text (add_text dated tid) (codes " ") in
    add_text (add_text threaded (get_log_level level)) (codes " ")

-- `finish`
unfoldable pub finish_line : Bytes → ℕ → Bytes → Bytes
unfolding append format_integer
finish_line basename line stored =
    put_int (put_int (put_int (add_text (add_text stored (codes " - ")) basename) b':') line) b'\n'

-- A line from the constructor of `Impl` to its destructor, with one text between, and whether the
-- destructor calls `g_flush`.
unfoldable pub log_line : (ℕ → Tm) → Bytes → Timestamp → LogLevel → Bytes → Bytes → ℕ → Bytes × Bool
unfolding source_file format_time finish_line append
log_line gmtime tid now level text filename line = (
  finish_line (source_file filename) line (add_text (format_time gmtime tid now level []) text),
  elim level [ error ↦ true | _ ↦ false ],
)
