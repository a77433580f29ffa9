-- ===== src/Logging/LogFile.antt =====
-- Logging/logfile.{h,cpp}: the file that log lines go to, and when it is replaced. What
-- `fwrite_unlocked` and `fopen` answer is an argument, and so is each time that is read. The files
-- are not told apart by their names, which Names models.
pub mod Written
pub mod Rolling
pub mod Names
use my_moduo.Base.{
  ℕ, zero, suc, ◌+◌, ◌*◌, List, [], ◌∷◌, ◌++◌, Option, none, some, Bytes, length, take, drop, ltb,
  ◌==◌, if◌then◌else◌, Bool, true, false, ◌>>=◌, ◌||◌,
}
use my_moduo.Timer.Timestamp.{Timestamp, Signed, pos, neg, time_difference, micros_per_second}

-- `closed` lists what was written to the files that have been closed, and `file` is what was written
-- to `m_fp`, of which the first `flushed` bytes have been handed to the system. `is_open` says that
-- `m_fp` is not null.
pub record LogFile : Type 0 where
  pub is_open : Bool
  pub closed : List Bytes
  pub file : Bytes
  pub flushed : ℕ
  pub written_bytes : ℕ
  pub last_roll : Timestamp
  pub last_flush : Timestamp
  pub roll_size : ℕ
  pub flush_interval : ℕ

-- `LogFile(basename, rollSize, flushInterval, threadSafe)`; the first argument says whether one of
-- the two calls of `fopen` has opened a file.
abbrev pub init : Bool → ℕ → ℕ → LogFile
init opened roll_size flush_interval = record {
  is_open = opened;
  closed = [];
  file = [];
  flushed = 0;
  written_bytes = 0;
  last_roll = 0;
  last_flush = 0;
  roll_size = roll_size;
  flush_interval = flush_interval * micros_per_second;
}

-- `flush`
abbrev pub flush : LogFile → LogFile
flush f = record f { flushed = length f.file }

-- `rollFile` of an open file; `fopen` may answer null, which is not looked at.
unfoldable pub roll_file : Bool → Timestamp → LogFile → LogFile
roll_file opened now f = record f {
  is_open = opened;
  closed = f.closed ++ f.file ∷ [];
  file = [];
  flushed = 0;
  written_bytes = 0;
  last_roll = now;
}

-- The loop of `append`, with what each call of `fwrite_unlocked` answers: the bytes that have been
-- written when it ends. `none` is a loop that goes on behind the last answer.
unfoldable pub write_loop : List ℕ → Bytes → Option Bytes
write_loop answers [] = some []
write_loop [] (x ∷ xs) = none
write_loop (n ∷ answers) (x ∷ xs) = do
  more ← write_loop answers (drop n (x ∷ xs))
  some (take n (x ∷ xs) ++ more)

-- `timeDifference(now, m_lastFlush) > m_flushInterval`
abbrev pub exceeds : Signed → ℕ → Bool
exceeds (pos n) limit = ltb limit n
exceeds (neg n) limit = false

-- The text of `append` is in the file, and `m_writtenBytes` has grown.
abbrev pub take_in : Bytes → Bytes → LogFile → LogFile
take_in text written f = record f {
  file = f.file ++ written;
  written_bytes = if length text == 0 then f.written_bytes else f.written_bytes + length text;
}

-- `append` behind the loop. `now` is read there, and `later` in `rollFile`, where `fopen` opens a
-- file or not.
unfoldable pub after_write : Timestamp → Timestamp → Bool → LogFile → LogFile
unfolding roll_file time_difference
after_write now later opened f =
    if exceeds (time_difference now f.last_flush) f.flush_interval
    then record (flush f) { last_flush = now }
    else if ltb f.roll_size f.written_bytes
    then roll_file opened later f
    else f

-- `append`; `none` is a loop without an end, or `fwrite` on a null `m_fp`, which an empty text does
-- not come to. A file that is not open has no written bytes, so that it is not rolled either.
unfoldable pub append : List ℕ → Timestamp → Timestamp → Bool → Bytes → LogFile → Option LogFile
unfolding write_loop after_write
append answers now later opened text f =
    if f.is_open || length text == 0
    then (do
      written ← write_loop answers text
      some (after_write now later opened (take_in text written f)))
    else none
