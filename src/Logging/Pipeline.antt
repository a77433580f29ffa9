-- ===== src/Logging/Pipeline.antt =====
-- Logging/asynclogging.cpp and Logging/logfile.cpp together: the lines that are logged, the thread
-- that writes, and its log file.
-- What `fwrite` answers and what the clock says is given for each text and state of the file.
pub mod Complete
use my_moduo.Base.{ℕ, Bool, List, [], ◌∷◌, Option, some, Bytes, ◌>>=◌}
use my_moduo.Logging.AsyncLogging.NoLoss.{Op, logs, round}
use my_moduo.Logging.AsyncLogging.{AsyncLogging, append, swap_buffers, write_buffers}
use my_moduo.Logging.LogFile.{LogFile, flush}
use my_moduo.Logging.LogFile
use my_moduo.Timer.Timestamp.{Timestamp}

-- The answers of `fwrite` and `fopen`, and the two times that `LogFile::append` reads.
pub record Device : Type 0 where
  pub answers : Bytes → LogFile → List ℕ
  pub now : Bytes → LogFile → Timestamp
  pub later : Bytes → LogFile → Timestamp
  pub opens : Bytes → LogFile → Bool

-- The loop of `threadFunc` over `buffersToWrite`.
unfoldable pub write_files : Device → List Bytes → LogFile → Option LogFile
write_files d [] f = some f
write_files d (b ∷ bs) f =
    LogFile.append (d.answers b f) (d.now b f) (d.later b f) (d.opens b f) b f >>= λ g.
    write_files d bs g

-- A round of `threadFunc`, with its log file.
unfoldable pub file_round : Device → AsyncLogging → LogFile → Option (AsyncLogging × LogFile)
unfolding swap_buffers write_buffers write_files
file_round d a f = do
  (to_write, b) ← swap_buffers a
  g ← write_files d to_write f
  c ← write_buffers to_write b
  some (c, flush g)

-- Lines that are logged and rounds of the thread, in any order.
unfoldable pub run_files :
    Device → List Op → AsyncLogging → LogFile → Option (AsyncLogging × LogFile)
run_files d [] a f = some (a, f)
run_files d (logs line ∷ ops) a f = run_files d ops (append line a) f
run_files d (round ∷ ops) a f = file_round d a f >>= λ (b, g). run_files d ops b g
