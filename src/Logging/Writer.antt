-- ===== src/Logging/Writer.antt =====
-- Logging/asynclogging.{h,cpp}: the thread of `threadFunc` between its start and its end, with
-- `append` and `stop` in other threads as interleaved steps.
-- What the thread does between two accesses to what it shares is one step: the test of `m_running`,
-- the wait with the swap under the lock, and the rest of the round. The wait may end at any time, by
-- `notify_one`, the timeout or no reason.
pub mod Sound
pub mod Complete
pub mod Stopping
use my_moduo.Base.{ℕ, Bool, true, false, List, [], ◌∷◌, Option, some, Bytes, if◌then◌else◌, ◌>>=◌}
use my_moduo.Logging.AsyncLogging
use my_moduo.Logging.AsyncLogging.{AsyncLogging, append, swap_buffers, write_buffers}
use my_moduo.Logging.LogFile
use my_moduo.Logging.LogFile.{LogFile, flush}
use my_moduo.Logging.Pipeline.{Device, write_files}

-- Where the thread stands: at the head of the loop, before the wait, behind the swap with
-- `buffersToWrite`, or at its end.
pub data Stage : Type 0 where
  testing waiting over : Stage
  writing : List Bytes → Stage

pub record Writer : Type 0 where
  pub running : Bool
  pub phase : Stage
  pub log : AsyncLogging
  pub output : LogFile

-- After the constructor and `startAsyncLogging`, with the file that the thread opens,
-- or not.
abbrev pub start_async_logging : Bool → ℕ → ℕ → Writer
start_async_logging opened roll_size flush_interval = record {
  running = true;
  phase = testing;
  log = AsyncLogging.init;
  output = LogFile.init opened roll_size flush_interval;
}

-- The next step of `threadFunc`, by where the thread stands. `none` is the use of a null pointer, or
-- of an empty vector.
unfoldable pub step_at : Stage → Device → Writer → Option Writer
unfolding swap_buffers write_files write_buffers
step_at testing d s = some (
    if s.running
    then record s { phase = waiting }
    else record s { phase = over; output = flush s.output })
step_at waiting d s = do
  (to_write, b) ← swap_buffers s.log
  some (record s { phase = writing to_write; log = b })
step_at (writing to_write) d s = do
  g ← write_files d to_write s.output
  b ← write_buffers to_write s.log
  some (record s { phase = testing; log = b; output = flush g })
step_at over d s = some s

abbrev pub take_turn : Device → Writer → Option Writer
take_turn d s = step_at s.phase d s

-- `stop`, up to `join`, which returns once the thread is at its end. If it has been called before, it
-- does nothing.
unfoldable pub stop : Writer → Writer
stop s = if s.running then record s { running = false } else s

pub data Event : Type 0 where
  logs : Bytes → Event
  turns stops : Event

unfoldable pub step : Device → Writer → Event → Option Writer
unfolding step_at stop
step d s (logs line) = some (record s { log = append line s.log })
step d s turns = take_turn d s
step d s stops = some (stop s)

unfoldable pub run : Device → List Event → Writer → Option Writer
unfolding step
run d [] s = some s
run d (e ∷ es) s = step d s e >>= λ t. run d es t
