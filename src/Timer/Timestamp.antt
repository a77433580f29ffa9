-- ===== src/Timer/Timestamp.antt =====
-- Timer/timestamp.h: points of the steady clock, in nanoseconds since its epoch, which the clock
-- never runs before. A `double` of seconds is given as the whole number of microseconds that the
-- `duration_cast` makes of it.
pub mod Printing
pub mod Dates
pub mod Reading
use my_moduo.Base.{ℕ, ◌+◌, ◌-◌, ◌*◌, ◌/◌, leb, if◌then◌else◌}

abbrev pub Timestamp : Type 0
Timestamp = ℕ

-- `kMicroSecondsPerSecond`
abbrev pub micros_per_second : ℕ
micros_per_second = 1000 * 1000

-- `addTime`, with the seconds as microseconds.
abbrev pub add_time : Timestamp → ℕ → Timestamp
add_time t micros = t + 1000 * micros

-- `microsecondsSinceEpoch` and `secondsSinceEpoch`
abbrev pub micros_since_epoch : Timestamp → ℕ
micros_since_epoch t = t / 1000

abbrev pub seconds_since_epoch : Timestamp → ℕ
seconds_since_epoch t = t / (1000 * micros_per_second)

-- A signed number: `pos n` is n, and `neg n` is -n.
pub data Signed : Type 0 where
  pos neg : ℕ → Signed

-- `timeDifference`: the cast to microseconds cuts towards zero.
unfoldable pub time_difference : Timestamp → Timestamp → Signed
time_difference high low =
    if leb low high then pos ((high - low) / 1000) else neg ((low - high) / 1000)
