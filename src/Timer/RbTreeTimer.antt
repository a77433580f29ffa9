-- ===== src/Timer/RbTreeTimer.antt =====
-- Timer/timer.h and Timer/rbtreetimer.{h,cpp}: the timers of one event loop.
-- The `std::set` is the list of its elements in order; its comparison looks at the expiration
-- alone, so a timer is not inserted beside one of the same expiration. A callback is a number.
-- The system's answers (the time, the result of `read`) are arguments.
pub mod Order
pub mod Expiry
pub mod Arming
pub mod Once
use my_moduo.Base.{
  ℕ, zero, suc, ◌+◌, ◌*◌, ◌/◌, ◌%◌, Bool, true, false, List, [], ◌∷◌, ◌++◌, Option, none, some, ltb,
  ◌==◌, not, if◌then◌else◌,
}
use my_moduo.Timer.Timestamp.{
  Timestamp, add_time, time_difference, Signed, pos, neg, micros_per_second,
}

-- `m_repeat` is `interval > 0`.
pub record Timer : Type 0 where
  pub callback : ℕ
  pub expiration : Timestamp
  pub interval : ℕ

abbrev pub repeat : Timer → Bool
repeat t = ltb 0 t.interval

unfoldable pub restart : Timer → Timestamp → Timer
restart t now = record t { expiration = add_time now t.interval }

-- `EventLoop::runAfter` and `EventLoop::runEvery`: the timer that they add, with the time they read.
abbrev pub run_after : ℕ → ℕ → Timestamp → Timer
run_after micros cb now = record { callback = cb; expiration = add_time now micros; interval = 0 }

abbrev pub run_every : ℕ → ℕ → Timestamp → Timer
run_every micros cb now = record {
  callback = cb;
  expiration = add_time now micros;
  interval = micros;
}

-- `operator<`
abbrev pub lt_timer : Timer → Timer → Bool
lt_timer a b = ltb a.expiration b.expiration

-- `std::set::insert`
unfoldable pub insert_sorted : Timer → List Timer → List Timer
insert_sorted t [] = t ∷ []
insert_sorted t (x ∷ xs) =
    if lt_timer t x then t ∷ x ∷ xs else if lt_timer x t then x ∷ insert_sorted t xs else x ∷ xs

-- What `timerfd_settime` is given: a time from now on, in seconds and nanoseconds. The sign is that
-- of both fields, since `/` and `%` cut towards zero.
pub data TimerSpec : Type 0 where
  after before : ℕ → ℕ → TimerSpec

pub record RbTreeTimer : Type 0 where
  pub timers : List Timer
  pub enabled : Bool
  pub armed : Option TimerSpec

-- The constructor: no timer, nothing armed, and the channel not registered.
abbrev pub init : RbTreeTimer
init = record { timers = []; enabled = false; armed = none }

-- `enableTimerfd` registers the channel of the timerfd once.
abbrev pub enable_timerfd : RbTreeTimer → RbTreeTimer
enable_timerfd q = record q { enabled = true }

-- `m_timer.empty() || timer->expiration() < (*m_timer.begin())->expiration()`
abbrev pub is_earliest : Timer → List Timer → Bool
is_earliest t [] = true
is_earliest t (x ∷ xs) = lt_timer t x

unfoldable pub insert_timer : Timer → RbTreeTimer → RbTreeTimer × Bool
insert_timer t q = (record q { timers = insert_sorted t q.timers }, is_earliest t q.timers)

-- The fields of `new_value.it_value` for a difference in microseconds.
unfoldable pub timer_spec : Signed → TimerSpec
timer_spec (pos d) = after (d / micros_per_second) (d % micros_per_second * 1000)
timer_spec (neg d) = before (d / micros_per_second) (d % micros_per_second * 1000)

-- `timerfd_settime` refuses a negative field, which leaves what was armed. A zero time disarms.
unfoldable pub settime : TimerSpec → Option TimerSpec → Option TimerSpec
settime (after zero zero) old = none
settime (after zero (suc n)) old = some (after zero (suc n))
settime (after (suc s) n) old = some (after (suc s) n)
settime (before zero zero) old = none
settime (before zero (suc n)) old = old
settime (before (suc s) n) old = old

unfoldable pub reset_timer_fd : Timer → Timestamp → RbTreeTimer → RbTreeTimer
reset_timer_fd t now q = record q {
  armed = settime (timer_spec (time_difference t.expiration now)) q.armed;
}

-- `addTimerInLoop`, with the time that `resetTimerFd` reads.
unfoldable pub add_timer_in_loop : Timer → Timestamp → RbTreeTimer → RbTreeTimer
add_timer_in_loop t now q =
    let (q', earliest_changed) = insert_timer t (enable_timerfd q) in
    if earliest_changed then reset_timer_fd t now q' else q'

-- `lower_bound` at `now` and the range before it: the timers that are over, and the others.
unfoldable pub split_expired : Timestamp → List Timer → List Timer × List Timer
split_expired now [] = ([], [])
split_expired now (x ∷ xs) =
    if ltb x.expiration now
    then (let (expired, left) = split_expired now xs in (x ∷ expired, left))
    else ([], x ∷ xs)

unfoldable pub handle_repeat_timer : Timer → Timestamp → RbTreeTimer → RbTreeTimer
handle_repeat_timer t now q = if repeat t then (insert_timer (restart t now) q).0 else q

-- What a callback does to the queue: `addTimer` calls of its own, each with the time it reads.
abbrev pub Adds : Type 0
Adds = List (Timer × Timestamp)

unfoldable pub run_adds : Adds → RbTreeTimer → RbTreeTimer
run_adds [] q = q
run_adds ((t, now) ∷ adds) q = run_adds adds (add_timer_in_loop t now q)

-- The loop over the expired timers: each runs, then comes back if it repeats. `adds` and `clock`
-- give what the callback of a timer adds, and the time read after it. The timers whose callbacks
-- have run are listed as they run. All of them have been erased, so that `restart` changes no key
-- of the set.
unfoldable pub run_expired :
    (Timer → Adds) → (Timer → Timestamp) → List Timer → RbTreeTimer → List Timer × RbTreeTimer
unfolding run_adds handle_repeat_timer
run_expired adds clock [] q = ([], q)
run_expired adds clock (t ∷ ts) q =
    let (ran, q') =
      run_expired adds clock ts (handle_repeat_timer t (clock t) (run_adds (adds t) q)) in
    (t ∷ ran, q')

-- The last step: the first timer that is left is armed.
abbrev pub arm_first : List Timer → Timestamp → RbTreeTimer → RbTreeTimer
arm_first [] now q = q
arm_first (t ∷ ts) now q = reset_timer_fd t now q

-- `handleRead`: whether `read` got its eight bytes (then the time armed has passed, and as
-- `it_interval` is zero nothing is armed any more), the time for the bound, and the time at which
-- the first timer is armed. The list is that of the timers whose callbacks have run.
unfoldable pub handle_read :
    Bool
    → Timestamp
    → (Timer → Adds)
    → (Timer → Timestamp)
    → Timestamp
    → RbTreeTimer
    → List Timer × RbTreeTimer
handle_read false now adds clock later q = ([], q)
handle_read true now adds clock later q =
    let (expired, left) = split_expired now q.timers in
    let (ran, q') = run_expired adds clock expired (record q { timers = left; armed = none }) in
    (ran, arm_first q'.timers later q')
