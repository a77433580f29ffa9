-- ===== src/Tests/Timers.antt =====
-- Timer/rbtreetimer.cpp at concrete inputs.
use my_moduo.Base.{
  ℕ, ◌+◌, ◌≤◌, ◌==◌, if◌then◌else◌, tally, ◌≡◌, refl, true, false, List, [], ◌∷◌, ◌++◌, none, arith,
}
use my_moduo.Timer.RbTreeTimer.Arming.{handle_read_stalls}
use my_moduo.Timer.RbTreeTimer.Expiry.{
  AllBefore, NoneBefore, insert_all, comes_in, handle_read_runs,
}
use my_moduo.Timer.RbTreeTimer.Order.{IsSorted, Event, adds, fires, run}
use my_moduo.Timer.RbTreeTimer.Once.{ran, came, ran_once}
use my_moduo.Timer.RbTreeTimer.{Timer, RbTreeTimer, init, Adds, split_expired, handle_read}
use my_moduo.Timer.Timestamp.{Timestamp}

abbrev once : ℕ → Timestamp → Timer
once n at = record { callback = n; expiration = at; interval = 0 }

abbrev two_timers : List Timer
two_timers = once 1 5000 ∷ once 2 9000 ∷ []

two_timers-IsSorted : IsSorted two_timers
two_timers-IsSorted = (omega arith, tt)

abbrev queue : RbTreeTimer
queue = record { timers = two_timers; enabled = true; armed = none }

abbrev events : List Event
events =
    adds (once 1 9000) 0
    ∷ adds (once 2 5000) 10
    ∷ fires true 6000 (λ _. (once 4 7000, 6500) ∷ []) (λ t. 6600) 6700
    ∷ []

-- Callbacks are told apart by their numbers.
abbrev is_first : Timer → ℕ
is_first t = if t.callback == 1 then 1 else 0

ran_once_example :
    tally is_first (ran events init) + tally is_first (run events init).timers
    ≤ tally is_first (came events init)
ran_once_example = ran_once is_first events

abbrev adds_one : Timer → Adds
adds_one t = (once 4 7000, 6500) ∷ []

abbrev clock : Timer → Timestamp
clock t = 6600

handle_read_runs_example :
    (handle_read false 6000 adds_one clock 6700 queue ≡ ([], queue))
    × ((expired : List Timer) × (left : List Timer) × (two_timers ≡ expired ++ left)
        × AllBefore 6000 expired
        × NoneBefore 6000 left
        × ((handle_read true 6000 adds_one clock 6700 queue).0 ≡ expired)
        × ((handle_read true 6000 adds_one clock 6700 queue).1.timers
            ≡ insert_all (comes_in adds_one clock expired) left))
handle_read_runs_example = handle_read_runs 6000 adds_one clock 6700 queue two_timers-IsSorted

handle_read_stalls_example :
    ((handle_read true 8000 (λ _. []) clock 9500 queue).1.timers ≡ once 2 9000 ∷ [])
    × ((handle_read true 8000 (λ _. []) clock 9500 queue).1.armed ≡ none)
handle_read_stalls_example =
    handle_read_stalls 8000 9500 clock queue (once 1 5000 ∷ []) (once 2 9000) []
      (unfold split_expired in refl) (refl, tt) (omega arith)
