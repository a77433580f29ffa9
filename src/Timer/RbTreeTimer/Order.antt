-- ===== src/Timer/RbTreeTimer/Order.antt =====
-- The queue is strictly ordered by expiration, and what `std::set::insert` drops.
use my_moduo.Base.{
  ℕ, ◌≤◌, ◌<◌, ◌≡◌, refl, Bool, true, false, List, [], ◌∷◌, Option, none, some, arith, ◌==◌,
  if◌then◌else◌,
}
use my_moduo.Timer.RbTreeTimer.{
  Timer, RbTreeTimer, restart, insert_sorted, insert_timer, reset_timer_fd, add_timer_in_loop,
  split_expired, handle_repeat_timer, run_adds, run_expired, arm_first, handle_read, Adds, init,
}
use my_moduo.Timer.Timestamp.{Timestamp}

-- Every timer of the list expires after `n`.
abbrev pub Above : ℕ → List Timer → Type 0
Above n [] = Unit {0}
Above n (t ∷ ts) = (n < t.expiration) × Above t.expiration ts

-- Strictly rising expirations.
abbrev pub IsSorted : List Timer → Type 0
IsSorted [] = Unit {0}
IsSorted (t ∷ ts) = Above t.expiration ts

Above-insert_sorted :
    (n : ℕ) (t : Timer) (ts : List Timer)
    → n < t.expiration
    → Above n ts
    → Above n (insert_sorted t ts)
unfolding insert_sorted
Above-insert_sorted n t [] h a = (h, tt)
Above-insert_sorted n t (x ∷ xs) h a = ground (arith, Above-insert_sorted x.expiration t xs)

IsSorted-insert_sorted : (t : Timer) (ts : List Timer) → IsSorted ts → IsSorted (insert_sorted t ts)
unfolding insert_sorted
IsSorted-insert_sorted t [] h = tt
IsSorted-insert_sorted t (x ∷ xs) h = ground (arith, Above-insert_sorted x.expiration t xs)

Above-lower : (m n : ℕ) (ts : List Timer) → m ≤ n → Above n ts → Above m ts
Above-lower m n [] h a = tt
Above-lower m n (t ∷ ts) h a = (omega arith, a.1)

pub Above-IsSorted : (n : ℕ) (ts : List Timer) → Above n ts → IsSorted ts
Above-IsSorted n [] h = tt
Above-IsSorted n (t ∷ ts) h = h.1

-- The timer of a given expiration.
abbrev pub timer_at : ℕ → List Timer → Option Timer
timer_at e [] = none
timer_at e (t ∷ ts) = if t.expiration == e then some t else timer_at e ts

abbrev pub or_else : Option Timer → Option Timer → Option Timer
or_else none o = o
or_else (some t) o = some t

timer_at-Above : (e n : ℕ) (ts : List Timer) → Above n ts → e ≤ n → timer_at e ts ≡ none
timer_at-Above e n [] a h = refl
timer_at-Above e n (t ∷ ts) a h = ground (arith, timer_at-Above e t.expiration ts a.1)

-- An insertion into a sorted queue adds the timer under its expiration if none is there, and changes
-- nothing else: a second timer of the same expiration is dropped.
pub timer_at-insert_sorted :
    (e : ℕ) (t : Timer) (ts : List Timer)
    → IsSorted ts
    → timer_at e (insert_sorted t ts)
      ≡ (if t.expiration == e then or_else (timer_at e ts) (some t) else timer_at e ts)
unfolding insert_sorted
timer_at-insert_sorted e t [] h = ground arith
timer_at-insert_sorted e t (x ∷ xs) h = ground (
  arith,
  timer_at-insert_sorted e t xs (Above-IsSorted x.expiration xs h),
  timer_at-Above e x.expiration xs h,
)

pub add_timer_in_loop-IsSorted :
    (t : Timer) (now : Timestamp) (q : RbTreeTimer)
    → IsSorted q.timers
    → IsSorted (add_timer_in_loop t now q).timers
unfolding add_timer_in_loop insert_timer reset_timer_fd
add_timer_in_loop-IsSorted t now q h = ground (arith, IsSorted-insert_sorted t q.timers h)

pub run_adds-IsSorted :
    (adds : Adds) (q : RbTreeTimer) → IsSorted q.timers → IsSorted (run_adds adds q).timers
unfolding run_adds
run_adds-IsSorted [] q h = h
run_adds-IsSorted ((t, now) ∷ adds) q h =
    run_adds-IsSorted adds (add_timer_in_loop t now q) (add_timer_in_loop-IsSorted t now q h)

pub handle_repeat_timer-IsSorted :
    (t : Timer) (now : Timestamp) (q : RbTreeTimer)
    → IsSorted q.timers
    → IsSorted (handle_repeat_timer t now q).timers
unfolding handle_repeat_timer insert_timer
handle_repeat_timer-IsSorted t now q h =
    ground (arith, IsSorted-insert_sorted (restart t now) q.timers h)

run_expired-IsSorted :
    (adds : Timer → Adds) (clock : Timer → Timestamp) (ts : List Timer) (q : RbTreeTimer)
    → IsSorted q.timers
    → IsSorted (run_expired adds clock ts q).1.timers
unfolding run_expired
run_expired-IsSorted adds clock [] q h = h
run_expired-IsSorted adds clock (t ∷ ts) q h =
    run_expired-IsSorted adds clock ts _
      (handle_repeat_timer-IsSorted t (clock t) _ (run_adds-IsSorted (adds t) q h))

Above-split_expired : (n now : ℕ) (ts : List Timer) → Above n ts → Above n (split_expired now ts).1
unfolding split_expired
Above-split_expired n now [] h = tt
Above-split_expired n now (t ∷ ts) h = ground (
  arith,
  Above-split_expired t.expiration now ts h.1,
  Above-lower n t.expiration (split_expired now ts).1,
)

pub IsSorted-split_expired :
    (now : ℕ) (ts : List Timer) → IsSorted ts → IsSorted (split_expired now ts).1
unfolding split_expired
IsSorted-split_expired now [] h = tt
IsSorted-split_expired now (t ∷ ts) h = ground (
  arith,
  Above-IsSorted t.expiration (split_expired now ts).1 (Above-split_expired t.expiration now ts h),
)

pub timers-arm_first :
    (ts : List Timer) (now : Timestamp) (q : RbTreeTimer) → (arm_first ts now q).timers ≡ q.timers
unfolding reset_timer_fd
timers-arm_first [] now q = refl
timers-arm_first (t ∷ ts) now q = refl

handle_read-IsSorted :
    (done : Bool) (now : Timestamp) (adds : Timer → Adds) (clock : Timer → Timestamp)
    (later : Timestamp) (q : RbTreeTimer)
    → IsSorted q.timers
    → IsSorted (handle_read done now adds clock later q).1.timers
unfolding handle_read
handle_read-IsSorted false now adds clock later q h = h
handle_read-IsSorted true now adds clock later q h =
    rw timers-arm_first
      (run_expired-IsSorted adds clock _ _ (IsSorted-split_expired now q.timers h))

-- What happens to the queue of a loop: a timer is added, or the timerfd becomes readable.
pub data Event : Type 0 where
  adds : Timer → Timestamp → Event
  fires : Bool → Timestamp → (Timer → Adds) → (Timer → Timestamp) → Timestamp → Event

unfoldable pub step : Event → RbTreeTimer → RbTreeTimer
step (adds t now) q = add_timer_in_loop t now q
step (fires done now adds_of clock later) q = (handle_read done now adds_of clock later q).1

unfoldable pub run : List Event → RbTreeTimer → RbTreeTimer
run [] q = q
run (e ∷ es) q = run es (step e q)

run-IsSorted : (es : List Event) (q : RbTreeTimer) → IsSorted q.timers → IsSorted (run es q).timers
unfolding run step
run-IsSorted [] q h = h
run-IsSorted (adds t now ∷ es) q h = run-IsSorted es _ (add_timer_in_loop-IsSorted t now q h)
run-IsSorted (fires done now adds_of clock later ∷ es) q h =
    run-IsSorted es _ (handle_read-IsSorted done now adds_of clock later q h)

-- After any history of a queue its timers are in strictly rising order of expiration, whatever the
-- callbacks add and whatever the clock says.
pub run-init-IsSorted : (es : List Event) → IsSorted (run es init).timers
run-init-IsSorted es = run-IsSorted es init tt
