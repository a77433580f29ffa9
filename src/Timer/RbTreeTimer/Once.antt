-- ===== src/Timer/RbTreeTimer/Once.antt =====
-- No timer runs more often than it comes into the queue.
use my_moduo.Base.{
  ℕ, ◌+◌, ◌≤◌, ◌≡◌, refl, true, false, List, [], ◌∷◌, ◌++◌, none, arith, tally, tally-append,
  Bool-cases, inl, inr, ltb,
}
use my_moduo.Timer.RbTreeTimer.Expiry.{
  insert_all, comes_in, run_expired_lem, timers-add_timer_in_loop,
}
use my_moduo.Timer.RbTreeTimer.Order.{Event, adds, fires, step, run, timers-arm_first}
use my_moduo.Timer.RbTreeTimer.{
  Timer, RbTreeTimer, Adds, init, insert_sorted, split_expired, handle_read,
}
use my_moduo.Timer.Timestamp.{Timestamp}

-- The timers whose callbacks run in a step, and those that come into the queue.
abbrev pub ran_by : Event → RbTreeTimer → List Timer
ran_by (adds t now) q = []
ran_by (fires done now adds_of clock later) q = (handle_read done now adds_of clock later q).0

abbrev pub came_by : Event → RbTreeTimer → List Timer
came_by (adds t now) q = t ∷ []
came_by (fires done now adds_of clock later) q =
    comes_in adds_of clock (handle_read done now adds_of clock later q).0

-- The same for a history.
unfoldable pub ran : List Event → RbTreeTimer → List Timer
ran [] q = []
ran (e ∷ es) q = ran_by e q ++ ran es (step e q)

unfoldable pub came : List Event → RbTreeTimer → List Timer
came [] q = []
came (e ∷ es) q = came_by e q ++ came es (step e q)

tally-insert_sorted :
    (p : Timer → ℕ) (t : Timer) (ts : List Timer) → tally p (insert_sorted t ts) ≤ p t + tally p ts
unfolding insert_sorted tally
tally-insert_sorted p t [] = omega arith
tally-insert_sorted p t (x ∷ xs) = ground (arith, tally-insert_sorted p t xs)

tally-insert_all :
    (p : Timer → ℕ) (xs ts : List Timer) → tally p (insert_all xs ts) ≤ tally p xs + tally p ts
unfolding tally
tally-insert_all p [] ts = omega arith
tally-insert_all p (x ∷ xs) ts =
    omega (arith, tally-insert_all p xs (insert_sorted x ts), tally-insert_sorted p x ts)

tally-split_expired :
    (p : Timer → ℕ) (now : ℕ) (ts : List Timer)
    → tally p (split_expired now ts).0 + tally p (split_expired now ts).1 ≡ tally p ts
unfolding split_expired tally
tally-split_expired p now [] = refl
tally-split_expired p now (t ∷ ts) = elim (Bool-cases (ltb t.expiration now)) [
  | inl over ↦ rw over (omega (arith, tally-split_expired p now ts))
  | inr due ↦ rw due (omega arith)
]

fires-tally :
    (p : Timer → ℕ) (now : Timestamp) (adds_of : Timer → Adds) (clock : Timer → Timestamp)
    (later : Timestamp) (q : RbTreeTimer)
    → tally p (handle_read true now adds_of clock later q).0
        + tally p (handle_read true now adds_of clock later q).1.timers
      ≤ tally p q.timers
        + tally p (comes_in adds_of clock (handle_read true now adds_of clock later q).0)
unfolding handle_read
fires-tally p now adds_of clock later q =
    let (expired, left) = split_expired now q.timers in
    let (same, timers) =
      run_expired_lem adds_of clock expired (record q { timers = left; armed = none }) in
    rw (same, timers-arm_first, timers)
      (omega (
        arith,
        tally-split_expired p now q.timers,
        tally-insert_all p (comes_in adds_of clock expired) left,
      ))

step-tally :
    (p : Timer → ℕ) (e : Event) (q : RbTreeTimer)
    → tally p (ran_by e q) + tally p (step e q).timers ≤ tally p q.timers + tally p (came_by e q)
unfolding step tally
step-tally p (adds t now) q =
    rw timers-add_timer_in_loop (omega (arith, tally-insert_sorted p t q.timers))
step-tally p (fires false now adds_of clock later) q = unfold handle_read in omega arith
step-tally p (fires true now adds_of clock later) q = fires-tally p now adds_of clock later q

run-tally :
    (p : Timer → ℕ) (es : List Event) (q : RbTreeTimer)
    → tally p (ran es q) + tally p (run es q).timers ≤ tally p q.timers + tally p (came es q)
unfolding run ran came tally
run-tally p [] q = omega arith
run-tally p (e ∷ es) q = omega (
  arith,
  run-tally p es (step e q),
  step-tally p e q,
  tally-append p (ran_by e q) (ran es (step e q)),
  tally-append p (came_by e q) (came es (step e q)),
)

-- After any history of a queue, whatever the callbacks add and whatever the clock says, and whichever
-- timers are counted: those whose callbacks have run and those in the queue are together no more than
-- those that have come in, added by `addTimer`, in a callback or outside, or restarted. So no timer
-- runs twice for coming in once, and none that has run is still in the queue.
pub ran_once :
    (p : Timer → ℕ) (es : List Event)
    → tally p (ran es init) + tally p (run es init).timers ≤ tally p (came es init)
unfolding tally
ran_once p es = omega (arith, run-tally p es init)
