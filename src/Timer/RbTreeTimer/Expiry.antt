-- ===== src/Timer/RbTreeTimer/Expiry.antt =====
-- Which timers `handleRead` runs.
use my_moduo.Base.{
  ℕ, ◌≤◌, ◌<◌, ◌≡◌, refl, sym, ap, ◌∙◌, some, Bool-cases, inl, inr, ltb→lt, ltb→le, true, false,
  List, [], ◌∷◌, ◌++◌, arith, none, ltb, if◌then◌else◌,
}
use my_moduo.Timer.RbTreeTimer.Order.{
  Above, IsSorted, Above-IsSorted, timer_at, timer_at-insert_sorted, add_timer_in_loop-IsSorted,
  run_adds-IsSorted, handle_repeat_timer-IsSorted, IsSorted-split_expired, timers-arm_first,
}
use my_moduo.Timer.RbTreeTimer.{
  Timer, RbTreeTimer, split_expired, handle_read, Adds, insert_sorted, insert_timer,
  add_timer_in_loop, reset_timer_fd, run_adds, run_expired, handle_repeat_timer, restart, repeat,
}
use my_moduo.Timer.Timestamp.{Timestamp}

abbrev pub AllBefore : ℕ → List Timer → Type 0
AllBefore now [] = Unit {0}
AllBefore now (t ∷ ts) = (t.expiration < now) × AllBefore now ts

abbrev pub NoneBefore : ℕ → List Timer → Type 0
NoneBefore now [] = Unit {0}
NoneBefore now (t ∷ ts) = (now ≤ t.expiration) × NoneBefore now ts

Above-NoneBefore : (now n : ℕ) (ts : List Timer) → now ≤ n → Above n ts → NoneBefore now ts
Above-NoneBefore now n [] h a = tt
Above-NoneBefore now n (t ∷ ts) h a =
    (omega arith, Above-NoneBefore now t.expiration ts (omega arith) a.1)

split_expired_lem :
    (now : ℕ) (ts : List Timer)
    → IsSorted ts
    → let (expired, left) = split_expired now ts in
      (ts ≡ expired ++ left) × AllBefore now expired × NoneBefore now left
unfolding split_expired
split_expired_lem now [] h = (refl, tt, tt)
split_expired_lem now (t ∷ ts) h = elim (Bool-cases (ltb t.expiration now)) [
  | inl over ↦
      let (same, before, after) = split_expired_lem now ts (Above-IsSorted t.expiration ts h) in
      rw over (ap (◌∷◌ t) same, (ltb→lt _ _ over, before), after)
  | inr due ↦
      rw due (refl, tt, (ltb→le _ _ due, Above-NoneBefore now t.expiration ts (ltb→le _ _ due) h))
]

-- Insertions one after the other.
abbrev pub insert_all : List Timer → List Timer → List Timer
insert_all [] ts = ts
insert_all (x ∷ xs) ts = insert_all xs (insert_sorted x ts)

abbrev pub timers_of : Adds → List Timer
timers_of [] = []
timers_of ((t, now) ∷ adds) = t ∷ timers_of adds

-- What comes into the queue while these timers run: for each what its callback adds and then, if it
-- repeats, itself, restarted at the time read after the callback.
abbrev pub comes_in : (Timer → Adds) → (Timer → Timestamp) → List Timer → List Timer
comes_in adds clock [] = []
comes_in adds clock (t ∷ ts) =
    timers_of (adds t)
    ++ ((if repeat t then restart t (clock t) ∷ [] else []) ++ comes_in adds clock ts)

insert_all-append :
    (xs ys ts : List Timer) → insert_all (xs ++ ys) ts ≡ insert_all ys (insert_all xs ts)
insert_all-append [] ys ts = refl
insert_all-append (x ∷ xs) ys ts = insert_all-append xs ys (insert_sorted x ts)

pub timers-add_timer_in_loop :
    (t : Timer) (now : Timestamp) (q : RbTreeTimer)
    → (add_timer_in_loop t now q).timers ≡ insert_sorted t q.timers
unfolding add_timer_in_loop insert_timer reset_timer_fd
timers-add_timer_in_loop t now q = ground arith

timers-run_adds :
    (adds : Adds) (q : RbTreeTimer)
    → (run_adds adds q).timers ≡ insert_all (timers_of adds) q.timers
unfolding run_adds
timers-run_adds [] q = refl
timers-run_adds ((t, now) ∷ adds) q =
    timers-run_adds adds (add_timer_in_loop t now q)
    ∙ ap (insert_all (timers_of adds)) (timers-add_timer_in_loop t now q)

timers-handle_repeat_timer :
    (t : Timer) (now : Timestamp) (q : RbTreeTimer)
    → (handle_repeat_timer t now q).timers
      ≡ insert_all (if repeat t then restart t now ∷ [] else []) q.timers
unfolding handle_repeat_timer insert_timer
timers-handle_repeat_timer t now q = elim (Bool-cases (repeat t)) [
  | inl again ↦ rw again refl
  | inr once ↦ rw once refl
]

pub run_expired_lem :
    (adds : Timer → Adds) (clock : Timer → Timestamp) (ts : List Timer) (q : RbTreeTimer)
    → ((run_expired adds clock ts q).0 ≡ ts)
      × ((run_expired adds clock ts q).1.timers ≡ insert_all (comes_in adds clock ts) q.timers)
unfolding run_expired
run_expired_lem adds clock [] q = (refl, refl)
run_expired_lem adds clock (t ∷ ts) q =
    let added = run_adds (adds t) q in
    let back = if repeat t then restart t (clock t) ∷ [] else [] in
    let (ran, timers) = run_expired_lem adds clock ts (handle_repeat_timer t (clock t) added) in
    (
      ap (◌∷◌ t) ran,
      timers
          ∙ ap (insert_all (comes_in adds clock ts)) (
              timers-handle_repeat_timer t (clock t) added
              ∙ ap (insert_all back) (timers-run_adds (adds t) q))
          ∙ sym (insert_all-append back (comes_in adds clock ts) _)
          ∙ sym (insert_all-append (timers_of (adds t)) (back ++ comes_in adds clock ts) q.timers),
    )

-- On a sorted queue, when the timerfd fires, the callbacks that run are those of the timers that
-- expire before the time read, each once and in order of expiration. The queue then has the timers
-- that expire at that time or later, and with them, inserted one after the other, what the
-- callbacks added and the timers that repeat, restarted; none of the others is left. If `read`
-- fails, nothing runs and nothing changes.
pub handle_read_runs :
    (now : Timestamp) (adds : Timer → Adds) (clock : Timer → Timestamp) (later : Timestamp)
    (q : RbTreeTimer)
    → IsSorted q.timers
    → (handle_read false now adds clock later q ≡ ([], q))
      × ((expired : List Timer) × (left : List Timer) × (q.timers ≡ expired ++ left)
          × AllBefore now expired
          × NoneBefore now left
          × ((handle_read true now adds clock later q).0 ≡ expired)
          × ((handle_read true now adds clock later q).1.timers
              ≡ insert_all (comes_in adds clock expired) left))
unfolding handle_read
handle_read_runs now adds clock later q h =
    let (expired, left) = split_expired now q.timers in
    let (same, before, after) = split_expired_lem now q.timers h in
    let erased = record q { timers = left; armed = none } in
    let (ran, timers) = run_expired_lem adds clock expired erased in
    (refl, (expired, left, same, before, after, ran, timers-arm_first _ later _ ∙ timers))

-- The queue still holds a timer under its expiration.
abbrev pub Holds : Timer → RbTreeTimer → Type 0
Holds t q = timer_at t.expiration q.timers ≡ some t

insert_sorted-keeps :
    (t x : Timer) (ts : List Timer)
    → IsSorted ts
    → timer_at t.expiration ts ≡ some t
    → timer_at t.expiration (insert_sorted x ts) ≡ some t
insert_sorted-keeps t x ts h k = ground (arith, timer_at-insert_sorted t.expiration x ts h)

add_timer_in_loop-Holds :
    (t x : Timer) (now : Timestamp) (q : RbTreeTimer)
    → IsSorted q.timers
    → Holds t q
    → Holds t (add_timer_in_loop x now q)
unfolding add_timer_in_loop insert_timer reset_timer_fd
add_timer_in_loop-Holds t x now q h k = ground (arith, insert_sorted-keeps t x q.timers h k)

run_adds-Holds :
    (t : Timer) (adds : Adds) (q : RbTreeTimer)
    → IsSorted q.timers
    → Holds t q
    → Holds t (run_adds adds q)
unfolding run_adds
run_adds-Holds t [] q h k = k
run_adds-Holds t ((x, now) ∷ adds) q h k =
    run_adds-Holds t adds (add_timer_in_loop x now q) (add_timer_in_loop-IsSorted x now q h)
      (add_timer_in_loop-Holds t x now q h k)

handle_repeat_timer-Holds :
    (t x : Timer) (now : Timestamp) (q : RbTreeTimer)
    → IsSorted q.timers
    → Holds t q
    → Holds t (handle_repeat_timer x now q)
unfolding handle_repeat_timer insert_timer
handle_repeat_timer-Holds t x now q h k =
    ground (arith, insert_sorted-keeps t (restart x now) q.timers h k)

run_expired-Holds :
    (t : Timer) (adds : Timer → Adds) (clock : Timer → Timestamp) (ts : List Timer)
    (q : RbTreeTimer)
    → IsSorted q.timers
    → Holds t q
    → Holds t (run_expired adds clock ts q).1
unfolding run_expired
run_expired-Holds t adds clock [] q h k = k
run_expired-Holds t adds clock (x ∷ ts) q h k =
    let s = run_adds-IsSorted (adds x) q h in
    run_expired-Holds t adds clock ts _ (handle_repeat_timer-IsSorted x (clock x) _ s)
      (handle_repeat_timer-Holds t x (clock x) _ s (run_adds-Holds t (adds x) q h k))

timer_at-append :
    (e : ℕ) (xs ys : List Timer) → AllBefore e xs → timer_at e (xs ++ ys) ≡ timer_at e ys
timer_at-append e [] ys h = refl
timer_at-append e (x ∷ xs) ys h = ground (arith, timer_at-append e xs ys h.1)

AllBefore-le : (m n : ℕ) (ts : List Timer) → m ≤ n → AllBefore m ts → AllBefore n ts
AllBefore-le m n [] h a = tt
AllBefore-le m n (t ∷ ts) h a = (omega arith, AllBefore-le m n ts h a.1)

-- A timer of a sorted queue that does not expire before the time read is still in the queue after
-- `handleRead`, whatever the callbacks add.
handle_read-Holds :
    (t : Timer) (now : Timestamp) (adds : Timer → Adds) (clock : Timer → Timestamp)
    (later : Timestamp) (q : RbTreeTimer)
    → IsSorted q.timers
    → now ≤ t.expiration
    → Holds t q
    → Holds t (handle_read true now adds clock later q).1
unfolding handle_read
handle_read-Holds t now adds clock later q h due k =
    rw timers-arm_first
      (run_expired-Holds t adds clock _ _ (IsSorted-split_expired now q.timers h) left)
  where
    left : timer_at t.expiration (split_expired now q.timers).1 ≡ some t
    left =
        let (same, before, after) = split_expired_lem now q.timers h in
        sym (
          timer_at-append t.expiration (split_expired now q.timers).0 _
            (AllBefore-le now t.expiration (split_expired now q.timers).0 due before))
        ∙ ap (timer_at t.expiration) (sym same)
        ∙ k
