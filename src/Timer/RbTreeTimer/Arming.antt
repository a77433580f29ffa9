-- ===== src/Timer/RbTreeTimer/Arming.antt =====
-- What the timerfd is armed with.
use my_moduo.Base.{
  ℕ, zero, suc, ◌+◌, ◌-◌, ◌*◌, ◌/◌, ◌%◌, ◌≤◌, ◌<◌, ◌≡◌, refl, ◌∙◌, ◌⊎◌, true, false, List, [], ◌∷◌,
  Option, none, some, arith, leb, Bool-cases, inl, inr, leb→le, leb→lt, le→leb, lt→leb,
}
use my_moduo.Timer.RbTreeTimer.{
  Timer, RbTreeTimer, TimerSpec, after, before, settime, timer_spec, reset_timer_fd, split_expired,
  run_expired, run_adds, handle_repeat_timer, repeat, handle_read,
}
use my_moduo.Timer.Timestamp.{Timestamp, time_difference, micros_per_second}

-- A time that the system accepts, of `n` nanoseconds.
abbrev pub Lasts : ℕ → TimerSpec → Type 0
Lasts n (after s ns) = (s * 1_000_000_000 + ns ≡ n) × (ns < 1_000_000_000)
Lasts n (before s ns) = ⊥

settime-after :
    (s ns : ℕ) (old : Option TimerSpec) → 0 < s + ns → settime (after s ns) old ≡ some (after s ns)
unfolding settime
settime-after zero zero old h = absurd (omega arith)
settime-after zero (suc ns) old h = refl
settime-after (suc s) ns old h = refl

settime-before : (s ns : ℕ) (old : Option TimerSpec) → 0 < s + ns → settime (before s ns) old ≡ old
unfolding settime
settime-before zero zero old h = absurd (omega arith)
settime-before zero (suc ns) old h = refl
settime-before (suc s) ns old h = refl

-- A microsecond or more ahead: the timerfd is armed with that time, cut to whole microseconds.
reset_timer_fd-ahead :
    (t : Timer) (now : Timestamp) (q : RbTreeTimer)
    → now + 1000 ≤ t.expiration
    → (spec : TimerSpec) × ((reset_timer_fd t now q).armed ≡ some spec)
      × Lasts ((t.expiration - now) / 1000 * 1000) spec
unfolding reset_timer_fd time_difference timer_spec
reset_timer_fd-ahead t now q h =
    let d = (t.expiration - now) / 1000 in
    (
      after (d / micros_per_second) (d % micros_per_second * 1000),
      rw (le→leb now t.expiration (omega arith)) (settime-after _ _ q.armed (omega arith)),
      (omega arith, omega arith),
    )

-- Less than a microsecond away, on either side: the timerfd is disarmed.
reset_timer_fd-near :
    (t : Timer) (now : Timestamp) (q : RbTreeTimer)
    → now < t.expiration + 1000
    → t.expiration < now + 1000
    → (reset_timer_fd t now q).armed ≡ none
unfolding reset_timer_fd time_difference timer_spec settime
reset_timer_fd-near t now q h k = elim (Bool-cases (leb now t.expiration)) [
  | inl ahead ↦
      let none_left : (t.expiration - now) / 1000 ≡ 0 = omega arith in rw (ahead, none_left)
  | inr past ↦ let none_left : (now - t.expiration) / 1000 ≡ 0 = omega arith in rw (past, none_left)
]

-- A microsecond or more ago: the system refuses the time, and what was armed stays.
reset_timer_fd-past :
    (t : Timer) (now : Timestamp) (q : RbTreeTimer)
    → t.expiration + 1000 ≤ now
    → (reset_timer_fd t now q).armed ≡ q.armed
unfolding reset_timer_fd time_difference timer_spec
reset_timer_fd-past t now q h =
    rw (lt→leb now t.expiration (omega arith)) (settime-before _ _ q.armed (omega arith))

-- `resetTimerFd` on every branch: a timer a microsecond or more ahead arms the timerfd with its time
-- from now, cut to whole microseconds and split into seconds and less than a second of nanoseconds;
-- one that is less than a microsecond away disarms it; for one further back the call fails.
reset_timer_fd_armed :
    (t : Timer) (now : Timestamp) (q : RbTreeTimer)
    → ((now + 1000 ≤ t.expiration)
        × ((spec : TimerSpec) × ((reset_timer_fd t now q).armed ≡ some spec)
            × Lasts ((t.expiration - now) / 1000 * 1000) spec))
      ⊎ ((now < t.expiration + 1000)
          × (t.expiration < now + 1000)
          × ((reset_timer_fd t now q).armed ≡ none))
      ⊎ ((t.expiration + 1000 ≤ now) × ((reset_timer_fd t now q).armed ≡ q.armed))
reset_timer_fd_armed t now q = elim (Bool-cases (leb (now + 1000) t.expiration)) [
  | inl ahead ↦
      let h = leb→le (now + 1000) t.expiration ahead in inl (h, reset_timer_fd-ahead t now q h)
  | inr no_more ↦ elim (Bool-cases (leb (t.expiration + 1000) now)) [
    | inl past ↦
        let h = leb→le (t.expiration + 1000) now past in
        inr (inr (h, reset_timer_fd-past t now q h))
    | inr near ↦
        let h = leb→lt _ _ near in
        let k = leb→lt _ _ no_more in inr (inl (h, k, reset_timer_fd-near t now q h k))
  ]
]

-- None of these timers repeats.
abbrev pub NoneRepeats : List Timer → Type 0
NoneRepeats [] = Unit {0}
NoneRepeats (t ∷ ts) = (repeat t ≡ false) × NoneRepeats ts

run_expired-once :
    (clock : Timer → Timestamp) (ts : List Timer) (q : RbTreeTimer)
    → NoneRepeats ts
    → (run_expired (λ _. []) clock ts q).1 ≡ q
unfolding run_expired run_adds handle_repeat_timer
run_expired-once clock [] q h = refl
run_expired-once clock (t ∷ ts) q h = rw h.0 (run_expired-once clock ts q h.1)

reset-late :
    (t : Timer) (now : Timestamp) (q : RbTreeTimer)
    → q.armed ≡ none
    → t.expiration < now + 1000
    → (reset_timer_fd t now q).armed ≡ none
reset-late t now q e h = elim (Bool-cases (leb (t.expiration + 1000) now)) [
  | inl past ↦ reset_timer_fd-past t now q (leb→le _ _ past) ∙ e
  | inr near ↦ reset_timer_fd-near t now q (leb→lt _ _ near) h
]

-- The queue stalls: if no timer that runs repeats or adds another, and the first timer that is left
-- is less than a microsecond ahead of the time read when it is to be armed, or behind that time,
-- then nothing is armed though timers are waiting.
pub handle_read_stalls :
    (now later : Timestamp) (clock : Timer → Timestamp) (q : RbTreeTimer) (expired : List Timer)
    (t : Timer) (ts : List Timer)
    → split_expired now q.timers ≡ (expired, t ∷ ts)
    → NoneRepeats expired
    → t.expiration < later + 1000
    → ((handle_read true now (λ _. []) clock later q).1.timers ≡ t ∷ ts)
      × ((handle_read true now (λ _. []) clock later q).1.armed ≡ none)
unfolding handle_read
handle_read_stalls now later clock q expired t ts e h k =
    rw (e, run_expired-once clock expired (record q { timers = t ∷ ts; armed = none }) h)
      (
        unfold reset_timer_fd in refl,
        reset-late t later (record q { timers = t ∷ ts; armed = none }) refl k,
      )
