-- ===== src/ThreadPool/Tally.antt =====
-- Sums over the threads of a pool.
use my_moduo.Base.{
  tally, tally-at, tally-end, ℕ, zero, suc, ◌+◌, ◌≤◌, ◌≡◌, refl, List, [], ◌∷◌, ◌++◌, map, arith,
}
use my_moduo.ThreadPool.{Worker, sleeping, awake, ended, running, wake, start_threads}

abbrev pub asleep : Worker → ℕ
asleep sleeping = 1
asleep _ = 0

abbrev pub waking : Worker → ℕ
waking awake = 1
waking _ = 0

abbrev pub busy : Worker → ℕ
busy (running _) = 1
busy _ = 0

abbrev pub over : Worker → ℕ
over ended = 1
over _ = 0

abbrev pub any : Worker → ℕ
any _ = 1

-- Every thread is in one of the four places.
pub tally_all :
    (ts : List Worker)
    → tally any ts ≡ tally asleep ts + (tally waking ts + (tally busy ts + tally over ts))
unfolding tally
tally_all [] = refl
tally_all (sleeping ∷ ts) = omega (arith, tally_all ts)
tally_all (awake ∷ ts) = omega (arith, tally_all ts)
tally_all (running t ∷ ts) = omega (arith, tally_all ts)
tally_all (ended ∷ ts) = omega (arith, tally_all ts)

pub tally-wake :
    (ts : List Worker)
    → (tally asleep (map wake ts) ≡ 0)
      × (tally waking (map wake ts) ≡ tally waking ts + tally asleep ts)
      × (tally busy (map wake ts) ≡ tally busy ts)
      × (tally over (map wake ts) ≡ tally over ts)
unfolding tally
tally-wake [] = (refl, refl, refl, refl)
tally-wake (sleeping ∷ ts) = ground (arith, tally-wake ts)
tally-wake (awake ∷ ts) = ground (arith, tally-wake ts)
tally-wake (running t ∷ ts) = ground (arith, tally-wake ts)
tally-wake (ended ∷ ts) = ground (arith, tally-wake ts)

pub tally-start_threads :
    (f : Worker → ℕ) (n : ℕ) (ts : List Worker)
    → (tally f ts ≤ tally f (start_threads n ts))
      × (f awake ≡ 0 → tally f (start_threads n ts) ≡ tally f ts)
tally-start_threads f zero ts = (omega arith, λ e. refl)
tally-start_threads f (suc n) ts =
    let h = tally-start_threads f n (ts ++ awake ∷ []) in
    let k = tally-at f ts awake [] in
    let l = tally-end f ts in (omega (arith, h.0, k, l), λ e. omega (arith, h.1 e, k, l, e))
