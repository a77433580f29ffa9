-- ===== src/Net/LoopThreadPool/Starting.antt =====
-- Net/loopthreadpool.cpp: `start` and the threads that it makes, as interleaved steps.
-- The mutex makes each access to the list of loops one step, with the notification of the condition
-- variable that belongs to it.
use mathlib.Core.Path.{subst}
use my_moduo.Base.{
  sym, ap, ◌∙◌, ℕ, zero, suc, ◌+◌, ◌*◌, ◌%◌, get_elem?, ◌<◌, ◌≡◌, ◌≢◌, refl, ◌⊎◌, inl, inr, List,
  [], ◌∷◌, ◌++◌, arith, length, length-append, ◌==◌, if◌then◌else◌,
}
use my_moduo.Net.LoopThreadPool.RoundRobin.{IsStarted, nth_loop, nth_loop_lem}
use my_moduo.Net.LoopThreadPool.{LoopThreadPool}

-- Where `start` stands: in its loop with so many threads still to make, in the wait, notified but
-- without the mutex, or at its end.
pub data Starter : Type 0 where
  creating : ℕ → Starter
  asleep notified returned : Starter

-- `threads` are those that have been made and have yet to put their loops into the list.
pub record Starting : Type 0 where
  pub pool : LoopThreadPool
  pub threads : List ℕ
  pub starter : Starter

abbrev pub begin_start : LoopThreadPool → Starting
begin_start p = record { pool = p; threads = []; starter = creating p.thread_num }

-- The predicate of the wait, under the mutex.
unfoldable pub check_loops : Starting → Starting
check_loops s = record s {
  starter = if length s.pool.loops == s.pool.thread_num then returned else asleep;
}

-- `notify_one` is lost on a thread that does not wait.
unfoldable pub notify : Starter → Starter
notify asleep = notified
notify m = m

-- The locked part of a thread, with the threads that are left.
unfoldable pub register_loop : ℕ → List ℕ → Starting → Starting
register_loop loop left s =
    let loops = s.pool.loops ++ loop ∷ [] in
    record {
      pool = record s.pool { loops = loops };
      threads = left;
      starter = if length loops == s.pool.thread_num then notify s.starter else s.starter;
    }

-- The steps, but for a wake-up with no reason.
pub data StartMoves (s t : Starting) : Type 0 where
  creates :
      (loop n : ℕ)
      → s.starter ≡ creating (suc n)
      → t ≡ record s { threads = loop ∷ s.threads; starter = creating n }
      → StartMoves s t
  waits : s.starter ≡ creating 0 → t ≡ check_loops s → StartMoves s t
  wakes : s.starter ≡ notified → t ≡ check_loops s → StartMoves s t
  registers :
      (before : List ℕ) (loop : ℕ) (after : List ℕ)
      → s.threads ≡ before ++ loop ∷ after
      → t ≡ register_loop loop (before ++ after) s
      → StartMoves s t

-- The states that can be reached from the beginning of `start`, spurious wake-ups included.
pub data Reach (p : LoopThreadPool) : Starting → Type 0 where
  begins : Reach p (begin_start p)
  moves : {s t : Starting} → Reach p s → StartMoves s t → Reach p t
  wakes_up :
      {s : Starting} → Reach p s → s.starter ≡ asleep → Reach p (record s { starter = notified })

abbrev pub to_create : Starter → ℕ
to_create (creating n) = n
to_create _ = 0

-- Every thread has yet to be made, has yet to put in its loop, or has done so; and while `start`
-- sleeps, a loop is missing.
record IsSound (p : LoopThreadPool) (s : Starting) : Type 0 where
  count : to_create s.starter + length s.threads + length s.pool.loops ≡ p.thread_num
  same_num : s.pool.thread_num ≡ p.thread_num
  same_index : s.pool.next_loop_index ≡ p.next_loop_index
  awake : s.starter ≡ asleep → length s.pool.loops ≢ p.thread_num
  complete : s.starter ≡ returned → length s.pool.loops ≡ p.thread_num

-- A list without one of its elements.
length-taken :
    {ts : List ℕ} (before : List ℕ) (loop : ℕ) (after : List ℕ)
    → ts ≡ before ++ loop ∷ after
    → length ts ≡ suc (length (before ++ after))
length-taken before loop after e =
    omega (arith, ap length e, length-append before (loop ∷ after), length-append before after)

check_loops-IsSound :
    (p : LoopThreadPool) (s : Starting)
    → to_create s.starter ≡ 0
    → IsSound p s
    → IsSound p (check_loops s)
unfolding check_loops
check_loops-IsSound p s e h = record {
  count = ground (arith, h.count, e);
  same_num = h.same_num;
  same_index = h.same_index;
  awake = λ k. ground (arith, h.same_num);
  complete = λ k. ground (arith, h.same_num);
}

register_loop-IsSound :
    (p : LoopThreadPool) (s : Starting) (before : List ℕ) (loop : ℕ) (after : List ℕ)
    → s.threads ≡ before ++ loop ∷ after
    → IsSound p s
    → IsSound p (register_loop loop (before ++ after) s)
unfolding register_loop notify
register_loop-IsSound p s before loop after e h =
    let one = length-append s.pool.loops (loop ∷ []) in
    let fewer = length-taken before loop after e in
    record {
      count = ground (arith, h.count, one, fewer);
      same_num = h.same_num;
      same_index = h.same_index;
      awake = λ k. ground (arith, h.same_num, one, fewer);
      complete = λ k. ground (arith, h.same_num, h.count, h.complete, one, fewer);
    }

begin-IsSound : (p : LoopThreadPool) → p.loops ≡ [] → IsSound p (begin_start p)
begin-IsSound p e = record {
  count = omega (arith, ap length e);
  same_num = refl;
  same_index = refl;
  awake = λ k. cc;
  complete = λ k. cc;
}

StartMoves-IsSound :
    {p : LoopThreadPool} {s t : Starting} → StartMoves s t → IsSound p s → IsSound p t
StartMoves-IsSound {p} {s} (creates loop n e q) h = subst (IsSound p) (sym q) (record {
  count = ground (arith, h.count, e);
  same_num = h.same_num;
  same_index = h.same_index;
  awake = λ k. cc;
  complete = λ k. cc;
})
StartMoves-IsSound {p} {s} (waits e q) h =
    subst (IsSound p) (sym q) (check_loops-IsSound p s (ap to_create e) h)
StartMoves-IsSound {p} {s} (wakes e q) h =
    subst (IsSound p) (sym q) (check_loops-IsSound p s (ap to_create e) h)
StartMoves-IsSound {p} {s} (registers before loop after e q) h =
    subst (IsSound p) (sym q) (register_loop-IsSound p s before loop after e h)

Reach-IsSound : {p : LoopThreadPool} {s : Starting} → p.loops ≡ [] → Reach p s → IsSound p s
Reach-IsSound {p} e begins = begin-IsSound p e
Reach-IsSound e (moves r m) = StartMoves-IsSound m (Reach-IsSound e r)
Reach-IsSound {p} e (wakes_up {s} r k) =
    let h = Reach-IsSound e r in
    record {
      count = ground (arith, h.count, k);
      same_num = h.same_num;
      same_index = h.same_index;
      awake = λ n. cc;
      complete = λ n. cc;
    }

-- How far it is to the end.
abbrev pub starter_weight : Starter → ℕ
starter_weight (creating n) = 3 * n + 3
starter_weight asleep = 1
starter_weight notified = 2
starter_weight returned = 0

abbrev pub distance : Starting → ℕ
distance s = starter_weight s.starter + 2 * length s.threads

StartMoves-distance : {s t : Starting} → StartMoves s t → distance t < distance s
unfolding check_loops register_loop notify
StartMoves-distance {s} (creates loop n e q) = ground (arith, e, q)
StartMoves-distance {s} (waits e q) = ground (arith, e, q)
StartMoves-distance {s} (wakes e q) = ground (arith, e, q)
StartMoves-distance {s} (registers before loop after e q) =
    ground (arith, length-taken before loop after e, q)

-- `start` has returned, or there is a step.
goes_on :
    (m : Starter) (ts : List ℕ) (p : LoopThreadPool) (s : Starting)
    → IsSound p s
    → s.starter ≡ m
    → s.threads ≡ ts
    → (s.starter ≡ returned) ⊎ ((t : Starting) × StartMoves s t)
goes_on (creating zero) ts p s h e k = inr (check_loops s, waits e refl)
goes_on (creating (suc n)) ts p s h e k = inr (_, creates 0 n e refl)
goes_on notified ts p s h e k = inr (check_loops s, wakes e refl)
goes_on returned ts p s h e k = inl e
goes_on asleep [] p s h e k =
    absurd (h.awake e (omega (arith, h.count, ap length k, ap to_create e)))
goes_on asleep (t ∷ ts) p s h e k = inr (register_loop t ts s, registers [] t ts k refl)

-- From a pool with no loops yet and a thread at least to make, in every state that `start` and its
-- threads can reach, spurious wake-ups included: either `start` has returned, and then the n-th call
-- of `getNextLoop`, from the 0-th on, gives the n-th loop, modulo the number of threads; or there is
-- a step, which brings the end nearer, so that no notification is lost.
pub start_returns :
    {p : LoopThreadPool} {s : Starting} (n : ℕ)
    → p.loops ≡ []
    → 0 < p.thread_num
    → p.next_loop_index ≡ 0
    → Reach p s
    → ((s.starter ≡ returned)
        × (length s.pool.loops ≡ p.thread_num)
        × (nth_loop n s.pool ≡ get_elem? s.pool.loops (n % p.thread_num)))
      ⊎ ((t : Starting) × StartMoves s t × (distance t < distance s))
start_returns {p} {s} n e some_there index r =
    let h = Reach-IsSound e r in
    elim (goes_on s.starter s.threads p s h refl refl) [
      | inl over ↦
          let started : IsStarted s.pool = record {
            all_there = omega (arith, h.complete over, h.same_num);
            some_there = omega (arith, h.same_num);
            in_range = omega (arith, h.same_num, h.same_index, index);
          } in
          let first : s.pool.next_loop_index + n ≡ n = omega (arith, h.same_index, index) in
          inl (
            over,
            h.complete over,
            nth_loop_lem n s.pool started
                ∙ ap (λ k. get_elem? s.pool.loops (k % s.pool.thread_num)) first
                ∙ ap (λ k. get_elem? s.pool.loops (n % k)) h.same_num,
          )
      | inr (t, m) ↦ inr (t, m, StartMoves-distance m)
    ]
