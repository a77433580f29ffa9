-- ===== src/Net/LoopThreadPool/RoundRobin.antt =====
-- The loops are handed out in turn.
use my_moduo.Base.{
  ℕ, zero, suc, ◌+◌, ◌%◌, ◌<◌, ◌≡◌, refl, ap, ◌∙◌, List, [], ◌∷◌, Option, some, arith, length,
  get_elem?, ◌>>=◌,
}
use my_moduo.Net.LoopThreadPool.{LoopThreadPool, get_next_loop}
use native.Mathlib.Nat.{mod-eq_of_lt, mod-add-mod}

-- After `start`, with a thread at least.
pub record IsStarted (p : LoopThreadPool) : Type 0 where
  pub all_there : length p.loops ≡ p.thread_num
  pub some_there : 0 < p.thread_num
  pub in_range : p.next_loop_index < p.thread_num

get_elem?-lt : (xs : List ℕ) (i : ℕ) → i < length xs → (x : ℕ) × (get_elem? xs i ≡ some x)
get_elem?-lt [] i h = absurd (omega arith)
get_elem?-lt (x ∷ xs) zero h = (x, refl)
get_elem?-lt (x ∷ xs) (suc i) h = get_elem?-lt xs i (omega arith)

-- One call on a pool that is started.
abbrev pub GivesLoop : LoopThreadPool → Type 0
GivesLoop p =
    (loop : ℕ) × (get_elem? p.loops p.next_loop_index ≡ some loop)
    × (get_next_loop p
        ≡ some (loop, record p { next_loop_index = (p.next_loop_index + 1) % p.thread_num }))

pub get_next_loop-GivesLoop :
    (p : LoopThreadPool) (ls : List ℕ) → p.loops ≡ ls → IsStarted p → GivesLoop p
unfolding get_next_loop
get_next_loop-GivesLoop p [] e s = absurd (omega (arith, ap length e, s.all_there, s.some_there))
get_next_loop-GivesLoop p (l ∷ ls) e s =
    let (loop, found) = get_elem?-lt p.loops p.next_loop_index (omega arith) in
    (loop, found, ground arith)

-- `n` calls, and then one more: the loop that this one gives.
unfoldable pub nth_loop : ℕ → LoopThreadPool → Option ℕ
nth_loop zero p = get_next_loop p >>= λ (loop, q). some loop
nth_loop (suc n) p = get_next_loop p >>= λ (loop, q). nth_loop n q

pub advance-IsStarted :
    (p : LoopThreadPool)
    → IsStarted p
    → IsStarted (record p { next_loop_index = (p.next_loop_index + 1) % p.thread_num })
advance-IsStarted p s = record {
  all_there = s.all_there;
  some_there = s.some_there;
  in_range = grind arith;
}

step_on :
    (p : LoopThreadPool) (n : ℕ)
    → ((p.next_loop_index + 1) % p.thread_num + n) % p.thread_num
      ≡ (p.next_loop_index + suc n) % p.thread_num
step_on p n = rw mod-add-mod (ap (λ k. k % p.thread_num) (omega arith))

-- On a started pool no call is out of range, and the calls go round: the one after `n` others gives
-- the loop `n` places on, modulo the number of threads.
pub nth_loop_lem :
    (n : ℕ) (p : LoopThreadPool)
    → IsStarted p
    → nth_loop n p ≡ get_elem? p.loops ((p.next_loop_index + n) % p.thread_num)
unfolding nth_loop
nth_loop_lem zero p s =
    let (loop, found, e) = get_next_loop-GivesLoop p p.loops refl s in
    let here : (p.next_loop_index + 0) % p.thread_num ≡ p.next_loop_index =
      ap (λ i. i % p.thread_num) (omega arith) ∙ mod-eq_of_lt s.in_range in
    rw (e, here) (rw found)
nth_loop_lem (suc n) p s =
    let (loop, found, e) = get_next_loop-GivesLoop p p.loops refl s in
    rw e (nth_loop_lem n _ (advance-IsStarted p s) ∙ ap (get_elem? p.loops) (step_on p n))
