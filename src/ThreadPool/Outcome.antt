-- ===== src/ThreadPool/Outcome.antt =====
-- What a thread of the pool does behind a wake-up, case by case.
use mathlib.Core.Path.{subst}
use my_moduo.Base.{ℕ, ◌≡◌, refl, Bool, true, false, List, [], ◌∷◌, ◌++◌, some, arith}
use my_moduo.ThreadPool.{Worker, sleeping, ended, running, ThreadPool, thread_func}

pub data Outcome (p : ThreadPool) (w : Worker) (r : ThreadPool) : Type 0 where
  sleeps : p.stop ≡ false → p.task_list ≡ [] → w ≡ sleeping → r ≡ p → Outcome p w r
  ends : p.stop ≡ true → w ≡ ended → r ≡ p → Outcome p w r
  takes :
      (task : ℕ) (rest : List ℕ)
      → p.stop ≡ false
      → p.task_list ≡ task ∷ rest
      → w ≡ running task
      → r ≡ record p { task_list = rest; taken = p.taken ++ task ∷ [] }
      → Outcome p w r

pub thread_func-Outcome :
    (b : Bool) (xs : List ℕ) (p : ThreadPool)
    → p.stop ≡ b
    → p.task_list ≡ xs
    → (w : Worker) × (r : ThreadPool) × (thread_func p ≡ some (w, r)) × Outcome p w r
unfolding thread_func
thread_func-Outcome true [] p e k = (ended, p, ground (arith, e, k), ends e refl refl)
thread_func-Outcome true (t ∷ xs) p e k = (ended, p, ground (arith, e, k), ends e refl refl)
thread_func-Outcome false [] p e k = (sleeping, p, ground (arith, e, k), sleeps e k refl refl)
thread_func-Outcome false (t ∷ xs) p e k =
    (running t, _, ground (arith, e, k), takes t xs e k refl refl)

pub thread_func-Outcome_of :
    {p r : ThreadPool} {w : Worker} → thread_func p ≡ some (w, r) → Outcome p w r
thread_func-Outcome_of {p} {r} {w} e =
    let (v, s, f, o) = thread_func-Outcome p.stop p.task_list p refl refl in
    let same : ◌≡◌ {A = Worker × ThreadPool} (v, s) (w, r) = cc in
    subst (λ (x : Worker × ThreadPool). Outcome p x.0 x.1) same o
