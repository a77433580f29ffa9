-- ===== src/Net/EventLoop/WakeUp.antt =====
-- No wake-up is lost: the loop does not sleep over a queue that holds functors.
use mathlib.Core.Path.{subst}
use my_moduo.Base.{
  ℕ, ◌+◌, ◌<◌, ◌≡◌, refl, sym, ◌∙◌, ◌≢◌, ◌⊎◌, inl, inr, Bool, true, false, List, [], ◌∷◌, ◌++◌,
  arith, Bool-cases,
}
use my_moduo.Net.EventLoop.{
  Phase, polling, handling, stopped, calling, EventLoop, wakeup, handle_read, queue_in_loop,
  queue_all, run_in_loop, swap_functors, call_functor, finish_functors, quit, Step, poll_returns,
  reads, handles, runs_at_once, swaps, calls, finishes, queues, writes, quits, Reach, start, next,
}

-- Nothing waits in the queue, or the eventfd is readable, or a thread is about to write to it.
abbrev pub Covered : EventLoop → Type 0
Covered l = (l.pending_functors ≡ []) ⊎ (0 < l.counter + l.wakers)

-- What holds in each phase.
abbrev InPhase : Phase → EventLoop → Type 0
InPhase polling l = (l.calling_pending_functors ≡ false) × Covered l
InPhase handling l = l.calling_pending_functors ≡ false
InPhase (calling rest) l = (l.calling_pending_functors ≡ true) × Covered l
InPhase stopped l = Unit {0}

abbrev Inv : EventLoop → Type 0
Inv l = InPhase l.phase l

queue_all-calling :
    (qs : List ℕ) (l : EventLoop)
    → l.calling_pending_functors ≡ true
    → Covered l
    → ((queue_all qs l).calling_pending_functors ≡ true) × Covered (queue_all qs l)
unfolding queue_all
queue_all-calling [] l e c = (e, c)
queue_all-calling (cb ∷ qs) l e c =
    queue_all-calling qs (queue_in_loop true cb l) (unfold queue_in_loop wakeup in ground arith)
      (unfold queue_in_loop wakeup in ground arith)

calling-queue_all :
    (qs : List ℕ) (l : EventLoop)
    → (queue_all qs l).calling_pending_functors ≡ l.calling_pending_functors
unfolding queue_all
calling-queue_all [] l = refl
calling-queue_all (cb ∷ qs) l =
    calling-queue_all qs (queue_in_loop true cb l) ∙ (unfold queue_in_loop wakeup in ground arith)

phase-queue_all : (qs : List ℕ) (l : EventLoop) → (queue_all qs l).phase ≡ l.phase
unfolding queue_all
phase-queue_all [] l = refl
phase-queue_all (cb ∷ qs) l =
    phase-queue_all qs (queue_in_loop true cb l) ∙ (unfold queue_in_loop wakeup in ground arith)

-- What other threads do keeps the invariant of every phase.
queues-InPhase :
    (p : Phase) (cb : ℕ) (l : EventLoop) → InPhase p l → InPhase p (run_in_loop false cb [] l)
unfolding run_in_loop queue_in_loop
queues-InPhase polling cb l h = ground arith
queues-InPhase _ cb l h = ground arith

writes-InPhase :
    (p : Phase) (n : ℕ) (l : EventLoop) → InPhase p l → InPhase p (record (wakeup l) { wakers = n })
unfolding wakeup
writes-InPhase polling n l h = ground arith
writes-InPhase _ n l h = ground arith

quits-InPhase : (p : Phase) (here : Bool) (l : EventLoop) → InPhase p l → InPhase p (quit here l)
unfolding quit
quits-InPhase polling here l h = ground arith
quits-InPhase _ here l h = ground arith

-- None of these calls moves the loop's thread.
phase-queues : (cb : ℕ) (l : EventLoop) → (run_in_loop false cb [] l).phase ≡ l.phase
unfolding run_in_loop queue_in_loop
phase-queues cb l = ground arith

phase-quit : (here : Bool) (l : EventLoop) → (quit here l).phase ≡ l.phase
unfolding quit
phase-quit here l = ground arith

handling-Inv : (l : EventLoop) → l.phase ≡ handling → l.calling_pending_functors ≡ false → Inv l
handling-Inv l p e = rw p e

calling-Inv :
    (rest : List ℕ) (l : EventLoop)
    → l.phase ≡ calling rest
    → (l.calling_pending_functors ≡ true) × Covered l
    → Inv l
calling-Inv rest l p e = rw p e

call_functor-Inv :
    (cb : ℕ) (rest qs : List ℕ) (l : EventLoop)
    → (l.calling_pending_functors ≡ true) × Covered l
    → Inv (call_functor cb rest qs l)
unfolding call_functor
call_functor-Inv cb rest qs l h =
    calling-Inv rest _ (phase-queue_all qs _)
      (queue_all-calling qs (record l { phase = calling rest; ran = l.ran ++ cb ∷ [] }) h.0 h.1)

finish_functors-Inv : (l : EventLoop) → Covered l → Inv (finish_functors l)
unfolding finish_functors
finish_functors-Inv l h = elim (Bool-cases l.looping) [
  | inl on ↦ rw on (refl, h)
  | inr off ↦ rw off tt
]

Inv-phase : (l m : EventLoop) → m.phase ≡ l.phase → InPhase l.phase m → Inv m
Inv-phase l m e h = subst (λ p. InPhase p m) (sym e) h

Step-Inv : {l m : EventLoop} {qs : List ℕ} → Step l m qs → Inv l → Inv m
Step-Inv {l} (poll_returns p e _) h = rw e (rw p at h).0
Step-Inv {l} (reads p e _) h = rw e (unfold handle_read in handling-Inv _ p (rw p at h))
Step-Inv {l} {qs} (handles p e) h =
    rw e (handling-Inv _ (phase-queue_all qs l ∙ p) (calling-queue_all qs l ∙ (rw p at h)))
Step-Inv {l} {qs} (runs_at_once cb p e) h = rw e (
    unfold run_in_loop in
    handling-Inv _ (phase-queue_all qs _ ∙ p) (calling-queue_all qs _ ∙ (rw p at h)))
Step-Inv {l} (swaps p e _) h = rw e (unfold swap_functors in (refl, inl refl))
Step-Inv {l} {qs} (calls cb rest p e) h = rw e (call_functor-Inv cb rest qs l (rw p at h))
Step-Inv {l} (finishes p e _) h = rw e (finish_functors-Inv l (rw p at h).1)
Step-Inv {l} (queues cb e _) h =
    rw e (Inv-phase l _ (phase-queues cb l) (queues-InPhase l.phase cb l h))
Step-Inv {l} (writes n w e _) h = rw e (unfold wakeup in writes-InPhase l.phase n l h)
Step-Inv {l} (quits here e _) h =
    rw e (Inv-phase l _ (phase-quit here l) (quits-InPhase l.phase here l h))

Reach-Inv : {all : List ℕ} {l : EventLoop} → Reach all l → Inv l
Reach-Inv start = (refl, inl refl)
Reach-Inv (next r s) = Step-Inv s (Reach-Inv r)

-- However other threads interleave with the loop, it never sleeps in `epoll_wait` over a queue that
-- holds functors, unless the eventfd is readable or a thread is about to write to it.
pub no_lost_wakeup :
    {all : List ℕ} {l : EventLoop}
    → Reach all l
    → l.phase ≡ polling
    → l.pending_functors ≢ []
    → 0 < l.counter + l.wakers
no_lost_wakeup {l} r p n = ground (arith, (rw p at (Reach-Inv r)).1)
