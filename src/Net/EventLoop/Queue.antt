-- ===== src/Net/EventLoop/Queue.antt =====
-- The order in which queued functors run.
use my_moduo.Base.{
  ℕ, ◌≡◌, refl, sym, ap, ◌∙◌, Bool, true, false, inl, inr, List, [], ◌∷◌, ◌++◌, append_assoc,
  append-nil, arith, Bool-cases,
}
use my_moduo.Net.EventLoop.{
  Phase, polling, handling, stopped, calling, EventLoop, wakeup, handle_read, queue_in_loop,
  queue_all, run_in_loop, swap_functors, call_functor, finish_functors, quit, Step, poll_returns,
  reads, handles, runs_at_once, swaps, calls, finishes, queues, writes, quits, Reach, start, next,
}

-- The functors that have been swapped out and have not run.
abbrev pub in_flight : Phase → List ℕ
in_flight (calling rest) = rest
in_flight polling = []
in_flight handling = []
in_flight stopped = []

-- All that has been queued, as far as the loop knows: run, swapped out, or waiting.
abbrev pub known : EventLoop → List ℕ
known l = l.ran ++ (in_flight l.phase ++ l.pending_functors)

-- What a call leaves as it was, and what it puts behind the queue.
record Queued (l m : EventLoop) (qs : List ℕ) : Type 0 where
  same_ran : m.ran ≡ l.ran
  same_phase : m.phase ≡ l.phase
  pending : m.pending_functors ≡ l.pending_functors ++ qs

queue_in_loop-Queued :
    (here : Bool) (cb : ℕ) (l : EventLoop) → Queued l (queue_in_loop here cb l) (cb ∷ [])
unfolding queue_in_loop wakeup
queue_in_loop-Queued here cb l = ground arith

queue_all-Queued : (qs : List ℕ) (l : EventLoop) → Queued l (queue_all qs l) qs
unfolding queue_all
queue_all-Queued [] l = record {
  same_ran = refl;
  same_phase = refl;
  pending = sym (append-nil l.pending_functors);
}
queue_all-Queued (cb ∷ qs) l =
    let a = queue_in_loop-Queued true cb l in
    let b = queue_all-Queued qs (queue_in_loop true cb l) in
    record {
      same_ran = b.same_ran ∙ a.same_ran;
      same_phase = b.same_phase ∙ a.same_phase;
      pending =
          b.pending ∙ ap (λ xs. xs ++ qs) a.pending ∙ append_assoc l.pending_functors (cb ∷ []) qs;
    }

Queued-known : (l m : EventLoop) (qs : List ℕ) → Queued l m qs → known m ≡ known l ++ qs
Queued-known l m qs h = rw (h.same_ran, h.same_phase, h.pending) (simp append_assoc)

same-known : (l m : EventLoop) (qs : List ℕ) → qs ≡ [] → known m ≡ known l → known m ≡ known l ++ qs
same-known l m qs e h = rw e (h ∙ sym (append-nil (known l)))

finish_functors-known : (l : EventLoop) → l.phase ≡ calling [] → known (finish_functors l) ≡ known l
unfolding finish_functors
finish_functors-known l p = elim (Bool-cases l.looping) [
  | inl on ↦ rw (on, p)
  | inr off ↦ rw (off, p)
]

quit-known : (here : Bool) (l : EventLoop) → known (quit here l) ≡ known l
unfolding quit
quit-known true l = refl
quit-known false l = refl

call_functor-known :
    (cb : ℕ) (rest qs : List ℕ) (l : EventLoop)
    → l.phase ≡ calling (cb ∷ rest)
    → known (call_functor cb rest qs l) ≡ known l ++ qs
unfolding call_functor
call_functor-known cb rest qs l p =
    Queued-known called _ qs (queue_all-Queued qs called) ∙ ap (λ xs. xs ++ qs) same
  where
    called : EventLoop
    called = record l { phase = calling rest; ran = l.ran ++ cb ∷ [] }

    same : known called ≡ known l
    same = rw p (append_assoc l.ran (cb ∷ []) (rest ++ l.pending_functors))

Step-known : {l m : EventLoop} {qs : List ℕ} → Step l m qs → known m ≡ known l ++ qs
Step-known {l} {m} {qs} (poll_returns p e n) = same-known l m qs n (rw (e, p))
Step-known {l} {m} {qs} (reads p e n) = same-known l m qs n (rw e (unfold handle_read in refl))
Step-known {l} {m} {qs} (handles p e) = rw e (Queued-known l _ qs (queue_all-Queued qs l))
Step-known {l} {m} {qs} (runs_at_once cb p e) = rw e (
    unfold run_in_loop in
    Queued-known (record l { ran_at_once = l.ran_at_once ++ cb ∷ [] }) _ qs (queue_all-Queued qs _))
Step-known {l} {m} {qs} (swaps p e n) =
    same-known l m qs n
      (rw (e, p) (unfold swap_functors in ap (◌++◌ l.ran) (append-nil l.pending_functors)))
Step-known {l} {m} {qs} (calls cb rest p e) = rw e (call_functor-known cb rest qs l p)
Step-known {l} {m} {qs} (finishes p e n) = same-known l m qs n (rw e (finish_functors-known l p))
Step-known {l} {m} {qs} (queues cb e n) =
    rw (e, n) (unfold run_in_loop in Queued-known l _ (cb ∷ []) (queue_in_loop-Queued false cb l))
Step-known {l} {m} {qs} (writes k w e n) = same-known l m qs n (rw e (unfold wakeup in refl))
Step-known {l} {m} {qs} (quits here e n) = same-known l m qs n (rw e (quit-known here l))

-- Queued functors run in the order in which they were queued, by whatever threads, each once: those
-- that have run, those swapped out and those waiting are, in that order, all that were queued.
pub Reach-known : {all : List ℕ} {l : EventLoop} → Reach all l → known l ≡ all
Reach-known start = refl
Reach-known (next {qs} r s) = Step-known s ∙ ap (λ xs. xs ++ qs) (Reach-known r)
