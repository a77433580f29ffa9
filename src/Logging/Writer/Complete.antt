-- ===== src/Logging/Writer/Complete.antt =====
-- Every line that is logged stays on its way to the log files, however the threads interleave.
use mathlib.Core.Path.{subst}
use my_moduo.Base.{
  ℕ, ◌≡◌, refl, sym, ap, ◌∙◌, inl, inr, List, [], ◌∷◌, ◌++◌, append-nil, append_assoc, some, Bytes,
  concat, ◌>>=◌, true, false, Bool-cases, if-true, if-false,
}
use my_moduo.Logging.AsyncLogging.Appending.{buffered, accepted, concat-append}
use my_moduo.Logging.LogFile.Written.{all_text}
use my_moduo.Logging.LogFile.{flush}
use my_moduo.Logging.Pipeline.Complete.{Works, IsUsable}
use my_moduo.Logging.Pipeline.{Device}
use my_moduo.Logging.Writer.Sound.{
  stop_lem, IsSound, Spares, whole, taken, lines_of, start-IsSound, Adds, logs-Adds, Swapped, swaps,
  Wrote, writes, tests,
}
use my_moduo.Logging.Writer.{
  Stage, testing, waiting, writing, over, Writer, start_async_logging, step_at, take_turn, stop,
  Event, logs, turns, stops, step, run,
}

-- Text that is where it was.
unmoved : (xs : Bytes) {ys : Bytes} → xs ≡ ys → xs ≡ ys ++ []
unmoved xs {ys} e = e ∙ sym (append-nil ys)

taken-Swapped : (s t : Writer) → s.phase ≡ waiting → Swapped s t → whole t ≡ whole s
taken-Swapped s t e k =
    ap (λ p. all_text t.output ++ (taken p ++ buffered t.log)) k.phase
    ∙ ap (λ o. all_text o ++ (concat (s.log.buffers ++ s.log.current ∷ []) ++ buffered t.log))
        k.output
    ∙ ap (λ xs. all_text s.output ++ (concat (s.log.buffers ++ s.log.current ∷ []) ++ xs)) k.emptied
    ∙ ap (◌++◌ (all_text s.output)) (
        append-nil (concat (s.log.buffers ++ s.log.current ∷ []))
        ∙ concat-append s.log.buffers s.log.current)
    ∙ ap (λ p. all_text s.output ++ (taken p ++ buffered s.log)) (sym e)

taken-Wrote :
    (bs : List Bytes) (s t : Writer) → s.phase ≡ writing bs → Wrote bs s t → whole t ≡ whole s
taken-Wrote bs s t e k =
    ap (λ p. all_text t.output ++ (taken p ++ buffered t.log)) k.phase
    ∙ ap (λ xs. xs ++ buffered t.log) k.text
    ∙ ap (λ xs. (all_text s.output ++ concat bs) ++ xs) k.kept
    ∙ append_assoc (all_text s.output) (concat bs) (buffered s.log)
    ∙ ap (λ p. all_text s.output ++ (taken p ++ buffered s.log)) (sym e)

tests-Adds : (d : Device) (s : Writer) → IsSound s → s.phase ≡ testing → Adds [] s (take_turn d s)
tests-Adds d s h e =
    let spares = subst (λ p. Spares p s.log) e h.spares in
    let same : whole s ≡ all_text s.output ++ buffered s.log =
      ap (λ p. all_text s.output ++ (taken p ++ buffered s.log)) e in
    elim (Bool-cases s.running) [
      | inl on ↦ (
        record s { phase = waiting },
        tests d s e ∙ ap some (if-true _ _ _ on),
        record { next_there = h.next_there; counted = h.counted; spares = spares },
        unmoved _ (sym same),
      )
      | inr off ↦ (
        record s { phase = over; output = flush s.output },
        tests d s e ∙ ap some (if-false _ _ _ off),
        record { next_there = h.next_there; counted = h.counted; spares = spares },
        unmoved _ (sym same),
      )
    ]

turns-Adds :
    (p : Stage) (d : Device) (s : Writer)
    → Works d
    → IsSound s
    → s.phase ≡ p
    → Adds [] s (take_turn d s)
unfolding step_at
turns-Adds testing d s w h e = tests-Adds d s h e
turns-Adds waiting d s w h e =
    let (t, done, k) = swaps d s h e in
    (
      t,
      done,
      record {
        next_there = k.next_there;
        counted = subst IsUsable (sym k.output) h.counted;
        spares = subst (λ q. Spares q t.log) (sym k.phase) k.spares;
      },
      unmoved _ (taken-Swapped s t e k),
    )
turns-Adds (writing bs) d s w h e =
    let (t, done, k) = writes d bs s w h e in
    (
      t,
      done,
      record {
        next_there = k.next_there;
        counted = k.counted;
        spares = subst (λ q. Spares q t.log) (sym k.phase) k.spares;
      },
      unmoved _ (taken-Wrote bs s t e k),
    )
turns-Adds over d s w h e = (s, ap (λ q. step_at q d s) e, h, unmoved _ refl)

stop-Adds : (s : Writer) → IsSound s → Adds [] s (some (stop s))
stop-Adds s h = (
  record s { running = false },
  ap some (stop_lem s),
  record { next_there = h.next_there; counted = h.counted; spares = h.spares },
  unmoved _ refl,
)

-- A step, and the rest of a history.
then_Adds :
    (d : Device) (e : Event) (es : List Event) (text rest : Bytes) (s : Writer)
    → ((t : Writer) → IsSound t → Adds rest t (run d es t))
    → Adds text s (step d s e)
    → Adds (text ++ rest) s (run d (e ∷ es) s)
unfolding run
then_Adds d e es text rest s ih (t, done, h, moved) =
    let (u, finished, k, moved') = ih t h in
    (
      u,
      ap (λ o. o >>= λ x. run d es x) done ∙ finished,
      k,
      moved' ∙ ap (λ xs. xs ++ rest) moved ∙ append_assoc (whole s) text rest,
    )

pub run-Adds :
    (d : Device) (es : List Event) (s : Writer)
    → Works d
    → IsSound s
    → Adds (lines_of es) s (run d es s)
unfolding run step
run-Adds d [] s w h = (s, refl, h, unmoved _ refl)
run-Adds d (logs line ∷ es) s w h =
    then_Adds d (logs line) es (accepted line) (lines_of es) s (λ t k. run-Adds d es t w k)
      (logs-Adds d line s h)
run-Adds d (turns ∷ es) s w h =
    then_Adds d turns es [] (lines_of es) s (λ t k. run-Adds d es t w k)
      (turns-Adds s.phase d s w h refl)
run-Adds d (stops ∷ es) s w h =
    then_Adds d stops es [] (lines_of es) s (λ t k. run-Adds d es t w k) (stop-Adds s h)

-- However `append`, `stop` and the steps of the thread that writes interleave, if every call of
-- `fopen` opens a file, no call of `fwrite` fails and there are answers enough, no null pointer is
-- used, no vector is empty where its last element is taken, every loop over the buffers ends, and
-- the log files, the closed ones and the current one, then the buffers that the thread is about to
-- write, and then those that `append` fills hold, in order, every line that is shorter than a
-- buffer.
pub writer_complete :
    (d : Device) (es : List Event) (roll_size flush_interval : ℕ)
    → Works d
    → (t : Writer) × (run d es (start_async_logging true roll_size flush_interval) ≡ some t)
      × (all_text t.output ++ (taken t.phase ++ buffered t.log) ≡ lines_of es)
writer_complete d es roll_size flush_interval w =
    let (t, done, _, moved) =
      run-Adds d es (start_async_logging true roll_size flush_interval) w
        (start-IsSound roll_size flush_interval) in
    (t, done, moved)
