-- ===== src/Logging/Writer/Stopping.antt =====
-- `stop`: the thread that writes ends, and what it has written by then.
use mathlib.Core.Path.{subst}
use my_moduo.Base.{
  ℕ, zero, suc, ◌≡◌, ◌≢◌, refl, sym, ap, ◌∙◌, List, [], ◌∷◌, ◌++◌, some, Bytes, concat, length,
  ◌>>=◌, true, false, if-false,
}
use my_moduo.Logging.AsyncLogging.Appending.{buffered, concat-append}
use my_moduo.Logging.LogFile.Written.{all_text}
use my_moduo.Logging.LogFile.{flush}
use my_moduo.Logging.Pipeline.Complete.{Works, IsUsable}
use my_moduo.Logging.Pipeline.{Device}
use my_moduo.Logging.Writer.Complete.{run-Adds}
use my_moduo.Logging.Writer.Sound.{stop_lem, IsSound, Spares, start-IsSound, swaps, writes, tests}
use my_moduo.Logging.Writer.{
  Stage, testing, waiting, writing, over, Writer, start_async_logging, step_at, take_turn, Event,
  turns, stops, step, run,
}

-- After `k` steps the thread is at its end, with this text in the files, all of it flushed.
abbrev pub Ends : Device → List Event → Writer → Bytes → Type 0
Ends d es s text =
    (t : Writer) × (run d es s ≡ some t)
    × (t.phase ≡ over)
    × (all_text t.output ≡ text)
    × (t.output.flushed ≡ length t.output.file)

abbrev turn_times : ℕ → List Event
turn_times zero = []
turn_times (suc n) = turns ∷ turn_times n

over-Ends :
    (k : ℕ) (d : Device) (s : Writer)
    → s.phase ≡ over
    → s.output.flushed ≡ length s.output.file
    → Ends d (turn_times k) s (all_text s.output)
unfolding run step step_at
over-Ends zero d s e f = (s, refl, e, refl, f)
over-Ends (suc k) d s e f =
    let (t, done, ended, text, flushed) = over-Ends k d s e f in
    let stays : take_turn d s ≡ some s = ap (λ p. step_at p d s) e in
    (t, ap (λ o. o >>= λ x. run d (turn_times k) x) stays ∙ done, ended, text, flushed)

testing-Ends :
    (k : ℕ) (d : Device) (s : Writer)
    → s.running ≡ false
    → s.phase ≡ testing
    → Ends d (turn_times (suc k)) s (all_text s.output)
unfolding run step
testing-Ends k d s off e =
    let u = record s { phase = over; output = flush s.output } in
    let (t, done, ended, text, flushed) = over-Ends k d u refl refl in
    (
      t,
      ap (λ o. o >>= λ x. run d (turn_times k) x) (tests d s e ∙ ap some (if-false _ _ _ off))
          ∙ done,
      ended,
      text,
      flushed,
    )

writing-Ends :
    (k : ℕ) (d : Device) (bs : List Bytes) (s : Writer)
    → Works d
    → IsSound s
    → s.running ≡ false
    → s.phase ≡ writing bs
    → Ends d (turn_times (suc (suc k))) s (all_text s.output ++ concat bs)
unfolding run step
writing-Ends k d bs s w h off e =
    let (u, wrote, v) = writes d bs s w h e in
    let (t, done, ended, text, flushed) = testing-Ends k d u (v.running ∙ off) v.phase in
    (
      t,
      ap (λ o. o >>= λ x. run d (turn_times (suc k)) x) wrote ∙ done,
      ended,
      text ∙ v.text,
      flushed,
    )

waiting-Ends :
    (d : Device) (s : Writer)
    → Works d
    → IsSound s
    → s.running ≡ false
    → s.phase ≡ waiting
    → Ends d (turn_times 3) s (all_text s.output ++ buffered s.log)
unfolding run step
waiting-Ends d s w h off e =
    let (u, swapped, v) = swaps d s h e in
    let bs = s.log.buffers ++ s.log.current ∷ [] in
    let sound : IsSound u = record {
      next_there = v.next_there;
      counted = subst IsUsable (sym v.output) h.counted;
      spares = subst (λ q. Spares q u.log) (sym v.phase) v.spares;
    } in
    let (t, done, ended, text, flushed) = writing-Ends 0 d bs u w sound (v.running ∙ off) v.phase in
    (
      t,
      ap (λ o. o >>= λ x. run d (turn_times 2) x) swapped ∙ done,
      ended,
      text
          ∙ ap (λ o. all_text o ++ concat bs) v.output
          ∙ ap (◌++◌ (all_text s.output)) (concat-append s.log.buffers s.log.current),
      flushed,
    )

-- What the files hold when `stop` returns, by where the thread stood when it was called.
abbrev pub written_by_stop : Stage → Writer → Bytes
written_by_stop waiting s = all_text s.output ++ buffered s.log
written_by_stop (writing bs) s = all_text s.output ++ concat bs
written_by_stop _ s = all_text s.output

-- `stop` itself writes nothing.
written_by_stop-stop :
    (p : Stage) (s : Writer)
    → written_by_stop p (record s { running = false }) ≡ written_by_stop p s
written_by_stop-stop (writing bs) s = refl
written_by_stop-stop testing s = refl
written_by_stop-stop waiting s = refl
written_by_stop-stop over s = refl

stopped-Ends :
    (p : Stage) (d : Device) (s : Writer)
    → Works d
    → IsSound s
    → s.running ≡ false
    → s.phase ≡ p
    → p ≢ over
    → Ends d (turn_times 3) s (written_by_stop p s)
stopped-Ends testing d s w h off e n = testing-Ends 2 d s off e
stopped-Ends waiting d s w h off e n = waiting-Ends d s w h off e
stopped-Ends (writing bs) d s w h off e n = writing-Ends 1 d bs s w h off e
stopped-Ends over d s w h off e n = absurd (n refl)

-- After any history in which the thread that writes has not ended, behind a call of `stop` it ends
-- within three of its steps, so that the first such call joins it, if every call of `fopen` opens a
-- file, no call of `fwrite` fails and there are answers enough. The files then hold, all flushed,
-- what they held and, if the thread was waiting, all that was in the buffers; if it was writing,
-- the buffers that it had taken, and nothing of what has been logged since; and if it was about to
-- test `m_running`, nothing more, so that what has been logged since its last swap is lost.
pub stop_joins :
    (d : Device) (es : List Event) (roll_size flush_interval : ℕ) {s : Writer}
    → Works d
    → run d es (start_async_logging true roll_size flush_interval) ≡ some s
    → s.phase ≢ over
    → Ends d (stops ∷ turns ∷ turns ∷ turns ∷ []) s (written_by_stop s.phase s)
unfolding run step
stop_joins d es roll_size flush_interval {s} w e n =
    let (s', ran, h, _) =
      run-Adds d es (start_async_logging true roll_size flush_interval) w
        (start-IsSound roll_size flush_interval) in
    let same : s' ≡ s = cc in
    let sound = subst IsSound same h in
    let still = record s { running = false } in
    let (t, done, ended, text, flushed) =
      stopped-Ends s.phase d still w
        (record { next_there = sound.next_there; counted = sound.counted; spares = sound.spares })
        refl refl n in
    (
      t,
      ap (λ x. run d (turn_times 3) x) (stop_lem s) ∙ done,
      ended,
      text ∙ written_by_stop-stop s.phase s,
      flushed,
    )
