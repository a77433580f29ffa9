-- ===== src/Logging/Writer/Sound.antt =====
-- Every line that is logged is on its way to the file or there, wherever the thread stands.
use mathlib.Core.Path.{subst}
use my_moduo.Base.{
  ℕ, ◌≤◌, ◌≡◌, refl, ap, ◌∙◌, ◌⊎◌, inl, inr, List, [], ◌∷◌, ◌++◌, append_assoc, Option, none, some,
  arith, Bytes, length, length-append, concat, ◌>>=◌, if◌then◌else◌, true, false, Bool-cases,
  if-true, if-false,
}
use my_moduo.Logging.AsyncLogging.Appending.{
  NextThere, buffered, accepted, buffered-append, append-NextThere, append-spares,
}
use my_moduo.Logging.AsyncLogging.NoLoss.{
  write_buffers_lem, swap_buffers-there, swap_buffers-gone, nonempty-length,
}
use my_moduo.Logging.AsyncLogging.{AsyncLogging, append, swap_buffers, write_buffers}
use my_moduo.Logging.LogFile.Written.{all_text}
use my_moduo.Logging.LogFile.{flush}
use my_moduo.Logging.Pipeline.Complete.{Works, IsUsable, write_files_lem}
use my_moduo.Logging.Pipeline.{Device}
use my_moduo.Logging.Writer.{
  Stage, testing, waiting, writing, over, Writer, start_async_logging, step_at, take_turn, Event,
  logs, step, stop,
}

-- The spare buffers that the thread holds, by where it stands.
abbrev pub Spares : Stage → AsyncLogging → Type 0
Spares (writing bs) a =
    (a.spare1 ≡ none)
    × (((a.spare2 ≡ some []) × (1 ≤ length bs)) ⊎ ((a.spare2 ≡ none) × (2 ≤ length bs)))
Spares _ a = (a.spare1 ≡ some []) × (a.spare2 ≡ some [])

pub record IsSound (s : Writer) : Type 0 where
  pub next_there : NextThere s.log
  pub counted : IsUsable s.output
  pub spares : Spares s.phase s.log

-- What the thread has taken and not yet written.
abbrev pub taken : Stage → Bytes
taken (writing bs) = concat bs
taken _ = []

-- All that is in the files, in the hands of the thread, and in the buffers.
abbrev pub whole : Writer → Bytes
whole s = all_text s.output ++ (taken s.phase ++ buffered s.log)

-- The lines of a history that `append` takes.
abbrev pub lines_of : List Event → Bytes
lines_of [] = []
lines_of (logs line ∷ es) = accepted line ++ lines_of es
lines_of (_ ∷ es) = lines_of es

pub start-IsSound :
    (roll_size flush_interval : ℕ) → IsSound (start_async_logging true roll_size flush_interval)
start-IsSound roll_size flush_interval = record {
  next_there = inl refl;
  counted = (refl, refl);
  spares = (refl, refl);
}

Spares-append :
    (p : Stage) (line : Bytes) (a : AsyncLogging) → Spares p a → Spares p (append line a)
Spares-append (writing bs) line a h =
    let (first, second, _) = append-spares line a in ground (arith, h.0, h.1, first, second)
Spares-append testing line a h =
    let (first, second, _) = append-spares line a in (first ∙ h.0, second ∙ h.1)
Spares-append waiting line a h =
    let (first, second, _) = append-spares line a in (first ∙ h.0, second ∙ h.1)
Spares-append over line a h =
    let (first, second, _) = append-spares line a in (first ∙ h.0, second ∙ h.1)

-- A step that does what it should: it returns, all that was on its way still is, and `text` has
-- been added to it.
abbrev pub Adds : Bytes → Writer → Option Writer → Type 0
Adds text s r = (t : Writer) × (r ≡ some t) × IsSound t × (whole t ≡ whole s ++ text)

pub logs-Adds :
    (d : Device) (line : Bytes) (s : Writer)
    → IsSound s
    → Adds (accepted line) s (step d s (logs line))
unfolding step
logs-Adds d line s h = (
  record s { log = append line s.log },
  refl,
  record {
    next_there = append-NextThere line s.log h.next_there;
    counted = h.counted;
    spares = Spares-append s.phase line s.log h.spares;
  },
  ap (λ xs. all_text s.output ++ (taken s.phase ++ xs)) (buffered-append line s.log h.next_there)
      ∙ simp (append_assoc),
)

-- The swap, with a second buffer or without.
pub record Swapped (s t : Writer) : Type 0 where
  pub phase : t.phase ≡ writing (s.log.buffers ++ s.log.current ∷ [])
  pub emptied : buffered t.log ≡ []
  pub output : t.output ≡ s.output
  pub running : t.running ≡ s.running
  pub next_there : NextThere t.log
  pub spares : Spares (writing (s.log.buffers ++ s.log.current ∷ [])) t.log

swap-Swapped :
    (s : Writer)
    → NextThere s.log
    → s.log.spare1 ≡ some []
    → s.log.spare2 ≡ some []
    → (b : AsyncLogging) × (swap_buffers s.log ≡ some (s.log.buffers ++ s.log.current ∷ [], b))
      × Swapped s (record s { phase = writing (s.log.buffers ++ s.log.current ∷ []); log = b })
swap-Swapped s (inl e) first second = (
  _,
  swap_buffers-there s.log first e,
  record {
    phase = refl;
    emptied = refl;
    output = refl;
    running = refl;
    next_there = inl e;
    spares = (refl, inl (second, omega (arith, length-append s.log.buffers (s.log.current ∷ []))));
  },
)
swap-Swapped s (inr (e, full)) first second = (
  _,
  swap_buffers-gone s.log first e,
  record {
    phase = refl;
    emptied = refl;
    output = refl;
    running = refl;
    next_there = inl second;
    spares = (
      refl,
      inr (
        refl,
        omega (
          arith,
          length-append s.log.buffers (s.log.current ∷ []),
          nonempty-length s.log.buffers full,
        ),
      ),
    );
  },
)

pub swaps :
    (d : Device) (s : Writer)
    → IsSound s
    → s.phase ≡ waiting
    → (t : Writer) × (take_turn d s ≡ some t) × Swapped s t
unfolding step_at
swaps d s h e =
    let spares = subst (λ p. Spares p s.log) e h.spares in
    let (b, swapped, k) = swap-Swapped s h.next_there spares.0 spares.1 in
    (
      record s { phase = writing (s.log.buffers ++ s.log.current ∷ []); log = b },
      ap (λ p. step_at p d s) e
          ∙ ap (λ o. o >>= λ (to_write, c). some (record s { phase = writing to_write; log = c }))
              swapped,
      k,
    )

-- The rest of the round.
pub record Wrote (bs : List Bytes) (s t : Writer) : Type 0 where
  pub phase : t.phase ≡ testing
  pub text : all_text t.output ≡ all_text s.output ++ concat bs
  pub counted : IsUsable t.output
  pub running : t.running ≡ s.running
  pub kept : buffered t.log ≡ buffered s.log
  pub next_there : NextThere t.log
  pub spares : Spares testing t.log

pub writes :
    (d : Device) (bs : List Bytes) (s : Writer)
    → Works d
    → IsSound s
    → s.phase ≡ writing bs
    → (t : Writer) × (take_turn d s ≡ some t) × Wrote bs s t
unfolding step_at
writes d bs s w h e =
    let spares = subst (λ p. Spares p s.log) e h.spares in
    let (g, written, text, counted) = write_files_lem d bs s.output w h.counted in
    let b : AsyncLogging = record s.log {
      file = s.log.file ++ concat bs;
      spare1 = some [];
      spare2 = some [];
    } in
    (
      record s { phase = testing; log = b; output = flush g },
      ap (λ p. step_at p d s) e
          ∙ ap
              (λ o. o >>= λ f. write_buffers bs s.log >>= λ c.
                some (record s { phase = testing; log = c; output = flush f }))
              written
          ∙ ap (λ o. o >>= λ c. some (record s { phase = testing; log = c; output = flush g }))
              (write_buffers_lem bs s.log spares.0 spares.1),
      record {
        phase = refl;
        text = text;
        counted = counted;
        running = refl;
        kept = refl;
        next_there = h.next_there;
        spares = (refl, refl);
      },
    )

-- `stop` changes nothing but `m_running`.
pub stop_lem : (s : Writer) → stop s ≡ record s { running = false }
unfolding stop
stop_lem s = elim (Bool-cases s.running) [
  | inl on ↦ if-true _ (record s { running = false }) s on
  | inr off ↦
      if-false _ (record s { running = false }) s off ∙ ap (λ r. record s { running = r }) off
]

-- The test of `m_running`.
pub tests :
    (d : Device) (s : Writer)
    → s.phase ≡ testing
    → take_turn d s
      ≡ some (
          if s.running
          then record s { phase = waiting }
          else record s { phase = over; output = flush s.output })
unfolding step_at
tests d s e = ap (λ p. step_at p d s) e
