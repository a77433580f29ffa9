-- ===== src/Program/Logged.antt =====
-- What the program logs gets to the log files.
use my_moduo.Base.{
  ℕ, ◌*◌, ◌≡◌, refl, sym, ap, ◌∙◌, List, [], ◌∷◌, ◌++◌, Option, none, some, arith, Bytes, length,
  concat, lt→ltb, if-true, if-false, if◌then◌else◌, Bool, Bool-cases, inl, inr, ◌>>=◌,
}
use mathlib.Core.Option.{some-injective}
use mathlib.Core.Option
use my_moduo.Logging.AsyncLogging.Appending.{accepted}
use my_moduo.Logging.AsyncLogging.NoLoss.{Op, logs, round, lines_of}
use my_moduo.Logging.AsyncLogging.{AsyncLogging}
use my_moduo.Logging.AsyncLogging
use my_moduo.Logging.LogFile.Written.{all_text}
use my_moduo.Logging.LogFile.{LogFile}
use my_moduo.Logging.LogStream.{large_buffer}
use my_moduo.Logging.Logger.Lines.{line_text, Fits, log_line_lem, length-line_text}
use my_moduo.Logging.Logger.Output.{Entry, line_of, put_out, log}
use my_moduo.Logging.Logger.{info, is_logged, source_file}
use my_moduo.Logging.Pipeline.Complete.{Works, logging_complete}
use my_moduo.Logging.Pipeline.{Device, file_round, run_files}
use my_moduo.Program.Log.{
  World, async_output_func, main_globals, LogEvent, says, writes, run_log, start_world,
}
use my_moduo.Timer.Timestamp.Printing.{Tm, to_default_log_string}

-- The line of a use of a macro.
abbrev pub entry_text : (ℕ → Tm) → Entry → Bytes
entry_text gmtime e =
    line_text (to_default_log_string gmtime e.now) e.tid e.now e.level e.text
      (source_file e.filename) e.line

-- The lines of the levels from INFO on, in order.
abbrev pub said : (ℕ → Tm) → List LogEvent → Bytes
said gmtime [] = []
said gmtime (says e ∷ events) =
    (if is_logged info e.level then entry_text gmtime e else []) ++ said gmtime events
said gmtime (writes ∷ events) = said gmtime events

abbrev pub AllFit : List LogEvent → Type 0
AllFit [] = Unit {0}
AllFit (says e ∷ events) = Fits e.tid e.text (source_file e.filename) e.line × AllFit events
AllFit (writes ∷ events) = AllFit events

-- What the thread and its buffers see of the events.
abbrev ops_of : (ℕ → Tm) → List LogEvent → List Op
ops_of gmtime [] = []
ops_of gmtime (says e ∷ events) =
    if is_logged info e.level
    then logs (line_of gmtime e).0 ∷ ops_of gmtime events
    else ops_of gmtime events
ops_of gmtime (writes ∷ events) = round ∷ ops_of gmtime events

-- A line that fits goes into the buffers whole.
accepted-line_of :
    (gmtime : ℕ → Tm) (e : Entry)
    → Fits e.tid e.text (source_file e.filename) e.line
    → accepted (line_of gmtime e).0 ≡ entry_text gmtime e
accepted-line_of gmtime e fits =
    let text = entry_text gmtime e in
    let short =
      length-line_text gmtime e.tid e.now e.level e.text (source_file e.filename) e.line fits in
    ap accepted (log_line_lem gmtime e.tid e.now e.level e.text e.filename e.line fits)
    ∙ if-true _ text [] (lt→ltb (length text) large_buffer (omega (arith, short)))

lines_of-ops_of :
    (gmtime : ℕ → Tm) (events : List LogEvent)
    → AllFit events
    → lines_of (ops_of gmtime events) ≡ said gmtime events
lines_of-ops_of gmtime [] h = refl
lines_of-ops_of gmtime (says e ∷ events) (fits, h) =
    let rest = lines_of-ops_of gmtime events h in
    elim (Bool-cases (is_logged info e.level)) [
      | inl passes ↦ rw passes (
          ap (λ l. l ++ lines_of (ops_of gmtime events)) (accepted-line_of gmtime e fits)
          ∙ ap (◌++◌ (entry_text gmtime e)) rest)
      | inr skips ↦ rw skips rest
    ]
lines_of-ops_of gmtime (writes ∷ events) h = lines_of-ops_of gmtime events h

-- The part of the world that the thread and its buffers are.
abbrev core : World → AsyncLogging × LogFile
core w = (w.asynclog, w.log_file)

core-put_out :
    (line : Bytes × Bool) (w : World)
    → core (put_out main_globals line w) ≡ (AsyncLogging.append line.0 w.asynclog, w.log_file)
unfolding put_out main_globals async_output_func
core-put_out (line, flushes) w = elim (Bool-cases flushes) [
  | inl passes ↦ rw passes refl
  | inr skips ↦ rw skips refl
]

log-passes :
    (gmtime : ℕ → Tm) (e : Entry) (w : World)
    → is_logged info e.level ≡ Bool.true
    → core (log main_globals gmtime e w)
      ≡ (AsyncLogging.append (line_of gmtime e).0 w.asynclog, w.log_file)
unfolding log main_globals
log-passes gmtime e w h =
    ap core (if-true _ (put_out main_globals (line_of gmtime e) w) w h)
    ∙ core-put_out (line_of gmtime e) w

log-skips :
    (gmtime : ℕ → Tm) (e : Entry) (w : World)
    → is_logged info e.level ≡ Bool.false
    → core (log main_globals gmtime e w) ≡ core w
unfolding log main_globals
log-skips gmtime e w h = ap core (if-false _ (put_out main_globals (line_of gmtime e) w) w h)

map-bind :
    (o : Option (AsyncLogging × LogFile)) (k : AsyncLogging → LogFile → Option World)
    (m : AsyncLogging → LogFile → Option (AsyncLogging × LogFile))
    → ((a : AsyncLogging) (f : LogFile) → Option.map core (k a f) ≡ m a f)
    → Option.map core (o >>= λ (a, f). k a f) ≡ (o >>= λ (a, f). m a f)
map-bind none k m h = refl
map-bind (some (a, f)) k m h = h a f

run_log-run_files :
    (d : Device) (gmtime : ℕ → Tm) (events : List LogEvent) (w : World)
    → Option.map core (run_log d main_globals gmtime events w)
      ≡ run_files d (ops_of gmtime events) w.asynclog w.log_file
unfolding run_log run_files log
run_log-run_files d gmtime [] w = refl
run_log-run_files d gmtime (says e ∷ events) w =
    let rest = run_log-run_files d gmtime events (log main_globals gmtime e w) in
    elim (Bool-cases (is_logged info e.level)) [
      | inl passes ↦
          rest
          ∙ ap (λ c. run_files d (ops_of gmtime events) c.0 c.1) (log-passes gmtime e w passes)
          ∙ ap (λ ops. run_files d ops w.asynclog w.log_file) (sym (if-true _ _ _ passes))
      | inr skips ↦
          rest
          ∙ ap (λ c. run_files d (ops_of gmtime events) c.0 c.1) (log-skips gmtime e w skips)
          ∙ ap (λ ops. run_files d ops w.asynclog w.log_file) (sym (if-false _ _ _ skips))
    ]
run_log-run_files d gmtime (writes ∷ events) w =
    map-bind (file_round d w.asynclog w.log_file) _ _
      (λ a f. run_log-run_files d gmtime events (record w { asynclog = a; log_file = f }))

some-core :
    (o : Option World) (b : AsyncLogging) (g : LogFile)
    → Option.map core o ≡ some (b, g)
    → (v : World) × (o ≡ some v) × (core v ≡ (b, g))
some-core none b g h = cc
some-core (some v) b g h = (v, refl, some-injective _ _ h)

-- With the globals that `main` sets, and in any order of lines that are logged and rounds of the
-- thread that writes, if every line leaves 217 bytes of its buffer free, every call of `fopen`
-- opens a file, no call of `fwrite` fails and there are answers enough, then no null pointer is
-- used, every loop ends, and the log files and then the buffers hold, in order, the lines of the
-- levels from INFO on, each with its date, microseconds, thread, level, text, file and number, and
-- the numbers 58 and 10 for the colon and the newline.
pub lines_reach_files :
    (d : Device) (gmtime : ℕ → Tm) (events : List LogEvent)
    → Works d
    → AllFit events
    → (w : World) × (run_log d main_globals gmtime events start_world ≡ some w)
      × (all_text w.log_file ++ (concat w.asynclog.buffers ++ w.asynclog.current)
          ≡ said gmtime events)
lines_reach_files d gmtime events works fit =
    let (b, g, ran, all) = logging_complete d (ops_of gmtime events) (1024 * 1024 * 32) 3 works in
    let (w, e, same) =
      some-core (run_log d main_globals gmtime events start_world) b g
        (run_log-run_files d gmtime events start_world ∙ ran) in
    (
      w,
      e,
      ap (λ c. all_text c.1 ++ (concat c.0.buffers ++ c.0.current)) same
          ∙ all
          ∙ lines_of-ops_of gmtime events fit,
    )
