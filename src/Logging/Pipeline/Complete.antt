-- ===== src/Logging/Pipeline/Complete.antt =====
-- Every line that is logged gets to the log files.
use my_moduo.Base.{
  ℕ, ◌≤◌, ◌≡◌, refl, sym, ap, ◌∙◌, List, true, [], ◌∷◌, ◌++◌, append_assoc, append-nil, concat,
  some, Bytes, length, ◌>>=◌,
}
use my_moduo.Logging.AsyncLogging.Appending.{accepted, append-spares}
use my_moduo.Logging.AsyncLogging.NoLoss.{
  Op, logs, round, IsReady, all_of, lines_of, after_round, round_halves, after_round-IsReady,
  all_of-after_round, init-IsReady, all_of-append, append-IsReady,
}
use my_moduo.Logging.AsyncLogging.{AsyncLogging, init, append}
use my_moduo.Logging.LogFile.Written.{NoErrors, all_text, IsCounted, append_writes}
use my_moduo.Logging.LogFile.{LogFile, flush}
use my_moduo.Logging.LogFile
use my_moduo.Logging.Pipeline.{Device, write_files, file_round, run_files}

-- No call of `fwrite` or `fopen` fails, and there are answers enough.
abbrev pub Works : Device → Type 0
Works d =
    (b : Bytes) (f : LogFile)
    → NoErrors (d.answers b f) × (length b ≤ length (d.answers b f)) × (d.opens b f ≡ true)

-- The file is open, and its count is right.
abbrev pub IsUsable : LogFile → Type 0
IsUsable f = (f.is_open ≡ true) × IsCounted f

pub write_files_lem :
    (d : Device) (bs : List Bytes) (f : LogFile)
    → Works d
    → IsUsable f
    → (g : LogFile) × (write_files d bs f ≡ some g)
      × (all_text g ≡ all_text f ++ concat bs)
      × IsUsable g
unfolding write_files
write_files_lem d [] f w c = (f, refl, sym (append-nil (all_text f)), c)
write_files_lem d (b ∷ bs) f w c =
    let (g, e, text, counted, _, still) =
      append_writes (d.answers b f) (d.now b f) (d.later b f) (d.opens b f) b f c.0 c.1 (w b f).0
        (w b f).1 in
    let (h, k, texts, counts) = write_files_lem d bs g w (still (w b f).2, counted) in
    (
      h,
      ap (λ o. o >>= λ x. write_files d bs x) e ∙ k,
      texts ∙ ap (λ xs. xs ++ concat bs) text ∙ append_assoc (all_text f) b (concat bs),
      counts,
    )

file_round_lem :
    (d : Device) (a : AsyncLogging) (f : LogFile)
    → Works d
    → IsReady a
    → IsUsable f
    → all_text f ≡ a.file
    → (g : LogFile) × (file_round d a f ≡ some (after_round a, g))
      × (all_text g ≡ (after_round a).file)
      × IsUsable g
unfolding file_round
file_round_lem d a f w h c same =
    let bs = a.buffers ++ a.current ∷ [] in
    let (b, swapped, written) = round_halves a h in
    let (g, e, texts, counted) = write_files_lem d bs f w c in
    (flush g, rw (swapped, e, written) refl, texts ∙ ap (λ xs. xs ++ concat bs) same, counted)

run_files_lem :
    (d : Device) (ops : List Op) (a : AsyncLogging) (f : LogFile)
    → Works d
    → IsReady a
    → IsUsable f
    → all_text f ≡ a.file
    → (b : AsyncLogging) × (g : LogFile) × (run_files d ops a f ≡ some (b, g))
      × (all_text g ++ (concat b.buffers ++ b.current) ≡ all_of a ++ lines_of ops)
unfolding run_files
run_files_lem d [] a f w h c same = (
  a,
  f,
  refl,
  ap (λ xs. xs ++ (concat a.buffers ++ a.current)) same ∙ sym (append-nil (all_of a)),
)
run_files_lem d (logs line ∷ ops) a f w h c same =
    let (b, g, e, all) =
      run_files_lem d ops (append line a) f w (append-IsReady line a h) c
        (same ∙ sym (append-spares line a).2) in
    (
      b,
      g,
      e,
      all
          ∙ ap (λ xs. xs ++ lines_of ops) (all_of-append line a h.next_there)
          ∙ append_assoc (all_of a) (accepted line) (lines_of ops),
    )
run_files_lem d (round ∷ ops) a f w h c same =
    let (g, e, text, counted) = file_round_lem d a f w h c same in
    let (b, k, r, all) =
      run_files_lem d ops (after_round a) g w (after_round-IsReady a) counted text in
    (
      b,
      k,
      ap (λ o. o >>= λ (x, y). run_files d ops x y) e ∙ r,
      all ∙ ap (λ xs. xs ++ lines_of ops) (all_of-after_round a),
    )

-- In any order of lines that are logged and rounds of the thread that writes, if every call of
-- `fopen` opens a file, no call of `fwrite` fails and there are answers enough, no null pointer is
-- used, every loop ends, and the log files, the closed ones and the current one, and then the
-- buffers hold, in order, every line that is shorter than a buffer, wherever the files were rolled
-- in between.
pub logging_complete :
    (d : Device) (ops : List Op) (roll_size flush_interval : ℕ)
    → Works d
    → (b : AsyncLogging) × (g : LogFile) × (run_files d ops init
          (LogFile.init true roll_size flush_interval)
        ≡ some (b, g))
      × (all_text g ++ (concat b.buffers ++ b.current) ≡ lines_of ops)
logging_complete d ops roll_size flush_interval w =
    run_files_lem d ops init (LogFile.init true roll_size flush_interval) w init-IsReady
      (refl, refl) refl
