-- ===== src/Logging/AsyncLogging/NoLoss.antt =====
-- No line is lost between `append` and the file.
use my_moduo.Base.{
  ◌≤◌, ◌≡◌, ◌≢◌, refl, sym, ap, ◌∙◌, ◌⊎◌, inl, inr, List, [], ◌∷◌, ◌++◌, append-nil, append_assoc,
  Option, none, some, arith, Bytes, length, length-append, concat, ◌>>=◌,
}
use my_moduo.Logging.AsyncLogging.Appending.{
  NextThere, buffered, accepted, concat-append, append-NextThere, append-spares, buffered-append,
}
use my_moduo.Logging.AsyncLogging.{
  AsyncLogging, init, append, pop_back, refill, swap_buffers, write_buffers, write_round,
}

-- The spare buffers are there and empty; the second buffer is too, unless a full one is waiting.
pub record IsReady (a : AsyncLogging) : Type 0 where
  pub first : a.spare1 ≡ some []
  pub second : a.spare2 ≡ some []
  pub next_there : NextThere a

-- All that is in the file or on its way, in order.
abbrev pub all_of : AsyncLogging → Bytes
all_of a = a.file ++ buffered a

pub write_buffers_lem :
    (to_write : List Bytes) (a : AsyncLogging)
    → a.spare1 ≡ none
    → ((a.spare2 ≡ some []) × (1 ≤ length to_write)) ⊎ ((a.spare2 ≡ none) × (2 ≤ length to_write))
    → write_buffers to_write a
      ≡ some (record a { file = a.file ++ concat to_write; spare1 = some []; spare2 = some [] })
unfolding write_buffers refill pop_back
write_buffers_lem [] a e h = absurd (ground arith)
write_buffers_lem (x ∷ []) a e h = ground arith
write_buffers_lem (x ∷ y ∷ rest) a e h = ground arith

pub all_of-append :
    (line : Bytes) (a : AsyncLogging)
    → NextThere a
    → all_of (append line a) ≡ all_of a ++ accepted line
all_of-append line a h =
    ap (λ xs. xs ++ buffered (append line a)) (append-spares line a).2
    ∙ ap (◌++◌ a.file) (buffered-append line a h)
    ∙ sym (append_assoc a.file (buffered a) (accepted line))

pub append-IsReady : (line : Bytes) (a : AsyncLogging) → IsReady a → IsReady (append line a)
append-IsReady line a h =
    let (first, second, _) = append-spares line a in
    record {
      first = first ∙ h.first;
      second = second ∙ h.second;
      next_there = append-NextThere line a h.next_there;
    }

pub nonempty-length : (bs : List Bytes) → bs ≢ [] → 1 ≤ length bs
nonempty-length [] h = absurd (h refl)
nonempty-length (b ∷ bs) h = omega arith

pub swap_buffers-there :
    (a : AsyncLogging)
    → a.spare1 ≡ some []
    → a.next ≡ some []
    → swap_buffers a
      ≡ some (a.buffers ++ a.current ∷ [], record a { current = []; spare1 = none; buffers = [] })
unfolding swap_buffers
swap_buffers-there a e k = ground arith

pub swap_buffers-gone :
    (a : AsyncLogging)
    → a.spare1 ≡ some []
    → a.next ≡ none
    → swap_buffers a
      ≡ some (
        a.buffers ++ a.current ∷ [],
        record a { current = []; spare1 = none; buffers = []; next = a.spare2; spare2 = none },
      )
unfolding swap_buffers
swap_buffers-gone a e k = ground arith

-- What a round leaves.
abbrev pub after_round : AsyncLogging → AsyncLogging
after_round a = record {
  current = [];
  next = some [];
  buffers = [];
  spare1 = some [];
  spare2 = some [];
  file = a.file ++ concat (a.buffers ++ a.current ∷ []);
}

-- The two halves of a round.
pub round_halves :
    (a : AsyncLogging)
    → IsReady a
    → (b : AsyncLogging) × (swap_buffers a ≡ some (a.buffers ++ a.current ∷ [], b))
      × (write_buffers (a.buffers ++ a.current ∷ []) b ≡ some (after_round a))
round_halves a h = elim h.next_there [
  | inl e ↦ (
    _,
    swap_buffers-there a h.first e,
    write_buffers_lem _ _ refl
          (inl (h.second, omega (arith, length-append a.buffers (a.current ∷ []))))
        ∙ ground (arith, e),
  )
  | inr (e, some_full) ↦ (
    _,
    swap_buffers-gone a h.first e,
    write_buffers_lem _ _ refl (
          inr (
            refl,
            omega (
              arith,
              length-append a.buffers (a.current ∷ []),
              nonempty-length a.buffers some_full,
            ),
          ))
        ∙ ground (arith, h.second),
  )
]

write_round-after_round : (a : AsyncLogging) → IsReady a → write_round a ≡ some (after_round a)
unfolding write_round
write_round-after_round a h =
    let (b, swapped, written) = round_halves a h in
    ap (λ o. o >>= λ (w, c). write_buffers w c) swapped ∙ written

pub after_round-IsReady : (a : AsyncLogging) → IsReady (after_round a)
after_round-IsReady a = record { first = refl; second = refl; next_there = inl refl }

pub all_of-after_round : (a : AsyncLogging) → all_of (after_round a) ≡ all_of a
all_of-after_round a =
    append-nil (a.file ++ concat (a.buffers ++ a.current ∷ []))
    ∙ ap (◌++◌ a.file) (concat-append a.buffers a.current)

-- Lines that are logged, and rounds of the thread that writes, in any order.
pub data Op : Type 0 where
  logs : Bytes → Op
  round : Op

unfoldable pub run : AsyncLogging → List Op → Option AsyncLogging
run a [] = some a
run a (logs line ∷ ops) = run (append line a) ops
run a (round ∷ ops) = write_round a >>= λ b. run b ops

-- The lines of a history that `append` takes.
abbrev pub lines_of : List Op → Bytes
lines_of [] = []
lines_of (logs line ∷ ops) = accepted line ++ lines_of ops
lines_of (round ∷ ops) = lines_of ops

run_lem :
    (ops : List Op) (a : AsyncLogging)
    → IsReady a
    → (b : AsyncLogging) × (run a ops ≡ some b) × (all_of b ≡ all_of a ++ lines_of ops)
unfolding run
run_lem [] a h = (a, refl, sym (append-nil (all_of a)))
run_lem (logs line ∷ ops) a h =
    let (b, e, all) = run_lem ops (append line a) (append-IsReady line a h) in
    (
      b,
      e,
      all
          ∙ ap (λ xs. xs ++ lines_of ops) (all_of-append line a h.next_there)
          ∙ append_assoc (all_of a) (accepted line) (lines_of ops),
    )
run_lem (round ∷ ops) a h =
    let (b, e, all) = run_lem ops (after_round a) (after_round-IsReady a) in
    (
      b,
      ap (λ o. o >>= λ c. run c ops) (write_round-after_round a h) ∙ e,
      all ∙ ap (λ xs. xs ++ lines_of ops) (all_of-after_round a),
    )

pub init-IsReady : IsReady init
init-IsReady = record { first = refl; second = refl; next_there = inl refl }

-- In any order of lines that are logged and rounds of the thread that writes, no null pointer is
-- used and no vector is empty where its last element is taken, and the file, the full buffers and
-- the current buffer hold, in order, every line that is shorter than a buffer.
run-init-all_of :
    (ops : List Op) → (a : AsyncLogging) × (run init ops ≡ some a) × (all_of a ≡ lines_of ops)
run-init-all_of ops = run_lem ops init init-IsReady
