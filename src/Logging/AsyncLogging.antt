-- ===== src/Logging/AsyncLogging.antt =====
-- Logging/asynclogging.{h,cpp}: the buffers between the threads that log and the one that writes.
-- A buffer is its bytes; `none` is a null pointer. The mutex makes `append` and the locked part of
-- `threadFunc` one step each; `file` lists what `LogFile::append` has been given.
pub mod Appending
pub mod NoLoss
use my_moduo.Base.{
  ℕ, zero, suc, ◌+◌, Bool, true, false, List, [], ◌∷◌, ◌++◌, Option, none, some, Bytes, length,
  take, ltb, concat, if◌then◌else◌, ◌>>=◌,
}
use my_moduo.Logging.LogStream.{avail, large_buffer}
use my_moduo.Logging.LogStream

-- The fields of the class, and `newBuffer1` and `newBuffer2` of `threadFunc`.
pub record AsyncLogging : Type 0 where
  pub current : Bytes
  pub next : Option Bytes
  pub buffers : List Bytes
  pub spare1 : Option Bytes
  pub spare2 : Option Bytes
  pub file : Bytes

-- After the constructor, and `threadFunc` up to its loop.
abbrev pub init : AsyncLogging
init = record {
  current = [];
  next = some [];
  buffers = [];
  spare1 = some [];
  spare2 = some [];
  file = [];
}

abbrev pub fresh_current : Option Bytes → Bytes
fresh_current none = []
fresh_current (some b) = b

-- `append`
unfoldable pub append : Bytes → AsyncLogging → AsyncLogging
unfolding LogStream.append
append line a =
    if ltb (length line) (avail large_buffer a.current)
    then record a { current = LogStream.append large_buffer a.current line }
    else record a {
      buffers = a.buffers ++ a.current ∷ [];
      current = LogStream.append large_buffer (fresh_current a.next) line;
      next = none;
    }

-- `pop_back`, which wants an element.
unfoldable pub pop_back : List Bytes → Option (List Bytes)
pop_back [] = none
pop_back (b ∷ []) = some []
pop_back (b ∷ c ∷ bs) = pop_back (c ∷ bs) >>= λ rest. some (b ∷ rest)

-- A spare buffer that has been given away is replaced by the last one written, `reset`.
unfoldable pub refill : Option Bytes → List Bytes → Option (Bytes × List Bytes)
unfolding pop_back
refill (some b) bs = some (b, bs)
refill none bs = pop_back bs >>= λ rest. some ([], rest)

-- The locked part: the buffers to write, and the state behind it. `none` is the use of a null
-- pointer as the current buffer.
unfoldable pub swap_buffers : AsyncLogging → Option (List Bytes × AsyncLogging)
swap_buffers a = elim a.spare1 [
  | none ↦ none
  | some b ↦ some (
    a.buffers ++ a.current ∷ [],
    elim a.next [
      | none ↦ record a { current = b; spare1 = none; buffers = []; next = a.spare2; spare2 = none }
      | some _ ↦ record a { current = b; spare1 = none; buffers = [] }
    ],
  )
]

-- The rest of a round of `threadFunc`: the buffers are written, all but two are dropped, and the
-- spare buffers are replaced. `none` is the use of `back` on an empty vector.
unfoldable pub write_buffers : List Bytes → AsyncLogging → Option AsyncLogging
unfolding refill
write_buffers to_write a = do
  (b1, left1) ← refill a.spare1 (take 2 to_write)
  (b2, left2) ← refill a.spare2 left1
  some (record a { file = a.file ++ concat to_write; spare1 = some b1; spare2 = some b2 })

-- A round of `threadFunc`.
unfoldable pub write_round : AsyncLogging → Option AsyncLogging
unfolding swap_buffers write_buffers
write_round a = swap_buffers a >>= λ (to_write, a'). write_buffers to_write a'
