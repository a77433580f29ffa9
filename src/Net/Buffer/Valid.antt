-- ===== src/Net/Buffer/Valid.antt =====
-- The representation invariant of `Buffer`.
use my_moduo.Base.{
  ℕ, ◌+◌, ◌≤◌, ◌≡◌, inl, inr, List, [], ◌∷◌, Option, some, arith, tests, leb, Bool-cases, ◌>>=◌,
  bind-eq-some, length, take, drop, length-copy_to, length-resize, length-take, length-replicate,
}
use my_moduo.Net.Buffer.{
  Buffer, Readv, failed, received, init, size, prepend_index, writeable_bytes, retrieve_all,
  retrieve, retrieve_until_index, retrieve_all_as_string, ensure_writeable_bytes, append, read_fd,
  write_bytes, scatter, readable_bytes, move_read_index, move_write_index,
}

pub record IsValid (b : Buffer) : Type 0 where
  pub header : prepend_index ≤ size b
  pub ordered : b.read_index ≤ b.write_index
  pub within : b.write_index ≤ size b

pub init-IsValid : (n : ℕ) → prepend_index ≤ n → IsValid (init n)
unfolding init
init-IsValid n h = omega (arith, length-replicate {A = ℕ} n 0)

pub retrieve_all-IsValid : {b : Buffer} → IsValid b → IsValid (retrieve_all b)
unfolding retrieve_all
retrieve_all-IsValid v = ground arith

pub retrieve-IsValid : {b c : Buffer} (len : ℕ) → IsValid b → retrieve b len ≡ some c → IsValid c
unfolding retrieve
retrieve-IsValid len v e = ground arith

retrieve_until_index-IsValid :
    {b c : Buffer} (offset : ℕ) → IsValid b → retrieve_until_index b offset ≡ some c → IsValid c
unfolding retrieve_until_index
retrieve_until_index-IsValid offset v e = ground arith

pub ensure_writeable_bytes-IsValid :
    {b : Buffer} (len : ℕ) → IsValid b → IsValid (ensure_writeable_bytes b len)
unfolding ensure_writeable_bytes
ensure_writeable_bytes-IsValid {b} len v =
    ground (arith, length-resize (b.write_index + len) 0 b.bytes)

-- The room that `append` writes into is there.
ensure_writeable_bytes_room :
    {b : Buffer} (len : ℕ)
    → IsValid b
    → let c = ensure_writeable_bytes b len in c.write_index + len ≤ size c
unfolding ensure_writeable_bytes
ensure_writeable_bytes_room {b} len v =
    ground (arith, length-resize (b.write_index + len) 0 b.bytes)

pub write_bytes-IsValid :
    (b : Buffer) (xs : List ℕ)
    → IsValid b
    → b.write_index + length xs ≤ size b
    → IsValid (write_bytes b xs)
write_bytes-IsValid b xs v h = omega (arith, length-copy_to b.bytes b.write_index xs h)

pub append-IsValid : {b : Buffer} (xs : List ℕ) → IsValid b → IsValid (append b xs)
unfolding append
append-IsValid {b} xs v =
    write_bytes-IsValid _ xs (ensure_writeable_bytes-IsValid (length xs) v)
      (ensure_writeable_bytes_room (length xs) v)

-- `moveReadIndex` checks nothing: it keeps the invariant as far as there is something to read.
move_read_index-IsValid :
    {b : Buffer} (len : ℕ) → IsValid b → len ≤ readable_bytes b → IsValid (move_read_index len b)
move_read_index-IsValid len v h = omega arith

-- `moveWriteIndex`, as far as there is room.
move_write_index-IsValid :
    {b : Buffer} (len : ℕ) → IsValid b → len ≤ writeable_bytes b → IsValid (move_write_index len b)
move_write_index-IsValid len v h = omega arith

-- `readv` writes no further than the end of the storage.
pub size-scatter : {b : Buffer} (xs : List ℕ) → IsValid b → size (scatter b xs) ≡ size b
size-scatter {b} xs v =
    length-copy_to b.bytes b.write_index (take (writeable_bytes b) xs)
      (omega (arith, length-take (writeable_bytes b) xs))

pub read_fd-IsValid : {b : Buffer} (r : Readv) → IsValid b → IsValid (read_fd b r).1
unfolding read_fd
read_fd-IsValid failed v = v
read_fd-IsValid {b} (received xs) v = elim (Bool-cases (leb (length xs) (writeable_bytes b))) [
  | inl fits ↦ rw fits (omega (tests, size-scatter xs v))
  | inr over ↦
      rw over (append-IsValid (drop (writeable_bytes b) xs) (omega (arith, size-scatter xs v)))
]

-- The calls that change a buffer, but for `moveReadIndex` and `moveWriteIndex`, which check nothing.
pub data Op : Type 0 where
  appends : List ℕ → Op
  retrieves retrieves_until : ℕ → Op
  ensures : ℕ → Op
  retrieves_all retrieves_all_as_string : Op
  reads : Readv → Op

unfoldable pub step : Buffer → Op → Option Buffer
step b (appends xs) = some (append b xs)
step b (retrieves len) = retrieve b len
step b (retrieves_until offset) = retrieve_until_index b offset
step b (ensures len) = some (ensure_writeable_bytes b len)
step b retrieves_all = some (retrieve_all b)
step b retrieves_all_as_string = some (retrieve_all_as_string b).1
step b (reads r) = some (read_fd b r).1

unfoldable pub run : Buffer → List Op → Option Buffer
unfolding step
run b [] = some b
run b (op ∷ ops) = do c ← step b op; run c ops

step-IsValid : {b c : Buffer} (op : Op) → IsValid b → step b op ≡ some c → IsValid c
unfolding step retrieve_all_as_string
step-IsValid (appends xs) v e = ground (arith, append-IsValid xs v)
step-IsValid (retrieves len) v e = retrieve-IsValid len v e
step-IsValid {b} (retrieves_until n) v e = retrieve_until_index-IsValid n v e
step-IsValid (ensures len) v e = ground (arith, ensure_writeable_bytes-IsValid len v)
step-IsValid retrieves_all v e = ground (arith, retrieve_all-IsValid v)
step-IsValid retrieves_all_as_string v e = ground (arith, retrieve_all-IsValid v)
step-IsValid (reads r) v e = ground (arith, read_fd-IsValid r v)

run-IsValid : (ops : List Op) {b c : Buffer} → IsValid b → run b ops ≡ some c → IsValid c
unfolding run
run-IsValid [] v e = ground arith
run-IsValid (op ∷ ops) {b} v e =
    let (c, s, later) = bind-eq-some (step b op) (λ c. run c ops) e in
    run-IsValid ops (step-IsValid op v s) later

-- A buffer made with room for the header keeps `0 <= read <= write <= size` through every sequence
-- of calls of which no `assert` fails, `moveReadIndex` and `moveWriteIndex` apart, which check
-- nothing.
pub run-init-IsValid :
    (n : ℕ) (ops : List Op) {b : Buffer} → prepend_index ≤ n → run (init n) ops ≡ some b → IsValid b
run-init-IsValid n ops h e = run-IsValid ops (init-IsValid n h) e
