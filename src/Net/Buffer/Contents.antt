-- ===== src/Net/Buffer/Contents.antt =====
-- What each operation does to the bytes between the read and the write pointer.
use my_moduo.Base.{
  ℕ, ◌+◌, ◌≤◌, ◌<◌, ◌≡◌, refl, sym, ap, ◌∙◌, inl, inr, Bool, true, not, ◌&&◌, List, [], ◌++◌,
  append_assoc, Option, none, some, arith, tests, leb, ltb, le→leb, lt→leb, leb→le, leb→lt,
  Bool-cases, if◌then◌else◌, length, take, drop, slice, copy_to, length-take, length-slice,
  slice-copy_to, slice-resize, drop-slice_sub, drop-all, take-all, take-append-drop,
}
use my_moduo.Net.Buffer.Valid.{
  IsValid, ensure_writeable_bytes-IsValid, size-scatter, write_bytes-IsValid,
}
use my_moduo.Net.Buffer.{
  Buffer, Readv, failed, received, size, contents, prepend_index, readable_bytes, writeable_bytes,
  has_slack, retrieve_all, retrieve, ensure_writeable_bytes, append, read_fd, write_bytes, scatter,
}

pub length-contents : {b : Buffer} → IsValid b → length (contents b) ≡ readable_bytes b
length-contents {b} v = length-slice b.read_index (readable_bytes b) b.bytes (omega arith)

-- `retrieveAll` leaves nothing to read.
pub contents-retrieve_all : (b : Buffer) → contents (retrieve_all b) ≡ []
unfolding retrieve_all
contents-retrieve_all b = refl

-- If `len` bytes of a valid buffer are readable, `retrieve(len)` passes its `assert`, takes off that
-- many and leaves a valid buffer.
pub contents-retrieve :
    {b : Buffer} (len : ℕ)
    → IsValid b
    → len ≤ readable_bytes b
    → (c : Buffer) × (retrieve b len ≡ some c) × (contents c ≡ drop len (contents b)) × IsValid c
unfolding retrieve
contents-retrieve {b} len v h = elim (Bool-cases (ltb len (readable_bytes b))) [
  | inl part ↦ (
    record b { read_index = b.read_index + len },
    rw (le→leb _ _ h, part),
    ap (λ n. slice (b.read_index + len) n b.bytes) (omega arith)
        ∙ sym (drop-slice_sub len b.read_index (readable_bytes b) b.bytes h),
    omega (tests, part),
  )
  | inr whole ↦ (
    retrieve_all b,
    rw (le→leb _ _ h, whole),
    sym (drop-all len (contents b) (omega (tests, length-contents v))),
    omega arith,
  )
]

-- Whether `ensureWriteableBytes(len)` moves the two indices to the front.
abbrev pub compacts : Buffer → ℕ → Bool
compacts b len = not (leb (b.write_index + len) (size b)) && has_slack b len

-- What is readable after `ensureWriteableBytes(len)`.
abbrev pub kept : Buffer → ℕ → List ℕ
kept b len = if compacts b len then slice prepend_index (readable_bytes b) b.bytes else contents b

contents-ensure_writeable_bytes :
    {b : Buffer} (len : ℕ) → IsValid b → contents (ensure_writeable_bytes b len) ≡ kept b len
unfolding ensure_writeable_bytes
contents-ensure_writeable_bytes {b} len v = elim (Bool-cases (leb (b.write_index + len) (size b))) [
  | inl fits ↦ rw fits
  | inr over ↦ elim (Bool-cases (has_slack b len)) [
    | inl slack ↦ rw (over, slack) (ap (λ n. slice prepend_index n b.bytes) (omega arith))
    | inr full ↦
        rw (over, full)
          (slice-resize b.read_index (readable_bytes b) _ 0 b.bytes (omega arith)
            (omega (tests, over)))
  ]
]

contents-write_bytes :
    (b : Buffer) (xs : List ℕ) → IsValid b → contents (write_bytes b xs) ≡ contents b ++ xs
contents-write_bytes b xs v =
    ap (λ m. slice b.read_index m (copy_to b.bytes b.write_index xs)) (omega arith)
    ∙ ap (λ k. slice b.read_index (readable_bytes b + length xs) (copy_to b.bytes k xs))
        (omega arith)
    ∙ slice-copy_to b.read_index (readable_bytes b) b.bytes xs (omega arith)

-- On every branch of `ensureWriteableBytes`, what is readable after `append` to a valid buffer is
-- what was readable before or, where the indices are moved, as many bytes from `kPrePendIndex` on,
-- and then the bytes appended.
pub contents-append :
    {b : Buffer} (xs : List ℕ) → IsValid b → contents (append b xs) ≡ kept b (length xs) ++ xs
unfolding append
contents-append {b} xs v =
    contents-write_bytes _ xs (ensure_writeable_bytes-IsValid (length xs) v)
    ∙ ap (λ ys. ys ++ xs) (contents-ensure_writeable_bytes (length xs) v)

-- The branch that moves the indices is taken only if more than the header has been read.
compacts_read : (b : Buffer) (len : ℕ) → compacts b len ≡ true → prepend_index < b.read_index
compacts_read b len h = ground arith

-- While the read index of a valid buffer is at most `kPrePendIndex`, `append` puts its bytes behind
-- all that was readable.
pub append_intact :
    {b : Buffer} (xs : List ℕ)
    → IsValid b
    → b.read_index ≤ prepend_index
    → contents (append b xs) ≡ contents b ++ xs
append_intact {b} xs v h = elim (Bool-cases (compacts b (length xs))) [
  | inl moved ↦ absurd (omega (arith, compacts_read b (length xs) moved))
  | inr still ↦ contents-append xs v ∙ ap (λ ys. ys ++ xs) (rw still)
]

-- The bytes that `readv` puts into the storage, with the write index behind them.
scatter-write_bytes :
    (b : Buffer) (xs : List ℕ) (n : ℕ)
    → n ≡ b.write_index + length (take (writeable_bytes b) xs)
    → record (scatter b xs) { write_index = n } ≡ write_bytes b (take (writeable_bytes b) xs)
scatter-write_bytes b xs n e = ap (λ m. record (scatter b xs) { write_index = m }) e

read_fd_over :
    {b : Buffer} (xs : List ℕ)
    → IsValid b
    → writeable_bytes b < length xs
    → (read_fd b (received xs)).1
      ≡ append (write_bytes b (take (writeable_bytes b) xs)) (drop (writeable_bytes b) xs)
unfolding read_fd
read_fd_over {b} xs v h = rw (lt→leb _ _ h) (
    ap (λ c. append c (drop (writeable_bytes b) xs))
      (scatter-write_bytes b xs _
        (omega (arith, size-scatter xs v, length-take (writeable_bytes b) xs))))

read_fd_fits :
    (b : Buffer) (xs : List ℕ)
    → length xs ≤ writeable_bytes b
    → (read_fd b (received xs)).1 ≡ write_bytes b xs
unfolding read_fd
read_fd_fits b xs h = rw (le→leb _ _ h) (
    scatter-write_bytes b xs _ (omega (arith, length-take (writeable_bytes b) xs))
    ∙ ap (write_bytes b) (take-all (writeable_bytes b) xs h))

abbrev pub Delivers : Buffer → Readv → Option ℕ × Buffer → Type 0
Delivers b failed (n, c) = (n ≡ none) × (c ≡ b)
Delivers b (received xs) (n, c) = (n ≡ some (length xs)) × (contents c ≡ contents b ++ xs)

-- While the read index of a valid buffer is at most `kPrePendIndex`, `readFd` returns the number of
-- bytes received and puts them behind all that was readable, in the storage or by way of
-- `extrabuf`; an error changes nothing.
pub read_fd_intact :
    {b : Buffer} (r : Readv) → IsValid b → b.read_index ≤ prepend_index → Delivers b r (read_fd b r)
read_fd_intact failed v h = (unfold read_fd in refl, unfold read_fd in refl)
read_fd_intact {b} (received xs) v h = (
  unfold read_fd in refl,
  elim (Bool-cases (leb (length xs) w)) [
    | inl fits ↦ ap contents (read_fd_fits b xs (leb→le _ _ fits)) ∙ contents-write_bytes b xs v
    | inr over ↦
        ap contents (read_fd_over xs v (leb→lt _ _ over))
        ∙ append_intact (drop w xs) (write_bytes-IsValid b (take w xs) v room) h
        ∙ ap (λ ys. ys ++ drop w xs) (contents-write_bytes b (take w xs) v)
        ∙ append_assoc (contents b) (take w xs) (drop w xs)
        ∙ ap (◌++◌ (contents b)) (take-append-drop w xs)
  ],
)
  where
    w : ℕ
    w = writeable_bytes b

    room : b.write_index + length (take w xs) ≤ size b
    room = omega (arith, length-take w xs)
