-- ===== src/Net/Buffer.antt =====
-- Net/buffer.h and Net/buffer.cpp: the byte buffer of a connection.
-- `m_buffer` is a list of bytes. A pointer into it is an offset: `find_crlf` and
-- `retrieve_until_index` count from the read pointer. The `int`s do not overflow below 2 ^ 31, and
-- a comparison of a difference is written with the subtrahend on the other side.
pub mod Valid
pub mod Contents
pub mod Search
pub mod Fresh
use my_moduo.Base.{
  ℕ, ◌+◌, ◌-◌, ◌*◌, Bool, ◌&&◌, List, [], ◌∷◌, Option, none, some, length, take, drop, slice,
  copy_to, resize, replicate, ltb, leb, ◌==◌, if◌then◌else◌,
}

-- `kPrePendIndex`
abbrev pub prepend_index : ℕ
prepend_index = 8

abbrev pub initial_size : ℕ
initial_size = 1024

pub record Buffer : Type 0 where
  pub bytes : List ℕ
  pub read_index : ℕ
  pub write_index : ℕ

-- `Buffer(int init_buffer_size)`
unfoldable pub init : ℕ → Buffer
init n = record { bytes = replicate n 0; read_index = 0; write_index = 0 }

abbrev pub size : Buffer → ℕ
size b = length b.bytes

abbrev pub readable_bytes : Buffer → ℕ
readable_bytes b = b.write_index - b.read_index

abbrev pub writeable_bytes : Buffer → ℕ
writeable_bytes b = size b - b.write_index

abbrev pub prependable_bytes : Buffer → ℕ
prependable_bytes b = b.read_index

-- What lies between the read and the write pointer, `[peek(), curWritePtr())`.
abbrev pub contents : Buffer → List ℕ
contents b = slice b.read_index (readable_bytes b) b.bytes

unfoldable pub retrieve_all : Buffer → Buffer
retrieve_all b = record b { read_index = prepend_index; write_index = prepend_index }

-- `none` is the failure of the `assert`.
unfoldable pub retrieve : Buffer → ℕ → Option Buffer
unfolding retrieve_all
retrieve b len =
    if leb len (readable_bytes b)
    then some (
        if ltb len (readable_bytes b)
        then record b { read_index = b.read_index + len }
        else retrieve_all b)
    else none

-- The first `assert` holds of every offset, and the second is `offset <= readableBytes()`.
unfoldable pub retrieve_until_index : Buffer → ℕ → Option Buffer
unfolding retrieve
retrieve_until_index b offset = if leb offset (readable_bytes b) then retrieve b offset else none

unfoldable pub retrieve_all_as_string : Buffer → List ℕ × Buffer
unfolding retrieve_all
retrieve_all_as_string b = (contents b, retrieve_all b)

-- The test of the branch that moves the two indices to the front.
abbrev pub has_slack : Buffer → ℕ → Bool
has_slack b len = leb (len + prepend_index + b.write_index) (size b + prependable_bytes b)

-- The `std::copy` of the second branch is commented out in the source.
unfoldable pub ensure_writeable_bytes : Buffer → ℕ → Buffer
ensure_writeable_bytes b len =
    if leb (b.write_index + len) (size b)
    then b
    else if has_slack b len
    then record b { read_index = prepend_index; write_index = prepend_index + readable_bytes b }
    else record b { bytes = resize (b.write_index + len) 0 b.bytes }

-- `moveReadIndex`; nothing calls it.
abbrev pub move_read_index : ℕ → Buffer → Buffer
move_read_index len b = record b { read_index = b.read_index + len }

abbrev pub move_write_index : ℕ → Buffer → Buffer
move_write_index len b = record b { write_index = b.write_index + len }

-- `std::copy` to the write pointer, and `moveWriteIndex`.
abbrev pub write_bytes : Buffer → List ℕ → Buffer
write_bytes b xs =
    move_write_index (length xs) (record b { bytes = copy_to b.bytes b.write_index xs })

unfoldable pub append : Buffer → List ℕ → Buffer
unfolding ensure_writeable_bytes
append b xs = write_bytes (ensure_writeable_bytes b (length xs)) xs

-- `std::search` for the two bytes of `kCRLF`: the offset of the first match, or of the end.
unfoldable pub search_crlf : List ℕ → ℕ
search_crlf [] = 0
search_crlf (c ∷ []) = 1
search_crlf (c ∷ d ∷ cs) = if c == b'\r' && d == b'\n' then 0 else 1 + search_crlf (d ∷ cs)

-- `none` is the null pointer.
unfoldable pub find_crlf : Buffer → Option ℕ
unfolding search_crlf
find_crlf b =
    let crlf = search_crlf (contents b) in if crlf == readable_bytes b then none else some crlf

-- `sizeof(extrabuf)`
abbrev pub extra_size : ℕ
extra_size = 64 * 1024

-- What `readv` returns: -1, or the bytes that it has put into the `iovec`s in order.
pub data Readv : Type 0 where
  failed : Readv
  received : List ℕ → Readv

-- How much `readv` can deliver.
abbrev pub readv_capacity : Buffer → ℕ
readv_capacity b =
    if ltb (writeable_bytes b) extra_size then writeable_bytes b + extra_size else writeable_bytes b

-- The bytes that fit stand behind the write pointer, and the others in `extrabuf`.
abbrev pub scatter : Buffer → List ℕ → Buffer
scatter b xs = record b { bytes = copy_to b.bytes b.write_index (take (writeable_bytes b) xs) }

-- `none` is the result -1. `saved_err` is a parameter by value, so nothing of it comes back.
unfoldable pub read_fd : Buffer → Readv → Option ℕ × Buffer
unfolding append
read_fd b failed = (none, b)
read_fd b (received xs) = (
  some (length xs),
  if leb (length xs) (writeable_bytes b)
      then record (scatter b xs) { write_index = b.write_index + length xs }
      else append (record (scatter b xs) { write_index = size (scatter b xs) })
          (drop (writeable_bytes b) xs),
)
