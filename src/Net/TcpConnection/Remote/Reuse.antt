-- ===== src/Net/TcpConnection/Remote/Reuse.antt =====
-- What becomes of the message of `send(Buffer *)` while its functor waits.
use my_moduo.Base.{
  ℕ, ◌≡◌, ◌+◌, ◌≤◌, refl, sym, ap, ◌∙◌, [], ◌∷◌, ◌++◌, arith, Bytes, length, take, slice,
  slice-copy_to, take-slice, copy_to, if-true, le→leb, true, ◌==◌, eq→==,
}
use my_moduo.Net.Buffer.{
  Buffer, prepend_index, size, readable_bytes, contents, retrieve_all, append,
  ensure_writeable_bytes,
}
use my_moduo.Net.TcpConnection.Remote.{
  Shared, sends_in_loop, call_with, buffer_message, message_bytes, send_remote, send_buffer_remote,
  store,
}
use my_moduo.Net.TcpConnection.{connected}

send_buffer_remote-send_remote :
    (a : ℕ) (b : Buffer) (s : Shared)
    → (send_buffer_remote a b s).0 ≡ send_remote (buffer_message a b) s
unfolding send_buffer_remote send_remote
send_buffer_remote-send_remote a b s = ground arith

send_buffer_remote_connected :
    (a : ℕ) (b : Buffer) (s : Shared)
    → s.connection.state ≡ connected
    → send_buffer_remote a b s ≡ (call_with (sends_in_loop (buffer_message a b)) s, retrieve_all b)
unfolding send_buffer_remote
send_buffer_remote_connected a b s k = rw k refl

-- What is written behind the header.
slice-copy_to_front :
    (n : ℕ) (bs xs : Bytes)
    → n ≤ length xs
    → prepend_index + length xs ≤ length bs
    → slice prepend_index n (copy_to bs prepend_index xs) ≡ take n xs
slice-copy_to_front n bs xs h k =
    sym (take-slice n prepend_index (length xs) (copy_to bs prepend_index xs) h)
    ∙ ap (take n) (
        ap (λ m. slice prepend_index m (copy_to bs prepend_index xs)) (omega arith)
        ∙ slice-copy_to prepend_index 0 bs xs (omega arith))

append-retrieve_all :
    (b : Buffer) (xs : Bytes)
    → prepend_index + length xs ≤ size b
    → (append (retrieve_all b) xs).bytes ≡ copy_to b.bytes prepend_index xs
unfolding append retrieve_all ensure_writeable_bytes
append-retrieve_all b xs k =
    ap (λ (c : Buffer). copy_to c.bytes c.write_index xs)
      (if-true _ (retrieve_all b) _ (le→leb _ _ k))

-- If another thread sends a buffer whose read pointer stands right behind the header on a connected
-- connection, the functor holds a pointer at which it finds the bytes that were readable. If the
-- thread then appends as many bytes or more, which fit without a new storage, before the functor
-- runs, it finds the first of these bytes in their place.
pub send_buffer_remote_reuse :
    (a : ℕ) (b : Buffer) (xs : Bytes) (s : Shared)
    → s.connection.state ≡ connected
    → b.read_index ≡ prepend_index
    → readable_bytes b ≤ length xs
    → prepend_index + length xs ≤ size b
    → let (t, left) = send_buffer_remote a b s in
      (t.callers ≡ s.callers ++ sends_in_loop (buffer_message a b) ∷ [])
      × (message_bytes (store a b.bytes s.memory) (buffer_message a b) ≡ contents b)
      × (message_bytes (store a (append left xs).bytes s.memory) (buffer_message a b)
          ≡ take (readable_bytes b) xs)
send_buffer_remote_reuse a b xs s k r h room =
    let sent = send_buffer_remote_connected a b s k in
    let here : (a == a) ≡ true = eq→== a a refl in
    let n = readable_bytes b in
    (
      ap (λ (p : Shared × Buffer). p.0.callers) sent,
      ap (slice b.read_index n) (if-true _ _ _ here),
      ap (slice b.read_index n) (if-true _ _ _ here)
          ∙ ap (λ (p : Shared × Buffer). slice b.read_index n (append p.1 xs).bytes) sent
          ∙ ap (slice b.read_index n) (append-retrieve_all b xs room)
          ∙ ap (λ i. slice i n (copy_to b.bytes prepend_index xs)) r
          ∙ slice-copy_to_front n b.bytes xs h room,
    )
