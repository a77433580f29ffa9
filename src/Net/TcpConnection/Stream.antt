-- ===== src/Net/TcpConnection/Stream.antt =====
-- What each operation adds to the bytes that go to the socket.
use my_moduo.Base.{
  ℕ, zero, suc, ◌≤◌, ◌≡◌, sym, ap, ◌∙◌, inl, inr, not, ◌&&◌, [], ◌∷◌, ◌++◌, append_assoc,
  append-nil, true, some, arith, leb, Bytes, length, take, drop, take-append-drop, slice, ◌==◌,
  if-true, if-false, bind-eq-some, Bool-cases,
}
use my_moduo.Net.Buffer.Contents.{contents-append, contents-retrieve, kept, compacts}
use my_moduo.Net.Buffer.Valid.{IsValid}
use my_moduo.Net.Buffer.{Buffer, prepend_index, readable_bytes, contents, append, retrieve}
use my_moduo.Net.TcpConnection.Closing.{send_connected, send_in_loop_live, connected_live}
use my_moduo.Net.TcpConnection.Coherent.{IsCoherent}
use my_moduo.Net.TcpConnection.{
  connected, TcpConnection, Write, took, broken_pipe, connection_reset, is_live, handle_write,
  when_empty, after_write, shut_down_in_loop, keep_rest, sent_first, send_in_loop, send,
}

-- What `write` has taken, and then what is left in the output buffer.
abbrev pub stream : TcpConnection → Bytes
stream c = c.wrote ++ contents c.output_buffer

-- The answers after which `sendInLoop` goes on.
abbrev pub IsHealthy : Write → Type 0
IsHealthy broken_pipe = ⊥
IsHealthy connection_reset = ⊥
IsHealthy _ = Unit {0}

-- `append` finds room for the message without moving what is readable.
abbrev pub KeepsOutput : TcpConnection → Bytes → Type 0
KeepsOutput c msg = kept c.output_buffer (length msg) ≡ contents c.output_buffer

pub some-stream : (c : TcpConnection) {d : TcpConnection} → some c ≡ some d → stream d ≡ stream c
some-stream c {d} e = let same : c ≡ d = cc in ap stream (sym same)

stream-append :
    (c : TcpConnection) (rest : Bytes)
    → IsValid c.output_buffer
    → KeepsOutput c rest
    → c.wrote ++ contents (append c.output_buffer rest) ≡ stream c ++ rest
stream-append c rest v k =
    ap (◌++◌ c.wrote) (contents-append rest v ∙ ap (λ xs. xs ++ rest) k)
    ∙ sym (append_assoc c.wrote (contents c.output_buffer) rest)

stream-keep_rest :
    (rest : Bytes) (c : TcpConnection)
    → IsValid c.output_buffer
    → KeepsOutput c rest
    → stream (keep_rest rest c) ≡ stream c ++ rest
unfolding keep_rest
stream-keep_rest [] c v k = sym (append-nil (stream c))
stream-keep_rest (x ∷ rest) c v k = elim (Bool-cases c.events.writing) [
  | inl on ↦ ap stream (if-true _ _ _ on) ∙ stream-append c (x ∷ rest) v k
  | inr off ↦ ap stream (if-false _ _ _ off) ∙ stream-append c (x ∷ rest) v k
]

pub contents-empty : (b : Buffer) → readable_bytes b ≡ 0 → contents b ≡ []
contents-empty b e = ap (λ n. slice b.read_index n b.bytes) e

-- An empty buffer keeps what it has.
KeepsOutput-empty :
    (c : TcpConnection) (msg : Bytes) → readable_bytes c.output_buffer ≡ 0 → KeepsOutput c msg
KeepsOutput-empty c msg e = elim (Bool-cases (compacts c.output_buffer (length msg))) [
  | inl moved ↦
      if-true _ _ _ moved
      ∙ ap (λ n. slice prepend_index n c.output_buffer.bytes) e
      ∙ sym (contents-empty c.output_buffer e)
  | inr still ↦ if-false _ _ _ still
]

stream-when_empty : (c : TcpConnection) → stream (when_empty c) ≡ stream c
unfolding when_empty shut_down_in_loop
stream-when_empty c = ground arith

retrieve-le : (b : Buffer) (n : ℕ) {d : Buffer} → retrieve b n ≡ some d → n ≤ readable_bytes b
unfolding retrieve
retrieve-le b n e = ground arith

contents-retrieved :
    (b : Buffer) (n : ℕ) {d : Buffer}
    → IsValid b
    → retrieve b n ≡ some d
    → take n (contents b) ++ contents d ≡ contents b
contents-retrieved b n {d} v e =
    let (d', r, left, _) = contents-retrieve {b = b} n v (retrieve-le b n e) in
    let same : d ≡ d' = cc in
    ap (λ x. take n (contents b) ++ contents x) same
    ∙ ap (◌++◌ (take n (contents b))) left
    ∙ take-append-drop n (contents b)

pub stream-handle_write :
    (w : Write) (c : TcpConnection) {d : TcpConnection}
    → IsCoherent c
    → handle_write w c ≡ some d
    → stream d ≡ stream c
unfolding handle_write
stream-handle_write (took (suc n)) c {d} h e = elim (Bool-cases c.events.writing) [
  | inl on ↦
      let (b, r, t) =
        bind-eq-some (retrieve c.output_buffer (suc n)) _ (sym (if-true _ _ _ on) ∙ e) in
      some-stream _ t
      ∙ stream-when_empty (after_write (suc n) c b)
      ∙ append_assoc c.wrote (take (suc n) (contents c.output_buffer)) (contents b)
      ∙ ap (◌++◌ c.wrote) (contents-retrieved c.output_buffer (suc n) h.valid r)
  | inr off ↦ some-stream c (sym (if-false _ _ _ off) ∙ e)
]
stream-handle_write (took zero) c h e = some-stream c e
stream-handle_write _ c h e = some-stream c e

-- The first `write` of `sendInLoop`, into an output buffer that is empty.
stream-sent_first :
    (w : Write) (msg : Bytes) (c : TcpConnection) {d : TcpConnection}
    → IsCoherent c
    → readable_bytes c.output_buffer ≡ 0
    → IsHealthy w
    → sent_first w msg c ≡ some d
    → stream d ≡ stream c ++ msg
unfolding sent_first
stream-sent_first (took n) msg c {d} h e k t = elim (Bool-cases (leb n (length msg))) [
  | inl all ↦
      let c' = record c { wrote = c.wrote ++ take n msg } in
      let none_left = contents-empty c.output_buffer e in
      some-stream _ (sym (if-true _ _ _ all) ∙ t)
      ∙ stream-keep_rest (drop n msg) c' h.valid (KeepsOutput-empty c' (drop n msg) e)
      ∙ ap (λ xs. ((c.wrote ++ take n msg) ++ xs) ++ drop n msg) none_left
      ∙ ap (λ xs. xs ++ drop n msg) (append-nil (c.wrote ++ take n msg))
      ∙ append_assoc c.wrote (take n msg) (drop n msg)
      ∙ ap (◌++◌ c.wrote) (take-append-drop n msg)
      ∙ ap (λ xs. xs ++ msg) (sym (append-nil c.wrote))
      ∙ ap (λ xs. (c.wrote ++ xs) ++ msg) (sym none_left)
  | inr over ↦ absurd (ground (arith, sym (if-false _ _ _ over) ∙ t))
]
stream-sent_first broken_pipe msg c h e k t = absurd k
stream-sent_first connection_reset msg c h e k t = absurd k
stream-sent_first _ msg c h e k t =
    some-stream _ t ∙ stream-keep_rest msg c h.valid (KeepsOutput-empty c msg e)

pub stream-send_in_loop :
    (w : Write) (msg : Bytes) (c : TcpConnection) {d : TcpConnection}
    → IsCoherent c
    → is_live c.state ≡ true
    → IsHealthy w
    → KeepsOutput c msg
    → send_in_loop w msg c ≡ some d
    → stream d ≡ stream c ++ msg
stream-send_in_loop w msg c {d} h l k o e =
    let chosen = send_in_loop_live w msg c l in
    elim (Bool-cases (not c.events.writing && readable_bytes c.output_buffer == 0)) [
      | inl idle ↦
          stream-sent_first w msg c h (ground (arith, idle)) k
            (sym (chosen ∙ if-true _ _ _ idle) ∙ e)
      | inr busy ↦
          some-stream _ (sym (chosen ∙ if-false _ _ _ busy) ∙ e) ∙ stream-keep_rest msg c h.valid o
    ]

pub stream-send :
    (w : Write) (msg : Bytes) (c : TcpConnection) {d : TcpConnection}
    → IsCoherent c
    → c.state ≡ connected
    → IsHealthy w
    → KeepsOutput c msg
    → send w msg c ≡ some d
    → stream d ≡ stream c ++ msg
stream-send w msg c h s k o e =
    stream-send_in_loop w msg c h (connected_live c s) k o (sym (send_connected w msg c s) ∙ e)
