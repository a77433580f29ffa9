-- ===== src/Net/TcpConnection/Draining.antt =====
-- What is left in the output buffer goes out, and a connection that is to be shut down is.
use my_moduo.Base.{
  ℕ, zero, suc, ◌-◌, ◌<◌, ◌≤◌, ◌≡◌, refl, sym, ap, ◌∙◌, inl, inr, Bool, false, ◌||◌, ◌&&◌, true,
  List, [], ◌∷◌, ◌++◌, append-nil, Option, some, arith, length, length-drop, leb, lt→ltb, ◌==◌,
  if◌then◌else◌, if-true, ◌>>=◌, Bool-cases, ==_iff,
}
use my_moduo.Net.Buffer.Contents.{contents-retrieve, length-contents}
use my_moduo.Net.Buffer.{Buffer, readable_bytes, contents}
use my_moduo.Net.Channel.{change_events}
use my_moduo.Net.TcpConnection.Closing.{handle_write-IsCoherent}
use my_moduo.Net.TcpConnection.Coherent.{IsCoherent}
use my_moduo.Net.TcpConnection.Stream.{stream, stream-handle_write, contents-empty}
use my_moduo.Net.TcpConnection.{
  ConnectionState, disconnecting, TcpConnection, took, is_live, handle_write, when_empty,
  after_write, shut_down_in_loop,
}

abbrev pub least : ℕ → ℕ → ℕ
least n m = if leb n m then n else m

-- `epoll_wait` reports the connection writable again and again, and each time `write` takes one byte
-- and up to `n` more, for each `n` of the list.
unfoldable pub drain : List ℕ → TcpConnection → Option TcpConnection
drain [] c = some c
drain (n ∷ ns) c =
    handle_write (took (least (suc n) (readable_bytes c.output_buffer))) c >>= λ d. drain ns d

abbrev pub is_disconnecting : ConnectionState → Bool
is_disconnecting disconnecting = true
is_disconnecting _ = false

-- All that was left has been taken, in order, and the socket is shut down if it was to be.
abbrev pub Drained : TcpConnection → TcpConnection → Type 0
Drained c d =
    (contents d.output_buffer ≡ [])
    × (d.wrote ≡ stream c)
    × (d.state ≡ c.state)
    × (d.shut ≡ (c.shut || is_disconnecting c.state))

-- One `write` that takes `m` bytes.
pub record Wrote (m : ℕ) (c d : TcpConnection) : Type 0 where
  pub left : readable_bytes d.output_buffer ≡ readable_bytes c.output_buffer - m
  pub state : d.state ≡ c.state
  pub shut :
      d.shut ≡ (c.shut || ((readable_bytes c.output_buffer == m) && is_disconnecting c.state))

when_empty-Wrote :
    (m : ℕ) (c : TcpConnection) (b : Buffer)
    → m ≤ readable_bytes c.output_buffer
    → readable_bytes b ≡ readable_bytes c.output_buffer - m
    → Wrote m c (when_empty (after_write m c b))
unfolding when_empty shut_down_in_loop change_events
when_empty-Wrote m c b h e = record {
  left = ground (arith, e);
  state = ground arith;
  shut = ground (arith, e, h);
}

pub handle_write-Wrote :
    (m : ℕ) (c : TcpConnection)
    → IsCoherent c
    → is_live c.state ≡ true
    → 0 < m
    → m ≤ readable_bytes c.output_buffer
    → (d : TcpConnection) × (handle_write (took m) c ≡ some d) × Wrote m c d
unfolding handle_write
handle_write-Wrote zero c h l n k = absurd (omega (arith, n))
handle_write-Wrote (suc m) c h l n k =
    let (b, r, left, v) = contents-retrieve {b = c.output_buffer} (suc m) h.valid k in
    let on : c.events.writing ≡ true =
      h.writing_flag l ∙ lt→ltb 0 (readable_bytes c.output_buffer) (omega (arith, k)) in
    let fewer : readable_bytes b ≡ readable_bytes c.output_buffer - suc m = omega (
      arith,
      length-contents v,
      ap length left,
      length-drop (suc m) (contents c.output_buffer),
      length-contents h.valid,
    ) in
    (
      when_empty (after_write (suc m) c b),
      if-true _ _ _ on ∙ ap (λ o. o >>= λ d. some (when_empty (after_write (suc m) c d))) r,
      when_empty-Wrote (suc m) c b k fewer,
    )

least-none : (n m : ℕ) → m ≡ 0 → least n m ≡ 0
least-none n m e = ground (arith, e)

least-some : (n m : ℕ) → 0 < m → (0 < least (suc n) m) × (least (suc n) m ≤ m)
least-some n m h = ground arith

-- Behind the last byte nothing more happens.
drain-empty :
    (ns : List ℕ) (c : TcpConnection) → readable_bytes c.output_buffer ≡ 0 → drain ns c ≡ some c
unfolding drain handle_write
drain-empty [] c e = refl
drain-empty (n ∷ ns) c e =
    ap (λ m. handle_write (took m) c >>= λ d. drain ns d) (least-none (suc n) _ e)
    ∙ drain-empty ns c e

last_write-Drained :
    (ns : List ℕ) (c d : TcpConnection) (m : ℕ)
    → readable_bytes c.output_buffer ≡ m
    → stream d ≡ stream c
    → Wrote m c d
    → (x : TcpConnection) × (drain ns d ≡ some x) × Drained c x
last_write-Drained ns c d m e s w =
    let none_left = contents-empty d.output_buffer (omega (arith, w.left, e)) in
    (
      d,
      drain-empty ns d (omega (arith, w.left, e)),
      (
        none_left,
        sym (append-nil d.wrote) ∙ ap (◌++◌ d.wrote) (sym none_left) ∙ s,
        w.state,
        ground (arith, w.shut, e),
      ),
    )

more_writes-Drained :
    (ns : List ℕ) (c d : TcpConnection) (m : ℕ)
    → m < readable_bytes c.output_buffer
    → stream d ≡ stream c
    → Wrote m c d
    → (x : TcpConnection) × (drain ns d ≡ some x) × Drained d x
    → (x : TcpConnection) × (drain ns d ≡ some x) × Drained c x
more_writes-Drained ns c d m k s w (x, e, (none_left, wrote, state, shut)) =
    (x, e, (none_left, wrote ∙ s, state ∙ w.state, ground (arith, shut, w.shut, w.state, k)))

-- From a coherent connection that is connected or disconnecting with output left, as many rounds in
-- which the socket is writable and `write` takes a byte or more as there are bytes left are enough:
-- all of them have been taken, in order, and a connection that was disconnecting has been shut down.
pub drain_lem :
    (ns : List ℕ) (c : TcpConnection)
    → IsCoherent c
    → is_live c.state ≡ true
    → 0 < readable_bytes c.output_buffer
    → readable_bytes c.output_buffer ≤ length ns
    → (d : TcpConnection) × (drain ns c ≡ some d) × Drained c d
unfolding drain
drain_lem [] c h l k n = absurd (omega (arith, k, n))
drain_lem (n ∷ ns) c h l k len =
    let r = readable_bytes c.output_buffer in
    let m = least (suc n) r in
    let (some_of, within) = least-some n r k in
    let (d, e, w) = handle_write-Wrote m c h l some_of within in
    let s = stream-handle_write (took m) c h e in
    let rest : (x : TcpConnection) × (drain ns d ≡ some x) × Drained c x =
      elim (Bool-cases (r == m)) [
        | inl last ↦ last_write-Drained ns c d m ((==_iff r m).0 last) s w
        | inr more ↦ more_writes-Drained ns c d m (ground (arith, more, within)) s w (
            drain_lem ns d (handle_write-IsCoherent (took m) c h e) (ap is_live w.state ∙ l)
              (ground (arith, w.left, more, within)) (omega (arith, w.left, some_of, len)))
      ] in
    (rest.0, ap (λ o. o >>= λ y. drain ns y) e ∙ rest.1, rest.2)
