-- ===== src/Net/TcpConnection/Asserts.antt =====
-- No `assert` of a connection fails.
use my_moduo.Base.{
  ℕ, zero, suc, ◌≤◌, ◌≡◌, refl, ap, ◌∙◌, inl, inr, true, not, ◌&&◌, [], ◌∷◌, Option, some, arith,
  le→leb, Bytes, length, ◌==◌, if-true, if-false, ◌>>=◌, Bool-cases,
}
use my_moduo.Net.Buffer.Contents.{contents-retrieve}
use my_moduo.Net.Buffer.{Readv, failed, received, readable_bytes, read_fd}
use my_moduo.Net.TcpConnection.Closing.{
  send_connected, send_other, send_in_loop_live, connected_live,
}
use my_moduo.Net.TcpConnection.Coherent.{
  Event, reads, writes, sends, shuts, forces, runs_force, destroys, step, run_force, IsCoherent,
}
use my_moduo.Net.TcpConnection.{
  ConnectionState, connected, TcpConnection, Write, took, broken_pipe, connection_reset, is_live,
  handle_close, handle_read, handle_write, when_empty, after_write, force_close_in_loop, sent_first,
  send,
}

-- `write` takes no more bytes than it is given.
abbrev pub Answers : TcpConnection → Event → Type 0
Answers c (writes (took n)) = n ≤ readable_bytes c.output_buffer
Answers c (sends (took n) msg) = n ≤ length msg
Answers c _ = Unit {0}

abbrev pub Returns : Option TcpConnection → Type 0
Returns r = (d : TcpConnection) × (r ≡ some d)

handle_close-Returns : (c : TcpConnection) → is_live c.state ≡ true → Returns (handle_close c)
unfolding handle_close
handle_close-Returns c l = (_, if-true _ _ _ l)

handle_read-Returns :
    (r : Readv) (c : TcpConnection)
    → is_live c.state ≡ true
    → Returns (handle_read (λ d. some d) r c)
unfolding handle_read read_fd
handle_read-Returns failed c l = handle_close-Returns _ l
handle_read-Returns (received []) c l = handle_close-Returns _ l
handle_read-Returns (received (x ∷ xs)) c l = (_, refl)

handle_write-Returns :
    (w : Write) (c : TcpConnection)
    → IsCoherent c
    → Answers c (writes w)
    → Returns (handle_write w c)
unfolding handle_write
handle_write-Returns (took (suc n)) c h a = elim (Bool-cases c.events.writing) [
  | inl on ↦
      let (b, r, _, _) = contents-retrieve {b = c.output_buffer} (suc n) h.valid a in
      (
        when_empty (after_write (suc n) c b),
        if-true _ _ _ on ∙ ap (λ o. o >>= λ d. some (when_empty (after_write (suc n) c d))) r,
      )
  | inr off ↦ (c, if-false _ _ _ off)
]
handle_write-Returns (took zero) c h a = (c, refl)
handle_write-Returns _ c h a = (c, refl)

sent_first-Returns :
    (w : Write) (msg : Bytes) (c : TcpConnection)
    → Answers c (sends w msg)
    → Returns (sent_first w msg c)
unfolding sent_first
sent_first-Returns (took n) msg c a = (_, if-true _ _ _ (le→leb _ _ a))
sent_first-Returns broken_pipe msg c a = (c, refl)
sent_first-Returns connection_reset msg c a = (c, refl)
sent_first-Returns _ msg c a = (_, refl)

pub send-Returns :
    (x : ConnectionState) (w : Write) (msg : Bytes) (c : TcpConnection)
    → c.state ≡ x
    → Answers c (sends w msg)
    → Returns (send w msg c)
send-Returns connected w msg c k a =
    let chosen = send_connected w msg c k ∙ send_in_loop_live w msg c (connected_live c k) in
    elim (Bool-cases (not c.events.writing && readable_bytes c.output_buffer == 0)) [
      | inl idle ↦ let (d, e) = sent_first-Returns w msg c a in (d, chosen ∙ if-true _ _ _ idle ∙ e)
      | inr busy ↦ (_, chosen ∙ if-false _ _ _ busy)
    ]
send-Returns _ w msg c k a = (c, send_other w msg c (λ o. ground (arith, k, o)))

run_force-Returns : (n : ℕ) (c : TcpConnection) → Returns (run_force n c)
unfolding force_close_in_loop
run_force-Returns zero c = (c, refl)
run_force-Returns (suc n) c = elim (Bool-cases (is_live c.state)) [
  | inl live ↦
      let (d, e) = handle_close-Returns (record c { force_closes = n }) live in
      (d, if-true _ _ _ live ∙ e)
  | inr over ↦ (_, if-false _ _ _ over)
]

-- At a coherent connection no `assert` fails, whatever the event, if `write` takes no more bytes
-- than it is given.
pub step_returns :
    (ev : Event) (c : TcpConnection)
    → IsCoherent c
    → Answers c ev
    → (d : TcpConnection) × (step c ev ≡ some d)
unfolding step
step_returns (reads r) c h a = elim (Bool-cases c.events.reading) [
  | inl on ↦ let (d, e) = handle_read-Returns r c (h.reading_flag on) in (d, if-true _ _ _ on ∙ e)
  | inr off ↦ (c, if-false _ _ _ off)
]
step_returns (writes w) c h a = handle_write-Returns w c h a
step_returns (sends w msg) c h a = send-Returns c.state w msg c refl a
step_returns shuts c h a = (_, refl)
step_returns forces c h a = (_, refl)
step_returns runs_force c h a = run_force-Returns c.force_closes c
step_returns destroys c h a = (_, refl)
