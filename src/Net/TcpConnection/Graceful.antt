-- ===== src/Net/TcpConnection/Graceful.antt =====
-- The write side is shut down behind the last byte.
use mathlib.Core.Path.{subst}
use my_moduo.Base.{
  ℕ, zero, suc, ◌≡◌, refl, sym, ap, ◌∙◌, ◌≢◌, inl, inr, true, not, ◌&&◌, ◌==◌, [], ◌∷◌, ◌++◌,
  append-nil, some, arith, Bytes, leb, length, take, drop, if-true, if-false, Bool-cases,
  bind-eq-some,
}
use my_moduo.Net.Buffer.{Buffer, Readv, failed, received, readable_bytes, read_fd, retrieve}
use my_moduo.Net.TcpConnection.Closing.{
  send_connected, send_other, send_in_loop_live, connected_live,
}
use my_moduo.Net.TcpConnection.Coherent.{
  Event, reads, writes, sends, shuts, forces, runs_force, destroys, step, run_force, IsCoherent,
}
use my_moduo.Net.TcpConnection.Stream.{contents-empty}
use my_moduo.Net.TcpConnection.Output.{Sends, start, sent, other, Sends-IsCoherent, Sends-stream}
use my_moduo.Net.TcpConnection.{
  ConnectionState, connected, disconnecting, TcpConnection, Write, took, broken_pipe,
  connection_reset, is_live, connection_established, handle_close, handle_read, handle_write,
  when_empty, after_write, shut_down_in_loop, shut_down, force_close, force_close_in_loop,
  connection_destructor, keep_rest, sent_first, send_in_loop, send,
}

-- A connection whose socket has been shut down takes no more messages, and has nothing left to
-- write, unless it has been closed.
pub record IsGraceful (c : TcpConnection) : Type 0 where
  pub no_more : c.shut ≡ true → c.state ≢ connected
  pub none_left : c.shut ≡ true → is_live c.state ≡ true → readable_bytes c.output_buffer ≡ 0

some-IsGraceful :
    (c : TcpConnection) {d : TcpConnection} → some c ≡ some d → IsGraceful c → IsGraceful d
some-IsGraceful c {d} e g = let same : c ≡ d = cc in subst IsGraceful same g

handle_close-IsGraceful :
    (c : TcpConnection) {d : TcpConnection} → handle_close c ≡ some d → IsGraceful d
unfolding handle_close
handle_close-IsGraceful c e = record {
  no_more = λ s k. ground arith;
  none_left = λ s l. ground arith;
}

shut_down-IsGraceful : (c : TcpConnection) → IsCoherent c → IsGraceful c → IsGraceful (shut_down c)
unfolding shut_down shut_down_in_loop
shut_down-IsGraceful c h g = record {
  no_more = λ s n. ground (arith, g.no_more);
  none_left = λ s l. ground (arith, g.no_more, g.none_left, h.writing_flag);
}

when_empty-IsGraceful :
    (c : TcpConnection) → (c.shut ≡ true → is_live c.state ≢ true) → IsGraceful (when_empty c)
unfolding when_empty shut_down_in_loop
when_empty-IsGraceful c g = record {
  no_more = λ s n. ground (arith, g);
  none_left = λ s l. ground (arith, g);
}

force_close-IsGraceful : (c : TcpConnection) → IsGraceful c → IsGraceful (force_close c)
unfolding force_close
force_close-IsGraceful c g = record {
  no_more = λ s n. ground (arith, g.no_more);
  none_left = λ s l. ground (arith, g.none_left);
}

connection_destructor-IsGraceful :
    (c : TcpConnection) → IsGraceful c → IsGraceful (connection_destructor c)
unfolding connection_destructor
connection_destructor-IsGraceful c g = record {
  no_more = λ s n. ground (arith, g.no_more);
  none_left = λ s l. ground (arith, g.none_left);
}

-- A channel that waits for writing has something left to write, so the socket is not shut down.
handle_write-IsGraceful :
    (w : Write) (c : TcpConnection) {d : TcpConnection}
    → IsCoherent c
    → IsGraceful c
    → handle_write w c ≡ some d
    → IsGraceful d
unfolding handle_write
handle_write-IsGraceful (took (suc n)) c {d} h g e = elim (Bool-cases c.events.writing) [
  | inl on ↦
      let (b, r, t) =
        bind-eq-some (retrieve c.output_buffer (suc n)) _ (sym (if-true _ _ _ on) ∙ e) in
      some-IsGraceful _ t (
        when_empty-IsGraceful (after_write (suc n) c b)
          (λ s l. ground (arith, g.none_left s l, h.writing_flag l, on)))
  | inr off ↦ some-IsGraceful c (sym (if-false _ _ _ off) ∙ e) g
]
handle_write-IsGraceful (took zero) c h g e = some-IsGraceful c e g
handle_write-IsGraceful _ c h g e = some-IsGraceful c e g

-- `sendInLoop` changes neither.
abbrev pub SameState : TcpConnection → TcpConnection → Type 0
SameState c d = (d.state ≡ c.state) × (d.shut ≡ c.shut)

keep_rest-SameState : (rest : Bytes) (c : TcpConnection) → SameState c (keep_rest rest c)
unfolding keep_rest
keep_rest-SameState [] c = (refl, refl)
keep_rest-SameState (x ∷ rest) c = ground arith

some-SameState :
    (a c : TcpConnection) {d : TcpConnection} → some c ≡ some d → SameState a c → SameState a d
some-SameState a c {d} e g = let same : c ≡ d = cc in subst (SameState a) same g

sent_first-SameState :
    (w : Write) (msg : Bytes) (c : TcpConnection) {d : TcpConnection}
    → sent_first w msg c ≡ some d
    → SameState c d
unfolding sent_first
sent_first-SameState (took n) msg c {d} e = elim (Bool-cases (leb n (length msg))) [
  | inl all ↦
      let c' = record c { wrote = c.wrote ++ take n msg } in
      some-SameState c _ (sym (if-true _ _ _ all) ∙ e) (keep_rest-SameState (drop n msg) c')
  | inr over ↦ absurd (ground (arith, sym (if-false _ _ _ over) ∙ e))
]
sent_first-SameState broken_pipe msg c e = some-SameState c c e (refl, refl)
sent_first-SameState connection_reset msg c e = some-SameState c c e (refl, refl)
sent_first-SameState _ msg c e = some-SameState c _ e (keep_rest-SameState msg c)

send_in_loop-SameState :
    (w : Write) (msg : Bytes) (c : TcpConnection) {d : TcpConnection}
    → is_live c.state ≡ true
    → send_in_loop w msg c ≡ some d
    → SameState c d
send_in_loop-SameState w msg c l e =
    let t = sym (send_in_loop_live w msg c l) ∙ e in
    elim (Bool-cases (not c.events.writing && readable_bytes c.output_buffer == 0)) [
      | inl idle ↦ sent_first-SameState w msg c (sym (if-true _ _ _ idle) ∙ t)
      | inr busy ↦ some-SameState c _ (sym (if-false _ _ _ busy) ∙ t) (keep_rest-SameState msg c)
    ]

-- A message is taken only while the connection is connected.
connected-IsGraceful :
    (c d : TcpConnection) → IsGraceful c → c.state ≡ connected → SameState c d → IsGraceful d
connected-IsGraceful c d g k s = record {
  no_more = λ t n. ground (arith, g.no_more, s, k);
  none_left = λ t l. ground (arith, g.no_more, s, k);
}

IsGraceful-input_buffer :
    (c : TcpConnection) (b : Buffer) → IsGraceful c → IsGraceful (record c { input_buffer = b })
IsGraceful-input_buffer c b g = record { no_more = g.no_more; none_left = g.none_left }

handle_read-IsGraceful :
    (r : Readv) (c : TcpConnection) {d : TcpConnection}
    → IsGraceful c
    → handle_read (λ x. some x) r c ≡ some d
    → IsGraceful d
unfolding handle_read read_fd
handle_read-IsGraceful failed c g e = handle_close-IsGraceful _ e
handle_read-IsGraceful (received []) c g e = handle_close-IsGraceful _ e
handle_read-IsGraceful (received (x ∷ xs)) c g e =
    some-IsGraceful _ e (IsGraceful-input_buffer c _ g)

run_force-IsGraceful :
    (n : ℕ) (c : TcpConnection) {d : TcpConnection}
    → IsGraceful c
    → run_force n c ≡ some d
    → IsGraceful d
unfolding force_close_in_loop
run_force-IsGraceful zero c g e = some-IsGraceful c e g
run_force-IsGraceful (suc n) c g e = elim (Bool-cases (is_live c.state)) [
  | inl live ↦
      handle_close-IsGraceful (record c { force_closes = n }) (sym (if-true _ _ _ live) ∙ e)
  | inr over ↦
      some-IsGraceful (record c { force_closes = n }) (sym (if-false _ _ _ over) ∙ e)
        (record { no_more = g.no_more; none_left = g.none_left })
]

send-IsGraceful :
    (x : ConnectionState) (w : Write) (msg : Bytes) (c : TcpConnection) {d : TcpConnection}
    → c.state ≡ x
    → IsGraceful c
    → send w msg c ≡ some d
    → IsGraceful d
send-IsGraceful connected w msg c {d} k g e =
    connected-IsGraceful c d g k
      (send_in_loop-SameState w msg c (connected_live c k) (sym (send_connected w msg c k) ∙ e))
send-IsGraceful _ w msg c k g e =
    some-IsGraceful c (sym (send_other w msg c (λ o. ground (arith, k, o))) ∙ e) g

step-IsGraceful :
    (ev : Event) (c : TcpConnection) {d : TcpConnection}
    → IsCoherent c
    → IsGraceful c
    → step c ev ≡ some d
    → IsGraceful d
unfolding step
step-IsGraceful (reads r) c h g e = elim (Bool-cases c.events.reading) [
  | inl on ↦ handle_read-IsGraceful r c g (sym (if-true _ _ _ on) ∙ e)
  | inr off ↦ some-IsGraceful c (sym (if-false _ _ _ off) ∙ e) g
]
step-IsGraceful (writes w) c h g e = handle_write-IsGraceful w c h g e
step-IsGraceful (sends w msg) c h g e = send-IsGraceful c.state w msg c refl g e
step-IsGraceful shuts c h g e = some-IsGraceful _ e (shut_down-IsGraceful c h g)
step-IsGraceful forces c h g e = some-IsGraceful _ e (force_close-IsGraceful c g)
step-IsGraceful runs_force c h g e = run_force-IsGraceful c.force_closes c g e
step-IsGraceful destroys c h g e = some-IsGraceful _ e (connection_destructor-IsGraceful c g)

Sends-IsGraceful : {all : Bytes} {c : TcpConnection} → Sends all c → IsGraceful c
unfolding connection_established
Sends-IsGraceful start = record { no_more = λ s k. ground arith; none_left = λ s l. ground arith }
Sends-IsGraceful (sent {c} w msg s l k o e) =
    step-IsGraceful (sends w msg) c (Sends-IsCoherent s) (Sends-IsGraceful s) e
Sends-IsGraceful (other {c} ev s o e) =
    step-IsGraceful ev c (Sends-IsCoherent s) (Sends-IsGraceful s) e

-- Once the socket has been shut down, and as long as the connection has not been closed, the socket
-- has taken all messages sent, in order, and no message is taken any more, if no `write` in between
-- met a broken connection, and no `append` moved bytes that were still to be written.
pub shut_graceful :
    {all : Bytes} {c : TcpConnection}
    → Sends all c
    → c.shut ≡ true
    → is_live c.state ≡ true
    → (c.wrote ≡ all) × (c.state ≡ disconnecting)
shut_graceful {all} {c} s k l =
    let g = Sends-IsGraceful s in
    let none = contents-empty c.output_buffer (g.none_left k l) in
    (
      sym (append-nil c.wrote) ∙ ap (◌++◌ c.wrote) (sym none) ∙ Sends-stream s,
      ground (arith, g.no_more k, l),
    )
