-- ===== src/Net/TcpConnection/Closing.antt =====
-- What every event of a connection preserves.
use my_moduo.Net.TcpConnection.Coherent.{
  Event, reads, writes, sends, shuts, forces, runs_force, destroys, run_force, step, run,
  IsCoherent, some-IsCoherent, keep_rest-IsCoherent, handle_close-IsCoherent, shut_down-IsCoherent,
  force_close-IsCoherent, connection_destructor-IsCoherent,
}
use my_moduo.Base.{
  ℕ, zero, suc, ◌≡◌, refl, sym, ◌∙◌, ◌≢◌, if-true, if-false, inl, inr, true, not, ◌&&◌, leb, List,
  [], ◌∷◌, ◌++◌, some, arith, Bytes, length, take, drop, ◌==◌, if◌then◌else◌, bind-eq-some,
  Bool-cases,
}
use my_moduo.Net.Buffer.Valid.{retrieve-IsValid, init-IsValid}
use my_moduo.Net.Buffer.{
  Buffer, Readv, failed, received, initial_size, readable_bytes, append, retrieve, read_fd,
  contents,
}
use my_moduo.Net.Buffer
use my_moduo.Net.Channel.{change_events}
use my_moduo.Net.TcpConnection.{
  ConnectionState, connected, TcpConnection, init, Write, took, broken_pipe, connection_reset,
  is_live, connection_established, handle_read, shut_down_in_loop, when_empty, handle_write,
  force_close_in_loop, keep_rest, sent_first, send_in_loop, send,
}

-- `writing` may be out of date behind `retrieve`, until `when_empty`.
when_empty-IsCoherent :
    (c : TcpConnection) (b : Buffer) (n : ℕ) (log : Bytes)
    → IsCoherent c
    → c.events.writing ≡ true
    → retrieve c.output_buffer n ≡ some b
    → IsCoherent (when_empty (record c { output_buffer = b; wrote = log }))
unfolding when_empty shut_down_in_loop change_events
when_empty-IsCoherent c b n log h w e =
    let v = retrieve-IsValid n h.valid e in
    ground (arith, h.reading_flag, h.not_closed, h.closed_once)

pub handle_write-IsCoherent :
    (w : Write) (c : TcpConnection) {d : TcpConnection}
    → IsCoherent c
    → handle_write w c ≡ some d
    → IsCoherent d
unfolding handle_write
handle_write-IsCoherent (took (suc n)) c {d} h e = elim (Bool-cases c.events.writing) [
  | inl on ↦
      let (b, r, t) =
        bind-eq-some (retrieve c.output_buffer (suc n)) _ (sym (if-true _ _ _ on) ∙ e) in
      some-IsCoherent _ t (when_empty-IsCoherent c b (suc n) _ h on r)
  | inr off ↦ some-IsCoherent c (sym (if-false _ _ _ off) ∙ e) h
]
handle_write-IsCoherent (took zero) c {d} h e = some-IsCoherent c e h
handle_write-IsCoherent _ c {d} h e = some-IsCoherent c e h

wrote-IsCoherent :
    (c : TcpConnection) (log : Bytes) → IsCoherent c → IsCoherent (record c { wrote = log })
wrote-IsCoherent c log h = record {
  valid = h.valid;
  writing_flag = h.writing_flag;
  reading_flag = h.reading_flag;
  not_closed = h.not_closed;
  closed_once = h.closed_once;
}

sent_first-IsCoherent :
    (w : Write) (msg : Bytes) (c : TcpConnection) {d : TcpConnection}
    → is_live c.state ≡ true
    → IsCoherent c
    → sent_first w msg c ≡ some d
    → IsCoherent d
unfolding sent_first
sent_first-IsCoherent (took n) msg c l h e = elim (Bool-cases (leb n (length msg))) [
  | inl all ↦
      some-IsCoherent _ (rw all at e)
        (keep_rest-IsCoherent (drop n msg) _ l (wrote-IsCoherent c (c.wrote ++ take n msg) h))
  | inr over ↦ absurd (ground arith)
]
sent_first-IsCoherent broken_pipe msg c l h e = some-IsCoherent c e h
sent_first-IsCoherent connection_reset msg c l h e = some-IsCoherent c e h
sent_first-IsCoherent _ msg c l h e = some-IsCoherent _ e (keep_rest-IsCoherent msg c l h)

pub send_in_loop_live :
    (w : Write) (msg : Bytes) (c : TcpConnection)
    → is_live c.state ≡ true
    → send_in_loop w msg c ≡ (
        if not c.events.writing && readable_bytes c.output_buffer == 0
        then sent_first w msg c
        else some (keep_rest msg c))
unfolding send_in_loop
send_in_loop_live w msg c l = ground (arith, l)

pub send_in_loop-IsCoherent :
    (w : Write) (msg : Bytes) (c : TcpConnection) {d : TcpConnection}
    → is_live c.state ≡ true
    → IsCoherent c
    → send_in_loop w msg c ≡ some d
    → IsCoherent d
send_in_loop-IsCoherent w msg c l h e =
    let t = rw (send_in_loop_live w msg c l) at e in
    elim (Bool-cases (not c.events.writing && readable_bytes c.output_buffer == 0)) [
      | inl idle ↦ sent_first-IsCoherent w msg c l h (rw idle at t)
      | inr busy ↦ some-IsCoherent _ (rw busy at t) (keep_rest-IsCoherent msg c l h)
    ]

pub connected_live : (c : TcpConnection) → c.state ≡ connected → is_live c.state ≡ true
connected_live c k = rw k refl

pub send_connected :
    (w : Write) (msg : Bytes) (c : TcpConnection)
    → c.state ≡ connected
    → send w msg c ≡ send_in_loop w msg c
unfolding send
send_connected w msg c k = rw k refl

pub send_other :
    (w : Write) (msg : Bytes) (c : TcpConnection) → c.state ≢ connected → send w msg c ≡ some c
unfolding send
send_other w msg c k = ground arith

send-IsCoherent :
    (x : ConnectionState) (w : Write) (msg : Bytes) (c : TcpConnection) {d : TcpConnection}
    → c.state ≡ x
    → IsCoherent c
    → send w msg c ≡ some d
    → IsCoherent d
send-IsCoherent connected w msg c k h e =
    send_in_loop-IsCoherent w msg c (connected_live c k) h (sym (send_connected w msg c k) ∙ e)
send-IsCoherent _ w msg c k h e =
    some-IsCoherent c (sym (send_other w msg c (λ o. ground (arith, k, o))) ∙ e) h

pub input_buffer-IsCoherent :
    (c : TcpConnection) (b : Buffer) → IsCoherent c → IsCoherent (record c { input_buffer = b })
input_buffer-IsCoherent c b h = record {
  valid = h.valid;
  writing_flag = h.writing_flag;
  reading_flag = h.reading_flag;
  not_closed = h.not_closed;
  closed_once = h.closed_once;
}

handle_read-IsCoherent :
    (r : Readv) (c : TcpConnection) {d : TcpConnection}
    → IsCoherent c
    → handle_read (λ x. some x) r c ≡ some d
    → IsCoherent d
unfolding handle_read read_fd
handle_read-IsCoherent failed c h e = handle_close-IsCoherent _ (input_buffer-IsCoherent c _ h) e
handle_read-IsCoherent (received []) c h e =
    handle_close-IsCoherent _ (input_buffer-IsCoherent c _ h) e
handle_read-IsCoherent (received (x ∷ xs)) c h e =
    some-IsCoherent _ e (input_buffer-IsCoherent c _ h)

run_force-IsCoherent :
    (n : ℕ) (c : TcpConnection) {d : TcpConnection}
    → IsCoherent c
    → run_force n c ≡ some d
    → IsCoherent d
unfolding force_close_in_loop
run_force-IsCoherent zero c h e = some-IsCoherent c e h
run_force-IsCoherent (suc n) c h e =
    let k = record c { force_closes = n } in
    let i : IsCoherent k = record {
      valid = h.valid;
      writing_flag = h.writing_flag;
      reading_flag = h.reading_flag;
      not_closed = h.not_closed;
      closed_once = h.closed_once;
    } in
    elim (Bool-cases (is_live c.state)) [
      | inl live ↦ handle_close-IsCoherent k i (sym (if-true _ _ _ live) ∙ e)
      | inr over ↦ some-IsCoherent k (sym (if-false _ _ _ over) ∙ e) i
    ]

pub step-IsCoherent :
    (ev : Event) (c : TcpConnection) {d : TcpConnection}
    → IsCoherent c
    → step c ev ≡ some d
    → IsCoherent d
unfolding step
step-IsCoherent (reads r) c h e = elim (Bool-cases c.events.reading) [
  | inl on ↦ handle_read-IsCoherent r c h (sym (if-true _ _ _ on) ∙ e)
  | inr off ↦ some-IsCoherent c (sym (if-false _ _ _ off) ∙ e) h
]
step-IsCoherent (writes w) c h e = handle_write-IsCoherent w c h e
step-IsCoherent (sends w msg) c h e = send-IsCoherent c.state w msg c refl h e
step-IsCoherent shuts c h e = some-IsCoherent _ e (shut_down-IsCoherent c h)
step-IsCoherent forces c h e = some-IsCoherent _ e (force_close-IsCoherent c h)
step-IsCoherent runs_force c h e = run_force-IsCoherent c.force_closes c h e
step-IsCoherent destroys c h e = some-IsCoherent _ e (connection_destructor-IsCoherent c h)

run-IsCoherent :
    (es : List Event) (c : TcpConnection) {d : TcpConnection}
    → IsCoherent c
    → run c es ≡ some d
    → IsCoherent d
unfolding run
run-IsCoherent [] c h e = some-IsCoherent c e h
run-IsCoherent (ev ∷ es) c h e =
    let (k, s, t) = bind-eq-some (step c ev) (λ k. run k es) e in
    run-IsCoherent es k (step-IsCoherent ev c h s) t

abbrev pub established : TcpConnection
established = connection_established init

pub established-IsCoherent : IsCoherent established
unfolding connection_established change_events Buffer.init
established-IsCoherent = record {
  valid = init-IsValid initial_size (omega arith);
  writing_flag = λ l. refl;
  reading_flag = λ l. refl;
  not_closed = λ l. refl;
  closed_once = omega arith;
}

-- After any events on an established connection of which no `assert` fails: its output buffer is
-- valid; while it is connected or disconnecting its channel waits for writing exactly if bytes are
-- left in the output buffer; the channel waits for reading only then; and the close callback has
-- been called at most once, and not before.
pub run-established-IsCoherent :
    (es : List Event) {c : TcpConnection} → run established es ≡ some c → IsCoherent c
run-established-IsCoherent es e = run-IsCoherent es established established-IsCoherent e
