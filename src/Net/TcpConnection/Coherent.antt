-- ===== src/Net/TcpConnection/Coherent.antt =====
-- The events of a connection, and when its fields go together.
use mathlib.Core.Path.{subst}
use my_moduo.Base.{
  ℕ, zero, suc, ◌≤◌, ◌<◌, ◌≡◌, ap, true, List, [], ◌∷◌, Option, some, arith, Bytes, ltb, length,
  length-append, if◌then◌else◌, ◌>>=◌,
}
use my_moduo.Net.Buffer.Contents.{contents-append, kept, length-contents}
use my_moduo.Net.Buffer.Valid.{IsValid, append-IsValid}
use my_moduo.Net.Buffer.{Buffer, Readv, readable_bytes, append}
use my_moduo.Net.Channel.{change_events}
use my_moduo.Net.TcpConnection.{
  TcpConnection, Write, is_live, connection_destructor, handle_close, handle_read,
  shut_down_in_loop, shut_down, handle_write, force_close, force_close_in_loop, keep_rest, send,
}

-- What happens to a connection in the thread of its loop. What the message callback does comes
-- behind `reads`; the other events may come at any time.
pub data Event : Type 0 where
  reads : Readv → Event
  writes : Write → Event
  sends : Write → Bytes → Event
  shuts forces runs_force destroys : Event

abbrev pub run_force : ℕ → TcpConnection → Option TcpConnection
run_force zero c = some c
run_force (suc n) c = force_close_in_loop (record c { force_closes = n })

unfoldable pub step : TcpConnection → Event → Option TcpConnection
step c (reads r) = if c.events.reading then handle_read (λ d. some d) r c else some c
step c (writes w) = handle_write w c
step c (sends w msg) = send w msg c
step c shuts = some (shut_down c)
step c forces = some (force_close c)
step c runs_force = run_force c.force_closes c
step c destroys = some (connection_destructor c)

unfoldable pub run : TcpConnection → List Event → Option TcpConnection
run c [] = some c
run c (e ∷ es) = step c e >>= λ d. run d es

pub record IsCoherent (c : TcpConnection) : Type 0 where
  pub valid : IsValid c.output_buffer
  pub writing_flag :
      is_live c.state ≡ true → c.events.writing ≡ ltb 0 (readable_bytes c.output_buffer)
  pub reading_flag : c.events.reading ≡ true → is_live c.state ≡ true
  pub not_closed : is_live c.state ≡ true → c.closes ≡ 0
  pub closed_once : c.closes ≤ 1

pub some-IsCoherent :
    (c : TcpConnection) {d : TcpConnection} → some c ≡ some d → IsCoherent c → IsCoherent d
some-IsCoherent c {d} e h = let same : c ≡ d = cc in subst IsCoherent same h

readable-append :
    (b : Buffer) (x : ℕ) (xs : Bytes) → IsValid b → 0 < readable_bytes (append b (x ∷ xs))
readable-append b x xs v = omega (
  arith,
  length-contents (append-IsValid (x ∷ xs) v),
  ap length (contents-append (x ∷ xs) v),
  length-append (kept b (length (x ∷ xs))) (x ∷ xs),
)

pub keep_rest-IsCoherent :
    (rest : Bytes) (c : TcpConnection)
    → is_live c.state ≡ true
    → IsCoherent c
    → IsCoherent (keep_rest rest c)
unfolding keep_rest change_events
keep_rest-IsCoherent [] c l h = h
keep_rest-IsCoherent (x ∷ rest) c l h =
    let r = readable-append c.output_buffer x rest h.valid in
    let v = append-IsValid (x ∷ rest) h.valid in
    ground (arith, h.valid, h.writing_flag, h.reading_flag, h.not_closed, h.closed_once)

pub handle_close-IsCoherent :
    (c : TcpConnection) {d : TcpConnection} → IsCoherent c → handle_close c ≡ some d → IsCoherent d
unfolding handle_close change_events
handle_close-IsCoherent c h e = ground (arith, h.valid, h.not_closed, h.closed_once)

pub shut_down_in_loop-IsCoherent :
    (c : TcpConnection) → IsCoherent c → IsCoherent (shut_down_in_loop c)
unfolding shut_down_in_loop
shut_down_in_loop-IsCoherent c h =
    ground (arith, h.valid, h.writing_flag, h.reading_flag, h.not_closed, h.closed_once)

pub shut_down-IsCoherent : (c : TcpConnection) → IsCoherent c → IsCoherent (shut_down c)
unfolding shut_down shut_down_in_loop
shut_down-IsCoherent c h =
    ground (arith, h.valid, h.writing_flag, h.reading_flag, h.not_closed, h.closed_once)

pub force_close-IsCoherent : (c : TcpConnection) → IsCoherent c → IsCoherent (force_close c)
unfolding force_close
force_close-IsCoherent c h =
    ground (arith, h.valid, h.writing_flag, h.reading_flag, h.not_closed, h.closed_once)

pub connection_destructor-IsCoherent :
    (c : TcpConnection) → IsCoherent c → IsCoherent (connection_destructor c)
unfolding connection_destructor change_events
connection_destructor-IsCoherent c h =
    ground (arith, h.valid, h.writing_flag, h.reading_flag, h.not_closed, h.closed_once)
