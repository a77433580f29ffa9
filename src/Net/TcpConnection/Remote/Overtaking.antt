-- ===== src/Net/TcpConnection/Remote/Overtaking.antt =====
-- `shutDown` behind `send` in another thread.
use mathlib.Core.Path.{subst}
use my_moduo.Base.{◌≡◌, ◌<◌, refl, sym, ap, ◌∙◌, true, [], ◌∷◌, ◌++◌, append-nil, arith, Bytes}
use my_moduo.Net.Buffer.{readable_bytes}
use my_moduo.Net.TcpConnection.Coherent.{writes, step}
use my_moduo.Net.TcpConnection.Draining.{handle_write-Wrote}
use my_moduo.Net.TcpConnection.Stream.{stream, stream-handle_write, contents-empty}
use my_moduo.Net.TcpConnection.Remote.History.{
  History, calls_send, calls_shut_down, queues, handles, History-IsCoherent,
}
use my_moduo.Net.TcpConnection.Remote.Order.{History-outgoing}
use my_moduo.Net.TcpConnection.Remote.{
  Message, sends_in_loop, shuts_in_loop, Shared, message_bytes, call_with, send_remote,
  shut_down_remote, queued,
}
use my_moduo.Net.TcpConnection.{connected, disconnecting, TcpConnection, took}

send_remote_connected :
    (m : Message) (s : Shared)
    → s.connection.state ≡ connected
    → send_remote m s ≡ call_with (sends_in_loop m) s
unfolding send_remote
send_remote_connected m s k = ground (arith, k)

-- A connection that is to be shut down.
abbrev closing : TcpConnection → TcpConnection
closing c = record c { state = disconnecting }

shut_down_remote_connected :
    (s : Shared)
    → s.connection.state ≡ connected
    → shut_down_remote s ≡ call_with shuts_in_loop (record s { connection = closing s.connection })
unfolding shut_down_remote
shut_down_remote_connected s k = ground (arith, k)

-- Both functors in the queue.
abbrev both_queued : Message → Shared → Shared
both_queued m s = record s {
  connection = closing s.connection;
  functors = sends_in_loop m ∷ shuts_in_loop ∷ [];
  callers = [];
}

module _ {all : Bytes} {s : Shared} (m : Message) (h : History all s)
    (k : s.connection.state ≡ connected) (c : s.callers ≡ []) (f : s.functors ≡ []) where
  History-sent :
      History
        (all ++ message_bytes s.memory m)
        (record s { functors = sends_in_loop m ∷ []; callers = [] })
  History-sent =
      let called = subst (History all) (send_remote_connected m s k) (calls_send m h) in
      subst
        (λ fs.
          History (all ++ message_bytes s.memory m)
            (record s { functors = fs ++ sends_in_loop m ∷ []; callers = [] }))
        f (queues [] (sends_in_loop m) [] called (ap (λ cs. cs ++ sends_in_loop m ∷ []) c))

  History-both_queued : History (all ++ message_bytes s.memory m) (both_queued m s)
  History-both_queued =
      let t : Shared = record s { functors = sends_in_loop m ∷ []; callers = [] } in
      let called =
        subst (History _) (shut_down_remote_connected t k) (calls_shut_down History-sent) in
      subst (λ bs. History bs (both_queued m s)) (append-nil (all ++ message_bytes s.memory m))
        (queues [] shuts_in_loop [] called refl)

-- If another thread sends a message and then calls `shutDown`, while the output buffer of the
-- connected connection still holds bytes, then one write that takes these bytes, before the
-- functors run, shuts the socket down with the message still in the queue.
pub shut_overtakes :
    {all : Bytes} {s : Shared} (m : Message)
    → History all s
    → s.connection.state ≡ connected
    → s.callers ≡ []
    → s.functors ≡ []
    → 0 < readable_bytes s.connection.output_buffer
    → (t : Shared) × History (all ++ message_bytes s.memory m) t
      × (t.connection.shut ≡ true)
      × (t.connection.wrote ≡ all)
      × (t.functors ≡ sends_in_loop m ∷ shuts_in_loop ∷ [])
      × (t.memory ≡ s.memory)
unfolding step
shut_overtakes {s} m h k c f p =
    let n = readable_bytes s.connection.output_buffer in
    let b = both_queued m s in
    let both = History-both_queued m h k c f in
    let i = History-IsCoherent both in
    let (d, e, w) = handle_write-Wrote n b.connection i refl p (omega arith) in
    let none = contents-empty d.output_buffer (omega (arith, w.left)) in
    (
      record b { connection = d },
      handles (writes (took n)) both tt e,
      ground (arith, w.shut),
      sym (append-nil d.wrote)
          ∙ ap (◌++◌ d.wrote) (sym none)
          ∙ stream-handle_write (took n) b.connection i e
          ∙ sym (append-nil (stream s.connection))
          ∙ ap (λ fs. stream s.connection ++ queued s.memory fs) (sym f)
          ∙ History-outgoing h,
      refl,
      refl,
    )
