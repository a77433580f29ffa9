-- ===== src/Http/Server/Idle.antt =====
-- Connections on which nothing arrives.
use my_moduo.Base.{
  sym, true, Bool, ◌++◌, false, ℕ, ◌<◌, ◌≤◌, ◌≡◌, refl, ap, ◌∙◌, inl, inr, List, [], ◌∷◌, Option,
  none, some, arith, ltb, lt→ltb, ltb→lt, if-true, if-false, Bool-cases,
}
use mathlib.Core.Path.{subst}
use my_moduo.Http.Server.{idle_connection_time_outs, shut_down_from, handle_idle_connection}
use my_moduo.Net.TcpConnection.Remote.{Shared, shuts_in_loop, shut_down_remote, run_call}
use my_moduo.Net.TcpConnection.{connected, disconnecting, Write, shut_down_in_loop, shut_down}
use my_moduo.Timer.RbTreeTimer.{Timer, run_after}
use my_moduo.Timer.Timestamp.{Timestamp, add_time}

-- A check: the time at which it looks, and the time at which it adds the next timer.
abbrev pub Check : Type 0
Check = Timestamp × Timestamp

-- The checks of a connection, as long as a timer is there; the last message came at `last`.
unfoldable pub watch :
    Bool → ℕ → Timestamp → List Check → Shared → Option Timer → Shared × Option Timer
unfolding handle_idle_connection
watch here cb last checks s none = (s, none)
watch here cb last [] s (some t) = (s, some t)
watch here cb last ((now, later) ∷ checks) s (some t) =
    let (s', next) = handle_idle_connection here cb last now later s in
    watch here cb last checks s' next

-- Each check is made when its timer is over, and adds the next timer then.
abbrev pub AreFired : ℕ → Timer → List Check → Type 0
AreFired cb t [] = Unit {0}
AreFired cb t ((now, later) ∷ checks) =
    (t.expiration < now)
    × (now ≤ later)
    × AreFired cb (run_after idle_connection_time_outs cb later) checks

shuts_late :
    (here : Bool) (cb : ℕ) (last now later : Timestamp) (s : Shared)
    → add_time last idle_connection_time_outs < now
    → handle_idle_connection here cb last now later s ≡ (shut_down_from here s, none)
unfolding handle_idle_connection
shuts_late here cb last now later s h = if-true _ _ _ (lt→ltb _ _ h)

waits_on :
    (here : Bool) (cb : ℕ) (last now later : Timestamp) (s : Shared)
    → ltb (add_time last idle_connection_time_outs) now ≡ false
    → handle_idle_connection here cb last now later s
      ≡ (s, some (run_after idle_connection_time_outs cb later))
unfolding handle_idle_connection
waits_on here cb last now later s h = if-false _ _ _ h

watch-none :
    (here : Bool) (cb : ℕ) (last : Timestamp) (checks : List Check) (s : Shared)
    → watch here cb last checks s none ≡ (s, none)
unfolding watch
watch-none here cb last [] s = refl
watch-none here cb last (x ∷ checks) s = refl

watch-shuts :
    (here : Bool) (cb : ℕ) (last n1 l1 n2 l2 : Timestamp) (checks : List Check) (t : Timer)
    (s : Shared)
    → last ≤ n1
    → AreFired cb t ((n1, l1) ∷ (n2, l2) ∷ checks)
    → watch here cb last ((n1, l1) ∷ (n2, l2) ∷ checks) s (some t) ≡ (shut_down_from here s, none)
unfolding watch
watch-shuts here cb last n1 l1 n2 l2 checks t s h f =
    let go = λ (x : Shared × Option Timer). watch here cb last checks x.0 x.1 in
    let next = λ (x : Shared × Option Timer). watch here cb last ((n2, l2) ∷ checks) x.0 x.1 in
    elim (Bool-cases (ltb (add_time last idle_connection_time_outs) n1)) [
      | inl over ↦ ap next (shuts_late here cb last n1 l1 s (ltb→lt _ _ over))
      | inr soon ↦
          ap next (waits_on here cb last n1 l1 s soon)
          ∙ ap go (shuts_late here cb last n2 l2 s (omega (arith, h, f.1, f.2.0)))
          ∙ watch-none here cb last checks (shut_down_from here s)
    ]

-- What `shutDown` makes of a connection: in the thread of its loop it is shut down; from another
-- thread it is disconnecting, with one functor more on its way to the queue, which does the rest.
abbrev pub Stops : Bool → Write → Shared → Shared → Type 0
Stops true w s s' = s' ≡ record s { connection = shut_down s.connection }
Stops false w s s' =
    (s'.callers ≡ s.callers ++ shuts_in_loop ∷ [])
    × (run_call w shuts_in_loop s' ≡ some (shut_down s.connection))

shut_down_from-Stops :
    (here : Bool) (w : Write) (s : Shared)
    → s.connection.state ≡ connected
    → ((shut_down_from here s).connection.state ≡ disconnecting)
      × Stops here w s (shut_down_from here s)
unfolding shut_down_remote run_call shut_down shut_down_in_loop
shut_down_from-Stops true w s h = (ground (arith, h), refl)
shut_down_from-Stops false w s h = rw h (refl, (refl, refl))

-- If the last message of a connected connection came before the first of two checks or more, each
-- made when its timer was over, and nothing else happens to the connection between the checks, then
-- one of the first two calls `shutDown`, once, and the connection is looked at no more. It is then
-- disconnecting. In the thread of its own loop it has been shut down at once. In another thread there
-- is one functor more on its way to the queue of its loop; and if nothing has happened to the
-- connection before this functor runs, that shuts it down just so.
pub idle_shut :
    (here : Bool) (cb : ℕ) (last n1 l1 n2 l2 : Timestamp) (checks : List Check) (t : Timer)
    (s : Shared) (w : Write)
    → last ≤ n1
    → AreFired cb t ((n1, l1) ∷ (n2, l2) ∷ checks)
    → s.connection.state ≡ connected
    → let (s', left) = watch here cb last ((n1, l1) ∷ (n2, l2) ∷ checks) s (some t) in
      (left ≡ none) × (s'.connection.state ≡ disconnecting) × Stops here w s s'
idle_shut here cb last n1 l1 n2 l2 checks t s w h f live =
    let e = watch-shuts here cb last n1 l1 n2 l2 checks t s h f in
    subst
      (λ (x : Shared × Option Timer).
        (x.1 ≡ none) × (x.0.connection.state ≡ disconnecting) × Stops here w s x.0)
      (sym e) (refl, (shut_down_from-Stops here w s live).0, (shut_down_from-Stops here w s live).1)
