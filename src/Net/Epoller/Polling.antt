-- ===== src/Net/Epoller/Polling.antt =====
-- Net/epoller.cpp, `poll` and `fillActiveChannels`, and the loop of Net/eventloop.cpp that asks for
-- the active channels.
use my_moduo.Base.{
  ℕ, ◌≡◌, refl, sym, ap, ◌∙◌, ◌≢◌, List, [], ◌∷◌, ◌++◌, map, append-nil, append_assoc, arith,
}
use my_moduo.Net.Channel.{Revents}
use my_moduo.Net.Epoller.{put}

-- What `epoll_wait` returns: -1, or the channels that are ready, each with its events.
pub data Wait : Type 0 where
  wait_failed : Wait
  ready : List (ℕ × Revents) → Wait

-- `m_revents` of every channel, and `m_active_channels`.
pub record Polled : Type 0 where
  pub revents : ℕ → Revents
  pub active : List ℕ

-- `setRevents`
abbrev pub set_revents : ℕ → Revents → Polled → Polled
set_revents i r a = record a { revents = put i r a.revents }

-- `fillActiveChannels`
unfoldable pub fill_active_channels : List (ℕ × Revents) → Polled → Polled
fill_active_channels [] a = a
fill_active_channels ((i, r) ∷ es) a =
    let b = set_revents i r a in fill_active_channels es (record b { active = b.active ++ i ∷ [] })

unfoldable pub poll : Wait → Polled → Polled
unfolding fill_active_channels
poll wait_failed a = a
poll (ready es) a = fill_active_channels es a

-- The beginning of a turn of `loop`: `m_active_channels.clear()`, and `poll`.
unfoldable pub active_channels : Wait → (ℕ → Revents) → Polled
unfolding poll
active_channels w f = poll w (record { revents = f; active = [] })

-- Channel `i` is not among the reported ones.
abbrev pub Absent : ℕ → List (ℕ × Revents) → Type 0
Absent i [] = Unit {0}
Absent i ((j, r) ∷ es) = (i ≢ j) × Absent i es

-- No channel is reported twice, as `epoll_wait` reports a descriptor once.
abbrev pub Once : List (ℕ × Revents) → Type 0
Once [] = Unit {0}
Once ((i, r) ∷ es) = Absent i es × Once es

-- What was reported: nothing if the call failed.
abbrev pub reported : Wait → List (ℕ × Revents)
reported wait_failed = []
reported (ready es) = es

-- The channels with the events that each of them is to handle.
abbrev pub handled : (ℕ → Revents) → List ℕ → List (ℕ × Revents)
handled f is = map (λ i. (i, f i)) is

revents-fill_active_channels :
    (es : List (ℕ × Revents)) (a : Polled) (i : ℕ)
    → Absent i es
    → (fill_active_channels es a).revents i ≡ a.revents i
unfolding fill_active_channels
revents-fill_active_channels [] a i h = refl
revents-fill_active_channels ((j, r) ∷ es) a i h =
    revents-fill_active_channels es _ i h.1 ∙ (ground (arith, h.0))

active-fill_active_channels :
    (es : List (ℕ × Revents)) (a : Polled)
    → (fill_active_channels es a).active ≡ a.active ++ map (λ e. e.0) es
unfolding fill_active_channels
active-fill_active_channels [] a = sym (append-nil a.active)
active-fill_active_channels ((j, r) ∷ es) a =
    active-fill_active_channels es _ ∙ append_assoc a.active (j ∷ []) (map (λ e. e.0) es)

handled-fill_active_channels :
    (es : List (ℕ × Revents)) (a : Polled)
    → Once es
    → handled (fill_active_channels es a).revents (map (λ e. e.0) es) ≡ es
unfolding fill_active_channels
handled-fill_active_channels [] a h = refl
handled-fill_active_channels ((j, r) ∷ es) a h =
    let b : Polled = set_revents j r a in
    let c : Polled = record b { active = b.active ++ j ∷ [] } in
    let here : (fill_active_channels es c).revents j ≡ r =
      revents-fill_active_channels es c j h.0 ∙ ground arith in
    cc (here, handled-fill_active_channels es c h.1)

-- If no channel is reported twice, the channels that the loop goes through are those that
-- `epoll_wait` has reported, in its order, each with the events that were reported for it, whatever
-- events it had before; after a failure there are none.
active_channels-reported :
    (w : Wait) (f : ℕ → Revents)
    → Once (reported w)
    → handled (active_channels w f).revents (active_channels w f).active ≡ reported w
unfolding active_channels poll
active_channels-reported wait_failed f h = refl
active_channels-reported (ready es) f h =
    let a : Polled = record { revents = f; active = [] } in
    ap (handled (fill_active_channels es a).revents) (active-fill_active_channels es a)
    ∙ handled-fill_active_channels es a h
