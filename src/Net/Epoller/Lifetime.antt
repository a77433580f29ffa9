-- ===== src/Net/Epoller/Lifetime.antt =====
-- Channels from their first registration to their destructor.
use mathlib.Core.Path.{subst}
use my_moduo.Base.{
  ℕ, ◌≡◌, refl, inl, inr, true, false, List, [], ◌∷◌, Option, none, some, arith, ◌>>=◌,
  Option-cases, bind-eq-some, Bool-cases,
}
use my_moduo.Net.Channel.{Channel, ChannelIndex, new, added, deleted, Events, Change, change_events}
use my_moduo.Net.Epoller.Interest.{
  watched, Accepted, Agrees, AgreesAt, IsWatching, Good-IsWatching, change-Good,
  remove_channel-Good, Agrees-Ready,
}
use my_moduo.Net.Epoller.{
  Epoller, init, has_channel, update_channel, remove_channel, change, destroy,
}

change-IsWatching :
    (j : ℕ) (c : Change) (p : Epoller) {q : Epoller}
    → IsWatching p
    → change j c p ≡ some q
    → IsWatching q
change-IsWatching j c p {q} h e =
    Good-IsWatching j p q h (change-Good j c p (h.agrees j) h.accepted e)

remove_channel-IsWatching :
    (j : ℕ) (p : Epoller) {q : Epoller} → IsWatching p → remove_channel j p ≡ some q → IsWatching q
remove_channel-IsWatching j p {q} h e = Good-IsWatching j p q h (
    remove_channel-Good (p.store j).index j p refl (Agrees-Ready _ _ _ _ _ (h.agrees j)) h.accepted
      e)

destroy-IsWatching :
    (j : ℕ) (p : Epoller) {q : Epoller} → IsWatching p → destroy j p ≡ some q → IsWatching q
unfolding destroy
destroy-IsWatching j p {q} h e = elim (Bool-cases (has_channel j p)) [
  | inl there ↦
      let (r, s, t) =
        bind-eq-some (change j Change.disable_all p) (λ q. remove_channel j q) (rw there at e) in
      remove_channel-IsWatching j r (change-IsWatching j Change.disable_all p h s) t
  | inr gone ↦
      let some_same : some p ≡ some q = rw gone at e in
      let same : p ≡ q = cc in subst IsWatching same h
]

-- The calls on the channels of a loop.
pub data Op : Type 0 where
  changes : ℕ → Change → Op
  removes destroys : ℕ → Op

unfoldable pub step : Epoller → Op → Option Epoller
step p (changes i c) = change i c p
step p (removes i) = remove_channel i p
step p (destroys i) = destroy i p

unfoldable pub run : Epoller → List Op → Option Epoller
run p [] = some p
run p (op ∷ ops) = step p op >>= λ q. run q ops

init-IsWatching : (fds : ℕ → ℕ) → ((i j : ℕ) → fds i ≡ fds j → i ≡ j) → IsWatching (init fds)
init-IsWatching fds h = record {
  distinct = h;
  agrees = λ i. (refl, unfold watched in refl);
  accepted = unfold Accepted in tt;
}

step-IsWatching :
    (op : Op) (p : Epoller) {q : Epoller} → IsWatching p → step p op ≡ some q → IsWatching q
unfolding step
step-IsWatching (changes i c) p h e = change-IsWatching i c p h e
step-IsWatching (removes i) p h e = remove_channel-IsWatching i p h e
step-IsWatching (destroys i) p h e = destroy-IsWatching i p h e

run-IsWatching :
    (ops : List Op) (p : Epoller) {q : Epoller} → IsWatching p → run p ops ≡ some q → IsWatching q
unfolding run
run-IsWatching [] p {q} h e = let same : p ≡ q = cc in subst IsWatching same h
run-IsWatching (op ∷ ops) p {q} h e =
    let (r, s, t) = bind-eq-some (step p op) (λ r. run r ops) e in
    run-IsWatching ops r (step-IsWatching op p h s) t

-- The events that the system is to watch the descriptor of a channel for.
abbrev pub interest : Channel → Option Events
interest c = elim c.index [ added ↦ some c.events | _ ↦ none ]

interest-Agrees :
    (i : ℕ) (c : Channel) (x : ChannelIndex) (entry : Option ℕ) (w : Option Events)
    → c.index ≡ x
    → Agrees c.index i c.events entry w
    → w ≡ interest c
interest-Agrees i c new entry w r h = ground arith
interest-Agrees i c added entry w r h = ground arith
interest-Agrees i c deleted entry w r h = ground arith

run-init-IsWatching :
    (fds : ℕ → ℕ) (ops : List Op) {q : Epoller}
    → ((i j : ℕ) → fds i ≡ fds j → i ≡ j)
    → run (init fds) ops ≡ some q
    → IsWatching q
run-init-IsWatching fds ops h e = run-IsWatching ops (init fds) (init-IsWatching fds h) e

-- If every channel has a descriptor of its own, then through every sequence of calls of which no
-- `assert` fails, `epoll_ctl` refuses none of the calls that are made, and the system watches the
-- descriptor of each channel for the events of that channel, if its index is `kAdded`, and not at
-- all otherwise.
pub run-init-watched :
    (fds : ℕ → ℕ) (ops : List Op) {q : Epoller}
    → ((i j : ℕ) → fds i ≡ fds j → i ≡ j)
    → run (init fds) ops ≡ some q
    → Accepted q.ctls × ((i : ℕ) → watched q.ctls (q.store i).fd ≡ interest (q.store i))
run-init-watched fds ops {q} h e =
    let w = run-init-IsWatching fds ops h e in
    (w.accepted, λ i. interest-Agrees i (q.store i) (q.store i).index _ _ refl (w.agrees i))

-- `removeChannel` of a channel in the table.
abbrev Removes : ℕ → Epoller → Option Epoller → Type 0
Removes j p r =
    (q : Epoller) × (r ≡ some q)
    × (has_channel j q ≡ false)
    × (watched q.ctls (p.store j).fd ≡ none)

remove_channel_lem :
    (x : ChannelIndex) (j : ℕ) (p : Epoller)
    → (p.store j).index ≡ x
    → AgreesAt p j
    → has_channel j p ≡ true
    → Removes j p (remove_channel j p)
unfolding remove_channel watched
remove_channel_lem new j p r h t = absurd (ground arith)
remove_channel_lem _ j p r h t = elim (Option-cases (remove_channel j p)) [
  | inl e ↦ absurd (ground arith)
  | inr (q, e) ↦ (q, e, ground arith, ground arith)
]

disable_all_lem :
    (x : ChannelIndex) (j : ℕ) (p : Epoller)
    → (p.store j).index ≡ x
    → AgreesAt p j
    → has_channel j p ≡ true
    → (q : Epoller) × (change j Change.disable_all p ≡ some q)
      × (has_channel j q ≡ true)
      × ((q.store j).fd ≡ (p.store j).fd)
unfolding change update_channel change_events
disable_all_lem new j p r h t = absurd (ground arith)
disable_all_lem _ j p r h t = elim (Option-cases (change j Change.disable_all p)) [
  | inl e ↦ absurd (ground arith)
  | inr (q, e) ↦ (q, e, ground arith, ground arith)
]

unwatched_lem :
    (x : ChannelIndex) (j : ℕ) (p : Epoller)
    → (p.store j).index ≡ x
    → AgreesAt p j
    → has_channel j p ≡ false
    → watched p.ctls (p.store j).fd ≡ none
unwatched_lem _ j p r h t = ground arith

-- While index, table and system agree for every channel, the destructor of a channel returns,
-- whatever its index is: no `assert` fails, the table has the channel no more, and the system does
-- not watch its descriptor.
destroy_lem :
    (j : ℕ) (p : Epoller)
    → IsWatching p
    → (q : Epoller) × (destroy j p ≡ some q)
      × (has_channel j q ≡ false)
      × (watched q.ctls (p.store j).fd ≡ none)
unfolding destroy
destroy_lem j p h = elim (Bool-cases (has_channel j p)) [
  | inl there ↦
      let (r, disabled, still, same) =
        disable_all_lem (p.store j).index j p refl (h.agrees j) there in
      let w = change-IsWatching j Change.disable_all p h disabled in
      let (q, removed, gone, unwatched) =
        remove_channel_lem (r.store j).index j r refl (w.agrees j) still in
      (q, rw (there, disabled) removed, gone, rw (← same) unwatched)
  | inr gone ↦ (p, rw gone refl, gone, unwatched_lem (p.store j).index j p refl (h.agrees j) gone)
]
