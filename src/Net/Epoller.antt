-- ===== src/Net/Epoller.antt =====
-- Net/epoller.{h,cpp}: the table of channels, and the calls of `epoll_ctl`.
-- A channel is a number, its address; the channels of a loop are in a store. `update` puts the call
-- of `epoll_ctl` into a log.
pub mod Interest
pub mod Lifetime
pub mod Polling
use my_moduo.Base.{
  ℕ, Bool, true, false, List, [], ◌∷◌, Option, none, some, ◌==◌, if◌then◌else◌, ◌>>=◌,
}
use my_moduo.Net.Channel.{
  Channel, ChannelIndex, new, added, deleted, Events, is_registered, Change, change_events,
}
use my_moduo.Net.Channel

-- A call of `epoll_ctl`: the operation, the descriptor and the events.
pub data Ctl : Type 0 where
  ctl_add ctl_mod : ℕ → Events → Ctl
  ctl_del : ℕ → Ctl

pub record Epoller : Type 0 where
  pub store : ℕ → Channel
  pub channels : ℕ → Option ℕ
  pub ctls : List Ctl

-- New channels, with these descriptors, and an empty table.
abbrev pub init : (ℕ → ℕ) → Epoller
init fds = record { store = λ i. Channel.init (fds i); channels = λ fd. none; ctls = [] }

-- A map with another value at one key.
abbrev pub put {ℓ} : {A : Type ℓ} → ℕ → A → (ℕ → A) → ℕ → A
put k x f j = if j == k then x else f j

-- `update`, with the newest call first.
abbrev pub update : Ctl → Epoller → Epoller
update c p = record p { ctls = c ∷ p.ctls }

abbrev pub set_index : ℕ → ChannelIndex → Epoller → Epoller
set_index i x p = record p { store = put i (record (p.store i) { index = x }) p.store }

-- `m_channels.find(fd) != m_channels.end()` and `m_channels[fd] == channel`; also `hasChannel`.
abbrev pub has_channel : ℕ → Epoller → Bool
has_channel i p = elim (p.channels (p.store i).fd) [ none ↦ false | some j ↦ j == i ]

-- `updateChannel`. `none` is the failure of an `assert`.
unfoldable pub update_channel : ℕ → Epoller → Option Epoller
update_channel i p = elim (p.store i).index [
  | new ↦ some (
      update (ctl_add (p.store i).fd (p.store i).events)
        (set_index i added (record p { channels = put (p.store i).fd (some i) p.channels })))
  | deleted ↦
      if has_channel i p
      then some (update (ctl_add (p.store i).fd (p.store i).events) (set_index i added p))
      else none
  | added ↦
      if has_channel i p
      then some (
          if is_registered (p.store i).events
          then update (ctl_mod (p.store i).fd (p.store i).events) p
          else set_index i deleted (update (ctl_del (p.store i).fd) p))
      else none
]

-- `removeChannel`
unfoldable pub remove_channel : ℕ → Epoller → Option Epoller
remove_channel i p =
    if has_channel i p
    then elim (p.store i).index [
      | new ↦ none
      | added ↦ some (record (set_index i deleted (update (ctl_del (p.store i).fd) p)) {
        channels = put (p.store i).fd none p.channels;
      })
      | deleted ↦ some (record p { channels = put (p.store i).fd none p.channels })
    ]
    else none

-- `enableReading`, `disableAll` and the others: the events change, then comes `update`.
unfoldable pub change : ℕ → Change → Epoller → Option Epoller
change i c p = update_channel i (record p {
  store = put i (record (p.store i) { events = change_events c (p.store i).events }) p.store;
})

-- `~Channel`
unfoldable pub destroy : ℕ → Epoller → Option Epoller
destroy i p =
    if has_channel i p then (change i Change.disable_all p >>= λ q. remove_channel i q) else some p
