-- ===== src/Net/Channel.antt =====
-- Net/channel.h and Net/channel.cpp: what a channel waits for, and whom it calls.
-- The bits of `kReadEvent` are set and cleared together, so `m_events` is two flags.
use my_moduo.Base.{ℕ, Bool, true, false, not, ◌&&◌, ◌||◌, List, [], ◌∷◌, ◌++◌, if◌then◌else◌}

-- `ChannelIndex`
pub data ChannelIndex : Type 0 where
  new added deleted : ChannelIndex

-- `m_events`
pub record Events : Type 0 where
  pub reading : Bool
  pub writing : Bool

pub record Channel : Type 0 where
  pub fd : ℕ
  pub events : Events
  pub index : ChannelIndex

-- `Channel(EventLoop *loop, int n_fd)`
abbrev pub init : ℕ → Channel
init n = record { fd = n; events = record { reading = false; writing = false }; index = new }

-- `isRegistered`: `m_events != 0`
abbrev pub is_registered : Events → Bool
is_registered e = e.reading || e.writing

-- The changes of `m_events`; each is followed by `update`.
pub data Change : Type 0 where
  enable_reading enable_writing disable_reading disable_writing disable_all : Change

unfoldable pub change_events : Change → Events → Events
change_events enable_reading e = record e { reading = true }
change_events enable_writing e = record e { writing = true }
change_events disable_reading e = record e { reading = false }
change_events disable_writing e = record e { writing = false }
change_events disable_all e = record { reading = false; writing = false }

-- `m_revents`, by the bits that are read.
pub record Revents : Type 0 where
  pub epollerr : Bool
  pub epollhup : Bool
  pub epollin : Bool
  pub epollpri : Bool
  pub epollrdhup : Bool
  pub epollout : Bool

pub data Callback : Type 0 where
  error_callback close_callback read_callback write_callback : Callback

-- `handleEventWithGuard`: the callbacks that are called, in order, of those that are set.
unfoldable pub handle_event_with_guard : (Callback → Bool) → Revents → List Callback
handle_event_with_guard is_set r =
    (if r.epollerr && is_set error_callback then error_callback ∷ [] else [])
    ++ ((if r.epollhup && not r.epollin && is_set close_callback then close_callback ∷ [] else [])
        ++ ((if (r.epollin || r.epollpri || r.epollrdhup) && is_set read_callback
              then read_callback ∷ []
              else [])
            ++ (if r.epollout && is_set write_callback then write_callback ∷ [] else [])))

-- `handleEvent`: a channel that is tied to an object calls nothing once that is gone.
unfoldable pub handle_event : Bool → Bool → (Callback → Bool) → Revents → List Callback
handle_event tied alive is_set r =
    if tied && not alive then [] else handle_event_with_guard is_set r
