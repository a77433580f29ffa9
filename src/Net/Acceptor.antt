-- ===== src/Net/Acceptor.antt =====
-- Net/acceptor.{h,cpp}: the listening socket, with its spare descriptor for when there are too many.
-- What the system calls answer is an argument. `opened` lists the descriptors that they have given,
-- `closed` those that were closed, and `handed` those that went to the callback, which is set or not.
pub mod NoLeak
use my_moduo.Base.{
  ℕ, ◌+◌, Bool, true, false, List, [], ◌∷◌, ◌++◌, Option, none, some, if◌then◌else◌,
}

-- What `accept4` answers: a connection, `EMFILE`, or another error.
pub data Accept4 : Type 0 where
  accepted : ℕ → Accept4
  too_many_files other_error : Accept4

-- A descriptor that is `none` stands for -1.
pub record Acceptor : Type 0 where
  pub listen_fd : ℕ
  pub idle_fd : Option ℕ
  pub is_listening : Bool
  pub has_callback : Bool
  pub opened : List ℕ
  pub closed : List ℕ
  pub handed : List ℕ

-- The descriptor that a call has given, if it has given one.
abbrev pub given : Option ℕ → List ℕ
given none = []
given (some fd) = fd ∷ []

-- `m_idle_fd = accept(...)` and `m_idle_fd = ::open(...)`
abbrev pub set_idle_fd : Option ℕ → Acceptor → Acceptor
set_idle_fd fd a = record a { idle_fd = fd; opened = a.opened ++ given fd }

-- `close(m_idle_fd)`, which does nothing to -1.
abbrev pub close_idle_fd : Acceptor → Acceptor
close_idle_fd a = record a { closed = a.closed ++ given a.idle_fd }

-- The fields behind the constructor.
abbrev pub bound : ℕ → Option ℕ → Acceptor
bound fd null = record {
  listen_fd = fd;
  idle_fd = null;
  is_listening = false;
  has_callback = false;
  opened = fd ∷ given null;
  closed = [];
  handed = [];
}

-- `Acceptor(loop, address)`: `none` is the call of `exit` where there is no socket. the last
-- argument says whether the address could be reused and bound, and `null` is what `open` answers
-- for `/dev/null`.
unfoldable pub create : Option ℕ → Option ℕ → Bool → Option Acceptor
create (some fd) null true = some (bound fd null)
create _ null _ = none

-- `Listen`: `none` is the failure of the `assert`.
unfoldable pub listen : Bool → Acceptor → Option Acceptor
listen true a = some (record a { is_listening = true })
listen false a = none

-- `setNewConnectionCallback`, with a callback that is not empty.
abbrev pub set_new_connection_callback : Acceptor → Acceptor
set_new_connection_callback a = record a { has_callback = true }

-- The end of `handleConnect`: a descriptor is handed on if there is a callback, and left open
-- otherwise.
abbrev pub hand_on : ℕ → Acceptor → Acceptor
hand_on fd a = if a.has_callback then record a { handed = a.handed ++ fd ∷ [] } else a

-- `handleConnect`, with what `accept4`, the second `accept` and `open` answer.
unfoldable pub handle_connect : Accept4 → Option ℕ → Option ℕ → Acceptor → Acceptor
handle_connect (accepted fd) again null a = hand_on fd (record a { opened = a.opened ++ fd ∷ [] })
handle_connect too_many_files again null a =
    set_idle_fd null (close_idle_fd (set_idle_fd again (close_idle_fd a)))
handle_connect other_error again null a = a

-- `~Acceptor`
unfoldable pub destroy : Acceptor → Acceptor
destroy a = record a { closed = a.closed ++ (a.listen_fd ∷ given a.idle_fd) }
