-- ===== src/Net/Acceptor/NoLeak.antt =====
-- Every descriptor that an acceptor opens is handed on or closed.
use mathlib.Core.Path.{subst}
use my_moduo.Base.{
  ℕ, ◌+◌, ◌≡◌, refl, sym, if-true, true, List, [], ◌∷◌, ◌++◌, Option, some, arith, tally,
  tally-append, ◌==◌, if◌then◌else◌,
}
use my_moduo.Net.Acceptor.{
  Accept4, accepted, too_many_files, other_error, Acceptor, bound, given, create, handle_connect,
  destroy, set_new_connection_callback,
}

-- How often a descriptor occurs.
abbrev pub times : ℕ → List ℕ → ℕ
times fd fds = tally (λ x. if x == fd then 1 else 0) fds

-- Each descriptor was opened as often as it has been closed or handed on, or is held.
abbrev pub Balanced : List ℕ → Acceptor → Type 0
Balanced held a =
    (fd : ℕ) → times fd a.opened ≡ times fd a.closed + (times fd a.handed + times fd held)

abbrev pub held_by : Acceptor → List ℕ
held_by a = a.listen_fd ∷ given a.idle_fd

times-append : (fd : ℕ) (xs ys : List ℕ) → times fd (xs ++ ys) ≡ times fd xs + times fd ys
times-append fd xs ys = tally-append (λ x. if x == fd then 1 else 0) xs ys

times-cons : (fd x : ℕ) (xs : List ℕ) → times fd (x ∷ xs) ≡ times fd (x ∷ []) + times fd xs
unfolding tally
times-cons fd x xs = omega arith

-- The acceptor has a callback, and each descriptor is accounted for.
abbrev pub Accounts : Acceptor → Type 0
Accounts a = (a.has_callback ≡ true) × Balanced (held_by a) a

accepted-Balanced :
    (conn_fd : ℕ) (a : Acceptor)
    → Balanced (held_by a) a
    → Balanced
        (held_by a)
        (record a { opened = a.opened ++ conn_fd ∷ []; handed = a.handed ++ conn_fd ∷ [] })
accepted-Balanced conn_fd a h fd =
    omega (
      arith,
      h fd,
      times-append fd a.opened (conn_fd ∷ []),
      times-append fd a.handed (conn_fd ∷ []),
    )

handle_connect-Accounts :
    (x : Accept4) (again null : Option ℕ) (a : Acceptor)
    → Accounts a
    → Accounts (handle_connect x again null a)
unfolding handle_connect
handle_connect-Accounts (accepted conn_fd) again null a (set, h) =
    let there = record a { opened = a.opened ++ conn_fd ∷ [] } in
    subst Accounts
      (sym (if-true a.has_callback (record there { handed = a.handed ++ conn_fd ∷ [] }) there set))
      (set, accepted-Balanced conn_fd a h)
handle_connect-Accounts too_many_files again null a (set, h) = (
  set,
  λ fd. omega (
    arith,
    h fd,
    times-cons fd a.listen_fd (given a.idle_fd),
    times-cons fd a.listen_fd (given null),
    times-append fd a.opened (given again),
    times-append fd (a.opened ++ given again) (given null),
    times-append fd a.closed (given a.idle_fd),
    times-append fd (a.closed ++ given a.idle_fd) (given again),
  ),
)
handle_connect-Accounts other_error again null a h = h

-- What the three calls answer when the listening socket is readable.
abbrev pub Arrival : Type 0
Arrival = Accept4 × Option ℕ × Option ℕ

unfoldable pub serve : List Arrival → Acceptor → Acceptor
serve [] a = a
serve ((x, again, null) ∷ es) a = serve es (handle_connect x again null a)

serve-Accounts : (es : List Arrival) (a : Acceptor) → Accounts a → Accounts (serve es a)
unfolding serve
serve-Accounts [] a h = h
serve-Accounts ((x, again, null) ∷ es) a h =
    serve-Accounts es (handle_connect x again null a) (handle_connect-Accounts x again null a h)

destroy-Balanced : (a : Acceptor) → Balanced (held_by a) a → Balanced [] (destroy a)
unfolding destroy tally
destroy-Balanced a h fd = omega (arith, h fd, times-append fd a.closed (held_by a))

create-Balanced :
    (fd : ℕ) (null : Option ℕ) {a : Acceptor}
    → create (some fd) null true ≡ some a
    → Balanced (held_by a) a
unfolding create tally
create-Balanced fd null {a} e =
    let same : bound fd null ≡ a = cc in subst (λ x. Balanced (held_by x) x) same (λ k. omega arith)

-- From its constructor to its destructor, whatever `accept4`, `accept` and `open` answer in between,
-- an acceptor whose callback is set before the first event closes each descriptor that it was given
-- and has not handed to the callback, as often as it was given it.
pub serve-no_leak :
    (sock : ℕ) (null : Option ℕ) (es : List Arrival) {a : Acceptor}
    → create (some sock) null true ≡ some a
    → Balanced [] (destroy (serve es (set_new_connection_callback a)))
serve-no_leak sock null es {a} e =
    let (_, h) =
      serve-Accounts es (set_new_connection_callback a) (refl, create-Balanced sock null e) in
    destroy-Balanced _ h
