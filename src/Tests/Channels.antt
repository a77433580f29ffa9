-- ===== src/Tests/Channels.antt =====
-- Net/epoller.cpp at concrete inputs.
use my_moduo.Base.{ℕ, ◌≡◌, refl, List, [], ◌∷◌, Option, none, some}
use my_moduo.Net.Channel.{enable_reading, enable_writing, disable_all, change_events}
use my_moduo.Net.Epoller.Interest.{watched, Accepted}
use my_moduo.Net.Epoller.Lifetime.{Op, changes, removes, step, run, interest, run-init-watched}
use my_moduo.Net.Epoller.{Epoller, init, update_channel, remove_channel, change}

abbrev own_fd : ℕ → ℕ
own_fd i = i

own_fd-injective : (i j : ℕ) → own_fd i ≡ own_fd j → i ≡ j
own_fd-injective i j e = e

-- Channel 5 is enabled twice; channel 6 comes and goes.
abbrev ops : List Op
ops =
    changes 5 enable_reading
    ∷ changes 6 enable_reading
    ∷ changes 5 enable_writing
    ∷ changes 6 disable_all
    ∷ removes 6
    ∷ []

abbrev unwrap : Option Epoller → Epoller
unwrap none = init own_fd
unwrap (some p) = p

abbrev reached : Epoller
reached = unwrap (run (init own_fd) ops)

run-ops-reached : run (init own_fd) ops ≡ some reached
unfolding run step change change_events update_channel remove_channel
run-ops-reached = refl

run-init-watched_example :
    Accepted reached.ctls
    × ((i : ℕ) → watched reached.ctls (reached.store i).fd ≡ interest (reached.store i))
run-init-watched_example =
    run-init-watched own_fd ops {q = reached} own_fd-injective run-ops-reached
