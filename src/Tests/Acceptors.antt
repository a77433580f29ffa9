-- ===== src/Tests/Acceptors.antt =====
-- Net/acceptor.cpp at concrete inputs.
use my_moduo.Base.{◌≡◌, refl, true, List, [], ◌∷◌, none, some}
use my_moduo.Net.Acceptor.NoLeak.{Arrival, Balanced, serve, serve-no_leak}
use my_moduo.Net.Acceptor.{
  accepted, too_many_files, bound, create, set_new_connection_callback, handle_connect, destroy,
}

abbrev arrivals : List Arrival
arrivals =
    (accepted 7, none, none) ∷ (too_many_files, some 4, some 4) ∷ (too_many_files, none, none) ∷ []

create-bound : create (some 3) (some 4) true ≡ some (bound 3 (some 4))
unfolding create
create-bound = refl

serve-no_leak_example :
    Balanced [] (destroy (serve arrivals (set_new_connection_callback (bound 3 (some 4)))))
serve-no_leak_example = serve-no_leak 3 (some 4) arrivals create-bound

-- The spare descriptor makes room for the connection that is closed at once.
serve-arrivals : (serve arrivals (set_new_connection_callback (bound 3 (some 4)))).handed ≡ 7 ∷ []
unfolding serve handle_connect
serve-arrivals = refl

-- Without a callback the accepted descriptor stays open for ever.
leaked : (destroy (serve ((accepted 7, none, none) ∷ []) (bound 3 (some 4)))).closed ≡ 3 ∷ 4 ∷ []
unfolding destroy serve handle_connect
leaked = refl
