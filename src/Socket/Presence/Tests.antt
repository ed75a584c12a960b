-- ===== src/Socket/Presence/Tests.antt =====
-- Runs of the presence in memory.
use rental_application_nest.Prelude.{ℕ, refl, Option, none, List, [], ◌∷◌}
use rental_application_nest.External.Memory.{memory_sets}
use rental_application_nest.External.Hashes.{memory_hashes}
use rental_application_nest.Socket.Presence.{
  ConnectionInfo, UserStatus, State, same_set, get_user_connection_info, is_user_online,
}
use rental_application_nest.Socket.Presence.Agreement.{
  Call, connects, disconnects, cleans, run, Agrees, run-Agrees,
}

abbrev Memory : Type 0
Memory =
    State (Unit {0} → List ℕ) (ℕ → Option ConnectionInfo) (ℕ → Option ℕ) (ℕ → Option UserStatus)

abbrev empty : Memory
empty = record {
  online = λ k. [];
  user_sockets = λ u. none;
  socket_users = λ k. none;
  statuses = λ u. none;
}

abbrev calls : List Call
calls =
    connects 0 7 1 ∷ connects 10 8 2 ∷ connects 20 7 3 ∷ cleans 300005 ∷ disconnects 300010 8 2 ∷ []

run-Agrees_example :
    Agrees
      (memory_sets same_set)
      memory_hashes
      memory_hashes
      memory_hashes
      (run (memory_sets same_set) memory_hashes memory_hashes memory_hashes calls empty)
unfolding is_user_online get_user_connection_info
run-Agrees_example =
    run-Agrees (memory_sets same_set) memory_hashes memory_hashes memory_hashes calls empty
      (λ u. (refl, refl))
