-- ===== src/Socket/Gateway/Tests.antt =====
-- Runs of the gateway in memory.
use rental_application_nest.Prelude.{ℕ, ◌≡◌, refl, true, false, Option, none, some, List, [], In}
use rental_application_nest.External.Memory.{memory_sets}
use rental_application_nest.External.Hashes.{memory_hashes}
use rental_application_nest.Socket.Presence.{
  ConnectionInfo, UserStatus, State, same_set, get_user_connection_info, is_user_online,
}
use rental_application_nest.Socket.Gateway.{Gateway, handle_connection, handle_disconnect}
use rental_application_nest.Socket.Gateway.Reconnect.{handle_disconnect-is_user_online}

abbrev Memory : Type 0
Memory =
    Gateway
      (State (Unit {0} → List ℕ) (ℕ → Option ConnectionInfo) (ℕ → Option ℕ) (ℕ → Option UserStatus))

abbrev empty : Memory
empty = record {
  redis = record {
    online = λ k. [];
    user_sockets = λ u. none;
    socket_users = λ k. none;
    statuses = λ u. none;
  };
  open_sockets = [];
}

abbrev connect : ℕ → ℕ → ℕ → Memory → Memory
connect now id user_id g =
    handle_connection (memory_sets same_set) memory_hashes memory_hashes memory_hashes now id
      (some user_id) g

abbrev both : Memory
both = connect 50 3 7 (connect 0 1 7 empty)

handle_disconnect-is_user_online_example :
    let g =
      handle_disconnect
        (memory_sets same_set)
        memory_hashes
        memory_hashes
        memory_hashes
        60
        1
        both in
    (is_user_online (memory_sets same_set) memory_hashes memory_hashes memory_hashes 7 both.redis
      ≡ true)
    × In (record { id = 3; user_id = 7 }) g.open_sockets
    × (is_user_online (memory_sets same_set) memory_hashes memory_hashes memory_hashes 7 g.redis
        ≡ false)
unfolding get_user_connection_info
handle_disconnect-is_user_online_example =
    handle_disconnect-is_user_online (memory_sets same_set) memory_hashes memory_hashes
      memory_hashes 0 50 60 7 1 3 empty refl refl
