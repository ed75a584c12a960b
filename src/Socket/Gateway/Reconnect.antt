-- ===== src/Socket/Gateway/Reconnect.antt =====
-- What is left of a user who opens a second socket and closes the first.
use rental_application_nest.Prelude.{
  ℕ, Bool, Option, ◌≡◌, refl, ap, true, false, not, none, some, List, ◌∷◌, ◌==◌, ==_refl, arith,
  inl, In, find, In-filter_of_In,
}
use rental_application_nest.External.Sets.{SetStore}
use rental_application_nest.External.Hashes.{Hashes}
use rental_application_nest.Socket.Presence.{
  ConnectionInfo, UserStatus, State, same_set, add_online_user, get_user_connection_info,
  handle_user_connection, is_user_online,
}
use rental_application_nest.Socket.Presence.Agreement.{
  connection_new, connection_other, removed_offline, step,
}
use rental_application_nest.Socket.Gateway.{
  Client, Gateway, handle_connection, forget, handle_disconnect,
}

module _ {Online UserSockets SocketUsers Statuses : Type 0}
    (online_users : SetStore (Unit {0}) Online same_set)
    (user_socket_map : Hashes ConnectionInfo UserSockets) (socket_user_map : Hashes ℕ SocketUsers)
    (user_status : Hashes UserStatus Statuses) where
  abbrev Db : Type 0
  Db = State Online UserSockets SocketUsers Statuses

  abbrev Store : Type 0
  Store = Gateway Db

  abbrev online : ℕ → Db → Bool
  online user_id s =
      is_user_online online_users user_socket_map socket_user_map user_status user_id s

  abbrev info_of : ℕ → Db → Option ConnectionInfo
  info_of user_id s =
      get_user_connection_info online_users user_socket_map socket_user_map user_status user_id s

  abbrev connect : ℕ → ℕ → ℕ → Store → Store
  connect now id user_id g =
      handle_connection online_users user_socket_map socket_user_map user_status now id
        (some user_id) g

  abbrev disconnect : ℕ → ℕ → Store → Store
  disconnect now id g =
      handle_disconnect online_users user_socket_map socket_user_map user_status now id g

  first_connection :
      (now user_id a : ℕ) (s : Db)
      → info_of user_id s ≡ none
      → let s' =
          (handle_user_connection online_users user_socket_map socket_user_map user_status now
            user_id a s).1 in
        (online user_id s' ≡ true)
        × (info_of user_id s' ≡ some (record { socket_id = a; connected_at = now }))
  unfolding get_user_connection_info add_online_user is_user_online
  first_connection now user_id a s missing =
      rw
        (connection_new online_users user_socket_map socket_user_map user_status now user_id a s
          missing)
        (
          ground
              (arith, online_users.sismember-sadd tt tt user_id user_id s.online, ==_refl user_id),
          rw
              (
                user_socket_map.hgetall-hset user_id user_id
                    (record { socket_id = a; connected_at = now }) s.user_sockets,
                ==_refl user_id,
              )
              refl,
        )

  second_connection :
      (now user_id b : ℕ) (s : Db) {info : ConnectionInfo}
      → info_of user_id s ≡ some info
      → (info.socket_id == b) ≡ false
      → online user_id s ≡ true
      → online user_id
          (handle_user_connection online_users user_socket_map socket_user_map user_status now
            user_id b s).1
        ≡ true
  unfolding is_user_online
  second_connection now user_id b s known other up =
      rw
        (connection_other online_users user_socket_map socket_user_map user_status now user_id b s
          known other)
        up

  -- Closing a socket that was opened before another one of the same user.
  close_first :
      (now a b user_id : ℕ) (s : Db) (cs : List Client)
      → (a == b) ≡ false
      → let g : Store = record {
        redis = s;
        open_sockets =
            record { id = b; user_id = user_id } ∷ record { id = a; user_id = user_id } ∷ cs;
      } in
        let forgot =
          forget online_users user_socket_map socket_user_map user_status now
            (some (record { id = a; user_id = user_id }))
            g in
        (disconnect now a g ≡ forgot)
        × In (record { id = b; user_id = user_id }) forgot.open_sockets
        × (online user_id forgot.redis ≡ false)
  unfolding handle_disconnect step
  close_first now a b user_id s cs other =
      let first : Client = record { id = a; user_id = user_id } in
      let second : Client = record { id = b; user_id = user_id } in
      let g : Store = record { redis = s; open_sockets = second ∷ first ∷ cs } in
      let found : find (λ (c : Client). c.id == a) (second ∷ first ∷ cs) ≡ some first =
        ground (arith, ==_refl a) in
      (
        ap (λ o. forget online_users user_socket_map socket_user_map user_status now o g) found,
        In-filter_of_In (λ (c : Client). not (c.id == a)) (second ∷ first ∷ cs) second (inl refl)
            (ground arith),
        removed_offline online_users user_socket_map socket_user_map user_status now user_id a s,
      )

  -- A user who has no connection recorded opens a socket, then opens another one, and closes the first:
  -- while both are open the user counts as online, and afterwards the second one is still an open socket
  -- of the user, who counts as offline.
  pub handle_disconnect-is_user_online :
      (t1 t2 t3 user_id a b : ℕ) (g : Store)
      → info_of user_id g.redis ≡ none
      → (a == b) ≡ false
      → let both = connect t2 b user_id (connect t1 a user_id g) in
        let g' = disconnect t3 a both in
        (online user_id both.redis ≡ true)
        × In (record { id = b; user_id = user_id }) g'.open_sockets
        × (online user_id g'.redis ≡ false)
  unfolding handle_connection
  handle_disconnect-is_user_online t1 t2 t3 user_id a b g missing other =
      let one = connect t1 a user_id g in
      let (up, known) = first_connection t1 user_id a g.redis missing in
      let (closed, left, down) =
        close_first t3 a b user_id (connect t2 b user_id one).redis g.open_sockets other in
      (second_connection t2 user_id b one.redis known other up, rw closed left, rw closed down)
