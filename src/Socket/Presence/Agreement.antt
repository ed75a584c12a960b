-- ===== src/Socket/Presence/Agreement.antt =====
-- The set of online users, the connections and the statuses tell the same.
use rental_application_nest.Prelude.{
  ℕ, ◌+◌, ◌≡◌, refl, sym, inl, inr, Bool, true, false, Option, none, some, List, [], ◌∷◌, ◌==◌, ltb,
  is_some, arith, ==_refl, Option-cases, Bool-cases,
}
use mathlib.Core.Path.{subst}
use rental_application_nest.External.Sets.{SetStore}
use rental_application_nest.External.Hashes.{Hashes}
use rental_application_nest.Socket.Presence.{
  ConnectionInfo, UserStatus, State, same_set, add_online_user, remove_online_user,
  get_user_connection_info, handle_user_connection, handle_user_disconnection, is_user_online,
  clean_info, clean_each, cleanup_job,
}

-- An event of the gateway, its time first, with the user and the socket.
pub data Call : Type 0 where
  connects disconnects : ℕ → ℕ → ℕ → Call
  cleans : ℕ → Call

abbrev pub is_shown : Option UserStatus → Bool
is_shown none = false
is_shown (some status) = status.is_online

module _ {Online UserSockets SocketUsers Statuses : Type 0}
    (online_users : SetStore (Unit {0}) Online same_set)
    (user_socket_map : Hashes ConnectionInfo UserSockets) (socket_user_map : Hashes ℕ SocketUsers)
    (user_status : Hashes UserStatus Statuses) where
  abbrev Db : Type 0
  Db = State Online UserSockets SocketUsers Statuses

  unfoldable pub step : Call → Db → Db
  step (connects now user socket) s =
      (handle_user_connection online_users user_socket_map socket_user_map user_status now user
        socket s).1
  step (disconnects now user socket) s =
      handle_user_disconnection online_users user_socket_map socket_user_map user_status now user
        socket s
  step (cleans now) s = cleanup_job online_users user_socket_map socket_user_map user_status now s

  unfoldable pub run : List Call → Db → Db
  run [] s = s
  run (c ∷ cs) s = run cs (step c s)

  abbrev pub Agrees : Db → Type 0
  Agrees s =
      (u : ℕ)
      → (is_user_online online_users user_socket_map socket_user_map user_status u s
          ≡ is_some (
              get_user_connection_info online_users user_socket_map socket_user_map user_status u
                s))
        × (is_shown (user_status.hgetall u s.statuses)
            ≡ is_user_online online_users user_socket_map socket_user_map user_status u s)

  add-Agrees :
      (now user socket : ℕ) (s : Db)
      → Agrees s
      → Agrees (
          add_online_user online_users user_socket_map socket_user_map user_status now user socket
            s)
  unfolding add_online_user is_user_online get_user_connection_info
  add-Agrees now user socket s a u =
      rw
        (
          online_users.sismember-sadd tt tt user u s.online,
          user_socket_map.hgetall-hset user u (record { socket_id = socket; connected_at = now })
              s.user_sockets,
          user_status.hgetall-hset user u (record { is_online = true; last_seen = now }) s.statuses,
        )
        (elim (Bool-cases (user == u)) [
          | inl same ↦ rw same (refl, refl)
          | inr other ↦ rw other (a u)
        ])

  remove-Agrees :
      (now user socket : ℕ) (s : Db)
      → Agrees s
      → Agrees (
          remove_online_user online_users user_socket_map socket_user_map user_status now user
            socket s)
  unfolding remove_online_user is_user_online get_user_connection_info
  remove-Agrees now user socket s a u =
      rw
        (
          online_users.sismember-srem tt tt user u s.online,
          user_socket_map.hgetall-del user u s.user_sockets,
          user_status.hgetall-hset user u (record { is_online = false; last_seen = now })
              s.statuses,
        )
        (elim (Bool-cases (user == u)) [
          | inl same ↦ rw same (refl, refl)
          | inr other ↦ rw other (a u)
        ])

  pub connection_new :
      (now user socket : ℕ) (s : Db)
      → get_user_connection_info online_users user_socket_map socket_user_map user_status user s
        ≡ none
      → handle_user_connection online_users user_socket_map socket_user_map user_status now user
          socket s
        ≡ (
          none,
          add_online_user online_users user_socket_map socket_user_map user_status now user socket
              s,
        )
  unfolding handle_user_connection
  connection_new now user socket s e = ground arith

  connection_same :
      (now user socket : ℕ) (s : Db) {info : ConnectionInfo}
      → get_user_connection_info online_users user_socket_map socket_user_map user_status user s
        ≡ some info
      → (info.socket_id == socket) ≡ true
      → handle_user_connection online_users user_socket_map socket_user_map user_status now user
          socket s
        ≡ (
          none,
          add_online_user online_users user_socket_map socket_user_map user_status now user socket
              s,
        )
  unfolding handle_user_connection
  connection_same now user socket s e same = ground arith

  pub connection_other :
      (now user socket : ℕ) (s : Db) {info : ConnectionInfo}
      → get_user_connection_info online_users user_socket_map socket_user_map user_status user s
        ≡ some info
      → (info.socket_id == socket) ≡ false
      → handle_user_connection online_users user_socket_map socket_user_map user_status now user
          socket s
        ≡ (
          some info.socket_id,
          record s { socket_users = socket_user_map.del info.socket_id s.socket_users },
        )
  unfolding handle_user_connection
  connection_other now user socket s e other = ground arith

  sockets_only :
      (info : ConnectionInfo) (s : Db)
      → Agrees s
      → Agrees (record s { socket_users = socket_user_map.del info.socket_id s.socket_users })
  unfolding is_user_online get_user_connection_info
  sockets_only info s a u = a u

  connects-Agrees :
      (now user socket : ℕ) (s : Db) → Agrees s → Agrees (step (connects now user socket) s)
  unfolding step
  connects-Agrees now user socket s a =
      elim (Option-cases (
        get_user_connection_info online_users user_socket_map socket_user_map user_status user s)) [
          | inl missing ↦
              subst (λ p. Agrees p.1) (sym (connection_new now user socket s missing))
                (add-Agrees now user socket s a)
          | inr (info, e) ↦ elim (Bool-cases (info.socket_id == socket)) [
            | inl same ↦
                subst (λ p. Agrees p.1) (sym (connection_same now user socket s e same))
                  (add-Agrees now user socket s a)
            | inr other ↦
                subst (λ p. Agrees p.1) (sym (connection_other now user socket s e other))
                  (sockets_only info s a)
          ]
        ]

  clean_info-Agrees :
      (now user : ℕ) (info : Option ConnectionInfo) (s : Db)
      → Agrees s
      → Agrees (clean_info online_users user_socket_map socket_user_map user_status now user info s)
  clean_info-Agrees now user none s a = a
  clean_info-Agrees now user (some info) s a =
      elim (Bool-cases (ltb (info.connected_at + 300000) now)) [
        | inl stale ↦ rw stale (remove-Agrees now user info.socket_id s a)
        | inr recent ↦ rw recent a
      ]

  clean_each-Agrees :
      (now : ℕ) (users : List ℕ) (s : Db)
      → Agrees s
      → Agrees (clean_each online_users user_socket_map socket_user_map user_status now users s)
  unfolding clean_each
  clean_each-Agrees now [] s a = a
  clean_each-Agrees now (u ∷ users) s a =
      clean_each-Agrees now users _ (clean_info-Agrees now u _ s a)

  step-Agrees : (c : Call) (s : Db) → Agrees s → Agrees (step c s)
  unfolding step cleanup_job handle_user_disconnection
  step-Agrees (connects now user socket) s a = connects-Agrees now user socket s a
  step-Agrees (disconnects now user socket) s a = remove-Agrees now user socket s a
  step-Agrees (cleans now) s a = clean_each-Agrees now (online_users.smembers tt s.online) s a

  -- From a state where every user is in the set of online users exactly when they have a connection
  -- recorded and their status is online, any sequence of connections, disconnections and runs of the
  -- cleanup job leads to such a state.
  pub run-Agrees : (cs : List Call) (s : Db) → Agrees s → Agrees (run cs s)
  unfolding run
  run-Agrees [] s a = a
  run-Agrees (c ∷ cs) s a = run-Agrees cs (step c s) (step-Agrees c s a)

  pub removed_offline :
      (now user socket : ℕ) (s : Db)
      → is_user_online online_users user_socket_map socket_user_map user_status user
          (step (disconnects now user socket) s)
        ≡ false
  unfolding step handle_user_disconnection remove_online_user is_user_online
  removed_offline now user socket s =
      ground (arith, online_users.sismember-srem tt tt user user s.online, ==_refl user)
