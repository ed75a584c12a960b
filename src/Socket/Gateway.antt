-- ===== src/Socket/Gateway.antt =====
-- src/features/socket.gateway/socket.gateway.ts: handleConnection and handleDisconnect, over the presence
-- in Redis and the sockets that are open. Rooms, the notices to related users and what is emitted to
-- the socket are left out; no call throws.
pub mod Reconnect
mod Tests
use rental_application_nest.Prelude.{
  ℕ, Bool, not, Option, none, some, List, ◌∷◌, find, filter, ◌==◌,
}
use rental_application_nest.External.Sets.{SetStore}
use rental_application_nest.External.Hashes.{Hashes}
use rental_application_nest.Socket.Presence.{
  ConnectionInfo, UserStatus, State, same_set, handle_user_connection, handle_user_disconnection,
}

-- A socket, with `client.data.userId`
pub record Client : Type 0 where
  pub id : ℕ
  pub user_id : ℕ

pub record Gateway (Db : Type 0) : Type 0 where
  pub redis : Db
  pub open_sockets : List Client

module _ {Online UserSockets SocketUsers Statuses : Type 0}
    (online_users : SetStore (Unit {0}) Online same_set)
    (user_socket_map : Hashes ConnectionInfo UserSockets) (socket_user_map : Hashes ℕ SocketUsers)
    (user_status : Hashes UserStatus Statuses) where
  abbrev pub Store : Type 0
  Store = Gateway (State Online UserSockets SocketUsers Statuses)

  -- `user` is the answer of `authenticateSocket`; without one the socket is closed. The old socket that
  -- `handleUserConnection` answers is not used.
  unfoldable pub handle_connection : ℕ → ℕ → Option ℕ → Store → Store
  handle_connection now id none g = g
  handle_connection now id (some user_id) g = record {
    redis =
        (handle_user_connection online_users user_socket_map socket_user_map user_status now user_id
          id g.redis).1;
    open_sockets = record { id = id; user_id = user_id } ∷ g.open_sockets;
  }

  abbrev pub forget : ℕ → Option Client → Store → Store
  forget now none g = g
  forget now (some client) g = record {
    redis =
        handle_user_disconnection online_users user_socket_map socket_user_map user_status now
          client.user_id client.id g.redis;
    open_sockets = filter (λ c. not (c.id == client.id)) g.open_sockets;
  }

  -- The socket is closed when this is called.
  unfoldable pub handle_disconnect : ℕ → ℕ → Store → Store
  handle_disconnect now id g = forget now (find (λ c. c.id == id) g.open_sockets) g
