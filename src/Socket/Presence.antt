-- ===== src/Socket/Presence.antt =====
-- src/features/socket.gateway/services/socket-auth.service.ts: who is online, in Redis. Users and
-- sockets are numbers; the process id, the user's profile and the status hash's worker are left out.
pub mod Agreement
mod Tests
use rental_application_nest.Prelude.{
  ℕ, ◌+◌, ◌≡◌, Bool, true, false, not, ◌&&◌, Option, none, some, List, [], ◌∷◌, if◌then◌else◌, ◌==◌,
  ltb,
}
use rental_application_nest.External.Sets.{SetStore}
use rental_application_nest.External.Hashes.{Hashes}

-- `UserConnectionInfo`
pub record ConnectionInfo : Type 0 where
  pub socket_id : ℕ
  pub connected_at : ℕ

pub record UserStatus : Type 0 where
  pub is_online : Bool
  pub last_seen : ℕ

pub record State (Online UserSockets SocketUsers Statuses : Type 0) : Type 0 where
  pub online : Online
  pub user_sockets : UserSockets
  pub socket_users : SocketUsers
  pub statuses : Statuses

-- `ONLINE_USERS` is one key.
abbrev pub same_set : Unit {0} → Unit {0} → Bool
same_set k j = true

module _ {Online UserSockets SocketUsers Statuses : Type 0}
    (online_users : SetStore (Unit {0}) Online same_set)
    (user_socket_map : Hashes ConnectionInfo UserSockets) (socket_user_map : Hashes ℕ SocketUsers)
    (user_status : Hashes UserStatus Statuses) where
  abbrev pub Db : Type 0
  Db = State Online UserSockets SocketUsers Statuses

  unfoldable pub add_online_user : ℕ → ℕ → ℕ → Db → Db
  add_online_user now user_id socket_id s = record {
    online = online_users.sadd tt user_id s.online;
    user_sockets =
        user_socket_map.hset user_id (record { socket_id = socket_id; connected_at = now })
          s.user_sockets;
    socket_users = socket_user_map.hset socket_id user_id s.socket_users;
    statuses = user_status.hset user_id (record { is_online = true; last_seen = now }) s.statuses;
  }

  unfoldable pub remove_online_user : ℕ → ℕ → ℕ → Db → Db
  remove_online_user now user_id socket_id s = record {
    online = online_users.srem tt user_id s.online;
    user_sockets = user_socket_map.del user_id s.user_sockets;
    socket_users = socket_user_map.del socket_id s.socket_users;
    statuses = user_status.hset user_id (record { is_online = false; last_seen = now }) s.statuses;
  }

  unfoldable pub get_user_connection_info : ℕ → Db → Option ConnectionInfo
  get_user_connection_info user_id s = user_socket_map.hgetall user_id s.user_sockets

  -- The old socket, for the caller to disconnect, where there is another one.
  unfoldable pub handle_user_connection : ℕ → ℕ → ℕ → Db → Option ℕ × Db
  unfolding get_user_connection_info
  handle_user_connection now user_id socket_id s = elim (get_user_connection_info user_id s) [
    | none ↦ (none, add_online_user now user_id socket_id s)
    | some info ↦
        if not (info.socket_id == socket_id)
        then (
          some info.socket_id,
          record s { socket_users = socket_user_map.del info.socket_id s.socket_users },
        )
        else (none, add_online_user now user_id socket_id s)
  ]

  unfoldable pub handle_user_disconnection : ℕ → ℕ → ℕ → Db → Db
  handle_user_disconnection now user_id socket_id s = remove_online_user now user_id socket_id s

  unfoldable pub is_user_online : ℕ → Db → Bool
  is_user_online user_id s = online_users.sismember tt user_id s.online

  -- One user of the cleanup job; a connection is stale after 5 minutes.
  abbrev pub clean_info : ℕ → ℕ → Option ConnectionInfo → Db → Db
  clean_info now user_id none s = s
  clean_info now user_id (some info) s =
      if ltb (info.connected_at + 300000) now
      then remove_online_user now user_id info.socket_id s
      else s

  unfoldable pub clean_each : ℕ → List ℕ → Db → Db
  unfolding get_user_connection_info
  clean_each now [] s = s
  clean_each now (user_id ∷ users) s =
      clean_each now users (clean_info now user_id (get_user_connection_info user_id s) s)

  unfoldable pub cleanup_job : ℕ → Db → Db
  cleanup_job now s = clean_each now (online_users.smembers tt s.online) s
