-- ===== src/Notifications.antt =====
-- src/features/notification/notification.service.ts: the notifications of users, and the count of unread
-- ones that Redis keeps. Types, priorities and entities are numbers; a new row's id is an argument. The
-- socket gateway and the queue take what they are given and do not throw. The times `readAt` and
-- `deliveredAt` are left out. `sendNotification` is called for users that exist; in a broadcast a receiver
-- may be unknown, and then the foreign key refuses the row.
pub mod Unread
pub mod Broadcast
mod Tests
use rental_application_nest.Prelude.{
  ℕ, zero, suc, ◌+◌, ◌-◌, ◌*◌, ◌≡◌, Bool, true, false, not, ◌&&◌, Option, none, some, List, [], ◌∷◌,
  ◌++◌, ◌==◌, is_some, take, drop, Text, if◌then◌else◌, Result, ok, err, internal, Action, pure,
  or_throw, throw_if, gets, modify, ◌>>=◌, ◌>>◌,
}
use rental_application_nest.External.Table.{Table}
use rental_application_nest.External.Counters.{Counters, ℤ, pos}
use rental_application_nest.Redis.{get_or_set, invalidate}

-- `receiverRole`, a string: 'admin', or any other.
pub data Role : Type 0 where
  admin : Role
  other_role : ℕ → Role

pub record Notification : Type 0 where
  pub id : ℕ
  pub title : Text
  pub message : Option Text
  pub type : ℕ
  pub priority : Option ℕ
  pub sender_id : Option ℕ
  pub receiver_id : Option ℕ
  pub receiver_role : Option Role
  pub entity_type : Option ℕ
  pub entity_id : Option ℕ
  pub link_for : Option ℕ
  pub link_id : Option ℕ
  pub is_read : Bool
  pub is_deleted : Bool

pub record SendNotificationDto : Type 0 where
  pub title : Text
  pub message : Option Text
  pub type : ℕ
  pub priority : Option ℕ
  pub sender_id : Option ℕ
  pub receiver_id : Option ℕ
  pub receiver_role : Option Role
  pub entity_type : Option ℕ
  pub entity_id : Option ℕ
  pub link_for : Option ℕ
  pub link_id : Option ℕ

-- A receiver stands with the id of its new row. Nothing reads `broadcastToAll`.
pub record BroadcastNotificationDto : Type 0 where
  pub notification : SendNotificationDto
  pub receiver_ids : List (ℕ × ℕ)
  pub broadcast_to_role : Option Role
  pub broadcast_to_all : Bool

-- What goes to the sockets: to all sockets of a role, or to those of a user.
pub data Emission : Type 0 where
  to_role : Role → Notification → Emission
  to_user : ℕ → Notification → Emission
  broadcast : Role → Text → ℕ → Option ℕ → Emission

-- A job of the queue: its receiver and time make its id, then comes its delay.
pub record Job : Type 0 where
  pub receiver : Option ℕ
  pub added_at : ℕ
  pub delay : ℕ
  pub dto : SendNotificationDto

pub record State (Notifications Db : Type 0) : Type 0 where
  pub notifications : Notifications
  pub redis : Db
  pub emitted : List Emission
  pub queued : List Job

pub record NotificationPage : Type 0 where
  pub notifications : List Notification
  pub total : ℕ

abbrev pub unread_count_cache_ttl : ℕ
unread_count_cache_ttl = 300

abbrev pub is_for : ℕ → Option ℕ → Bool
is_for user_id none = false
is_for user_id (some receiver) = receiver == user_id

-- `{ receiverId, isRead: false, isDeleted: false }`
abbrev pub is_unread : ℕ → Notification → Bool
is_unread user_id n = is_for user_id n.receiver_id && (not n.is_read && not n.is_deleted)

-- `{ id, receiverId }`
abbrev pub is_own : ℕ → ℕ → Notification → Bool
is_own id user_id n = n.id == id && is_for user_id n.receiver_id

-- `where.isRead = isRead`, where it is given
abbrev pub has_read : Option Bool → Notification → Bool
has_read none n = true
has_read (some true) n = n.is_read
has_read (some false) n = not n.is_read

-- `delay || dto.delay || 0`
abbrev pub delay_of : Option ℕ → Option ℕ → ℕ
delay_of (some (suc n)) d = suc n
delay_of _ (some d) = d
delay_of _ none = 0

abbrev pub is_known : (ℕ → Bool) → Option ℕ → Bool
is_known known none = true
is_known known (some user_id) = known user_id

-- The foreign keys of a receiver's row
abbrev pub accepted : (ℕ → Bool) → SendNotificationDto → ℕ × ℕ → Bool
accepted known dto r = is_known known dto.sender_id && known r.1

abbrev pub notification_of : ℕ → SendNotificationDto → Notification
notification_of id dto = record {
  id = id;
  title = dto.title;
  message = dto.message;
  type = dto.type;
  priority = dto.priority;
  sender_id = dto.sender_id;
  receiver_id = dto.receiver_id;
  receiver_role = dto.receiver_role;
  entity_type = dto.entity_type;
  entity_id = dto.entity_id;
  link_for = dto.link_for;
  link_id = dto.link_id;
  is_read = false;
  is_deleted = false;
}

-- `emitNotification`: an admin notification goes to the role, whoever receives it.
abbrev pub emissions_of : Notification → List Emission
emissions_of n = elim n.receiver_role [
  | some admin ↦ to_role admin n ∷ []
  | some (other_role r) ↦ elim n.receiver_id [ none ↦ [] | some u ↦ to_user u n ∷ [] ]
  | none ↦ elim n.receiver_id [ none ↦ [] | some u ↦ to_user u n ∷ [] ]
]

-- `newest_first` is the database's sort by `createdAt`.
module _ {Notifications Db : Type 0} (notification : Table Notification Notifications)
    (redis : Counters ℕ Db ◌==◌) (client : Bool)
    (newest_first : List Notification → List Notification) where
  abbrev pub Store : Type 0
  Store = State Notifications Db

  -- INCR, then EXPIRE
  unfoldable pub increment_unread_count : ℕ → ℕ → Db → Db
  increment_unread_count user_id now db =
      if client
      then redis.expire user_id unread_count_cache_ttl now (redis.incr user_id now db)
      else db

  unfoldable pub decrement_unread_count : ℕ → ℕ → Db → Db
  decrement_unread_count user_id now db =
      if client
      then redis.expire user_id unread_count_cache_ttl now (redis.decr user_id now db)
      else db

  abbrev pub counted_for : Option ℕ → ℕ → Db → Db
  counted_for none now db = db
  counted_for (some user_id) now db = increment_unread_count user_id now db

  unfoldable pub send_notification : ℕ → ℕ → SendNotificationDto → Action Store Notification
  send_notification new_id now dto s =
      let n = notification_of new_id dto in
      (
        ok n,
        record s {
          notifications = notification.create n s.notifications;
          emitted = emissions_of n ++ s.emitted;
          redis = counted_for dto.receiver_id now s.redis;
        },
      )

  unfoldable pub enqueue_notification :
      ℕ → Option ℕ → SendNotificationDto → Option ℕ → Store → Store
  enqueue_notification now dto_delay dto delay s = record s {
    queued =
        record {
          receiver = dto.receiver_id;
          added_at = now;
          delay = delay_of delay dto_delay;
          dto = dto;
        }
        ∷ s.queued;
  }

  -- One notification for each receiver, until the database refuses one.
  abbrev pub send_each :
      (ℕ → Bool) → ℕ → SendNotificationDto → List (ℕ × ℕ) → Action Store (Unit {0})
  send_each known now dto [] s = (ok tt, s)
  send_each known now dto (r ∷ rs) s =
      let rest =
        send_each known now dto rs
          (send_notification r.0 now (record dto { receiver_id = some r.1 }) s).1 in
      if accepted known dto r then rest else (err (internal "P2003"), s)

  abbrev pub to_role_too : SendNotificationDto → Option Role → Store → Store
  to_role_too dto none s = s
  to_role_too dto (some role) s = record s {
    emitted = broadcast role dto.title dto.type dto.sender_id ∷ s.emitted;
  }

  -- `known` are the ids of the users that exist.
  unfoldable pub broadcast_notification :
      (ℕ → Bool) → ℕ → BroadcastNotificationDto → Action Store (Unit {0})
  broadcast_notification known now dto = do
    send_each known now dto.notification dto.receiver_ids
    modify (to_role_too dto.notification dto.broadcast_to_role)

  unfoldable pub get_user_notifications : ℕ → ℕ → ℕ → Option Bool → Store → NotificationPage
  get_user_notifications user_id page limit read s =
      let p = λ (n : Notification).
        is_for user_id n.receiver_id && (not n.is_deleted && has_read read n) in
      record {
        notifications =
            take limit
              (drop ((page - 1) * limit) (newest_first (notification.find_many p s.notifications)));
        total = notification.count p s.notifications;
      }

  unfoldable pub fetch_unread_count : ℕ → Store → ℕ
  fetch_unread_count user_id s = notification.count (is_unread user_id) s.notifications

  unfoldable pub get_unread_count : ℕ → ℕ → Action Store ℤ
  get_unread_count user_id now s =
      let (r, db) =
        get_or_set redis.cache client user_id (ok (pos (fetch_unread_count user_id s)))
          unread_count_cache_ttl now s.redis in
      (r, record s { redis = db })

  -- `update` throws where no row has the id and the receiver.
  unfoldable pub mark_as_read : ℕ → ℕ → ℕ → Action Store Notification
  mark_as_read id user_id now = do
    found ← gets (λ s. notification.find_first (is_own id user_id) s.notifications)
    n ← or_throw found (internal "P2025")
    modify (λ s. record s {
      notifications =
          notification.update_many (is_own id user_id) (λ x. record x { is_read = true })
            s.notifications;
    })
    modify (λ s. record s { redis = decrement_unread_count user_id now s.redis })
    pure (record n { is_read = true })

  unfoldable pub mark_all_as_read : ℕ → Action Store ℕ
  mark_all_as_read user_id s = (
    ok (notification.count (is_unread user_id) s.notifications),
    record s {
      notifications =
          notification.update_many (is_unread user_id) (λ x. record x { is_read = true })
            s.notifications;
      redis = invalidate redis.cache client user_id s.redis;
    },
  )

  unfoldable pub delete_notification : ℕ → ℕ → ℕ → Action Store (Unit {0})
  delete_notification id user_id now = do
    found ← gets (λ s. notification.find_first (is_own id user_id) s.notifications)
    n ← or_throw found (internal "P2025")
    modify (λ s. record s {
      notifications =
          notification.update_many (is_own id user_id) (λ x. record x { is_deleted = true })
            s.notifications;
    })
    modify (λ s. record s {
      redis = if n.is_read then s.redis else decrement_unread_count user_id now s.redis;
    })
