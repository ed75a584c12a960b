-- ===== src/Socket/Rooms.antt =====
-- src/features/socket.gateway/services/socket-room.service.ts: who is in which conversation, task
-- and family room, kept twice in Redis sets, by user and by room. Identifiers are only compared,
-- so they are numbers.
pub mod Keys
pub mod Views
pub mod Leaving
pub mod Membership
pub mod Feed
mod Tests
use rental_application_nest.Prelude.{ℕ, Bool, ◌&&◌, Option, none, some, List, [], ◌∷◌, ◌==◌}
use rental_application_nest.External.Sets.{SetStore}

-- The keys, `KEYS`: a prefix and an identifier. No prefix begins another.
pub data Key : Type 0 where
  user_rooms room_users task_rooms user_tasks group_rooms user_groups : ℕ → Key

abbrev family : Key → ℕ
family (user_rooms x) = 0
family (room_users x) = 1
family (task_rooms x) = 2
family (user_tasks x) = 3
family (group_rooms x) = 4
family (user_groups x) = 5

abbrev ident : Key → ℕ
ident (user_rooms x) = x
ident (room_users x) = x
ident (task_rooms x) = x
ident (user_tasks x) = x
ident (group_rooms x) = x
ident (user_groups x) = x

abbrev pub same_key : Key → Key → Bool
same_key k j = family k == family j && ident k == ident j

pub data Role : Type 0 where
  child business admin other : Role

-- What `autoJoinFamilyRoom` selects of a user.
pub record FamilyUser : Type 0 where
  pub role : Role
  pub account_creator_id : Option ℕ

-- The two tests of `autoJoinFamilyRoom`: a child joins its creator's room, a parent their own.
abbrev family_room_of : ℕ → Role → Option ℕ → Option ℕ
family_room_of user_id child (some creator) = some creator
family_room_of user_id business creator = some user_id
family_room_of user_id role creator = none

-- `familyRoomId`, of what `findUnique` found.
unfoldable pub family_room : ℕ → Option FamilyUser → Option ℕ
family_room user_id none = none
family_room user_id (some user) = family_room_of user_id user.role user.account_creator_id

module _ {Db : Type 0} (redis : SetStore Key Db same_key) where
  open redis use {sadd, srem, del, sismember, smembers}

  unfoldable pub join_room : ℕ → ℕ → Db → Db
  join_room user_id room_id db =
      sadd (room_users room_id) user_id (sadd (user_rooms user_id) room_id db)

  unfoldable pub leave_room : ℕ → ℕ → Db → Db
  leave_room user_id room_id db =
      srem (room_users room_id) user_id (srem (user_rooms user_id) room_id db)

  unfoldable pub is_user_in_room : ℕ → ℕ → Db → Bool
  is_user_in_room user_id room_id db = sismember (room_users room_id) user_id db

  -- The loop of the pipeline: the user is taken out of each set.
  unfoldable pub srem_each : (ℕ → Key) → ℕ → List ℕ → Db → Db
  srem_each key user_id [] db = db
  srem_each key user_id (id ∷ ids) db = srem_each key user_id ids (srem (key id) user_id db)

  -- The body that the three `removeUserFromAll…` functions have in common: with the user's own set
  -- `own` and the sets `key id` of the other side.
  unfoldable pub purge : (ℕ → Key) → (ℕ → Key) → ℕ → Db → Db
  purge own key user_id db = elim (smembers (own user_id) db) [
    | [] ↦ db
    | id ∷ ids ↦ del (own user_id) (srem_each key user_id (id ∷ ids) db)
  ]

  unfoldable pub remove_user_from_all_rooms : ℕ → Db → Db
  remove_user_from_all_rooms = purge user_rooms room_users

  unfoldable pub join_task_room : ℕ → ℕ → Db → Db
  join_task_room user_id task_id db =
      sadd (task_rooms task_id) user_id (sadd (user_tasks user_id) task_id db)

  unfoldable pub leave_task_room : ℕ → ℕ → Db → Db
  leave_task_room user_id task_id db =
      srem (task_rooms task_id) user_id (srem (user_tasks user_id) task_id db)

  unfoldable pub is_user_in_task_room : ℕ → ℕ → Db → Bool
  is_user_in_task_room user_id task_id db = sismember (user_tasks user_id) task_id db

  unfoldable pub remove_user_from_all_task_rooms : ℕ → Db → Db
  remove_user_from_all_task_rooms = purge user_tasks task_rooms

  unfoldable pub join_group_room : ℕ → ℕ → Db → Db
  join_group_room user_id group_id db =
      sadd (group_rooms group_id) user_id (sadd (user_groups user_id) group_id db)

  unfoldable pub leave_group_room : ℕ → ℕ → Db → Db
  leave_group_room user_id group_id db =
      srem (group_rooms group_id) user_id (srem (user_groups user_id) group_id db)

  unfoldable pub is_user_in_group_room : ℕ → ℕ → Db → Bool
  is_user_in_group_room user_id group_id db = sismember (user_groups user_id) group_id db

  unfoldable pub remove_user_from_all_group_rooms : ℕ → Db → Db
  remove_user_from_all_group_rooms = purge user_groups group_rooms

  -- The room that `socket.join` is called with, beside the Redis state.
  unfoldable pub auto_join_family_room : ℕ → Option FamilyUser → Db → Option ℕ × Db
  unfolding family_room
  auto_join_family_room user_id user db = elim (family_room user_id user) [
    | none ↦ (none, db)
    | some room ↦ (some room, join_group_room user_id room db)
  ]
