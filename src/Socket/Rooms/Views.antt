-- ===== src/Socket/Rooms/Views.antt =====
-- The calls of the room service, on the six Redis sets and on three relations of users and rooms.
use rental_application_nest.Prelude.{ℕ, ◌≡◌, Bool, not, ◌&&◌, ◌||◌, List, [], ◌∷◌, ◌==◌}
use rental_application_nest.External.Sets.{SetStore}
use rental_application_nest.Socket.Rooms.{
  Key, user_rooms, room_users, task_rooms, user_tasks, group_rooms, user_groups, same_key,
  join_room, leave_room, remove_user_from_all_rooms, join_task_room, leave_task_room,
  remove_user_from_all_task_rooms, join_group_room, leave_group_room,
  remove_user_from_all_group_rooms,
}

-- A call of the service, with the user first.
pub data Call : Type 0 where
  joins leaves joins_task leaves_task joins_group leaves_group : ℕ → ℕ → Call
  leaves_all leaves_all_tasks leaves_all_groups : ℕ → Call

-- Which user is in which room.
abbrev pub Relation : Type 0
Relation = ℕ → ℕ → Bool

abbrev pub with_pair : ℕ → ℕ → Relation → Relation
with_pair u r f v s = u == v && r == s || f v s

abbrev pub without_pair : ℕ → ℕ → Relation → Relation
without_pair u r f v s = not (u == v && r == s) && f v s

abbrev pub without_user : ℕ → Relation → Relation
without_user u f v s = not (u == v) && f v s

pub record View : Type 0 where
  pub rooms : Relation
  pub tasks : Relation
  pub groups : Relation

-- What each call does to the relations.
unfoldable pub apply : Call → View → View
apply (joins u r) v = record v { rooms = with_pair u r v.rooms }
apply (leaves u r) v = record v { rooms = without_pair u r v.rooms }
apply (leaves_all u) v = record v { rooms = without_user u v.rooms }
apply (joins_task u r) v = record v { tasks = with_pair u r v.tasks }
apply (leaves_task u r) v = record v { tasks = without_pair u r v.tasks }
apply (leaves_all_tasks u) v = record v { tasks = without_user u v.tasks }
apply (joins_group u r) v = record v { groups = with_pair u r v.groups }
apply (leaves_group u r) v = record v { groups = without_pair u r v.groups }
apply (leaves_all_groups u) v = record v { groups = without_user u v.groups }

unfoldable pub apply_all : List Call → View → View
apply_all [] v = v
apply_all (c ∷ cs) v = apply_all cs (apply c v)

module _ {Db : Type 0} (redis : SetStore Key Db same_key) where
  open redis use {
    sadd, srem, del, sismember, smembers, sismember-sadd, sismember-srem, sismember-del,
    contains-smembers,
  }

  unfoldable pub step : Call → Db → Db
  unfolding join_room leave_room remove_user_from_all_rooms join_task_room leave_task_room
      remove_user_from_all_task_rooms join_group_room leave_group_room
      remove_user_from_all_group_rooms
  step (joins u r) = join_room redis u r
  step (leaves u r) = leave_room redis u r
  step (leaves_all u) = remove_user_from_all_rooms redis u
  step (joins_task u r) = join_task_room redis u r
  step (leaves_task u r) = leave_task_room redis u r
  step (leaves_all_tasks u) = remove_user_from_all_task_rooms redis u
  step (joins_group u r) = join_group_room redis u r
  step (leaves_group u r) = leave_group_room redis u r
  step (leaves_all_groups u) = remove_user_from_all_group_rooms redis u

  unfoldable pub run : List Call → Db → Db
  unfolding step
  run [] db = db
  run (c ∷ cs) db = run cs (step c db)

  -- Both sets of each pair say the same as the relation.
  pub record Tracks (v : View) (db : Db) : Type 0 where
    pub rooms_by_user : (u r : ℕ) → sismember (user_rooms u) r db ≡ v.rooms u r
    pub rooms_by_room : (u r : ℕ) → sismember (room_users r) u db ≡ v.rooms u r
    pub tasks_by_user : (u r : ℕ) → sismember (user_tasks u) r db ≡ v.tasks u r
    pub tasks_by_task : (u r : ℕ) → sismember (task_rooms r) u db ≡ v.tasks u r
    pub groups_by_user : (u r : ℕ) → sismember (user_groups u) r db ≡ v.groups u r
    pub groups_by_group : (u r : ℕ) → sismember (group_rooms r) u db ≡ v.groups u r
