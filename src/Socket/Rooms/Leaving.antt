-- ===== src/Socket/Rooms/Leaving.antt =====
-- A user who leaves all rooms of a kind.
use rental_application_nest.Prelude.{ℕ, refl, arith}
use rental_application_nest.External.Sets.{SetStore}
use rental_application_nest.Socket.Rooms.{
  Key, user_rooms, room_users, task_rooms, user_tasks, group_rooms, user_groups, same_key,
}
use rental_application_nest.Socket.Rooms.Views.{
  leaves_all, leaves_all_tasks, leaves_all_groups, View, apply, step, Tracks,
}
use rental_application_nest.Socket.Rooms.Keys.{
  covers-room_users, covers-task_rooms, covers-group_rooms, covers_other, sismember-purge,
}

module _ {Db : Type 0} (redis : SetStore Key Db same_key) where
  open redis use {
    sadd, srem, del, sismember, smembers, sismember-sadd, sismember-srem, sismember-del,
    contains-smembers,
  }

  module _ {v : View} {db : Db} (t : Tracks redis v db) where
    pub leaves_all-Tracks :
        (u : ℕ) → Tracks redis (apply (leaves_all u) v) (step redis (leaves_all u) db)
    unfolding apply step
    leaves_all-Tracks u = record {
      rooms_by_user = λ w s. rw (sismember-purge redis) (
          ground (
            arith,
            t.rooms_by_user w s,
            covers_other room_users (user_rooms w) (smembers (user_rooms u) db) (λ id. refl),
          ));
      rooms_by_room = λ w s. rw (sismember-purge redis) (
          ground (
            arith,
            t.rooms_by_room w s,
            t.rooms_by_user w s,
            covers-room_users (smembers (user_rooms u) db) s,
            contains-smembers (user_rooms u) s db,
          ));
      tasks_by_user = λ w s. rw (sismember-purge redis) (
          ground (
            arith,
            t.tasks_by_user w s,
            covers_other room_users (user_tasks w) (smembers (user_rooms u) db) (λ id. refl),
          ));
      tasks_by_task = λ w s. rw (sismember-purge redis) (
          ground (
            arith,
            t.tasks_by_task w s,
            covers_other room_users (task_rooms s) (smembers (user_rooms u) db) (λ id. refl),
          ));
      groups_by_user = λ w s. rw (sismember-purge redis) (
          ground (
            arith,
            t.groups_by_user w s,
            covers_other room_users (user_groups w) (smembers (user_rooms u) db) (λ id. refl),
          ));
      groups_by_group = λ w s. rw (sismember-purge redis) (
          ground (
            arith,
            t.groups_by_group w s,
            covers_other room_users (group_rooms s) (smembers (user_rooms u) db) (λ id. refl),
          ));
    }

    pub leaves_all_tasks-Tracks :
        (u : ℕ) → Tracks redis (apply (leaves_all_tasks u) v) (step redis (leaves_all_tasks u) db)
    unfolding apply step
    leaves_all_tasks-Tracks u = record {
      rooms_by_user = λ w s. rw (sismember-purge redis) (
          ground (
            arith,
            t.rooms_by_user w s,
            covers_other task_rooms (user_rooms w) (smembers (user_tasks u) db) (λ id. refl),
          ));
      rooms_by_room = λ w s. rw (sismember-purge redis) (
          ground (
            arith,
            t.rooms_by_room w s,
            covers_other task_rooms (room_users s) (smembers (user_tasks u) db) (λ id. refl),
          ));
      tasks_by_user = λ w s. rw (sismember-purge redis) (
          ground (
            arith,
            t.tasks_by_user w s,
            covers_other task_rooms (user_tasks w) (smembers (user_tasks u) db) (λ id. refl),
          ));
      tasks_by_task = λ w s. rw (sismember-purge redis) (
          ground (
            arith,
            t.tasks_by_task w s,
            t.tasks_by_user w s,
            covers-task_rooms (smembers (user_tasks u) db) s,
            contains-smembers (user_tasks u) s db,
          ));
      groups_by_user = λ w s. rw (sismember-purge redis) (
          ground (
            arith,
            t.groups_by_user w s,
            covers_other task_rooms (user_groups w) (smembers (user_tasks u) db) (λ id. refl),
          ));
      groups_by_group = λ w s. rw (sismember-purge redis) (
          ground (
            arith,
            t.groups_by_group w s,
            covers_other task_rooms (group_rooms s) (smembers (user_tasks u) db) (λ id. refl),
          ));
    }

    pub leaves_all_groups-Tracks :
        (u : ℕ) → Tracks redis (apply (leaves_all_groups u) v) (step redis (leaves_all_groups u) db)
    unfolding apply step
    leaves_all_groups-Tracks u = record {
      rooms_by_user = λ w s. rw (sismember-purge redis) (
          ground (
            arith,
            t.rooms_by_user w s,
            covers_other group_rooms (user_rooms w) (smembers (user_groups u) db) (λ id. refl),
          ));
      rooms_by_room = λ w s. rw (sismember-purge redis) (
          ground (
            arith,
            t.rooms_by_room w s,
            covers_other group_rooms (room_users s) (smembers (user_groups u) db) (λ id. refl),
          ));
      tasks_by_user = λ w s. rw (sismember-purge redis) (
          ground (
            arith,
            t.tasks_by_user w s,
            covers_other group_rooms (user_tasks w) (smembers (user_groups u) db) (λ id. refl),
          ));
      tasks_by_task = λ w s. rw (sismember-purge redis) (
          ground (
            arith,
            t.tasks_by_task w s,
            covers_other group_rooms (task_rooms s) (smembers (user_groups u) db) (λ id. refl),
          ));
      groups_by_user = λ w s. rw (sismember-purge redis) (
          ground (
            arith,
            t.groups_by_user w s,
            covers_other group_rooms (user_groups w) (smembers (user_groups u) db) (λ id. refl),
          ));
      groups_by_group = λ w s. rw (sismember-purge redis) (
          ground (
            arith,
            t.groups_by_group w s,
            t.groups_by_user w s,
            covers-group_rooms (smembers (user_groups u) db) s,
            contains-smembers (user_groups u) s db,
          ));
    }
