-- ===== src/Socket/Rooms/Membership.antt =====
-- The six Redis sets against the three relations.
use rental_application_nest.Prelude.{ℕ, List, [], ◌∷◌, arith}
use rental_application_nest.External.Sets.{SetStore}
use rental_application_nest.Socket.Rooms.{Key, same_key}
use rental_application_nest.Socket.Rooms.Views.{
  Call, joins, leaves, joins_task, leaves_task, joins_group, leaves_group, leaves_all,
  leaves_all_tasks, leaves_all_groups, View, apply, apply_all, step, run, Tracks,
}
use rental_application_nest.Socket.Rooms.Keys.{sismember-sadd-sadd, sismember-srem-srem}
use rental_application_nest.Socket.Rooms.Leaving.{
  leaves_all-Tracks, leaves_all_tasks-Tracks, leaves_all_groups-Tracks,
}

module _ {Db : Type 0} (redis : SetStore Key Db same_key) where
  open redis use {
    sadd, srem, del, sismember, smembers, sismember-sadd, sismember-srem, sismember-del,
    contains-smembers,
  }

  module _ {v : View} {db : Db} (t : Tracks redis v db) where
    joins-Tracks : (u r : ℕ) → Tracks redis (apply (joins u r) v) (step redis (joins u r) db)
    unfolding apply step
    joins-Tracks u r = record {
      rooms_by_user = λ w s. rw (sismember-sadd-sadd redis) (ground (arith, t.rooms_by_user w s));
      rooms_by_room = λ w s. rw (sismember-sadd-sadd redis) (ground (arith, t.rooms_by_room w s));
      tasks_by_user = λ w s. rw (sismember-sadd-sadd redis) (t.tasks_by_user w s);
      tasks_by_task = λ w s. rw (sismember-sadd-sadd redis) (t.tasks_by_task w s);
      groups_by_user = λ w s. rw (sismember-sadd-sadd redis) (t.groups_by_user w s);
      groups_by_group = λ w s. rw (sismember-sadd-sadd redis) (t.groups_by_group w s);
    }

    leaves-Tracks : (u r : ℕ) → Tracks redis (apply (leaves u r) v) (step redis (leaves u r) db)
    unfolding apply step
    leaves-Tracks u r = record {
      rooms_by_user = λ w s. rw (sismember-srem-srem redis) (ground (arith, t.rooms_by_user w s));
      rooms_by_room = λ w s. rw (sismember-srem-srem redis) (ground (arith, t.rooms_by_room w s));
      tasks_by_user = λ w s. rw (sismember-srem-srem redis) (t.tasks_by_user w s);
      tasks_by_task = λ w s. rw (sismember-srem-srem redis) (t.tasks_by_task w s);
      groups_by_user = λ w s. rw (sismember-srem-srem redis) (t.groups_by_user w s);
      groups_by_group = λ w s. rw (sismember-srem-srem redis) (t.groups_by_group w s);
    }

    joins_task-Tracks :
        (u r : ℕ) → Tracks redis (apply (joins_task u r) v) (step redis (joins_task u r) db)
    unfolding apply step
    joins_task-Tracks u r = record {
      rooms_by_user = λ w s. rw (sismember-sadd-sadd redis) (t.rooms_by_user w s);
      rooms_by_room = λ w s. rw (sismember-sadd-sadd redis) (t.rooms_by_room w s);
      tasks_by_user = λ w s. rw (sismember-sadd-sadd redis) (ground (arith, t.tasks_by_user w s));
      tasks_by_task = λ w s. rw (sismember-sadd-sadd redis) (ground (arith, t.tasks_by_task w s));
      groups_by_user = λ w s. rw (sismember-sadd-sadd redis) (t.groups_by_user w s);
      groups_by_group = λ w s. rw (sismember-sadd-sadd redis) (t.groups_by_group w s);
    }

    leaves_task-Tracks :
        (u r : ℕ) → Tracks redis (apply (leaves_task u r) v) (step redis (leaves_task u r) db)
    unfolding apply step
    leaves_task-Tracks u r = record {
      rooms_by_user = λ w s. rw (sismember-srem-srem redis) (t.rooms_by_user w s);
      rooms_by_room = λ w s. rw (sismember-srem-srem redis) (t.rooms_by_room w s);
      tasks_by_user = λ w s. rw (sismember-srem-srem redis) (ground (arith, t.tasks_by_user w s));
      tasks_by_task = λ w s. rw (sismember-srem-srem redis) (ground (arith, t.tasks_by_task w s));
      groups_by_user = λ w s. rw (sismember-srem-srem redis) (t.groups_by_user w s);
      groups_by_group = λ w s. rw (sismember-srem-srem redis) (t.groups_by_group w s);
    }

    joins_group-Tracks :
        (u r : ℕ) → Tracks redis (apply (joins_group u r) v) (step redis (joins_group u r) db)
    unfolding apply step
    joins_group-Tracks u r = record {
      rooms_by_user = λ w s. rw (sismember-sadd-sadd redis) (t.rooms_by_user w s);
      rooms_by_room = λ w s. rw (sismember-sadd-sadd redis) (t.rooms_by_room w s);
      tasks_by_user = λ w s. rw (sismember-sadd-sadd redis) (t.tasks_by_user w s);
      tasks_by_task = λ w s. rw (sismember-sadd-sadd redis) (t.tasks_by_task w s);
      groups_by_user = λ w s. rw (sismember-sadd-sadd redis) (ground (arith, t.groups_by_user w s));
      groups_by_group =
          λ w s. rw (sismember-sadd-sadd redis) (ground (arith, t.groups_by_group w s));
    }

    leaves_group-Tracks :
        (u r : ℕ) → Tracks redis (apply (leaves_group u r) v) (step redis (leaves_group u r) db)
    unfolding apply step
    leaves_group-Tracks u r = record {
      rooms_by_user = λ w s. rw (sismember-srem-srem redis) (t.rooms_by_user w s);
      rooms_by_room = λ w s. rw (sismember-srem-srem redis) (t.rooms_by_room w s);
      tasks_by_user = λ w s. rw (sismember-srem-srem redis) (t.tasks_by_user w s);
      tasks_by_task = λ w s. rw (sismember-srem-srem redis) (t.tasks_by_task w s);
      groups_by_user = λ w s. rw (sismember-srem-srem redis) (ground (arith, t.groups_by_user w s));
      groups_by_group =
          λ w s. rw (sismember-srem-srem redis) (ground (arith, t.groups_by_group w s));
    }

    -- Every call changes the sets as it changes the relations.
    step-Tracks : (c : Call) → Tracks redis (apply c v) (step redis c db)
    step-Tracks (joins u r) = joins-Tracks u r
    step-Tracks (leaves u r) = leaves-Tracks u r
    step-Tracks (leaves_all u) = leaves_all-Tracks redis t u
    step-Tracks (joins_task u r) = joins_task-Tracks u r
    step-Tracks (leaves_task u r) = leaves_task-Tracks u r
    step-Tracks (leaves_all_tasks u) = leaves_all_tasks-Tracks redis t u
    step-Tracks (joins_group u r) = joins_group-Tracks u r
    step-Tracks (leaves_group u r) = leaves_group-Tracks u r
    step-Tracks (leaves_all_groups u) = leaves_all_groups-Tracks redis t u

  -- From a state whose two sets of each pair agree with the relations of users and conversation,
  -- task and family rooms, any sequence of the service's nine calls leads to a state that agrees
  -- with the relations after the same joins and leaves.
  pub run-Tracks :
      (cs : List Call) (v : View) (db : Db)
      → Tracks redis v db
      → Tracks redis (apply_all cs v) (run redis cs db)
  unfolding apply_all run
  run-Tracks [] v db t = t
  run-Tracks (c ∷ cs) v db t = run-Tracks cs (apply c v) (step redis c db) (step-Tracks t c)
