-- ===== src/Socket/Rooms/Tests.antt =====
-- Runs of the room service in memory.
use rental_application_nest.Prelude.{
  ℕ, ◌≡◌, refl, true, false, List, [], ◌∷◌, none, ◌==◌, ==_refl, arith,
}
use rental_application_nest.External.Memory.{memory_sets}
use rental_application_nest.External.Memory.Lists.{Timed, memory_lists}
use rental_application_nest.Socket.Rooms.{Key, same_key, is_user_in_room}
use rental_application_nest.Socket.Rooms.Views.{
  Call, joins, leaves, joins_task, leaves_all, View, apply_all, run, Tracks,
}
use rental_application_nest.Socket.Rooms.Membership.{run-Tracks}
use rental_application_nest.Socket.Rooms.Feed.{
  add_all, get_activity_feed, clear_activity_feed, get_activity_feed-add_all,
}

abbrev empty : Key → List ℕ
empty k = []

abbrev nowhere : View
nowhere = record { rooms = λ u r. false; tasks = λ u r. false; groups = λ u r. false }

abbrev calls : List Call
calls =
    joins 1 7 ∷ joins 2 7 ∷ joins 1 8 ∷ joins_task 1 7 ∷ leaves 2 7 ∷ leaves_all 1 ∷ joins 2 8 ∷ []

room_after :
    is_user_in_room (memory_sets same_key) 2 8 (run (memory_sets same_key) calls empty) ≡ true
unfolding run is_user_in_room
room_after = refl

run-Tracks_example :
    Tracks (memory_sets same_key) (apply_all calls nowhere) (run (memory_sets same_key) calls empty)
run-Tracks_example = run-Tracks (memory_sets same_key) calls nowhere empty (record {
  rooms_by_user = λ u r. refl;
  rooms_by_room = λ u r. refl;
  tasks_by_user = λ u r. refl;
  tasks_by_task = λ u r. refl;
  groups_by_user = λ u r. refl;
  groups_by_group = λ u r. refl;
})

-- Group 4 has an activity already, and the maximum of two leaves the oldest of three others out.
abbrev feed : ℕ → Timed ℕ
feed g = (77 ∷ [], none)

get_activity_feed-add_all_example :
    get_activity_feed (memory_lists ◌==◌ ==_refl) 4 10 4000 (
      add_all
        (memory_lists ◌==◌ ==_refl)
        4
        2
        ((3, 3000) ∷ (2, 2000) ∷ (1, 1000) ∷ [])
        (clear_activity_feed (memory_lists ◌==◌ ==_refl) 4 feed))
    ≡ 3 ∷ 2 ∷ []
get_activity_feed-add_all_example =
    get_activity_feed-add_all (memory_lists ◌==◌ ==_refl) 4 9 1 4000
      ((3, 3000) ∷ (2, 2000) ∷ (1, 1000) ∷ []) feed
      (omega arith, refl, (omega arith, refl, (omega arith, refl, tt)))
