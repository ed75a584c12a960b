-- ===== src/Notifications/Tests.antt =====
-- Runs of the notifications in memory.
use rental_application_nest.Prelude.{
  ℕ, ◌+◌, ◌≡◌, refl, Bool, true, false, is_ok, ltb, none, some, inl, List, [], ◌∷◌, ok, arith,
  ==_refl, ◌==◌,
}
use rental_application_nest.External.Memory.Tables.{memory_table}
use rental_application_nest.External.Memory.Counters.{memory_counters, Timed}
use rental_application_nest.External.Counters.{pos, pred_ℤ}
use rental_application_nest.Notifications.{
  Notification, SendNotificationDto, BroadcastNotificationDto, State, admin, notification_of,
  send_notification, get_unread_count, fetch_unread_count, mark_as_read, broadcast_notification,
}
use rental_application_nest.Notifications.Unread.{
  send_notification-get_unread_count, mark_as_read-again,
}
use rental_application_nest.Notifications.Broadcast.{broadcast_notification-fetch_unread_count}

abbrev rent_due : SendNotificationDto
rent_due = record {
  title = [];
  message = none;
  type = 3;
  priority = none;
  sender_id = none;
  receiver_id = some 7;
  receiver_role = none;
  entity_type = none;
  entity_id = none;
  link_for = none;
  link_id = none;
}

abbrev old : Notification
old = notification_of 1 rent_due

abbrev read_one : Notification
read_one = record old { is_read = true }

abbrev Memory : Type 0
Memory = State (List Notification) (ℕ → Timed)

abbrev two_unread : Memory
two_unread = record {
  notifications = old ∷ notification_of 2 rent_due ∷ [];
  redis = λ k. none;
  emitted = [];
  queued = [];
}

abbrev one_read : Memory
one_read = record two_unread { notifications = read_one ∷ [] }

send_notification-get_unread_count_example :
    let s' =
      (send_notification memory_table
        (memory_counters ◌==◌ ==_refl)
        true
        (λ ns. ns)
        3
        1000
        rent_due
        two_unread).1 in
    ((get_unread_count memory_table (memory_counters ◌==◌ ==_refl) true (λ ns. ns) 7 2000 s').0
      ≡ ok (pos 1))
    × (fetch_unread_count memory_table (memory_counters ◌==◌ ==_refl) true (λ ns. ns) 7 s' ≡ 3)
unfolding fetch_unread_count
send_notification-get_unread_count_example =
    send_notification-get_unread_count memory_table (memory_counters ◌==◌ ==_refl) (λ ns. ns) 3 1000
      2000 7 rent_due two_unread refl (omega arith) (omega arith)

mark_as_read-again_example :
    let s' =
      (mark_as_read memory_table
        (memory_counters ◌==◌ ==_refl)
        true
        (λ ns. ns)
        1
        7
        1000
        one_read).1 in
    ((get_unread_count memory_table (memory_counters ◌==◌ ==_refl) true (λ ns. ns) 7 2000 s').0
      ≡ ok (pred_ℤ (pos 0)))
    × (fetch_unread_count memory_table (memory_counters ◌==◌ ==_refl) true (λ ns. ns) 7 s'
        ≡ fetch_unread_count memory_table (memory_counters ◌==◌ ==_refl) true (λ ns. ns) 7 one_read)
mark_as_read-again_example =
    mark_as_read-again memory_table (memory_counters ◌==◌ ==_refl) (λ ns. ns) 1 7 1000 2000 read_one
      one_read (inl refl) refl refl (omega arith) (omega arith)

-- User 9 does not exist, so that user 7 gets one notification and not two.
abbrev to_three : BroadcastNotificationDto
to_three = record {
  notification = rent_due;
  receiver_ids = (3, 7) ∷ (4, 9) ∷ (5, 7) ∷ [];
  broadcast_to_role = some admin;
  broadcast_to_all = true;
}

abbrev known : ℕ → Bool
known user_id = ltb user_id 9

broadcast_notification-fetch_unread_count_example :
    let (answer, s') =
      broadcast_notification memory_table
        (memory_counters ◌==◌ ==_refl)
        true
        (λ ns. ns)
        known
        1000
        to_three
        two_unread in
    (is_ok answer ≡ false)
    × (fetch_unread_count memory_table (memory_counters ◌==◌ ==_refl) true (λ ns. ns) 7 s'
        ≡ 1
          + fetch_unread_count memory_table
              (memory_counters ◌==◌ ==_refl)
              true
              (λ ns. ns)
              7
              two_unread)
broadcast_notification-fetch_unread_count_example =
    broadcast_notification-fetch_unread_count memory_table (memory_counters ◌==◌ ==_refl) true
      (λ ns. ns) known 1000 7 to_three two_unread
