-- ===== src/Notifications/Broadcast.antt =====
-- Whom a broadcast reaches.
use rental_application_nest.Prelude.{
  ℕ, ◌+◌, ◌≡◌, ◌∙◌, refl, Option, none, some, List, [], ◌∷◌, arith, count_if, ◌==◌, bit, Bool, not,
  any, is_ok, Bool-cases, Result-cases, inl, inr, if◌then◌else◌, ◌>>=◌, ◌>>◌, modify,
}
use rental_application_nest.External.Table.{Table}
use rental_application_nest.External.Counters.{Counters}
use rental_application_nest.Notifications.{
  Notification, SendNotificationDto, BroadcastNotificationDto, Role, State, accepted, is_unread,
  notification_of, send_notification, send_each, to_role_too, broadcast_notification,
  fetch_unread_count,
}

-- The elements before the first that fails the test
abbrev pub take_while {ℓ} : {A : Type ℓ} → (A → Bool) → List A → List A
take_while p [] = []
take_while p (x ∷ xs) = let rest = take_while p xs in if p x then x ∷ rest else []

module _ {Notifications Db : Type 0} (notification : Table Notification Notifications)
    (redis : Counters ℕ Db ◌==◌) (client : Bool)
    (newest_first : List Notification → List Notification) where
  abbrev unread : ℕ → State Notifications Db → ℕ
  unread user_id s = fetch_unread_count notification redis client newest_first user_id s

  unread-send_notification :
      (user_id new_id receiver now : ℕ) (dto : SendNotificationDto) (s : State Notifications Db)
      → unread user_id
          (send_notification notification redis client newest_first new_id now
            (record dto { receiver_id = some receiver })
            s).1
        ≡ bit (receiver == user_id) + unread user_id s
  unfolding send_notification fetch_unread_count
  unread-send_notification user_id new_id receiver now dto s =
      let n = notification_of new_id (record dto { receiver_id = some receiver }) in
      rw
        (
          notification.count-rows (is_unread user_id) (notification.create n s.notifications),
          notification.count-rows (is_unread user_id) s.notifications,
          notification.rows-create n s.notifications,
        )
        (ground arith)

  unread-send_each :
      (known : ℕ → Bool) (now user_id : ℕ) (dto : SendNotificationDto) (rs : List (ℕ × ℕ))
      (s : State Notifications Db)
      → let (answer, s') = send_each notification redis client newest_first known now dto rs s in
        (unread user_id s'
          ≡ count_if (λ r. r.1 == user_id) (take_while (accepted known dto) rs) + unread user_id s)
        × (is_ok answer ≡ not (any (λ r. not (accepted known dto r)) rs))
  unread-send_each known now user_id dto [] s = (omega arith, refl)
  unread-send_each known now user_id dto (r ∷ rs) s =
      let sent =
        (send_notification notification redis client newest_first r.0 now
          (record dto { receiver_id = some r.1 }) s).1 in
      let (counted, answered) = unread-send_each known now user_id dto rs sent in
      let one = unread-send_notification user_id r.0 r.1 now dto s in
      elim (Bool-cases (accepted known dto r)) [
        | inl taken ↦ rw taken (omega (arith, counted, one), answered)
        | inr refused ↦ rw refused (omega arith, refl)
      ]

  unread-to_role_too :
      (user_id : ℕ) (dto : SendNotificationDto) (role : Option Role) (s : State Notifications Db)
      → unread user_id (to_role_too notification redis client newest_first dto role s)
        ≡ unread user_id s
  unfolding fetch_unread_count
  unread-to_role_too user_id dto none s = refl
  unread-to_role_too user_id dto (some r) s = refl

  broadcast-send_each :
      (known : ℕ → Bool) (now user_id : ℕ) (dto : BroadcastNotificationDto)
      (s : State Notifications Db)
      → let (answer, s') =
          broadcast_notification notification redis client newest_first known now dto s in
        let (sent, s1) =
          send_each notification redis client newest_first known now dto.notification
            dto.receiver_ids s in
        (unread user_id s' ≡ unread user_id s1) × (is_ok answer ≡ is_ok sent)
  unfolding broadcast_notification
  broadcast-send_each known now user_id dto s =
      let (sent, s1) =
        send_each notification redis client newest_first known now dto.notification dto.receiver_ids
          s in
      elim (Result-cases sent) [
        | inl (u, fine) ↦
            rw (broadcast_notification, fine, ◌>>=◌, ◌>>◌, modify)
              (unread-to_role_too user_id dto.notification dto.broadcast_to_role s1, refl)
        | inr (e, failed) ↦ rw (broadcast_notification, failed, ◌>>=◌, ◌>>◌) (refl, refl)
      ]

  -- A broadcast succeeds exactly where the database accepts the row of every receiver, whose foreign keys
  -- ask for the receiver, and for the sender where there is one. It adds to each user's stored number of
  -- unread notifications as many as the receivers name the user before the first row that is refused;
  -- the broadcast to a role adds none, and `broadcastToAll` neither, whatever its value.
  pub broadcast_notification-fetch_unread_count :
      (known : ℕ → Bool) (now user_id : ℕ) (dto : BroadcastNotificationDto)
      (s : State Notifications Db)
      → let (answer, s') =
          broadcast_notification notification redis client newest_first known now dto s in
        (is_ok answer ≡ not (any (λ r. not (accepted known dto.notification r)) dto.receiver_ids))
        × (fetch_unread_count notification redis client newest_first user_id s'
            ≡ count_if
                (λ r. r.1 == user_id)
                (take_while (accepted known dto.notification) dto.receiver_ids)
              + fetch_unread_count notification redis client newest_first user_id s)
  broadcast_notification-fetch_unread_count known now user_id dto s =
      let (kept, answer) = broadcast-send_each known now user_id dto s in
      let (counted, sent) =
        unread-send_each known now user_id dto.notification dto.receiver_ids s in
      (answer ∙ sent, kept ∙ counted)
