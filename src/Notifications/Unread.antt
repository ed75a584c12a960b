-- ===== src/Notifications/Unread.antt =====
-- The count of unread notifications that a user is told, and the one that is stored.
use rental_application_nest.Prelude.{
  ℕ, suc, ◌+◌, ◌*◌, ◌≤◌, ◌<◌, ◌≡◌, refl, ap, ◌∙◌, Bool, true, false, not, ◌&&◌, none, some, List,
  [], ◌∷◌, map, arith, if◌then◌else◌, Bool-cases, Option-cases, inl, inr, any, any-In, In, count_if,
  count_if-map_none, ==_refl, ◌==◌, ok, ◌>>=◌, ◌>>◌, or_throw,
}
use rental_application_nest.External.Table.{Table}
use rental_application_nest.External.Counters.{Counters, ℤ, pos, suc_ℤ, pred_ℤ, or_zero}
use rental_application_nest.Redis.{get_or_set, invalidate}
use rental_application_nest.Notifications.{
  Notification, SendNotificationDto, State, is_unread, is_own, notification_of,
  increment_unread_count, decrement_unread_count, send_notification, get_unread_count,
  fetch_unread_count, mark_as_read, mark_all_as_read,
}

-- Marking what is read already changes no count.
marked_count :
    (id user_id : ℕ) (xs : List Notification)
    → any (λ x. is_own id user_id x && not x.is_read) xs ≡ false
    → count_if
        (is_unread user_id)
        (map (λ x. if is_own id user_id x then record x { is_read = true } else x) xs)
      ≡ count_if (is_unread user_id) xs
marked_count id user_id [] h = refl
marked_count id user_id (x ∷ xs) h = elim (Bool-cases (is_own id user_id x)) [
  | inl hit ↦ rw hit (ground (arith, marked_count id user_id xs))
  | inr miss ↦ rw miss (ground (arith, marked_count id user_id xs))
]

module _ {Notifications Db : Type 0} (notification : Table Notification Notifications)
    (redis : Counters ℕ Db ◌==◌) (newest_first : List Notification → List Notification) where
  -- What is cached is answered.
  answer_cached :
      (user_id later : ℕ) (z : ℤ) (s : State Notifications Db)
      → redis.cache.get user_id later s.redis ≡ some z
      → (get_unread_count notification redis true newest_first user_id later s).0 ≡ ok z
  unfolding get_unread_count get_or_set
  answer_cached user_id later z s hit = ground (arith, hit)

  -- Where nothing is cached, the stored count is answered.
  answer_stored :
      (client : Bool) (user_id later : ℕ) (s : State Notifications Db)
      → redis.cache.get user_id later s.redis ≡ none
      → (get_unread_count notification redis client newest_first user_id later s).0
        ≡ ok (pos (fetch_unread_count notification redis client newest_first user_id s))
  unfolding get_unread_count get_or_set
  answer_stored true user_id later s miss = ground (arith, miss)
  answer_stored false user_id later s miss = refl

  increment_get :
      (user_id now later : ℕ) (db : Db)
      → now ≤ later
      → later < now + 300 * 1000
      → redis.cache.get user_id later
          (increment_unread_count notification redis true newest_first user_id now db)
        ≡ some (suc_ℤ (or_zero (redis.cache.get user_id now db)))
  unfolding increment_unread_count
  increment_get user_id now later db h soon =
      rw
        (
          redis.get-expire user_id user_id 300 now later (redis.incr user_id now db) h,
          ==_refl user_id,
          redis.get-incr user_id now db,
        )
        (ground arith)

  decrement_get :
      (user_id now later : ℕ) (db : Db)
      → now ≤ later
      → later < now + 300 * 1000
      → redis.cache.get user_id later
          (decrement_unread_count notification redis true newest_first user_id now db)
        ≡ some (pred_ℤ (or_zero (redis.cache.get user_id now db)))
  unfolding decrement_unread_count
  decrement_get user_id now later db h soon =
      rw
        (
          redis.get-expire user_id user_id 300 now later (redis.decr user_id now db) h,
          ==_refl user_id,
          redis.get-decr user_id now db,
        )
        (ground arith)

  -- With a Redis client, for 5 minutes after a notification is sent to a user, the count that the user is
  -- told is one more than the cached count was, where a count that is not cached, or no more, stands for
  -- 0; the stored number of unread notifications is one more than it was.
  pub send_notification-get_unread_count :
      (new_id now later user_id : ℕ) (dto : SendNotificationDto) (s : State Notifications Db)
      → dto.receiver_id ≡ some user_id
      → now ≤ later
      → later < now + 300 * 1000
      → let s' = (send_notification notification redis true newest_first new_id now dto s).1 in
        ((get_unread_count notification redis true newest_first user_id later s').0
          ≡ ok (suc_ℤ (or_zero (redis.cache.get user_id now s.redis))))
        × (fetch_unread_count notification redis true newest_first user_id s'
            ≡ suc (fetch_unread_count notification redis true newest_first user_id s))
  unfolding send_notification fetch_unread_count
  send_notification-get_unread_count new_id now later user_id dto s to h soon =
      let n = notification_of new_id dto in
      let s' = (send_notification notification redis true newest_first new_id now dto s).1 in
      (
        answer_cached user_id later (suc_ℤ (or_zero (redis.cache.get user_id now s.redis))) s'
            (rw to (increment_get user_id now later s.redis h soon)),
        rw
            (
              notification.count-rows (is_unread user_id) (notification.create n s.notifications),
              notification.count-rows (is_unread user_id) s.notifications,
              notification.rows-create n s.notifications,
              to,
              ==_refl user_id,
            )
            (omega arith),
      )

  all_read :
      (client : Bool) (user_id : ℕ) (s : State Notifications Db)
      → fetch_unread_count notification redis client newest_first user_id
          (mark_all_as_read notification redis client newest_first user_id s).1
        ≡ 0
  unfolding mark_all_as_read fetch_unread_count
  all_read client user_id s =
      let p = is_unread user_id in
      let f = λ (x : Notification). record x { is_read = true } in
      rw
        (
          notification.count-rows p (notification.update_many p f s.notifications),
          notification.rows-update_many p f s.notifications,
        )
        (count_if-map_none p (λ x. if p x then f x else x) (notification.rows s.notifications)
          (λ x. elim (Bool-cases (p x)) [
            | inl hit ↦ rw hit (ground arith)
            | inr miss ↦ rw miss miss
          ]))

  told :
      (client : Bool) (user_id later : ℕ) (s : State Notifications Db)
      → let s' = (mark_all_as_read notification redis client newest_first user_id s).1 in
        (get_unread_count notification redis client newest_first user_id later s').0
        ≡ ok (pos (fetch_unread_count notification redis client newest_first user_id s'))
  unfolding mark_all_as_read invalidate get_unread_count get_or_set
  told true user_id later s =
      answer_stored true user_id later
        (mark_all_as_read notification redis true newest_first user_id s).1
        (rw (redis.cache.get-del user_id user_id later s.redis, ==_refl user_id) refl)
  told false user_id later s = refl

  -- After `markAllAsRead`, none of the user's stored notifications counts as unread, and the user is told
  -- 0 at every later time, with a Redis client and without.
  mark_all_as_read-get_unread_count :
      (client : Bool) (user_id later : ℕ) (s : State Notifications Db)
      → let s' = (mark_all_as_read notification redis client newest_first user_id s).1 in
        ((get_unread_count notification redis client newest_first user_id later s').0 ≡ ok (pos 0))
        × (fetch_unread_count notification redis client newest_first user_id s' ≡ 0)
  unfolding mark_all_as_read
  mark_all_as_read-get_unread_count client user_id later s =
      let s' = (mark_all_as_read notification redis client newest_first user_id s).1 in
      let zero_left = all_read client user_id s in
      (told client user_id later s ∙ ap (λ k. ok (pos k)) zero_left, zero_left)

  marked_again :
      (id user_id : ℕ) (s : State Notifications Db)
      → any (λ x. is_own id user_id x && not x.is_read) (notification.rows s.notifications) ≡ false
      → notification.count (is_unread user_id) (
          notification.update_many
            (is_own id user_id)
            (λ y. record y { is_read = true })
            s.notifications)
        ≡ notification.count (is_unread user_id) s.notifications
  marked_again id user_id s read =
      let f = λ (y : Notification). record y { is_read = true } in
      rw
        (
          notification.count-rows (is_unread user_id)
              (notification.update_many (is_own id user_id) f s.notifications),
          notification.count-rows (is_unread user_id) s.notifications,
          notification.rows-update_many (is_own id user_id) f s.notifications,
        )
        (marked_count id user_id (notification.rows s.notifications) read)

  -- With a Redis client, marking an own notification as read again, where every stored row of it is read
  -- already, keeps the stored number of unread ones, and the count that the user is told for 5 minutes is
  -- one less than the cached count was, where a count that is not cached stands for 0.
  pub mark_as_read-again :
      (id user_id now later : ℕ) (n : Notification) (s : State Notifications Db)
      → In n (notification.rows s.notifications)
      → is_own id user_id n ≡ true
      → any (λ x. is_own id user_id x && not x.is_read) (notification.rows s.notifications) ≡ false
      → now ≤ later
      → later < now + 300 * 1000
      → let s' = (mark_as_read notification redis true newest_first id user_id now s).1 in
        ((get_unread_count notification redis true newest_first user_id later s').0
          ≡ ok (pred_ℤ (or_zero (redis.cache.get user_id now s.redis))))
        × (fetch_unread_count notification redis true newest_first user_id s'
            ≡ fetch_unread_count notification redis true newest_first user_id s)
  unfolding mark_as_read fetch_unread_count
  mark_as_read-again id user_id now later n s m own read h soon =
      let p = is_own id user_id in
      elim (Option-cases (notification.find_first p s.notifications)) [
        | inl nothing ↦ absurd (
            cc (
              any-In p (notification.rows s.notifications) n m own,
              notification.find_first-none p s.notifications nothing,
            ))
        | inr (x, found) ↦
            let marked : State Notifications Db = record s {
              notifications =
                  notification.update_many p (λ y. record y { is_read = true }) s.notifications;
              redis =
                  decrement_unread_count notification redis true newest_first user_id now s.redis;
            } in
            rw (found, ◌>>=◌, ◌>>◌, or_throw)
              (
                answer_cached user_id later (pred_ℤ (or_zero (redis.cache.get user_id now s.redis)))
                    marked (decrement_get user_id now later s.redis h soon),
                marked_again id user_id s read,
              )
      ]
