-- ===== src/Socket/Rooms/Feed.antt =====
-- src/features/socket.gateway/services/socket-room.service.ts: the feed of a group's activities. The
-- key is the prefix `activity:feed:` with the group's id; time is in milliseconds.
use rental_application_nest.Prelude.{
  ℕ, zero, suc, ◌+◌, ◌*◌, ◌≤◌, ◌≡◌, refl, ap, ◌∙◌, true, List, [], ◌∷◌, map, take, ltb, ◌==◌,
  ==_refl, arith,
}
use rental_application_nest.External.Counters.{ℤ, pos, negsuc}
use rental_application_nest.External.Lists.{ListStore}

-- `n - 1`
abbrev pub before : ℕ → ℤ
before zero = negsuc 0
before (suc n) = pos n

-- Seven days in seconds
abbrev pub feed_ttl : ℕ
feed_ttl = 604800

module _ {Activity Db : Type 0} (redis_client : ListStore ℕ Activity Db ◌==◌) where
  open redis_client use {items, lpush, ltrim, lrange, expire, del}

  unfoldable pub add_activity_to_feed : ℕ → Activity → ℕ → ℕ → Db → Db
  add_activity_to_feed group_id activity max_activities now db =
      expire group_id feed_ttl now
        (ltrim group_id (before max_activities) now (lpush group_id activity now db))

  unfoldable pub get_activity_feed : ℕ → ℕ → ℕ → Db → List Activity
  get_activity_feed group_id limit now db = lrange group_id (before limit) now db

  unfoldable pub clear_activity_feed : ℕ → Db → Db
  clear_activity_feed group_id db = del group_id db

  -- Activities with their times, the latest first
  abbrev pub add_all : ℕ → ℕ → List (Activity × ℕ) → Db → Db
  add_all group_id max_activities [] db = db
  add_all group_id max_activities ((a, t) ∷ earlier) db =
      add_activity_to_feed group_id a max_activities t (add_all group_id max_activities earlier db)

  -- No activity comes before the one that was added before it, or seven days after it.
  abbrev pub IsChain : List (Activity × ℕ) → ℕ → Type 0
  IsChain [] now = Unit {0}
  IsChain ((a, t) ∷ earlier) now =
      (t ≤ now) × (ltb now (t + feed_ttl * 1000) ≡ true) × IsChain earlier t

  take_more : (m : ℕ) (a : Activity) (xs : List Activity) → take m (a ∷ take m xs) ≡ take m (a ∷ xs)
  take_more zero a xs = refl
  take_more (suc zero) a xs = refl
  take_more (suc (suc m)) a [] = refl
  take_more (suc (suc m)) a (x ∷ xs) = ap (λ r. a ∷ r) (take_more (suc m) x xs)

  items-add :
      (g m now later : ℕ) (a : Activity) (db : Db)
      → now ≤ later
      → ltb later (now + feed_ttl * 1000) ≡ true
      → items g later (add_activity_to_feed g a (suc m) now db) ≡ take (suc m) (a ∷ items g now db)
  unfolding add_activity_to_feed
  items-add g m now later a db h live =
      let pushed = lpush g a now db in
      let trimmed = ltrim g (pos m) now pushed in
      let cut : items g now trimmed ≡ take (suc m) (a ∷ items g now db) =
        redis_client.items-ltrim g (pos m) now pushed
        ∙ ap (take (suc m)) (redis_client.items-lpush g a now db) in
      rw (redis_client.items-expire g g feed_ttl now later trimmed h, ==_refl g, live) cut

  items-add_all :
      (g m later : ℕ) (added : List (Activity × ℕ)) (db : Db)
      → ((t : ℕ) → items g t db ≡ [])
      → IsChain added later
      → items g later (add_all g (suc m) added db) ≡ take (suc m) (map (λ p. p.0) added)
  items-add_all g m later [] db empty chain = empty later
  items-add_all g m later ((a, t) ∷ earlier) db empty (h, live, chain) =
      items-add g m t later a (add_all g (suc m) earlier db) h live
      ∙ ap (λ xs. take (suc m) (a ∷ xs)) (items-add_all g m t earlier db empty chain)
      ∙ take_more (suc m) a (map (λ p. p.0) earlier)

  -- After a group's feed is cleared and activities are added one after another, each less than seven
  -- days after the one before, the feed shows the latest of them, the newest first, as many as the limit
  -- and the maximum allow, where both are at least 1, until seven days after the last; where none is
  -- added it is empty.
  pub get_activity_feed-add_all :
      (g l m later : ℕ) (added : List (Activity × ℕ)) (db : Db)
      → IsChain added later
      → get_activity_feed g (suc l) later (add_all g (suc m) added (clear_activity_feed g db))
        ≡ take (suc l) (take (suc m) (map (λ p. p.0) added))
  unfolding get_activity_feed clear_activity_feed
  get_activity_feed-add_all g l m later added db chain =
      let cleared = clear_activity_feed g db in
      let empty : (t : ℕ) → items g t cleared ≡ [] =
        λ t. redis_client.items-del g g t db ∙ ground (arith, ==_refl g) in
      redis_client.lrange-items g (pos l) later (add_all g (suc m) added cleared)
      ∙ ap (take (suc l)) (items-add_all g m later added cleared empty chain)
