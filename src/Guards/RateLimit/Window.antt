-- ===== src/Guards/RateLimit/Window.antt =====
-- The entries of a key are the requests of the last window.
use rental_application_nest.Prelude.{
  ℕ, ◌+◌, ◌-◌, ◌*◌, ◌≤◌, ◌≡◌, ◌∙◌, refl, inl, inr, Bool, true, false, not, ◌&&◌, Option, none, some,
  List, [], ◌∷◌, if◌then◌else◌, leb, ltb, bit, any, count_if, filter, length, arith, Bool-cases,
  Result, is_ok,
}
use rental_application_nest.External.SortedSets.{SortedSets, Entry, is_member, has_score}
use rental_application_nest.Guards.RateLimit.{
  RateLimitOptions, Key, key_of, same_key, Exchange, seconds, remove_old, pipeline, can_activate,
}

-- A request that Redis counted, and whether the guard let it pass.
pub record Request : Type 0 where
  pub key : Key
  pub time : ℕ
  pub is_allowed : Bool

-- The time of the newest request, which comes first.
abbrev pub last_time : List Request → ℕ
last_time [] = 0
last_time (r ∷ rs) = r.time

-- How many requests of a key are later than `a`.
abbrev pub is_asked : Key → ℕ → Request → Bool
is_asked j a r = same_key r.key j && ltb a r.time

abbrev pub asked : Key → ℕ → List Request → ℕ
asked j a rs = count_if (is_asked j a) rs

abbrev pub newer : ℕ → List Entry → ℕ
newer a es = count_if (λ e. ltb a e.0) es

newer-filter_member :
    (a : ℕ) (m : ℕ × ℕ) (es : List Entry)
    → any (is_member m) es ≡ false
    → newer a (filter (λ e. not (is_member m e)) es) ≡ newer a es
newer-filter_member a m [] h = refl
newer-filter_member a m (e ∷ es) h = ground (arith, newer-filter_member a m es)

newer-filter_score :
    (a high : ℕ) (es : List Entry)
    → high ≤ a
    → newer a (filter (λ e. not (has_score 0 high e)) es) ≡ newer a es
newer-filter_score a high [] h = refl
newer-filter_score a high (e ∷ es) h = ground (arith, newer-filter_score a high es h)

any-filter_score :
    (m : ℕ × ℕ) (high : ℕ) (es : List Entry)
    → any (is_member m) es ≡ false
    → any (is_member m) (filter (λ e. not (has_score 0 high e)) es) ≡ false
any-filter_score m high [] h = refl
any-filter_score m high (e ∷ es) h = ground (arith, any-filter_score m high es)

pub newer-length : (a : ℕ) (es : List Entry) → newer a es ≤ length es
newer-length a [] = omega arith
newer-length a (e ∷ es) = ground (arith, newer-length a es)

module _ {Db : Type 0} (redis_client : SortedSets Key Db same_key) (options : RateLimitOptions)
    (initial : Db) where
  abbrev pub answer_to : Option ℕ → Option ℕ → ℕ → ℕ → Db → Result Bool × Exchange Db
  answer_to user_id address now draw db =
      can_activate redis_client (some options) true true user_id address now draw
        (record { redis = db; headers = none })

  abbrev pub request_of : Option ℕ → Option ℕ → ℕ → ℕ → Db → Request
  request_of user_id address now draw db = record {
    key = key_of options user_id address;
    time = now;
    is_allowed = is_ok (answer_to user_id address now draw db).0;
  }

  -- The requests that were counted, newest first, and the state after them, for one route's options.
  -- Their times do not go back, and no draw makes a member that the key still holds.
  pub data Served : List Request → Db → Type 0 where
    nobody : ((j : Key) (later : ℕ) → redis_client.entries j later initial ≡ []) → Served [] initial
    asks :
        {rs : List Request} {db : Db} (user_id address : Option ℕ) (now draw : ℕ)
        → Served rs db
        → last_time rs ≤ now
        → any (is_member (now, draw)) (redis_client.entries (key_of options user_id address) now db)
          ≡ false
        → Served
            (request_of user_id address now draw db ∷ rs)
            (answer_to user_id address now draw db).1.redis

  -- Every key holds the requests of the last window, and older ones at most.
  abbrev pub Tracks : List Request → Db → Type 0
  Tracks rs db =
      (j : Key) (later a : ℕ)
      → last_time rs ≤ later
      → later ≤ a + options.window_ms
      → newer a (redis_client.entries j later db) ≡ asked j a rs

  pub can_activate-pipeline :
      (user_id address : Option ℕ) (now draw : ℕ) (db : Db)
      → (answer_to user_id address now draw db).1.redis
        ≡ pipeline redis_client (key_of options user_id address) options.window_ms now draw db
  unfolding can_activate
  can_activate-pipeline user_id address now draw db = ground arith

  pub pipeline_other :
      (k j : Key) (now draw later : ℕ) (db : Db)
      → same_key k j ≡ false
      → redis_client.entries j later (pipeline redis_client k options.window_ms now draw db)
        ≡ redis_client.entries j later db
  unfolding pipeline remove_old
  pipeline_other k j now draw later db h =
      redis_client.expire_other k j (seconds options.window_ms + 1) now later _ h
      ∙ redis_client.zadd_other k j now now later (now, draw) _ h
      ∙ elim (Bool-cases (leb options.window_ms now)) [
        | inl long ↦
            rw long
              (redis_client.zremrangebyscore_other k j 0 (now - options.window_ms) now later db h)
        | inr short ↦ rw short refl
      ]

  -- Whatever is removed is older than the window.
  newer-remove_old :
      (k j : Key) (now a : ℕ) (db : Db)
      → same_key k j ≡ true
      → now ≤ a + options.window_ms
      → newer a (redis_client.entries j now (remove_old redis_client k options.window_ms now db))
        ≡ newer a (redis_client.entries j now db)
  unfolding remove_old
  newer-remove_old k j now a db h inside = elim (Bool-cases (leb options.window_ms now)) [
    | inl long ↦
        rw (long, redis_client.entries-zremrangebyscore k j 0 (now - options.window_ms) now db h)
          (newer-filter_score a (now - options.window_ms) (redis_client.entries j now db)
            (omega arith))
    | inr short ↦ rw short refl
  ]

  fresh-remove_old :
      (k j : Key) (now : ℕ) (m : ℕ × ℕ) (db : Db)
      → same_key k j ≡ true
      → any (is_member m) (redis_client.entries j now db) ≡ false
      → any
          (is_member m)
          (redis_client.entries j now (remove_old redis_client k options.window_ms now db))
        ≡ false
  unfolding remove_old
  fresh-remove_old k j now m db h fresh = elim (Bool-cases (leb options.window_ms now)) [
    | inl long ↦
        rw (long, redis_client.entries-zremrangebyscore k j 0 (now - options.window_ms) now db h)
          (any-filter_score m (now - options.window_ms) (redis_client.entries j now db) fresh)
    | inr short ↦ rw short fresh
  ]

  -- What a key holds after its own request, until it expires.
  pub newer-pipeline :
      (k j : Key) (now draw later a : ℕ) (db : Db)
      → same_key k j ≡ true
      → any (is_member (now, draw)) (redis_client.entries j now db) ≡ false
      → now ≤ later
      → later ≤ a + options.window_ms
      → newer a
          (redis_client.entries j later (pipeline redis_client k options.window_ms now draw db))
        ≡ (if ltb later (now + (seconds options.window_ms + 1) * 1000)
            then bit (ltb a now) + newer a (redis_client.entries j now db)
            else 0)
  unfolding pipeline
  newer-pipeline k j now draw later a db h fresh k' inside =
      let before = remove_old redis_client k options.window_ms now db in
      let kept = newer-remove_old k j now a db h (omega arith) in
      let one =
        newer-filter_member a (now, draw) (redis_client.entries j now before)
          (fresh-remove_old k j now (now, draw) db h fresh) in
      rw
        (
          redis_client.entries-expire k j (seconds options.window_ms + 1) now later
              (redis_client.zadd k now (now, draw) now before) h k',
          redis_client.entries-zadd k j now now (now, draw) before h,
        )
        (ground (arith, kept, one))
