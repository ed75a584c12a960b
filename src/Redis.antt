-- ===== src/Redis.antt =====
-- libs/redis/src/redis.service.ts: the cache that services read through. `client` says whether there is
-- a Redis client (`redisClient` may be null). The client's calls do not throw, and what is fetched is a
-- read: it changes no key. `get_or_set` is for what is never null.
use rental_application_nest.Prelude.{
  ℕ, ◌≡◌, Bool, true, Option, none, some, if◌then◌else◌, Result, ok, err, Bool-cases, Option-cases,
  Result-cases, inl, inr, refl, ◌∙◌,
}
use rental_application_nest.External.Cache.{Cache}

module _ {Key Value Db : Type 0} {same : Key → Key → Bool} (cache : Cache Key Value Db same)
    (client : Bool) where
  unfoldable pub get_or_set : Key → Result Value → ℕ → ℕ → Db → Result Value × Db
  get_or_set key fetched ttl now db =
      if client
      then elim (cache.get key now db) [
        | some v ↦ (ok v, db)
        | none ↦ elim fetched [ ok v ↦ (ok v, cache.set_ex key v ttl now db) | err e ↦ (err e, db) ]
      ]
      else (fetched, db)

  -- The same where what is fetched may be null, which is not stored
  unfoldable pub get_or_set_nullable :
      Key → Result (Option Value) → ℕ → ℕ → Db → Result (Option Value) × Db
  get_or_set_nullable key fetched ttl now db =
      if client
      then elim (cache.get key now db) [
        | some v ↦ (ok (some v), db)
        | none ↦ elim fetched [
          | ok none ↦ (ok none, db)
          | ok (some v) ↦ (ok (some v), cache.set_ex key v ttl now db)
          | err e ↦ (err e, db)
        ]
      ]
      else (fetched, db)

  unfoldable pub invalidate : Key → Db → Db
  invalidate key db = if client then cache.del key db else db

  -- After an invalidation, a read goes to what is fetched.
  pub get_or_set-invalidate :
      (key : Key) (fetched : Result Value) (ttl now : ℕ) (db : Db)
      → same key key ≡ true
      → (get_or_set key fetched ttl now (invalidate key db)).0 ≡ fetched
  unfolding get_or_set invalidate
  get_or_set-invalidate key fetched ttl now db h = elim (Bool-cases client) [
    | inr without ↦ rw (without, get_or_set, invalidate) refl
    | inl with_client ↦
        let gone : cache.get key now (cache.del key db) ≡ none =
          cache.get-del key key now db ∙ rw h refl in
        elim (Result-cases fetched) [
          | inl (v, e) ↦ rw (with_client, get_or_set, invalidate, gone, e) refl
          | inr (x, e) ↦ rw (with_client, get_or_set, invalidate, gone, e) refl
        ]
  ]

  pub get_or_set_nullable-invalidate :
      (key : Key) (fetched : Option Value) (ttl now : ℕ) (db : Db)
      → same key key ≡ true
      → (get_or_set_nullable key (ok fetched) ttl now (invalidate key db)).0 ≡ ok fetched
  unfolding get_or_set_nullable invalidate
  get_or_set_nullable-invalidate key fetched ttl now db h = elim (Bool-cases client) [
    | inr without ↦ rw (without, get_or_set_nullable, invalidate) refl
    | inl with_client ↦
        let gone : cache.get key now (cache.del key db) ≡ none =
          cache.get-del key key now db ∙ rw h refl in
        elim (Option-cases fetched) [
          | inl e ↦ rw (with_client, get_or_set_nullable, invalidate, gone, e) refl
          | inr (v, e) ↦ rw (with_client, get_or_set_nullable, invalidate, gone, e) refl
        ]
  ]

  pub get_or_set_nullable-hit :
      (key : Key) (fetched : Result (Option Value)) (ttl now : ℕ) (db : Db) (v : Value)
      → client ≡ true
      → cache.get key now db ≡ some v
      → (get_or_set_nullable key fetched ttl now db).0 ≡ ok (some v)
  unfolding get_or_set_nullable
  get_or_set_nullable-hit key fetched ttl now db v h e = rw (h, get_or_set_nullable, e) refl
