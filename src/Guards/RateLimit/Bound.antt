-- ===== src/Guards/RateLimit/Bound.antt =====
-- How many requests the guard lets pass.
use native.Mathlib.Nat.{le_refl, le_trans}
use rental_application_nest.Prelude.{
  ℕ, ◌+◌, ◌≤◌, ◌≡◌, ◌∙◌, refl, ap, inl, inr, Bool, true, false, ◌&&◌, Option, List, [], ◌∷◌, leb,
  ltb, any, count_if, length, arith, Bool-cases,
}
use rental_application_nest.External.SortedSets.{SortedSets, is_member}
use rental_application_nest.Guards.RateLimit.{
  RateLimitOptions, Key, Identifier, user, ip, unknown_ip, same_identifier, same_key, key_of,
  pipeline, can_activate,
}
use rental_application_nest.Guards.RateLimit.Window.{
  Request, last_time, asked, newer-length, answer_to, request_of, Served, nobody, asks, Tracks,
  can_activate-pipeline, pipeline_other, newer-pipeline,
}

same_identifier_sound : (i j : Identifier) → same_identifier i j ≡ true → i ≡ j
same_identifier_sound (user m) (user n) h = ap user (ground arith)
same_identifier_sound (ip m) (ip n) h = ap ip (ground arith)
same_identifier_sound unknown_ip unknown_ip h = refl
same_identifier_sound (user m) (ip n) h = absurd (ground arith)
same_identifier_sound (user m) unknown_ip h = absurd (ground arith)
same_identifier_sound (ip m) (user n) h = absurd (ground arith)
same_identifier_sound (ip m) unknown_ip h = absurd (ground arith)
same_identifier_sound unknown_ip (user n) h = absurd (ground arith)
same_identifier_sound unknown_ip (ip n) h = absurd (ground arith)

same_key_sound : (k j : Key) → same_key k j ≡ true → k ≡ j
same_key_sound (p, i) (q, j) h =
    let e : p ≡ q = ground arith in
    let f = same_identifier_sound i j (ground arith) in rw (e, f) refl

same_key_refl : (k : Key) → same_key k k ≡ true
same_key_refl (p, user n) = ground arith
same_key_refl (p, ip n) = ground arith
same_key_refl (p, unknown_ip) = ground arith

module _ {Db : Type 0} (redis_client : SortedSets Key Db same_key) (options : RateLimitOptions)
    (initial : Db) where
  -- No counted request is later than the last.
  asked_after :
      (j : Key) (a : ℕ) {rs : List Request} {db : Db}
      → Served redis_client options initial rs db
      → last_time rs ≤ a
      → asked j a rs ≡ 0
  asked_after j a (nobody empty) h = refl
  asked_after j a (asks user_id address now draw before order fresh) h =
      ground (arith, asked_after j a before (le_trans order h))

  step-Tracks :
      (user_id address : Option ℕ) (now draw : ℕ) {rs : List Request} {db : Db}
      → Served redis_client options initial rs db
      → last_time rs ≤ now
      → any (is_member (now, draw)) (redis_client.entries (key_of options user_id address) now db)
        ≡ false
      → Tracks redis_client options initial rs db
      → Tracks redis_client options initial
          (request_of redis_client options initial user_id address now draw db ∷ rs)
          (answer_to redis_client options initial user_id address now draw db).1.redis
  step-Tracks user_id address now draw {rs} {db} before order fresh tracks j later a k inside =
      let key = key_of options user_id address in
      rw (can_activate-pipeline redis_client options initial user_id address now draw db)
        (elim (Bool-cases (same_key key j)) [
          | inr other ↦
              rw (pipeline_other redis_client options initial key j now draw later db other, other)
                (tracks j later a (le_trans order k) inside ∙ omega arith)
          | inl own ↦
              let fresh' = rw (same_key_sound key j own) at fresh in
              rw
                (
                  newer-pipeline redis_client options initial key j now draw later a db own fresh' k
                      inside,
                  own,
                )
                (ground (arith, tracks j now a order (omega arith), asked_after j a before))
        ])

  Served-Tracks :
      {rs : List Request} {db : Db}
      → Served redis_client options initial rs db
      → Tracks redis_client options initial rs db
  Served-Tracks (nobody empty) = λ j later a k inside. rw (empty j later) refl
  Served-Tracks (asks user_id address now draw before order fresh) =
      step-Tracks user_id address now draw before order fresh (Served-Tracks before)

  count_of_allowed :
      (user_id address : Option ℕ) (now draw : ℕ) (db : Db)
      → (request_of redis_client options initial user_id address now draw db).is_allowed ≡ true
      → let after = (answer_to redis_client options initial user_id address now draw db).1.redis in
        length (redis_client.entries (key_of options user_id address) now after) ≤ options.max
  unfolding can_activate
  count_of_allowed user_id address now draw db passed =
      let after =
        pipeline redis_client (key_of options user_id address) options.window_ms now draw db in
      ground (arith, redis_client.zcard-entries (key_of options user_id address) now after)

  -- An allowed request is one of at most `max` in its window.
  allowed-asked :
      (user_id address : Option ℕ) (now draw a : ℕ) (rs : List Request) (db : Db) (j : Key)
      → same_key (key_of options user_id address) j ≡ true
      → Tracks redis_client options initial
          (request_of redis_client options initial user_id address now draw db ∷ rs)
          (answer_to redis_client options initial user_id address now draw db).1.redis
      → (request_of redis_client options initial user_id address now draw db).is_allowed ≡ true
      → now ≤ a + options.window_ms
      → asked j a (request_of redis_client options initial user_id address now draw db ∷ rs)
        ≤ options.max
  allowed-asked user_id address now draw a rs db j own tracks passed inside =
      let after = (answer_to redis_client options initial user_id address now draw db).1.redis in
      let few = newer-length a (redis_client.entries j now after) in
      let here =
        ap (λ k. length (redis_client.entries k now after))
          (same_key_sound (key_of options user_id address) j own) in
      omega (
        arith,
        tracks j now a (le_refl now) inside,
        few,
        here,
        count_of_allowed user_id address now draw db passed,
      )

  abbrev pub is_passed : Key → ℕ → Request → Bool
  is_passed k start r =
      r.is_allowed && same_key r.key k && ltb start r.time && leb r.time (start + options.window_ms)

  passed_asked :
      (k : Key) (start : ℕ) (rs : List Request) → count_if (is_passed k start) rs ≤ asked k start rs
  passed_asked k start [] = omega arith
  passed_asked k start (r ∷ rs) = ground (arith, passed_asked k start rs)

  -- Sliding window: of the requests of one key that Redis counted under one route's options, in order
  -- of time, from empty sets and with no two entries of a key the same, the guard lets at most `max`
  -- pass in any window of `windowMs` milliseconds, wherever it starts.
  pub passed-Served :
      (k : Key) (start : ℕ) {rs : List Request} {db : Db}
      → Served redis_client options initial rs db
      → count_if (is_passed k start) rs ≤ options.max
  passed-Served k start (nobody empty) = omega arith
  passed-Served k start (asks {rs} {db} user_id address now draw before order fresh) =
      let r = request_of redis_client options initial user_id address now draw db in
      let rest = passed-Served k start before in
      elim (Bool-cases (is_passed k start r)) [
        | inr out ↦ rw out (omega (arith, rest))
        | inl pass ↦
            let tracks =
              step-Tracks user_id address now draw before order fresh (Served-Tracks before) in
            let few =
              allowed-asked user_id address now draw start rs db k (ground arith) tracks
                (ground arith) (ground arith) in
            le_trans (passed_asked k start (r ∷ rs)) few
      ]
