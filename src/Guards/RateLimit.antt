-- ===== src/Guards/RateLimit.antt =====
-- libs/common/src/guards/sliding-window-rate-limit.guard.ts. The clock of Redis is the application's.
-- The transaction of the four commands runs as a whole or, where `exec` answers nothing or throws, not
-- at all.
pub mod Window
pub mod Bound
mod Tests
use rental_application_nest.Prelude.{
  ℕ, ◌+◌, ◌-◌, ◌*◌, ◌/◌, ◌≡◌, Bool, true, false, not, ◌&&◌, ◌||◌, Option, none, some, if◌then◌else◌,
  ◌==◌, leb, ltb, Result, ok, err, HttpError, too_many_requests, Action, pure, throw, throw_if,
  gets, modify, ◌>>=◌, ◌>>◌,
}
use rental_application_nest.External.SortedSets.{SortedSets}

-- `RateLimitOptions`
pub record RateLimitOptions : Type 0 where
  pub window_ms : ℕ
  pub max : ℕ
  pub key_prefix : Option ℕ

pub data Identifier : Type 0 where
  user ip : ℕ → Identifier
  unknown_ip : Identifier

-- `ratelimit:${keyPrefix}:${identifier}`; a prefix is a number, and 0 stands for 'default'.
abbrev pub Key : Type 0
Key = ℕ × Identifier

abbrev pub prefix_of : Option ℕ → ℕ
prefix_of none = 0
prefix_of (some prefix) = prefix

abbrev pub same_identifier : Identifier → Identifier → Bool
same_identifier (user m) (user n) = m == n
same_identifier (ip m) (ip n) = m == n
same_identifier unknown_ip unknown_ip = true
same_identifier _ _ = false

abbrev pub same_key : Key → Key → Bool
same_key k j = k.0 == j.0 && same_identifier k.1 j.1

abbrev pub identifier_of : Option ℕ → Option ℕ → Identifier
identifier_of (some user_id) address = user user_id
identifier_of none (some address) = ip address
identifier_of none none = unknown_ip

abbrev pub key_of : RateLimitOptions → Option ℕ → Option ℕ → Key
key_of options user_id address = (prefix_of options.key_prefix, identifier_of user_id address)

pub record Headers : Type 0 where
  pub limit : ℕ
  pub remaining : ℕ
  pub reset : ℕ
  pub retry_after : Option ℕ

-- The client's state, and the headers that are set on the response.
pub record Exchange (Db : Type 0) : Type 0 where
  pub redis : Db
  pub headers : Option Headers

-- `Math.ceil(ms / 1000)`
abbrev pub seconds : ℕ → ℕ
seconds ms = (ms + 999) / 1000

abbrev pub headers_of : RateLimitOptions → ℕ → ℕ → Headers
headers_of options now count = record {
  limit = options.max;
  remaining = options.max - count;
  reset = seconds (now + options.window_ms);
  retry_after = if ltb options.max count then some (seconds options.window_ms) else none;
}

module _ {Db : Type 0} (redis_client : SortedSets Key Db same_key) where
  -- Scores are never negative, so that a negative bound removes none.
  unfoldable pub remove_old : Key → ℕ → ℕ → Db → Db
  remove_old key window_ms now db =
      if leb window_ms now then redis_client.zremrangebyscore key 0 (now - window_ms) now db else db

  -- The commands that write; `draw` is `Math.random()`.
  unfoldable pub pipeline : Key → ℕ → ℕ → ℕ → Db → Db
  unfolding remove_old
  pipeline key window_ms now draw db =
      redis_client.expire key (seconds window_ms + 1) now
        (redis_client.zadd key now (now, draw) now (remove_old key window_ms now db))

  -- `connected` says whether there is a client, `answered` whether `exec` answered.
  unfoldable pub can_activate :
      Option RateLimitOptions
      → Bool
      → Bool
      → Option ℕ
      → Option ℕ
      → ℕ
      → ℕ
      → Action (Exchange Db) Bool
  unfolding pipeline
  can_activate none connected answered user_id address now draw = pure true
  can_activate (some options) connected answered user_id address now draw =
      let key = key_of options user_id address in
      if not connected || not answered then pure true else do
        modify (λ x. record x { redis = pipeline key options.window_ms now draw x.redis })
        count ← gets (λ x. redis_client.zcard key now x.redis)
        modify (λ x. record x { headers = some (headers_of options now count) })
        throw_if (ltb options.max count) (too_many_requests "Too many requests, please slow down")
        pure true
