-- ===== src/Auth/Service/Revocation.antt =====
-- A refresh token that was used or logged out.
use rental_application_nest.Prelude.{
  ℕ, ◌+◌, ◌*◌, ◌≤◌, ◌<◌, ◌≡◌, inl, inr, Bool, true, some, List, [], ◌∷◌, arith, Text, text_eq,
  text_eq_refl, ok,
}
use native.Mathlib.Nat.{le_refl, le_trans}
use rental_application_nest.External.Table.{Table}
use rental_application_nest.External.Cache.{Cache}
use rental_application_nest.External.Crypto.{Jwt, Bcrypt, refresh_secret}
use rental_application_nest.Auth.Otp.{OtpKey, OtpPayload, same_otp_key}
use rental_application_nest.Auth.Service.{
  User, Payload, Tokens, State, blacklist_ttl, refresh_life, refresh_token, refresh_user,
  is_blacklisted, blacklist_token, logout,
}
use rental_application_nest.Auth.Service.Requests.{
  Request, time_of, InOrder, last_time, le-last_time, serve, serve_all, Extends, serve-Extends,
}

module _ {Users Otps Blacklist : Type 0} (prisma : Table User Users)
    (otp_redis : Cache OtpKey OtpPayload Otps same_otp_key)
    (redis : Cache Text (Unit {0}) Blacklist text_eq) (connected : Bool) (jwt : Jwt Payload)
    (bcrypt : Bcrypt) where
  -- From `now` on until `until` the token is on the blacklist.
  abbrev Listed : Text → ℕ → ℕ → Blacklist → Type 0
  Listed token now until b =
      (later : ℕ) → now ≤ later → later < until → redis.get token later b ≡ some tt

  Extends-Listed :
      (token : Text) (now until t : ℕ) (b b' : Blacklist)
      → now ≤ t
      → until ≤ t + blacklist_ttl * 1000
      → Extends prisma otp_redis redis connected jwt bcrypt t b b'
      → Listed token now until b
      → Listed token t until b'
  Extends-Listed token now until t b b' h u (inl same) l later k m =
      rw same (l later (omega arith) m)
  Extends-Listed token now until t b b' h u (inr (other, e)) l later k m =
      rw (e, redis.get-set_ex other token tt blacklist_ttl t later b k)
        (ground (arith, l later (omega arith) m))

  serve_all-Listed :
      (rs : List Request) (token : Text) (now until : ℕ) (s : State Users Otps Blacklist)
      → InOrder now rs
      → until ≤ now + blacklist_ttl * 1000
      → Listed token now until s.blacklist
      → Listed token
          (last_time now rs)
          until
          (serve_all prisma otp_redis redis connected jwt bcrypt rs s).blacklist
  unfolding serve_all
  serve_all-Listed [] token now until s o u l = l
  serve_all-Listed (r ∷ rs) token now until s o u l =
      serve_all-Listed rs token (time_of r) until
        (serve prisma otp_redis redis connected jwt bcrypt r s) o.1 (omega arith)
        (Extends-Listed token now until (time_of r) s.blacklist _ o.0 (omega arith)
          (serve-Extends prisma otp_redis redis connected jwt bcrypt r s) l)

module _ {Users Otps Blacklist : Type 0} (prisma : Table User Users)
    (otp_redis : Cache OtpKey OtpPayload Otps same_otp_key)
    (redis : Cache Text (Unit {0}) Blacklist text_eq) (jwt : Jwt Payload) (bcrypt : Bcrypt) where
  logout-Listed :
      (token : Text) (now : ℕ) (s : State Users Otps Blacklist)
      → Listed prisma otp_redis redis true jwt bcrypt token now
          (now + blacklist_ttl * 1000)
          (logout prisma otp_redis redis true jwt bcrypt now token s).1.blacklist
  unfolding logout blacklist_token
  logout-Listed token now s later h k =
      rw (redis.get-set_ex token token tt blacklist_ttl now later s.blacklist h, text_eq_refl token)
        (ground arith)

  refresh-Listed :
      (token : Text) (now : ℕ) (s : State Users Otps Blacklist) {t : Tokens}
      → (refresh_token prisma otp_redis redis true jwt bcrypt now token s).0 ≡ ok t
      → Listed prisma otp_redis redis true jwt bcrypt token now
          (now + blacklist_ttl * 1000)
          (refresh_token prisma otp_redis redis true jwt bcrypt now token s).1.blacklist
  unfolding refresh_token blacklist_token
  refresh-Listed token now s e later h k = ground (
    arith,
    redis.get-set_ex token token tt blacklist_ttl now later s.blacklist h,
    text_eq_refl token,
  )

  -- A token that is on the blacklist until it expires is never accepted.
  refused :
      (p : Payload) (issued now later : ℕ) (s : State Users Otps Blacklist)
      → issued ≤ now
      → now ≤ later
      → let token = jwt.sign p refresh_secret refresh_life issued in
        (later < now + blacklist_ttl * 1000 → redis.get token later s.blacklist ≡ some tt)
        → (t : Tokens)
        → ¬ ((refresh_token prisma otp_redis redis true jwt bcrypt later token s).0 ≡ ok t)
  unfolding refresh_token refresh_user is_blacklisted
  refused p issued now later s h k listed t e =
      ground (arith, jwt.verify_expired p refresh_secret refresh_life issued later)

  -- With a Redis client, a refresh token, signed for any payload with the service's refresh secret and
  -- lifetime before it is logged out, is refused by every later `refreshToken`, whatever requests the
  -- service answers in between, in order of time.
  pub logout_final :
      (p : Payload) (issued now later : ℕ) (rs : List Request) (s : State Users Otps Blacklist)
      → issued ≤ now
      → InOrder now rs
      → last_time now rs ≤ later
      → let token = jwt.sign p refresh_secret refresh_life issued in
        let gone = (logout prisma otp_redis redis true jwt bcrypt now token s).1 in
        let s' = serve_all prisma otp_redis redis true jwt bcrypt rs gone in
        (t : Tokens)
        → ¬ ((refresh_token prisma otp_redis redis true jwt bcrypt later token s').0 ≡ ok t)
  logout_final p issued now later rs s h o k =
      let token = jwt.sign p refresh_secret refresh_life issued in
      refused p issued now later _ h (le_trans (le-last_time now rs o) k) (
        serve_all-Listed prisma otp_redis redis true jwt bcrypt rs token now _ _ o (le_refl _)
          (logout-Listed token now s) later k)

  -- With a Redis client, a refresh token, signed for any payload with the service's refresh secret and
  -- lifetime, that `refreshToken` has accepted is refused by every later call, whatever requests the
  -- service answers in between, in order of time.
  pub refresh_once :
      (p : Payload) (issued now later : ℕ) (rs : List Request) (s : State Users Otps Blacklist)
      {t : Tokens}
      → issued ≤ now
      → InOrder now rs
      → last_time now rs ≤ later
      → let token = jwt.sign p refresh_secret refresh_life issued in
        let (answer, used) = refresh_token prisma otp_redis redis true jwt bcrypt now token s in
        let s' = serve_all prisma otp_redis redis true jwt bcrypt rs used in
        answer ≡ ok t
        → (u : Tokens)
        → ¬ ((refresh_token prisma otp_redis redis true jwt bcrypt later token s').0 ≡ ok u)
  refresh_once p issued now later rs s h o k e =
      let token = jwt.sign p refresh_secret refresh_life issued in
      refused p issued now later _ h (le_trans (le-last_time now rs o) k) (
        serve_all-Listed prisma otp_redis redis true jwt bcrypt rs token now _ _ o (le_refl _)
          (refresh-Listed token now s e) later k)
