-- ===== src/Auth/Service/Requests.antt =====
-- The calls of the service as requests, and what a request does to the blacklist.
use rental_application_nest.Prelude.{
  ℕ, ◌≤◌, ◌≡◌, ◌⊎◌, inl, inr, refl, Bool, Option, List, [], ◌∷◌, arith, Text, text_eq, Result,
  Bool-cases, Option-cases, ◌>>=◌, or_throw, throw_if,
}
use native.Mathlib.Nat.{le_refl, le_trans}
use rental_application_nest.External.Table.{Table}
use rental_application_nest.External.Cache.{Cache}
use rental_application_nest.External.Crypto.{Jwt, Bcrypt}
use rental_application_nest.Auth.Otp.{OtpKey, OtpPayload, same_otp_key}
use rental_application_nest.Auth.Service.{
  User, Payload, Provider, RegisterDto, OAuthProfile, State, blacklist_ttl, login, register,
  refresh_token, refresh_user, is_blacklisted, blacklist_token, logout, forgot_password,
  reset_password, oauth_login,
}

-- A call of the service, its time first.
pub data Request : Type 0 where
  logs_in : ℕ → Text → Text → Request
  registers : ℕ → ℕ → ℕ → ℕ → Result (Unit {0}) → RegisterDto → Request
  refreshes : ℕ → Text → Request
  logs_out : ℕ → Text → Request
  forgets : ℕ → ℕ → Result (Unit {0}) → Text → Request
  resets : ℕ → ℕ → Text → Text → Text → Request
  logs_in_with : ℕ → ℕ → Option Provider → Result OAuthProfile → Option ℕ → Request

abbrev pub time_of : Request → ℕ
time_of (logs_in now email password) = now
time_of (registers now new_id salt draw mailed dto) = now
time_of (refreshes now token) = now
time_of (logs_out now token) = now
time_of (forgets now draw mailed email) = now
time_of (resets now salt email otp password) = now
time_of (logs_in_with now new_id provider verified role) = now

-- The times of the requests do not go back.
abbrev pub InOrder : ℕ → List Request → Type 0
InOrder t [] = Unit {0}
InOrder t (r ∷ rs) = (t ≤ time_of r) × InOrder (time_of r) rs

abbrev pub last_time : ℕ → List Request → ℕ
last_time t [] = t
last_time t (r ∷ rs) = last_time (time_of r) rs

pub le-last_time : (t : ℕ) (rs : List Request) → InOrder t rs → t ≤ last_time t rs
le-last_time t [] o = le_refl t
le-last_time t (r ∷ rs) o = le_trans o.0 (le-last_time (time_of r) rs o.1)

module _ {Users Otps Blacklist : Type 0} (prisma : Table User Users)
    (otp_redis : Cache OtpKey OtpPayload Otps same_otp_key)
    (redis : Cache Text (Unit {0}) Blacklist text_eq) (connected : Bool) (jwt : Jwt Payload)
    (bcrypt : Bcrypt) where
  abbrev pub Db : Type 0
  Db = State Users Otps Blacklist

  -- The state after a request, whatever it answered.
  unfoldable pub serve : Request → Db → Db
  serve (logs_in now email password) s =
      (login prisma otp_redis redis connected jwt bcrypt now email password s).1
  serve (registers now new_id salt draw mailed dto) s =
      (register prisma otp_redis redis connected jwt bcrypt now new_id salt draw mailed dto s).1
  serve (refreshes now token) s =
      (refresh_token prisma otp_redis redis connected jwt bcrypt now token s).1
  serve (logs_out now token) s = (logout prisma otp_redis redis connected jwt bcrypt now token s).1
  serve (forgets now draw mailed email) s =
      (forgot_password prisma otp_redis redis connected jwt bcrypt now draw mailed email s).1
  serve (resets now salt email otp password) s =
      (reset_password prisma otp_redis redis connected jwt bcrypt now salt email otp password s).1
  serve (logs_in_with now new_id provider verified role) s =
      (oauth_login prisma otp_redis redis connected jwt bcrypt now new_id provider verified role
        s).1

  unfoldable pub serve_all : List Request → Db → Db
  serve_all [] s = s
  serve_all (r ∷ rs) s = serve_all rs (serve r s)

  -- A request leaves the blacklist alone, or adds a token to it.
  abbrev pub Extends : ℕ → Blacklist → Blacklist → Type 0
  Extends now b b' = (b' ≡ b) ⊎ ((token : Text) × (b' ≡ redis.set_ex token tt blacklist_ttl now b))

  blacklist-login :
      (now : ℕ) (email password : Text) (s : Db)
      → (login prisma otp_redis redis connected jwt bcrypt now email password s).1.blacklist
        ≡ s.blacklist
  unfolding login
  blacklist-login now email password s = ground arith

  blacklist-register :
      (now new_id salt draw : ℕ) (mailed : Result (Unit {0})) (dto : RegisterDto) (s : Db)
      → (register prisma otp_redis redis connected jwt bcrypt now new_id salt draw mailed dto
          s).1.blacklist
        ≡ s.blacklist
  unfolding register
  blacklist-register now new_id salt draw mailed dto s = ground arith

  blacklist-forgot_password :
      (now draw : ℕ) (mailed : Result (Unit {0})) (email : Text) (s : Db)
      → (forgot_password prisma otp_redis redis connected jwt bcrypt now draw mailed email
          s).1.blacklist
        ≡ s.blacklist
  unfolding forgot_password
  blacklist-forgot_password now draw mailed email s = ground arith

  blacklist-reset_password :
      (now salt : ℕ) (email otp password : Text) (s : Db)
      → (reset_password prisma otp_redis redis connected jwt bcrypt now salt email otp password
          s).1.blacklist
        ≡ s.blacklist
  unfolding reset_password
  blacklist-reset_password now salt email otp password s = ground arith

  blacklist-oauth_login :
      (now new_id : ℕ) (provider : Option Provider) (verified : Result OAuthProfile)
      (role : Option ℕ) (s : Db)
      → (oauth_login prisma otp_redis redis connected jwt bcrypt now new_id provider verified role
          s).1.blacklist
        ≡ s.blacklist
  unfolding oauth_login
  blacklist-oauth_login now new_id provider verified role s = ground arith

  blacklist_token-Extends :
      (token : Text) (now : ℕ) (s : Db)
      → Extends now s.blacklist
          (blacklist_token prisma otp_redis redis connected jwt bcrypt token now s).blacklist
  unfolding blacklist_token
  blacklist_token-Extends token now s = elim (Bool-cases connected) [
    | inl on ↦ rw on (inr (token, refl))
    | inr off ↦ rw off (inl refl)
  ]

  refresh_token-Extends :
      (now : ℕ) (token : Text) (s : Db)
      → Extends now s.blacklist
          (refresh_token prisma otp_redis redis connected jwt bcrypt now token s).1.blacklist
  unfolding refresh_token
  refresh_token-Extends now token s =
      elim (Bool-cases (is_blacklisted prisma otp_redis redis connected jwt bcrypt now token s)) [
        | inl revoked ↦ inl (ground arith)
        | inr fresh ↦
            elim (Option-cases
              (refresh_user prisma otp_redis redis connected jwt bcrypt now token s)) [
                | inl nobody ↦ inl (ground arith)
                | inr (user, found) ↦
                    rw (fresh, found, ◌>>=◌, or_throw, throw_if)
                      (blacklist_token-Extends token now s)
              ]
      ]

  pub serve-Extends : (r : Request) (s : Db) → Extends (time_of r) s.blacklist (serve r s).blacklist
  unfolding serve logout
  serve-Extends (logs_in now email password) s = inl (blacklist-login now email password s)
  serve-Extends (registers now new_id salt draw mailed dto) s =
      inl (blacklist-register now new_id salt draw mailed dto s)
  serve-Extends (forgets now draw mailed email) s =
      inl (blacklist-forgot_password now draw mailed email s)
  serve-Extends (resets now salt email otp password) s =
      inl (blacklist-reset_password now salt email otp password s)
  serve-Extends (logs_in_with now new_id provider verified role) s =
      inl (blacklist-oauth_login now new_id provider verified role s)
  serve-Extends (refreshes now token) s = refresh_token-Extends now token s
  serve-Extends (logs_out now token) s = blacklist_token-Extends token now s
