-- ===== src/Auth/Otp.antt =====
-- src/features/authentication/otp/otp.service.ts. A call reads the clock once, as `now`, and the
-- random digits of `generateOtp` are an argument. `connected` says whether there is a Redis client.
pub mod Guesses
pub mod SingleUse
mod Tests
use rental_application_nest.Prelude.{
  ℕ, ◌+◌, ◌/◌, ◌%◌, ◌≡◌, Bool, true, false, not, ◌&&◌, Option, none, some, [], ◌∷◌, leb,
  if◌then◌else◌, is_some, Text, text_eq, to_lower_case, Result, ok, err, HttpError, bad_request,
  Action, pure, throw, throw_if, or_throw, gets, ◌>>=◌, ◌>>◌,
}
use rental_application_nest.External.Cache.{Cache}

pub data OtpType : Type 0 where
  verify reset : OtpType

pub record OtpPayload : Type 0 where
  pub otp : Text
  pub created_at : ℕ
  pub attempts : ℕ

-- The key `otp:${type}:${email}`.
pub record OtpKey : Type 0 where
  pub type : OtpType
  pub email : Text

abbrev pub type_eq : OtpType → OtpType → Bool
type_eq verify verify = true
type_eq reset reset = true
type_eq _ _ = false

abbrev pub same_otp_key : OtpKey → OtpKey → Bool
same_otp_key k j = type_eq k.type j.type && text_eq k.email j.email

-- `OTP_TTL` in seconds, and `MAX_ATTEMPTS`.
abbrev pub otp_ttl : ℕ
otp_ttl = 600

abbrev pub max_attempts : ℕ
max_attempts = 5

-- `floor(100000 + random * 900000).toString()`, where `draw` is the floor of `random * 900000`.
unfoldable pub generate_otp : ℕ → Text
generate_otp draw =
    let n = 100000 + draw in
    (48 + n / 100000)
    ∷ (48 + n / 10000 % 10)
    ∷ (48 + n / 1000 % 10)
    ∷ (48 + n / 100 % 10)
    ∷ (48 + n / 10 % 10)
    ∷ (48 + n % 10)
    ∷ []

abbrev pub get_otp_key : Text → OtpType → OtpKey
get_otp_key email type = record { type = type; email = to_lower_case email }

module _ {Db : Type 0} (redis : Cache OtpKey OtpPayload Db same_otp_key) (connected : Bool) where
  open redis use {get, set_ex, del}

  unfoldable pub create_otp : ℕ → ℕ → Text → OtpType → Action Db Text
  create_otp draw now email type db =
      let otp = generate_otp draw in
      let payload : OtpPayload = record { otp = otp; created_at = now; attempts = 0 } in
      (ok otp, if connected then set_ex (get_otp_key email type) payload otp_ttl now db else db)

  -- What `verifyOtp` does with the payload that it has read.
  unfoldable pub check_otp : OtpKey → OtpPayload → ℕ → Text → Action Db Bool
  check_otp key parsed now otp db =
      if leb max_attempts parsed.attempts
      then (err (bad_request "Too many failed attempts. Please request a new OTP"), del key db)
      else if not (text_eq parsed.otp otp)
      then (
        err (bad_request "Invalid OTP"),
        set_ex key (record parsed { attempts = parsed.attempts + 1 }) otp_ttl now db,
      )
      else (ok true, del key db)

  unfoldable pub verify_otp : ℕ → Text → Text → OtpType → Action Db Bool
  unfolding check_otp
  verify_otp now email otp type = do
    throw_if (not connected) (bad_request "Verification service unavailable")
    found ← gets (get (get_otp_key email type) now)
    parsed ← or_throw found (bad_request "OTP expired or not found")
    check_otp (get_otp_key email type) parsed now otp

  -- `redisService.invalidate` does nothing without a client.
  unfoldable pub delete_otp : Text → OtpType → Db → Db
  delete_otp email type db = if connected then del (get_otp_key email type) db else db

  unfoldable pub has_otp : ℕ → Text → OtpType → Db → Bool
  has_otp now email type db = connected && is_some (get (get_otp_key email type) now db)
