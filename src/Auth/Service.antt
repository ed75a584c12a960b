-- ===== src/Auth/Service.antt =====
-- src/features/authentication/auth/auth.service.ts. The database, Redis, `bcrypt` and the token
-- library are the section's parameters. What a call takes from outside is an argument: the clock
-- `now`, read once, the id that the database gives a new row, and what the mail server answered.
pub mod Requests
pub mod Revocation
pub mod Accounts
mod Tests
use rental_application_nest.Prelude.{
  ℕ, ◌≡◌, Bool, true, false, not, ◌&&◌, Option, none, some, List, [], ◌∷◌, if◌then◌else◌, ◌==◌,
  is_some, Text, text_eq, to_lower_case, Result, ok, err, HttpError, bad_request, unauthorized,
  not_found, internal, Action, pure, throw, throw_if, or_throw, gets, modify, ◌>>=◌, ◌>>◌,
}
use rental_application_nest.External.Table.{Table}
use rental_application_nest.External.Cache.{Cache}
use rental_application_nest.External.Crypto.{Jwt, Bcrypt, access_secret, refresh_secret}
use rental_application_nest.Auth.Otp.{
  OtpKey, OtpPayload, OtpType, verify, reset, same_otp_key, create_otp, verify_otp,
}

pub data Provider : Type 0 where
  google apple : Provider

-- The columns of a user that the service reads or writes.
pub record User : Type 0 where
  pub id : ℕ
  pub name : Text
  pub email : Text
  pub password : Option Text
  pub role : ℕ
  pub phone_number : Option Text
  pub profile_image_url : Option Text
  pub is_email_verified : Bool
  pub auth_provider : Option Provider
  pub is_deleted : Bool

-- What a token carries.
pub record Payload : Type 0 where
  pub user_id : ℕ
  pub email : Text
  pub role : ℕ

pub record Tokens : Type 0 where
  pub access_token : Text
  pub refresh_token : Text

-- The body of a successful `login` or `oauthLogin`.
pub record Session : Type 0 where
  pub id : ℕ
  pub name : Text
  pub email : Text
  pub role : ℕ
  pub profile_image_url : Option Text
  pub tokens : Tokens

pub record RegisterDto : Type 0 where
  pub name : Text
  pub email : Text
  pub password : Text
  pub role : ℕ
  pub phone_number : Option Text

-- What `OAuthVerificationService` returns of a valid id token.
pub record OAuthProfile : Type 0 where
  pub email : Text
  pub name : Text
  pub picture : Option Text

pub record State (Users Otps Blacklist : Type 0) : Type 0 where
  pub users : Users
  pub otps : Otps
  pub blacklist : Blacklist

-- `TOKEN_BLACKLIST_TTL`, and the lifetimes '15m' and '7d', in seconds.
abbrev pub blacklist_ttl : ℕ
blacklist_ttl = 604800

abbrev pub access_life : ℕ
access_life = 900

abbrev pub refresh_life : ℕ
refresh_life = 604800

abbrev pub payload_of : User → Payload
payload_of u = record { user_id = u.id; email = u.email; role = u.role }

-- `email.split('@')[0]`
abbrev pub before_at : Text → Text
before_at [] = []
before_at (c ∷ cs) = let rest = before_at cs in if c == b'@' then [] else c ∷ rest

-- `name || email.split('@')[0]`
abbrev pub name_or : Text → Text → Text
name_or [] email = before_at email
name_or (c ∷ cs) email = c ∷ cs

-- Only the Google branch sets `profileImage`.
abbrev pub picture_of : Provider → OAuthProfile → Option Text
picture_of google profile = profile.picture
picture_of apple profile = none

-- `where: { email: email.toLowerCase(), isDeleted: false }`
abbrev pub is_active_with : Text → User → Bool
is_active_with email u = text_eq u.email (to_lower_case email) && not u.is_deleted

abbrev pub has_email : Text → User → Bool
has_email email u = text_eq u.email (to_lower_case email)

-- The row that `oauthLogin` creates. In this row and the next `none` stands for the schema's defaults, the
-- picture '/uploads/users/user.png' and the provider `local`.
abbrev pub oauth_user : ℕ → Provider → OAuthProfile → ℕ → User
oauth_user new_id provider profile role = record {
  id = new_id;
  name = name_or profile.name profile.email;
  email = to_lower_case profile.email;
  password = none;
  role = role;
  phone_number = none;
  profile_image_url = picture_of provider profile;
  is_email_verified = true;
  auth_provider = some provider;
  is_deleted = false;
}

-- The row that `register` creates.
abbrev pub registered : Bcrypt → ℕ → ℕ → RegisterDto → User
registered bcrypt new_id salt dto = record {
  id = new_id;
  name = dto.name;
  email = to_lower_case dto.email;
  password = some (bcrypt.hash salt dto.password);
  role = dto.role;
  phone_number = dto.phone_number;
  profile_image_url = none;
  is_email_verified = false;
  auth_provider = none;
  is_deleted = false;
}

module _ {Users Otps Blacklist : Type 0} (prisma : Table User Users)
    (otp_redis : Cache OtpKey OtpPayload Otps same_otp_key)
    (redis : Cache Text (Unit {0}) Blacklist text_eq) (connected : Bool) (jwt : Jwt Payload)
    (bcrypt : Bcrypt) where
  abbrev pub Db : Type 0
  Db = State Users Otps Blacklist

  abbrev on_otps : {A : Type 0} → Action Otps A → Action Db A
  on_otps m s = ((m s.otps).0, record s { otps = (m s.otps).1 })

  unfoldable pub generate_tokens : User → ℕ → Tokens
  generate_tokens user now = record {
    access_token = jwt.sign (payload_of user) access_secret access_life now;
    refresh_token = jwt.sign (payload_of user) refresh_secret refresh_life now;
  }

  unfoldable pub blacklist_token : Text → ℕ → Db → Db
  blacklist_token token now s =
      if connected
      then record s { blacklist = redis.set_ex token tt blacklist_ttl now s.blacklist }
      else s

  abbrev session_of : User → ℕ → Session
  session_of u now = record {
    id = u.id;
    name = u.name;
    email = u.email;
    role = u.role;
    profile_image_url = u.profile_image_url;
    tokens = generate_tokens u now;
  }

  unfoldable pub login : ℕ → Text → Text → Action Db Session
  unfolding generate_tokens
  login now email password = do
    found ← gets (λ s. prisma.find_first (is_active_with email) s.users)
    user ← or_throw found (unauthorized "Invalid credentials")
    hashed ← or_throw user.password (unauthorized "Invalid credentials")
    throw_if (not (bcrypt.compare password hashed)) (unauthorized "Invalid credentials")
    pure (session_of user now)

  -- The result is the new user with the one-time password, which the source adds in development.
  unfoldable pub register :
      ℕ → ℕ → ℕ → ℕ → Result (Unit {0}) → RegisterDto → Action Db (User × Text)
  register now new_id salt draw mailed dto = do
    existing ← gets (λ s. prisma.find_first (has_email dto.email) s.users)
    throw_if (is_some existing) (bad_request "Email already registered")
    modify (λ s. record s { users = prisma.create (registered bcrypt new_id salt dto) s.users })
    otp ← on_otps (create_otp otp_redis connected draw now dto.email verify)
    λ s. (mailed, s)
    pure (registered bcrypt new_id salt dto, otp)

  -- The `try` block of `refreshToken`: whatever it throws, the `catch` says the same.
  unfoldable pub refresh_user : ℕ → Text → Db → Option User
  refresh_user now token s = elim (jwt.verify token refresh_secret now) [
    | none ↦ none
    | some payload ↦ elim (prisma.find_first (λ u. u.id == payload.user_id) s.users) [
      | none ↦ none
      | some user ↦ if user.is_deleted then none else some user
    ]
  ]

  unfoldable pub is_blacklisted : ℕ → Text → Db → Bool
  is_blacklisted now token s = connected && is_some (redis.get token now s.blacklist)

  unfoldable pub refresh_token : ℕ → Text → Action Db Tokens
  unfolding refresh_user is_blacklisted generate_tokens
  refresh_token now token = do
    revoked ← gets (is_blacklisted now token)
    throw_if revoked (unauthorized "Refresh token has been revoked")
    found ← gets (refresh_user now token)
    user ← or_throw found (unauthorized "Invalid refresh token")
    modify (blacklist_token token now)
    pure (generate_tokens user now)

  unfoldable pub logout : ℕ → Text → Action Db (Unit {0})
  logout now token = modify (blacklist_token token now)

  unfoldable pub forgot_password : ℕ → ℕ → Result (Unit {0}) → Text → Action Db (Unit {0})
  forgot_password now draw mailed email = do
    found ← gets (λ s. prisma.find_first (is_active_with email) s.users)
    throw_if (not (is_some found)) (not_found "User not found")
    otp ← on_otps (create_otp otp_redis connected draw now email reset)
    λ s. (mailed, s)

  -- `update` throws where no row has the unique field; the error is not caught.
  unfoldable pub reset_password : ℕ → ℕ → Text → Text → Text → Action Db (Unit {0})
  reset_password now salt email otp new_password = do
    on_otps (verify_otp otp_redis connected now email otp reset)
    found ← gets (λ s. prisma.find_first (has_email email) s.users)
    throw_if (not (is_some found)) (internal "Record to update not found")
    modify (λ s. record s {
      users =
          prisma.update_many (has_email email)
            (λ u. record u { password = some (bcrypt.hash salt new_password) }) s.users;
    })

  unfoldable pub find_or_create : ℕ → Provider → OAuthProfile → Option ℕ → Action Db User
  find_or_create new_id provider profile role s =
      elim (prisma.find_first (has_email profile.email) s.users) [
        | some user ↦
            (if user.is_deleted then err (unauthorized "Account has been deleted") else ok user, s)
        | none ↦ elim role [
          | none ↦ (err (bad_request "Role is required for new OAuth users"), s)
          | some r ↦ (
            ok (oauth_user new_id provider profile r),
            record s { users = prisma.create (oauth_user new_id provider profile r) s.users },
          )
        ]
      ]

  -- `verified` is what the verification of the id token returned, or threw.
  unfoldable pub oauth_login :
      ℕ → ℕ → Option Provider → Result OAuthProfile → Option ℕ → Action Db Session
  unfolding find_or_create generate_tokens
  oauth_login now new_id provider verified role = do
    chosen ← or_throw provider (bad_request "Invalid OAuth provider")
    profile ← λ s. (verified, s)
    user ← find_or_create new_id chosen profile role
    pure (session_of user now)
