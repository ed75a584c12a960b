-- ===== src/External/Crypto.antt =====
-- The packages `@nestjs/jwt` and `bcrypt`, as far as the authentication service relies on them.
-- Times are in milliseconds; a token's lifetime is in seconds, and is counted in whole seconds.
use rental_application_nest.Prelude.{
  ℕ, ◌+◌, ◌/◌, ◌≤◌, ◌<◌, ◌≡◌, Bool, true, Option, none, some, Text,
}

pub data Secret : Type 0 where
  access_secret refresh_secret : Secret

pub record Jwt (Payload : Type 0) : Type 0 where
  pub sign : Payload → Secret → ℕ → ℕ → Text
  pub verify : Text → Secret → ℕ → Option Payload
  pub verify-sign :
      (p : Payload) (s : Secret) (life now later : ℕ)
      → now ≤ later
      → later / 1000 < now / 1000 + life
      → verify (sign p s life now) s later ≡ some p
  pub verify_expired :
      (p : Payload) (s : Secret) (life now later : ℕ)
      → now / 1000 + life ≤ later / 1000
      → verify (sign p s life now) s later ≡ none

-- `hash` takes the salt that the package draws.
pub record Bcrypt : Type 0 where
  pub hash : ℕ → Text → Text
  pub compare : Text → Text → Bool
  pub compare-hash : (salt : ℕ) (password : Text) → compare password (hash salt password) ≡ true
