-- ===== src/External/Memory/Tokens.antt =====
-- A token that lists what it carries, and a hash that keeps the password.
use rental_application_nest.Prelude.{
  ℕ, ◌+◌, ◌/◌, ◌≤◌, ◌<◌, ◌≡◌, Bool, false, ◌&&◌, Option, none, some, [], ◌∷◌, ◌==◌, ltb,
  if◌then◌else◌, arith, Text, text_eq, text_eq_refl, ==_refl,
}
use rental_application_nest.External.Crypto.{Secret, access_secret, refresh_secret, Jwt, Bcrypt}

abbrev pub code : Secret → ℕ
code access_secret = 0
code refresh_secret = 1

module _ {Payload : Type 0} (encode : Payload → Text) (decode : Text → Option Payload) where
  abbrev pub sign : Payload → Secret → ℕ → ℕ → Text
  sign p s life now = code s ∷ (now / 1000 + life) ∷ encode p

  abbrev pub verify : Text → Secret → ℕ → Option Payload
  verify (c ∷ end ∷ body) s now =
      if (c == code s) && ltb (now / 1000) end then decode body else none
  verify _ s now = none

  pub verify-sign :
      (p : Payload) (s : Secret) (life now later : ℕ)
      → decode (encode p) ≡ some p
      → later / 1000 < now / 1000 + life
      → verify (sign p s life now) s later ≡ some p
  verify-sign p s life now later e h = ground (arith, ==_refl (code s))

  pub verify_expired :
      (p : Payload) (s : Secret) (life now later : ℕ)
      → now / 1000 + life ≤ later / 1000
      → verify (sign p s life now) s later ≡ none
  verify_expired p s life now later h = ground arith

  abbrev pub memory_jwt : ((p : Payload) → decode (encode p) ≡ some p) → Jwt Payload
  memory_jwt round_trip = record {
    sign = sign;
    verify = verify;
    verify-sign = λ p s life now later h. verify-sign p s life now later (round_trip p);
    verify_expired = verify_expired;
  }

abbrev pub compare : Text → Text → Bool
compare password [] = false
compare password (salt ∷ kept) = text_eq password kept

abbrev pub memory_bcrypt : Bcrypt
memory_bcrypt = record {
  hash = λ salt password. salt ∷ password;
  compare = compare;
  compare-hash = λ salt password. text_eq_refl password;
}
