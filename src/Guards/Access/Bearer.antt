-- ===== src/Guards/Access/Bearer.antt =====
-- How long the access token of a session opens the routes.
use rental_application_nest.Prelude.{
  ℕ, ◌+◌, ◌/◌, ◌≤◌, ◌<◌, ◌≡◌, ◌∙◌, refl, ap, Bool, true, false, none, some, [], ◌∷◌, contains,
  arith, Text, text_eq, ok, is_ok,
}
use rental_application_nest.External.Table.{Table}
use rental_application_nest.External.Cache.{Cache}
use rental_application_nest.External.Crypto.{Jwt, Bcrypt, access_secret}
use rental_application_nest.Auth.Otp.{OtpKey, OtpPayload, same_otp_key}
use rental_application_nest.Auth.Service.{User, Payload, payload_of, access_life, generate_tokens}
use rental_application_nest.Guards.Access.{
  Request, first_word, non_empty, extract_token_from_header, auth_guard,
}

-- "Bearer " and the token
abbrev pub bearer_header : Text → Text
bearer_header token = b'B' ∷ b'e' ∷ b'a' ∷ b'r' ∷ b'e' ∷ b'r' ∷ b' ' ∷ token

first_word_whole : (t : Text) → contains t b' ' ≡ false → first_word t ≡ t
first_word_whole [] h = refl
first_word_whole (c ∷ cs) h = ground (arith, first_word_whole cs)

abbrev pub is_empty : Text → Bool
is_empty [] = true
is_empty (c ∷ cs) = false

non_empty-some : (t : Text) → is_empty t ≡ false → non_empty (some t) ≡ some t
non_empty-some [] h = absurd (ground arith)
non_empty-some (c ∷ cs) h = refl

extract-bearer_header :
    (t : Text)
    → contains t b' ' ≡ false
    → is_empty t ≡ false
    → extract_token_from_header (some (bearer_header t)) ≡ some t
unfolding extract_token_from_header
extract-bearer_header t h k = rw (first_word_whole t h) (non_empty-some t k)

module _ {Users Otps Blacklist : Type 0} (prisma : Table User Users)
    (otp_redis : Cache OtpKey OtpPayload Otps same_otp_key)
    (redis : Cache Text (Unit {0}) Blacklist text_eq) (connected : Bool) (jwt : Jwt Payload)
    (bcrypt : Bcrypt) (is_expired : Text → ℕ → Bool) where
  auth_guard_verified :
      (now : ℕ) (s : Request) (t : Text) (p : Payload)
      → extract_token_from_header s.authorization ≡ some t
      → jwt.verify t access_secret now ≡ some p
      → auth_guard jwt is_expired false now s ≡ (ok true, record s { user = some p })
  unfolding auth_guard
  auth_guard_verified now s t p e f = ground arith

  auth_guard_refused :
      (now : ℕ) (s : Request) (t : Text)
      → extract_token_from_header s.authorization ≡ some t
      → jwt.verify t access_secret now ≡ none
      → (is_ok (auth_guard jwt is_expired false now s).0 ≡ false)
        × ((auth_guard jwt is_expired false now s).1 ≡ s)
  unfolding auth_guard
  auth_guard_refused now s t e f = (ground arith, ground arith)

  -- The access token that `generateTokens` signs, sent as `Bearer <token>` to a route that is not
  -- public, is accepted for the 900 seconds from its signing, counted in whole seconds, and attaches
  -- the user's id, address and role; from then on the request is refused and nothing is attached. A
  -- token is a text that is not empty and has no space.
  pub auth_guard-generate_tokens :
      (user : User) (issued now : ℕ) (s : Request)
      → let token =
          (generate_tokens prisma otp_redis redis connected jwt bcrypt user issued).access_token in
        contains token b' ' ≡ false
        → is_empty token ≡ false
        → s.authorization ≡ some (bearer_header token)
        → issued ≤ now
        → (now / 1000 < issued / 1000 + 900
            → auth_guard jwt is_expired false now s
              ≡ (ok true, record s { user = some (payload_of user) }))
          × (issued / 1000 + 900 ≤ now / 1000
              → (is_ok (auth_guard jwt is_expired false now s).0 ≡ false)
                × ((auth_guard jwt is_expired false now s).1 ≡ s))
  unfolding generate_tokens
  auth_guard-generate_tokens user issued now s no_space not_empty sent order =
      let token = jwt.sign (payload_of user) access_secret access_life issued in
      let e = ap extract_token_from_header sent ∙ extract-bearer_header token no_space not_empty in
      (
        λ h.
            auth_guard_verified now s token (payload_of user) e
              (jwt.verify-sign (payload_of user) access_secret access_life issued now order h),
        λ h.
            auth_guard_refused now s token e
              (jwt.verify_expired (payload_of user) access_secret access_life issued now h),
      )
