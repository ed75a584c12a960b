-- ===== src/Guards/Access/Tests.antt =====
-- Runs of the guards in memory.
use rental_application_nest.Prelude.{
  ◌+◌, ◌≤◌, ◌<◌, ◌≡◌, refl, true, false, Option, none, some, [], ◌∷◌, arith, contains, Text,
  text_eq, ok, is_ok,
}
use rental_application_nest.External.Memory.{memory_cache}
use rental_application_nest.External.Memory.Tables.{memory_table}
use rental_application_nest.External.Memory.Tokens.{memory_jwt, memory_bcrypt}
use rental_application_nest.External.Crypto.{Jwt, access_secret}
use rental_application_nest.Auth.Otp.{same_otp_key}
use rental_application_nest.Auth.Service.{User, Payload, payload_of, generate_tokens}
use rental_application_nest.Guards.Access.{
  Request, extract_token_from_header, auth_guard, roles_guard, guarded,
}
use rental_application_nest.Guards.Access.Roles.{guarded_sound}
use rental_application_nest.Guards.Access.Bearer.{bearer_header, auth_guard-generate_tokens}

abbrev encode : Payload → Text
encode p = p.user_id ∷ p.role ∷ p.email

abbrev decode : Text → Option Payload
decode (u ∷ r ∷ email) = some (record { user_id = u; email = email; role = r })
decode _ = none

abbrev jwt : Jwt Payload
jwt = memory_jwt encode decode (λ p. refl)

abbrev ann : User
ann = record {
  id = 7;
  name = [];
  email = b'a' ∷ [];
  password = none;
  role = 2;
  phone_number = none;
  profile_image_url = none;
  is_email_verified = true;
  auth_provider = none;
  is_deleted = false;
}

abbrev token : Text
token = 0 ∷ 902 ∷ 7 ∷ 2 ∷ b'a' ∷ []

abbrev request : Request
request = record { authorization = some (bearer_header token); user = none }

auth_guard-generate_tokens_example :
    (899 < 2 + 900
      → auth_guard jwt (λ t now. true) false 899500 request
        ≡ (ok true, record request { user = some (payload_of ann) }))
    × (2 + 900 ≤ 899
        → (is_ok (auth_guard jwt (λ t now. true) false 899500 request).0 ≡ false)
          × ((auth_guard jwt (λ t now. true) false 899500 request).1 ≡ request))
unfolding generate_tokens
auth_guard-generate_tokens_example =
    auth_guard-generate_tokens memory_table (memory_cache same_otp_key) (memory_cache text_eq) true
      jwt memory_bcrypt (λ t now. true) ann 2000 899500 request refl refl refl (omega arith)

guarded_sound_example :
    (t : Text) × (payload : Payload) × (extract_token_from_header request.authorization ≡ some t)
    × (jwt.verify t access_secret 899500 ≡ some payload)
    × (contains (1 ∷ 2 ∷ []) payload.role ≡ true)
    × ((guarded jwt (λ t now. true) false (some (1 ∷ 2 ∷ [])) 899500 request).1.user ≡ some payload)
unfolding guarded auth_guard roles_guard extract_token_from_header
guarded_sound_example = guarded_sound jwt (λ t now. true) 1 (2 ∷ []) 899500 request refl
