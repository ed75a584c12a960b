-- ===== src/Auth/Service/Tests.antt =====
-- Runs of the authentication service in memory.
use rental_application_nest.Prelude.{
  ◌≡◌, refl, true, false, none, some, Option, List, [], ◌∷◌, arith, Text, text_eq, to_lower_case,
  Result, ok, err, bad_request, In,
}
use rental_application_nest.External.Memory.{memory_cache, Expiring}
use rental_application_nest.External.Memory.Tables.{memory_table}
use rental_application_nest.External.Memory.Tokens.{memory_jwt, memory_bcrypt}
use rental_application_nest.External.Crypto.{Jwt, refresh_secret}
use rental_application_nest.Auth.Otp.{
  OtpKey, OtpPayload, same_otp_key, generate_otp, create_otp, check_otp, verify_otp,
}
use rental_application_nest.Auth.Service.{
  User, Payload, Tokens, RegisterDto, State, Session, session_of, registered, refresh_life, login,
  register, refresh_token, refresh_user, is_blacklisted, blacklist_token, generate_tokens, logout,
  forgot_password, reset_password,
}
use rental_application_nest.Auth.Service.Requests.{Request, logs_in, refreshes, logs_out, serve_all}
use rental_application_nest.Auth.Service.Accounts.{
  login_sound, login-register, login-reset_password,
}
use rental_application_nest.Auth.Service.Revocation.{logout_final, refresh_once}

abbrev encode : Payload → Text
encode p = p.user_id ∷ p.role ∷ p.email

abbrev decode : Text → Option Payload
decode (u ∷ r ∷ email) = some (record { user_id = u; email = email; role = r })
decode _ = none

abbrev jwt : Jwt Payload
jwt = memory_jwt encode decode (λ p. refl)

abbrev Memory : Type 0
Memory = State (List User) (OtpKey → Expiring OtpPayload) (Text → Expiring (Unit {0}))

-- "Ann@x", "ann@x", "pw" and "new"
abbrev typed : Text
typed = b'A' ∷ b'n' ∷ b'n' ∷ b'@' ∷ b'x' ∷ []

abbrev address : Text
address = b'a' ∷ b'n' ∷ b'n' ∷ b'@' ∷ b'x' ∷ []

abbrev password : Text
password = b'p' ∷ b'w' ∷ []

abbrev new_password : Text
new_password = b'n' ∷ b'e' ∷ b'w' ∷ []

abbrev dto : RegisterDto
dto = record { name = typed; email = typed; password = password; role = 2; phone_number = none }

abbrev ann : User
ann = registered memory_bcrypt 7 3 dto

abbrev empty : Memory
empty = record { users = []; otps = λ k. none; blacklist = λ k. none }

abbrev with_ann : Memory
with_ann = record { users = ann ∷ []; otps = λ k. none; blacklist = λ k. none }

abbrev session : Session
session =
    session_of memory_table (memory_cache same_otp_key) (memory_cache text_eq) true jwt
      memory_bcrypt ann 5

login_sound_example :
    (u : User) × In u (ann ∷ [])
    × (u.email ≡ to_lower_case typed)
    × (u.is_deleted ≡ false)
    × ((hashed : Text) × (u.password ≡ some hashed)
        × (memory_bcrypt.compare password hashed ≡ true))
    × (session
        ≡ session_of memory_table
            (memory_cache same_otp_key)
            (memory_cache text_eq)
            true
            jwt
            memory_bcrypt
            u
            5)
unfolding login generate_tokens
login_sound_example =
    login_sound memory_table (memory_cache same_otp_key) (memory_cache text_eq) true jwt
      memory_bcrypt 5 typed password with_ann refl

abbrev registration : Result (User × Text) × Memory
registration =
    register memory_table (memory_cache same_otp_key) (memory_cache text_eq) true jwt memory_bcrypt
      5 7 3 23456 (ok tt) dto empty

login-register_example :
    login memory_table
      (memory_cache same_otp_key)
      (memory_cache text_eq)
      true
      jwt
      memory_bcrypt
      9
      address
      password
      registration.1
    ≡ (
      ok (
          session_of memory_table
            (memory_cache same_otp_key)
            (memory_cache text_eq)
            true
            jwt
            memory_bcrypt
            ann
            9),
      registration.1,
    )
unfolding register create_otp
login-register_example =
    login-register memory_table (memory_cache same_otp_key) (memory_cache text_eq) true jwt
      memory_bcrypt 5 7 3 23456 9 (ok tt) dto address empty refl refl

-- The state once a reset was asked for, and once it was done.
abbrev asked : Memory
asked =
    (forgot_password memory_table (memory_cache same_otp_key) (memory_cache text_eq) true jwt
      memory_bcrypt 5 23456 (ok tt) typed with_ann).1

abbrev changed : Memory
changed =
    (reset_password memory_table (memory_cache same_otp_key) (memory_cache text_eq) true jwt
      memory_bcrypt 6 4 address (generate_otp 23456) new_password asked).1

abbrev new_ann : User
new_ann = record ann { password = some (4 ∷ new_password) }

login-reset_password_example :
    let again =
      reset_password memory_table
        (memory_cache same_otp_key)
        (memory_cache text_eq)
        true
        jwt
        memory_bcrypt
        8
        5
        address
        (generate_otp 23456)
        password
        changed in
    (login memory_table
        (memory_cache same_otp_key)
        (memory_cache text_eq)
        true
        jwt
        memory_bcrypt
        8
        address
        new_password
        changed
      ≡ (
        ok (
            session_of memory_table
              (memory_cache same_otp_key)
              (memory_cache text_eq)
              true
              jwt
              memory_bcrypt
              new_ann
              8),
        changed,
      ))
    × (again.0 ≡ err (bad_request "OTP expired or not found"))
    × (again.1.users ≡ changed.users)
unfolding forgot_password reset_password create_otp verify_otp check_otp generate_otp
login-reset_password_example =
    login-reset_password memory_table (memory_cache same_otp_key) (memory_cache text_eq) true jwt
      memory_bcrypt 6 4 8 5 address (generate_otp 23456) new_password password asked new_ann refl
      refl

abbrev payload : Payload
payload = record { user_id = 7; email = address; role = 2 }

abbrev token : Text
token = jwt.sign payload refresh_secret refresh_life 5

abbrev requests : List Request
requests = logs_in 20 typed password ∷ refreshes 20 token ∷ logs_out 3000 [] ∷ []

abbrev logged_out : Memory
logged_out =
    (logout memory_table (memory_cache same_otp_key) (memory_cache text_eq) true jwt memory_bcrypt
      10 token with_ann).1

logout_final_example : ¬ (
    (refresh_token memory_table
      (memory_cache same_otp_key)
      (memory_cache text_eq)
      true
      jwt
      memory_bcrypt
      4000
      token
      (serve_all memory_table
        (memory_cache same_otp_key)
        (memory_cache text_eq)
        true
        jwt
        memory_bcrypt
        requests
        logged_out)).0
    ≡ ok (
        generate_tokens memory_table
          (memory_cache same_otp_key)
          (memory_cache text_eq)
          true
          jwt
          memory_bcrypt
          ann
          4000))
logout_final_example =
    logout_final memory_table (memory_cache same_otp_key) (memory_cache text_eq) jwt memory_bcrypt
      payload 5 10 4000 requests with_ann (omega arith) (ground arith) (omega arith)
      (generate_tokens memory_table (memory_cache same_otp_key) (memory_cache text_eq) true jwt
        memory_bcrypt ann 4000)

-- The first use of the token.
abbrev used : Result Tokens × Memory
used =
    refresh_token memory_table (memory_cache same_otp_key) (memory_cache text_eq) true jwt
      memory_bcrypt 10 token with_ann

refresh_once_example : ¬ (
    (refresh_token memory_table
      (memory_cache same_otp_key)
      (memory_cache text_eq)
      true
      jwt
      memory_bcrypt
      4000
      token
      (serve_all memory_table
        (memory_cache same_otp_key)
        (memory_cache text_eq)
        true
        jwt
        memory_bcrypt
        requests
        used.1)).0
    ≡ ok (
        generate_tokens memory_table
          (memory_cache same_otp_key)
          (memory_cache text_eq)
          true
          jwt
          memory_bcrypt
          ann
          4000))
unfolding refresh_token refresh_user is_blacklisted blacklist_token generate_tokens
refresh_once_example =
    refresh_once memory_table (memory_cache same_otp_key) (memory_cache text_eq) jwt memory_bcrypt
      payload 5 10 4000 requests with_ann (omega arith) (ground arith) (omega arith) refl
      (generate_tokens memory_table (memory_cache same_otp_key) (memory_cache text_eq) true jwt
        memory_bcrypt ann 4000)
