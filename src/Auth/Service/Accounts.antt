-- ===== src/Auth/Service/Accounts.antt =====
-- Registering, resetting the password, and logging in.
use rental_application_nest.Prelude.{
  ℕ, ◌≡◌, Bool, true, false, some, arith, text_eq, text_eq_refl, text_eq_sound, Text, to_lower_case,
  Result, ok, err, bad_request, Option-cases, is_ok, inl, inr, In,
}
use rental_application_nest.External.Table.{Table, find_first-create, find_first-update_many}
use rental_application_nest.External.Cache.{Cache}
use rental_application_nest.External.Crypto.{Jwt, Bcrypt}
use rental_application_nest.Auth.Otp.{
  OtpKey, OtpPayload, same_otp_key, OtpType, reset, get_otp_key, verify_otp, check_otp,
}
use rental_application_nest.Auth.Otp.SingleUse.{same_otp_key_refl}
use rental_application_nest.Auth.Service.{
  User, Payload, RegisterDto, State, Session, session_of, registered, is_active_with, has_email,
  login, register, reset_password,
}

module _ {Users Otps Blacklist : Type 0} (prisma : Table User Users)
    (otp_redis : Cache OtpKey OtpPayload Otps same_otp_key)
    (redis : Cache Text (Unit {0}) Blacklist text_eq) (connected : Bool) (jwt : Jwt Payload)
    (bcrypt : Bcrypt) where
  -- A `login` that succeeds is that of a user row with the lowered address that is not deleted, has
  -- a password, and whose password the given one matches; the session is that row's.
  pub login_sound :
      (now : ℕ) (email password : Text) (s : State Users Otps Blacklist) {r : Session}
      → (login prisma otp_redis redis connected jwt bcrypt now email password s).0 ≡ ok r
      → (u : User) × In u (prisma.rows s.users)
        × (u.email ≡ to_lower_case email)
        × (u.is_deleted ≡ false)
        × ((hashed : Text) × (u.password ≡ some hashed) × (bcrypt.compare password hashed ≡ true))
        × (r ≡ session_of prisma otp_redis redis connected jwt bcrypt u now)
  unfolding login
  login_sound now email password s e =
      elim (Option-cases (prisma.find_first (is_active_with email) s.users)) [
        | inl nobody ↦ absurd (ground arith)
        | inr (u, found) ↦ elim (Option-cases u.password) [
          | inl unset ↦ absurd (ground arith)
          | inr (hashed, set) ↦
              let (passes, m) = prisma.find_first-some (is_active_with email) s.users found in
              (
                u,
                m,
                text_eq_sound u.email (to_lower_case email) (ground arith),
                ground arith,
                (hashed, set, ground arith),
                ground arith,
              )
        ]
      ]

  -- After a `register` that succeeds, `login` with the same password and any spelling of the
  -- address that lowers to the same text gives a session of the new user.
  pub login-register :
      (now new_id salt draw later : ℕ) (mailed : Result (Unit {0})) (dto : RegisterDto)
      (email : Text) (s : State Users Otps Blacklist) {r : User × Text}
      → to_lower_case email ≡ to_lower_case dto.email
      → let (answer, s') =
          register prisma otp_redis redis connected jwt bcrypt now new_id salt draw mailed dto s in
        answer ≡ ok r
        → login prisma otp_redis redis connected jwt bcrypt later email dto.password s'
          ≡ (ok (session_of prisma otp_redis redis connected jwt bcrypt r.0 later), s')
  unfolding login register
  login-register now new_id salt draw later mailed dto email s e h =
      elim (Option-cases (prisma.find_first (has_email dto.email) s.users)) [
        | inr (u, taken) ↦ absurd (ground arith)
        | inl fresh ↦
            let u = registered bcrypt new_id salt dto in
            let found =
              find_first-create prisma (is_active_with email) (has_email dto.email) u s.users fresh
                (λ x h. ground arith) (ground (arith, text_eq_refl (to_lower_case dto.email))) in
            ground (arith, found, bcrypt.compare-hash salt dto.password)
      ]

  -- A password that was accepted is gone.
  verify_consumed :
      (now later : ℕ) (email otp : Text) (type : OtpType) (o : Otps)
      → is_ok (verify_otp otp_redis connected now email otp type o).0 ≡ true
      → let o' = (verify_otp otp_redis connected now email otp type o).1 in
        verify_otp otp_redis connected later email otp type o'
        ≡ (err (bad_request "OTP expired or not found"), o')
  unfolding verify_otp check_otp
  verify_consumed now later email otp type o h = ground (
    arith,
    otp_redis.get-del (get_otp_key email type) (get_otp_key email type) later o,
    same_otp_key_refl (get_otp_key email type),
  )

  abbrev set_password : ℕ → Text → User → User
  set_password salt password x = record x { password = some (bcrypt.hash salt password) }

  reset_password_parts :
      (now salt : ℕ) (email otp password : Text) (s : State Users Otps Blacklist)
      → let (answer, s') =
          reset_password prisma otp_redis redis connected jwt bcrypt now salt email otp password
            s in
        answer ≡ ok tt
        → (is_ok (verify_otp otp_redis connected now email otp reset s.otps).0 ≡ true)
          × (s'.otps ≡ (verify_otp otp_redis connected now email otp reset s.otps).1)
          × (s'.users ≡ prisma.update_many (has_email email) (set_password salt password) s.users)
  unfolding reset_password
  reset_password_parts now salt email otp password s h = ground arith

  -- An active user found after the update has the new password.
  updated :
      (salt : ℕ) (email password : Text) (db : Users) (u : User)
      → prisma.find_first
          (is_active_with email)
          (prisma.update_many (has_email email) (set_password salt password) db)
        ≡ some u
      → u.password ≡ some (bcrypt.hash salt password)
  updated salt email password db u found =
      let (x, m, e) =
        find_first-update_many prisma (is_active_with email) (has_email email)
          (set_password salt password) db found in
      let passes =
        (prisma.find_first-some (is_active_with email)
          (prisma.update_many (has_email email) (set_password salt password) db) found).0 in
      ground arith

  login_found :
      (now : ℕ) (email password hashed : Text) (s : State Users Otps Blacklist) (u : User)
      → prisma.find_first (is_active_with email) s.users ≡ some u
      → u.password ≡ some hashed
      → bcrypt.compare password hashed ≡ true
      → login prisma otp_redis redis connected jwt bcrypt now email password s
        ≡ (ok (session_of prisma otp_redis redis connected jwt bcrypt u now), s)
  unfolding login
  login_found now email password hashed s u found set matches = ground arith

  reset_again :
      (now salt : ℕ) (email otp password : Text) (s : State Users Otps Blacklist)
      → verify_otp otp_redis connected now email otp reset s.otps
        ≡ (err (bad_request "OTP expired or not found"), s.otps)
      → let again =
          reset_password prisma otp_redis redis connected jwt bcrypt now salt email otp password
            s in
        (again.0 ≡ err (bad_request "OTP expired or not found")) × (again.1.users ≡ s.users)
  unfolding reset_password
  reset_again now salt email otp password s e = ground arith

  -- After a `resetPassword` that succeeds, `login` with the new password gives a session of
  -- whichever active user the database finds for the address, and the same one-time password resets
  -- nothing again: a second call throws and changes no account.
  pub login-reset_password :
      (now salt later salt' : ℕ) (email otp password password' : Text)
      (s : State Users Otps Blacklist) (u : User)
      → let (answer, s') =
          reset_password prisma otp_redis redis connected jwt bcrypt now salt email otp password
            s in
        let again =
          reset_password prisma otp_redis redis connected jwt bcrypt later salt' email otp password'
            s' in
        answer ≡ ok tt
        → prisma.find_first (is_active_with email) s'.users ≡ some u
        → (login prisma otp_redis redis connected jwt bcrypt later email password s'
            ≡ (ok (session_of prisma otp_redis redis connected jwt bcrypt u later), s'))
          × (again.0 ≡ err (bad_request "OTP expired or not found"))
          × (again.1.users ≡ s'.users)
  login-reset_password now salt later salt' email otp password password' s u h found =
      let (accepted, o, changed) = reset_password_parts now salt email otp password s h in
      let set = updated salt email password s.users u (rw changed at found) in
      let (refused, kept) =
        reset_again later salt' email otp password' _
          (rw o (verify_consumed now later email otp reset s.otps accepted)) in
      (
        login_found later email password _ _ u found set (bcrypt.compare-hash salt password),
        refused,
        kept,
      )
