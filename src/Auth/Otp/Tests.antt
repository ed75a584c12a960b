-- ===== src/Auth/Otp/Tests.antt =====
-- Runs of the one-time passwords in memory.
use rental_application_nest.Prelude.{
  ℕ, ◌≡◌, ◌⊎◌, refl, true, none, List, [], ◌∷◌, arith, Text, ok, err, bad_request,
}
use rental_application_nest.External.Memory.{memory_cache, Expiring}
use rental_application_nest.Auth.Otp.{
  OtpKey, OtpPayload, verify, same_otp_key, generate_otp, create_otp, verify_otp,
}
use rental_application_nest.Auth.Otp.SingleUse.{verify-create}
use rental_application_nest.Auth.Otp.Guesses.{guess_all, verify_locked}

abbrev nothing : OtpKey → Expiring OtpPayload
nothing k = none

-- "Ann@x" and "ann@X"
abbrev address : Text
address = b'A' ∷ b'n' ∷ b'n' ∷ b'@' ∷ b'x' ∷ []

abbrev same_address : Text
same_address = b'a' ∷ b'n' ∷ b'n' ∷ b'@' ∷ b'X' ∷ []

first_draw : generate_otp 23456 ≡ b'1' ∷ b'2' ∷ b'3' ∷ b'4' ∷ b'5' ∷ b'6' ∷ []
unfolding generate_otp
first_draw = refl

verify-create_example :
    let sent = (create_otp (memory_cache same_otp_key) true 23456 0 address verify nothing).1 in
    let (checked, used) =
      verify_otp
        (memory_cache same_otp_key)
        true
        599999
        same_address
        (generate_otp 23456)
        verify
        sent in
    ((create_otp (memory_cache same_otp_key) true 23456 0 address verify nothing).0
      ≡ ok (generate_otp 23456))
    × (checked ≡ ok true)
    × (verify_otp
          (memory_cache same_otp_key)
          true
          599999
          same_address
          (generate_otp 23456)
          verify
          used
        ≡ (err (bad_request "OTP expired or not found"), used))
verify-create_example =
    verify-create (memory_cache same_otp_key) 23456 0 599999 599999 address same_address verify
      nothing refl (omega arith) (omega arith)

abbrev guesses : List (ℕ × Text)
guesses = (1, []) ∷ (2, address) ∷ (2, []) ∷ (300000, []) ∷ (300001, []) ∷ []

verify_locked_example :
    let sent = (create_otp (memory_cache same_otp_key) true 23456 0 address verify nothing).1 in
    let r =
      (verify_otp
        (memory_cache same_otp_key)
        true
        300002
        address
        (generate_otp 23456)
        verify
        (guess_all (memory_cache same_otp_key) address verify guesses sent)).0 in
    (r ≡ err (bad_request "OTP expired or not found"))
    ⊎ (r ≡ err (bad_request "Too many failed attempts. Please request a new OTP"))
unfolding generate_otp
verify_locked_example =
    verify_locked (memory_cache same_otp_key) address verify 23456 0 300002 guesses nothing
      (ground arith) (omega arith) (omega arith)
