-- ===== src/Auth/Otp/SingleUse.antt =====
-- A password is good once, for whichever spelling of the address it was sent to.
use rental_application_nest.Prelude.{
  ℕ, ◌+◌, ◌≤◌, ◌<◌, ◌≡◌, true, arith, text_eq_refl, Text, to_lower_case, ok, err, bad_request,
}
use rental_application_nest.External.Cache.{Cache}
use rental_application_nest.Auth.Otp.{
  OtpType, OtpKey, OtpPayload, same_otp_key, type_eq, generate_otp, get_otp_key, otp_ttl,
  create_otp, verify_otp,
}

pub same_otp_key_refl : (k : OtpKey) → same_otp_key k k ≡ true
same_otp_key_refl k = ground (arith, text_eq_refl k.email, type_eq_refl k.type)
  where
    type_eq_refl : (t : OtpType) → type_eq t t ≡ true
    type_eq_refl t = ground arith

module _ {Db : Type 0} (redis : Cache OtpKey OtpPayload Db same_otp_key) where
  -- With a Redis client, the password that `createOtp` makes at `now` is accepted by `verifyOtp`
  -- within ten minutes, for any spelling of the address that lowers to the same text, and it is
  -- refused from then on.
  pub verify-create :
      (draw now then_ later : ℕ) (email email' : Text) (type : OtpType) (db : Db)
      → to_lower_case email ≡ to_lower_case email'
      → now ≤ then_
      → then_ < now + 600000
      → let (made, sent) = create_otp redis true draw now email type db in
        let (checked, used) = verify_otp redis true then_ email' (generate_otp draw) type sent in
        (made ≡ ok (generate_otp draw))
        × (checked ≡ ok true)
        × (verify_otp redis true later email' (generate_otp draw) type used
            ≡ (err (bad_request "OTP expired or not found"), used))
  unfolding create_otp verify_otp
  verify-create draw now then_ later email email' type db e h k =
      let key = get_otp_key email' type in
      let payload : OtpPayload = record {
        otp = generate_otp draw;
        created_at = now;
        attempts = 0;
      } in
      ground (
        arith,
        redis.get-set_ex (get_otp_key email type) key payload otp_ttl now then_ db h,
        redis.get-del key key later (redis.set_ex (get_otp_key email type) payload otp_ttl now db),
        same_otp_key_refl key,
        text_eq_refl (generate_otp draw),
      )
