-- ===== src/Auth/Otp/Guesses.antt =====
-- How often a password can be guessed.
use rental_application_nest.Prelude.{
  ℕ, suc, ◌+◌, ◌≤◌, ◌≡◌, ◌⊎◌, true, false, none, some, List, [], ◌∷◌, arith, length, Text, text_eq,
  err, bad_request, Option-cases, inl, inr, ◌>>=◌, or_throw,
}
use rental_application_nest.External.Cache.{Cache}
use rental_application_nest.Auth.Otp.{
  OtpType, OtpKey, OtpPayload, same_otp_key, generate_otp, get_otp_key, otp_ttl, create_otp,
  check_otp, verify_otp,
}
use rental_application_nest.Auth.Otp.SingleUse.{same_otp_key_refl}

-- Guesses with their times, which do not go back, none of them the password `otp`.
abbrev pub WrongFrom : ℕ → Text → List (ℕ × Text) → Type 0
WrongFrom t otp [] = Unit {0}
WrongFrom t otp ((now, guess) ∷ gs) = (t ≤ now) × (text_eq otp guess ≡ false) × WrongFrom now otp gs

abbrev pub last_time : ℕ → List (ℕ × Text) → ℕ
last_time t [] = t
last_time t ((now, guess) ∷ gs) = last_time now gs

module _ {Db : Type 0} (redis : Cache OtpKey OtpPayload Db same_otp_key) (email : Text)
    (type : OtpType) where
  open redis use {get, set_ex, del, get-set_ex, get-del, get_earlier}

  unfoldable pub guess_all : List (ℕ × Text) → Db → Db
  guess_all [] db = db
  guess_all ((now, guess) ∷ gs) db = guess_all gs (verify_otp redis true now email guess type db).1

  abbrev key : OtpKey
  key = get_otp_key email type

  -- What is stored at `t` is the password `otp`, with at least `n` attempts counted.
  abbrev Spent : Text → ℕ → ℕ → Db → Type 0
  Spent otp n t db = (p : OtpPayload) → get key t db ≡ some p → (n ≤ p.attempts) × (p.otp ≡ otp)

  Spent-later :
      (otp : Text) (n t now : ℕ) (db : Db) → t ≤ now → Spent otp n t db → Spent otp n now db
  Spent-later otp n t now db h s p e = s p (get_earlier key t now db h e)

  Spent-of_none : (otp : Text) (n t : ℕ) (db : Db) → get key t db ≡ none → Spent otp n t db
  Spent-of_none otp n t db e p f = absurd (cc (e, f))

  check-Spent :
      (otp guess : Text) (n now : ℕ) (p : OtpPayload) (db : Db)
      → text_eq otp guess ≡ false
      → n ≤ p.attempts
      → p.otp ≡ otp
      → Spent otp (n + 1) now (check_otp redis true key p now guess db).1
  unfolding check_otp
  check-Spent otp guess n now p db wrong counted same q = ground (
    arith,
    get-set_ex key key (record p { attempts = p.attempts + 1 }) otp_ttl now now db,
    get-del key key now db,
    same_otp_key_refl key,
  )

  guess-Spent :
      (otp guess : Text) (n now : ℕ) (db : Db)
      → text_eq otp guess ≡ false
      → Spent otp n now db
      → Spent otp (n + 1) now (verify_otp redis true now email guess type db).1
  unfolding verify_otp
  guess-Spent otp guess n now db wrong s = elim (Option-cases (get key now db)) [
    | inl gone ↦ rw (gone, ◌>>=◌, or_throw) (Spent-of_none otp (n + 1) now db gone)
    | inr (p, e) ↦
        let (counted, same) = s p e in
        rw (e, ◌>>=◌, or_throw) (check-Spent otp guess n now p db wrong counted same)
  ]

  guess_all-Spent :
      (otp : Text) (gs : List (ℕ × Text)) (n t : ℕ) (db : Db)
      → WrongFrom t otp gs
      → Spent otp n t db
      → Spent otp (n + length gs) (last_time t gs) (guess_all gs db)
  unfolding guess_all
  guess_all-Spent otp [] n t db w s = λ p e. ground (arith, s p e)
  guess_all-Spent otp ((now, guess) ∷ gs) n t db w s =
      let e : n + suc (length gs) ≡ n + 1 + length gs = omega arith in
      rw e (
        guess_all-Spent otp gs (n + 1) now _ w.2
          (guess-Spent otp guess n now db w.1 (Spent-later otp n t now db w.0 s)))

  locked :
      (otp : Text) (p : OtpPayload) (now : ℕ) (db : Db)
      → 5 ≤ p.attempts
      → (check_otp redis true key p now otp db).0
        ≡ err (bad_request "Too many failed attempts. Please request a new OTP")
  unfolding check_otp
  locked otp p now db h = ground arith

  -- With a Redis client, once at least five wrong guesses have been made at a password after it was
  -- created, in order of time, `verifyOtp` refuses it from then on, the right text included.
  pub verify_locked :
      (draw now later : ℕ) (gs : List (ℕ × Text)) (db : Db)
      → WrongFrom now (generate_otp draw) gs
      → 5 ≤ length gs
      → last_time now gs ≤ later
      → let sent = (create_otp redis true draw now email type db).1 in
        let (checked, _) =
          verify_otp redis true later email (generate_otp draw) type (guess_all gs sent) in
        (checked ≡ err (bad_request "OTP expired or not found"))
        ⊎ (checked ≡ err (bad_request "Too many failed attempts. Please request a new OTP"))
  unfolding create_otp verify_otp
  verify_locked draw now later gs db w five h =
      let otp = generate_otp draw in
      let payload : OtpPayload = record { otp = otp; created_at = now; attempts = 0 } in
      let sent = set_ex key payload otp_ttl now db in
      let start : Spent otp 0 now sent = λ p e.
        ground (arith, get-set_ex key key payload otp_ttl now now db, same_otp_key_refl key) in
      let spent = guess_all-Spent otp gs 0 now sent w start in
      elim (Option-cases (get key later (guess_all gs sent))) [
        | inl gone ↦ inl (rw (gone, ◌>>=◌, or_throw))
        | inr (p, e) ↦ inr (
            rw (e, ◌>>=◌, or_throw)
              (locked otp p later (guess_all gs sent)
                (omega (arith, spent p (get_earlier key _ later _ h e)))))
      ]
