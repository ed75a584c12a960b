-- ===== src/Users/Devices/Calls.antt =====
-- What the calls of the devices keep: a user has a token on one device at most.
use rental_application_nest.Prelude.{
  ℕ, ◌≤◌, ◌≡◌, Bool, true, false, not, ◌&&◌, Option, none, some, List, [], ◌∷◌, arith,
  if◌then◌else◌, Bool-cases, Option-cases, inl, inr, count_if, count_if-map, any-count_if, bit_le,
  count_if-filter, text_eq, Text, ◌==◌, ◌>>=◌, ◌>>◌, or_throw, throw_if,
}
use rental_application_nest.External.Table.{Table}
use rental_application_nest.Content.Generic.{delete_by_id, soft_delete_by_id}
use rental_application_nest.Users.Devices.{
  Device, DeviceType, is_live_device, is_before, name_or, update_by_id, register_or_update_device,
  update_last_active, remove_device, remove_device_by_token, cleanup_inactive_devices,
  update_push_enabled,
}

-- A call that writes: a method of the service, or one of the two deletions that it inherits. The
-- inherited `create` and `updateById` are left out: they write whatever row they are given.
pub data Call : Type 0 where
  registers : ℕ → ℕ → ℕ → ℕ → DeviceType → Option Text → Call
  touches : ℕ → ℕ → Call
  removes removes_by_token : ℕ → ℕ → Call
  cleans_up : ℕ → Call
  pushes : ℕ → Bool → Call
  deletes : ℕ → Call
  soft_deletes : ℕ → ℕ → Call

-- An id as the text that the inherited methods take
abbrev pub id_text : Device → Text
id_text d = d.id ∷ []

module _ {Devices : Type 0} (user_devices : Table Device Devices) where
  unfoldable pub step : Call → Devices → Devices
  step (registers new_id now user_id token type name) s =
      (register_or_update_device user_devices new_id now user_id token type name s).1
  step (touches now id) s = (update_last_active user_devices now id s).1
  step (removes user_id id) s = (remove_device user_devices user_id id s).1
  step (removes_by_token user_id token) s = remove_device_by_token user_devices user_id token s
  step (cleans_up one_year_ago) s = (cleanup_inactive_devices user_devices one_year_ago s).1
  step (pushes id enabled) s = (update_push_enabled user_devices id enabled s).1
  step (deletes id) s = (delete_by_id user_devices id_text (id ∷ []) s).1
  step (soft_deletes now id) s =
      (soft_delete_by_id user_devices id_text (λ t d. record d { is_deleted = true }) now (id ∷ [])
        s).1

  unfoldable pub run : List Call → Devices → Devices
  run [] s = s
  run (c ∷ cs) s = run cs (step c s)

  abbrev pub IsUnique : Devices → Type 0
  IsUnique s =
      (user_id token : ℕ) → count_if (is_live_device user_id token) (user_devices.rows s) ≤ 1

  -- A write that lets no row be live that was not live before, for the same user and token.
  write-IsUnique :
      (p : Device → Bool) (f : Device → Device) (s : Devices)
      → ((user_id token : ℕ) (d : Device)
          → is_live_device user_id token (f d) ≡ true
          → is_live_device user_id token d ≡ true)
      → IsUnique s
      → IsUnique (user_devices.update_many p f s)
  write-IsUnique p f s h u user_id token = rw (user_devices.rows-update_many p f s) (
      omega (
        arith,
        u user_id token,
        count_if-map (is_live_device user_id token) (is_live_device user_id token)
            (λ d. if p d then f d else d) (user_devices.rows s)
            (λ d e. elim (Bool-cases (p d)) [
              | inl hit ↦ h user_id token d (rw hit at e)
              | inr miss ↦ rw miss at e
            ]),
      ))

  update_by_id-IsUnique :
      (id : ℕ) (f : Device → Device) (s : Devices)
      → ((user_id token : ℕ) (d : Device)
          → is_live_device user_id token (f d) ≡ true
          → is_live_device user_id token d ≡ true)
      → IsUnique s
      → IsUnique (update_by_id user_devices id f s).1
  update_by_id-IsUnique id f s h u =
      elim (Option-cases (user_devices.find_first (λ d. d.id == id) s)) [
        | inl nothing ↦ rw (nothing, ◌>>=◌, or_throw) u
        | inr (d, found) ↦ rw (found, ◌>>=◌, or_throw) (write-IsUnique (λ x. x.id == id) f s h u)
      ]

  deletes-IsUnique : (id : ℕ) (s : Devices) → IsUnique s → IsUnique (step (deletes id) s)
  unfolding step delete_by_id
  deletes-IsUnique id s u =
      let p = λ (d : Device). text_eq (id_text d) (id ∷ []) in
      elim (Option-cases (user_devices.find_first p s)) [
        | inl missing ↦ rw (missing, step, delete_by_id, ◌>>=◌, ◌>>◌, or_throw, throw_if) u
        | inr (d, found) ↦
            rw (found, step, delete_by_id, ◌>>=◌, ◌>>◌, or_throw, throw_if)
              (λ v t. rw (user_devices.rows-delete_many p s) (
                omega (
                  arith,
                  u v t,
                  count_if-filter (is_live_device v t) (λ x. not (p x)) (user_devices.rows s),
                )))
      ]

  soft_deletes-IsUnique :
      (now id : ℕ) (s : Devices) → IsUnique s → IsUnique (step (soft_deletes now id) s)
  unfolding step soft_delete_by_id
  soft_deletes-IsUnique now id s u =
      let p = λ (d : Device). text_eq (id_text d) (id ∷ []) in
      elim (Option-cases (user_devices.find_first p s)) [
        | inl missing ↦ rw (missing, step, soft_delete_by_id, ◌>>=◌, ◌>>◌, or_throw, throw_if) u
        | inr (d, found) ↦
            rw (found, step, soft_delete_by_id, ◌>>=◌, ◌>>◌, or_throw, throw_if)
              (write-IsUnique p (λ x. record x { is_deleted = true }) s
                (λ v t x e. absurd (ground arith)) u)
      ]

  create-IsUnique :
      (d : Device) (s : Devices)
      → user_devices.find_first (is_live_device d.user_id d.fcm_token) s ≡ none
      → IsUnique s
      → IsUnique (user_devices.create d s)
  create-IsUnique d s missing u user_id token = rw (user_devices.rows-create d s) (
      let nobody =
        any-count_if (is_live_device d.user_id d.fcm_token) (user_devices.rows s)
          (user_devices.find_first-none (is_live_device d.user_id d.fcm_token) s missing) in
      elim (Bool-cases (d.fcm_token == token && d.user_id == user_id)) [
        | inl same ↦
            let token_eq : d.fcm_token ≡ token = ground arith in
            let user_eq : d.user_id ≡ user_id = ground arith in
            omega
              (arith, bit_le (is_live_device user_id token d), (rw (token_eq, user_eq) at nobody))
        | inr other ↦ ground (arith, u user_id token)
      ])

  pub registers-IsUnique :
      (new_id now user_id token : ℕ) (type : DeviceType) (name : Option Text) (s : Devices)
      → IsUnique s
      → IsUnique (step (registers new_id now user_id token type name) s)
  unfolding step register_or_update_device
  registers-IsUnique new_id now user_id token type name s u =
      elim (Option-cases (user_devices.find_first (is_live_device user_id token) s)) [
        | inl missing ↦
            rw (missing, step, register_or_update_device)
              (create-IsUnique
                (record {
                  id = new_id;
                  user_id = user_id;
                  fcm_token = token;
                  device_type = type;
                  device_name = name;
                  last_active = some now;
                  push_enabled = true;
                  is_deleted = false;
                })
                s missing u)
        | inr (d, found) ↦
            rw (found, step, register_or_update_device)
              (update_by_id-IsUnique d.id
                (λ x. record x {
                  last_active = some now;
                  device_type = type;
                  device_name = name_or name d.device_name;
                })
                s (λ v t x e. e) u)
      ]

  removes-IsUnique :
      (user_id id : ℕ) (s : Devices) → IsUnique s → IsUnique (step (removes user_id id) s)
  unfolding step remove_device
  removes-IsUnique user_id id s u =
      elim (Option-cases (
        user_devices.find_first (λ d. d.id == id && (d.user_id == user_id && not d.is_deleted))
          s)) [
            | inl missing ↦ rw (missing, step, remove_device, ◌>>=◌, ◌>>◌, throw_if) u
            | inr (d, found) ↦
                rw (found, step, remove_device, ◌>>=◌, ◌>>◌, throw_if)
                  (update_by_id-IsUnique id (λ x. record x { is_deleted = true }) s
                    (λ v t x e. absurd (ground arith)) u)
          ]

  step-IsUnique : (c : Call) (s : Devices) → IsUnique s → IsUnique (step c s)
  unfolding step update_last_active remove_device_by_token cleanup_inactive_devices
      update_push_enabled
  step-IsUnique (registers new_id now user_id token type name) s u =
      registers-IsUnique new_id now user_id token type name s u
  step-IsUnique (touches now id) s u =
      update_by_id-IsUnique id (λ x. record x { last_active = some now }) s (λ v t x e. e) u
  step-IsUnique (removes user_id id) s u = removes-IsUnique user_id id s u
  step-IsUnique (removes_by_token user_id token) s u =
      write-IsUnique (λ d. d.fcm_token == token && d.user_id == user_id)
        (λ x. record x { is_deleted = true }) s (λ v t x e. absurd (ground arith)) u
  step-IsUnique (cleans_up one_year_ago) s u =
      write-IsUnique (λ d. is_before one_year_ago d.last_active && not d.is_deleted)
        (λ x. record x { is_deleted = true }) s (λ v t x e. absurd (ground arith)) u
  step-IsUnique (pushes id enabled) s u =
      update_by_id-IsUnique id (λ x. record x { push_enabled = enabled }) s (λ v t x e. e) u
  step-IsUnique (deletes id) s u = deletes-IsUnique id s u
  step-IsUnique (soft_deletes now id) s u = soft_deletes-IsUnique now id s u

  pub run-IsUnique : (cs : List Call) (s : Devices) → IsUnique s → IsUnique (run cs s)
  unfolding run
  run-IsUnique [] s u = u
  run-IsUnique (c ∷ cs) s u = run-IsUnique cs (step c s) (step-IsUnique c s u)
