-- ===== src/Users/Devices/Unique.antt =====
-- A device that is registered has one live row.
use rental_application_nest.Prelude.{
  ℕ, ◌≤◌, ◌≡◌, refl, true, false, Option, some, List, [], arith, if◌then◌else◌, Bool-cases,
  Option-cases, inl, inr, count_if, count_if-any, any-In, In-map_of_In, ==_refl, ◌∙◌, map, Text,
  ◌==◌, ◌>>=◌, or_throw,
}
use rental_application_nest.External.Table.{Table}
use rental_application_nest.Users.Devices.{
  Device, DeviceType, is_live_device, name_or, register_or_update_device,
}
use rental_application_nest.Users.Devices.Calls.{
  Call, registers, step, run, IsUnique, registers-IsUnique, run-IsUnique,
}

module _ {Devices : Type 0} (user_devices : Table Device Devices) where
  -- A row that is live stays live where its id, its user and its token are kept.
  update_by_id-live :
      (user_id token id : ℕ) (f : Device → Device) (d : Device) (s : Devices)
      → ((x : Device) → is_live_device user_id token (f x) ≡ is_live_device user_id token x)
      → user_devices.find_first (is_live_device user_id token) s ≡ some d
      → 1
        ≤ count_if
            (is_live_device user_id token)
            (user_devices.rows (user_devices.update_many (λ x. x.id == id) f s))
  update_by_id-live user_id token id f d s h found =
      let (live, m) = user_devices.find_first-some (is_live_device user_id token) s found in
      let g = λ (x : Device). if x.id == id then f x else x in
      let kept : is_live_device user_id token (g d) ≡ true = elim (Bool-cases (d.id == id)) [
        | inl hit ↦ rw hit (h d ∙ live)
        | inr miss ↦ rw miss live
      ] in
      rw (user_devices.rows-update_many (λ x. x.id == id) f s) (
        count_if-any (is_live_device user_id token) (map g (user_devices.rows s)) (
          any-In (is_live_device user_id token) (map g (user_devices.rows s)) (g d)
            (In-map_of_In g (user_devices.rows s) d m) kept))

  -- What a search finds is found by its id.
  find_by_id :
      (user_id token : ℕ) (d : Device) (s : Devices)
      → user_devices.find_first (is_live_device user_id token) s ≡ some d
      → (e : Device) × (user_devices.find_first (λ x. x.id == d.id) s ≡ some e)
  find_by_id user_id token d s found =
      elim (Option-cases (user_devices.find_first (λ x. x.id == d.id) s)) [
        | inr hit ↦ hit
        | inl nothing ↦ absurd (
            let (live, m) = user_devices.find_first-some (is_live_device user_id token) s found in
            cc (
              any-In (λ (x : Device). x.id == d.id) (user_devices.rows s) d m (==_refl d.id),
              user_devices.find_first-none (λ x. x.id == d.id) s nothing,
            ))
      ]

  registers-live :
      (new_id now user_id token : ℕ) (type : DeviceType) (name : Option Text) (s : Devices)
      → 1
        ≤ count_if
            (is_live_device user_id token)
            (user_devices.rows (step user_devices (registers new_id now user_id token type name) s))
  unfolding step register_or_update_device
  registers-live new_id now user_id token type name s =
      elim (Option-cases (user_devices.find_first (is_live_device user_id token) s)) [
        | inl missing ↦
            rw
              (
                missing,
                step,
                register_or_update_device,
                user_devices.rows-create
                    (record {
                      id = new_id;
                      user_id = user_id;
                      fcm_token = token;
                      device_type = type;
                      device_name = name;
                      last_active = some now;
                      push_enabled = true;
                      is_deleted = false;
                    })
                    s,
              )
              (ground (arith, ==_refl token, ==_refl user_id))
        | inr (d, found) ↦
            let set = λ (x : Device). record x {
              last_active = some now;
              device_type = type;
              device_name = name_or name d.device_name;
            } in
            let (e, known) = find_by_id user_id token d s found in
            rw (found, step, register_or_update_device, known, ◌>>=◌, or_throw)
              (update_by_id-live user_id token d.id set d s (λ x. refl) found)
      ]

  -- From no rows, after any calls of the service's own methods that write and of its inherited
  -- `deleteById` and `softDeleteById`, registering a device for a user and a token leaves exactly one
  -- live row for them, and no user has two live rows with one token. The inherited `create` and
  -- `updateById`, which no route calls and which check nothing, are not among the calls.
  pub register_or_update_device-run :
      (cs : List Call) (s : Devices) (new_id now user_id token : ℕ) (type : DeviceType)
      (name : Option Text)
      → user_devices.rows s ≡ []
      → let s' =
          (register_or_update_device user_devices new_id now user_id token type name
            (run user_devices cs s)).1 in
        (count_if (is_live_device user_id token) (user_devices.rows s') ≡ 1)
        × IsUnique user_devices s'
  unfolding step
  register_or_update_device-run cs s new_id now user_id token type name nothing =
      let start : IsUnique user_devices s = λ v t. rw nothing (ground arith) in
      let u =
        registers-IsUnique user_devices new_id now user_id token type name (run user_devices cs s)
          (run-IsUnique user_devices cs s start) in
      (
        omega (
          arith,
          u user_id token,
          registers-live new_id now user_id token type name (run user_devices cs s),
        ),
        u,
      )
