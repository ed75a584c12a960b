-- ===== src/Users/Devices.antt =====
-- src/features/user-management/userDevices/userDevices.service.ts: the devices that get push
-- notifications. Tokens and ids are numbers; the id and the time of a new row are arguments.
pub mod Calls
pub mod Unique
mod Tests
use rental_application_nest.Prelude.{
  ℕ, Bool, true, false, not, ◌&&◌, Option, none, some, List, ◌==◌, ltb, is_some, Result, ok, err,
  not_found, internal, Action, pure, throw_if, or_throw, gets, modify, ◌>>=◌, ◌>>◌, Text,
}
use rental_application_nest.External.Table.{Table}

pub data DeviceType : Type 0 where
  web ios android desktop : DeviceType

pub record Device : Type 0 where
  pub id : ℕ
  pub user_id : ℕ
  pub fcm_token : ℕ
  pub device_type : DeviceType
  pub device_name : Option Text
  pub last_active : Option ℕ
  pub push_enabled : Bool
  pub is_deleted : Bool

-- `{ fcmToken, userId, isDeleted: false }`
abbrev pub is_live_device : ℕ → ℕ → Device → Bool
is_live_device user_id token d = d.fcm_token == token && (d.user_id == user_id && not d.is_deleted)

-- `deviceName || existingDevice.deviceName`, where an empty name was left out
abbrev pub name_or : Option Text → Option Text → Option Text
name_or none old = old
name_or (some n) old = some n

abbrev pub is_before : ℕ → Option ℕ → Bool
is_before time none = false
is_before time (some t) = ltb t time

module _ {Devices : Type 0} (user_devices : Table Device Devices) where
  -- Prisma's `update` by id, which throws where no row has it
  abbrev pub update_by_id : ℕ → (Device → Device) → Action Devices Device
  update_by_id id f = do
    found ← gets (user_devices.find_first (λ d. d.id == id))
    d ← or_throw found (internal "P2025")
    modify (user_devices.update_many (λ x. x.id == id) f)
    pure (f d)

  unfoldable pub register_or_update_device :
      ℕ → ℕ → ℕ → ℕ → DeviceType → Option Text → Action Devices Device
  register_or_update_device new_id now user_id token type name s =
      elim (user_devices.find_first (is_live_device user_id token) s) [
        | some d ↦
            update_by_id d.id
              (λ x. record x {
                last_active = some now;
                device_type = type;
                device_name = name_or name d.device_name;
              })
              s
        | none ↦
            let created : Device = record {
              id = new_id;
              user_id = user_id;
              fcm_token = token;
              device_type = type;
              device_name = name;
              last_active = some now;
              push_enabled = true;
              is_deleted = false;
            } in
            (ok created, user_devices.create created s)
      ]

  unfoldable pub get_user_devices : ℕ → Devices → List Device
  get_user_devices user_id = user_devices.find_many (λ d. d.user_id == user_id && not d.is_deleted)

  unfoldable pub get_device_by_token : ℕ → Devices → Option Device
  get_device_by_token token =
      user_devices.find_first (λ d. d.fcm_token == token && not d.is_deleted)

  unfoldable pub update_last_active : ℕ → ℕ → Action Devices Device
  update_last_active now id = update_by_id id (λ d. record d { last_active = some now })

  unfoldable pub remove_device : ℕ → ℕ → Action Devices Device
  remove_device user_id id = do
    found ←
        gets
          (user_devices.find_first (λ d. d.id == id && (d.user_id == user_id && not d.is_deleted)))
    throw_if (not (is_some found)) (not_found "Device not found")
    update_by_id id (λ d. record d { is_deleted = true })

  unfoldable pub remove_device_by_token : ℕ → ℕ → Devices → Devices
  remove_device_by_token user_id token =
      user_devices.update_many (λ d. d.fcm_token == token && d.user_id == user_id)
        (λ d. record d { is_deleted = true })

  unfoldable pub get_active_devices : ℕ → Devices → List Device
  get_active_devices user_id =
      user_devices.find_many (λ d. d.user_id == user_id && (d.push_enabled && not d.is_deleted))

  -- The day one year ago is an argument; the answer is the number of rows that are deleted.
  unfoldable pub cleanup_inactive_devices : ℕ → Action Devices ℕ
  cleanup_inactive_devices one_year_ago s =
      let stale = λ (d : Device). is_before one_year_ago d.last_active && not d.is_deleted in
      (
        ok (user_devices.count stale s),
        user_devices.update_many stale (λ d. record d { is_deleted = true }) s,
      )

  unfoldable pub update_push_enabled : ℕ → Bool → Action Devices Device
  update_push_enabled id enabled = update_by_id id (λ d. record d { push_enabled = enabled })
