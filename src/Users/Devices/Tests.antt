-- ===== src/Users/Devices/Tests.antt =====
-- Runs of the devices in memory.
use rental_application_nest.Prelude.{ℕ, ◌≤◌, ◌≡◌, refl, none, List, [], ◌∷◌, count_if}
use rental_application_nest.External.Memory.Tables.{memory_table}
use rental_application_nest.Users.Devices.{ios, web, is_live_device, register_or_update_device}
use rental_application_nest.Users.Devices.Calls.{
  Call, registers, touches, removes_by_token, deletes, soft_deletes, run,
}
use rental_application_nest.Users.Devices.Unique.{register_or_update_device-run}

abbrev calls : List Call
calls =
    registers 1 10 7 99 ios none
    ∷ touches 11 1
    ∷ registers 2 12 7 99 web none
    ∷ removes_by_token 7 99
    ∷ soft_deletes 12 2
    ∷ deletes 1
    ∷ []

register_or_update_device-run_example :
    let s' =
      (register_or_update_device memory_table 3 13 7 99 ios none (run memory_table calls [])).1 in
    (count_if (is_live_device 7 99) s' ≡ 1)
    × ((user_id token : ℕ) → count_if (is_live_device user_id token) s' ≤ 1)
register_or_update_device-run_example =
    register_or_update_device-run memory_table calls [] 3 13 7 99 ios none refl
