-- ===== src/Content/Settings/Tests.antt =====
-- Runs of the settings in memory.
use rental_application_nest.Prelude.{ℕ, ◌≡◌, refl, true, none, some, Option, List, [], ◌∷◌, ok}
use rental_application_nest.External.Memory.{memory_cache, Expiring}
use rental_application_nest.External.Memory.Tables.{memory_table}
use rental_application_nest.Content.Settings.{
  Settings, SettingsType, State, CreateOrUpdateSettingsDto, about_us, contact_us, privacy_policy,
  same_type, is_of, create_or_update_settings, get_settings_by_type, get_all_with_pagination_cursor,
}
use rental_application_nest.Content.Settings.Reading.{
  create_or_update_settings-get_settings_by_type,
}
use rental_application_nest.Content.Settings.Cursor.{get_all_with_pagination_cursor-next}

abbrev text_of : ℕ → SettingsType → Settings
text_of id t = record { id = id; type = t; details = id ∷ []; introduction_video = none }

abbrev Memory : Type 0
Memory = State (List Settings) (SettingsType → Expiring (List Settings))

abbrev three : Memory
three = record {
  rows = text_of 1 about_us ∷ text_of 2 contact_us ∷ text_of 3 privacy_policy ∷ [];
  redis = λ t. some (text_of 9 t ∷ [], 5000);
}

abbrev dto : CreateOrUpdateSettingsDto
dto = record { details = some (7 ∷ []); introduction_video = none }

create_or_update_settings-get_settings_by_type_example :
    let s' =
      create_or_update_settings memory_table (memory_cache same_type) true 4 contact_us dto three in
    (x : Settings) × ((get_settings_by_type memory_table
        (memory_cache same_type)
        true
        1000
        contact_us
        s').0
      ≡ ok (x ∷ []))
    × (x.details ≡ 7 ∷ [])
    × (is_of contact_us x ≡ true)
create_or_update_settings-get_settings_by_type_example =
    create_or_update_settings-get_settings_by_type memory_table (memory_cache same_type) true 4 1000
      contact_us dto (7 ∷ []) three refl

get_all_with_pagination_cursor-next_example :
    let page = λ (cursor : Option ℕ).
      get_all_with_pagination_cursor memory_table
        (memory_cache same_type)
        true
        (some 1)
        cursor
        (λ xs. xs)
        three in
    ((page none).docs ≡ text_of 1 about_us ∷ [])
    × ((page none).next_cursor ≡ some 2)
    × ((page (some 2)).docs ≡ text_of 3 privacy_policy ∷ [])
get_all_with_pagination_cursor-next_example =
    get_all_with_pagination_cursor-next memory_table (memory_cache same_type) true (some 1)
      (λ xs. xs) three (text_of 1 about_us ∷ []) (text_of 3 privacy_policy ∷ [])
      (text_of 2 contact_us) refl refl refl
