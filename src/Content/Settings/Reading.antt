-- ===== src/Content/Settings/Reading.antt =====
-- What is written is read.
use rental_application_nest.Prelude.{
  ℕ, ◌≡◌, refl, ap, ◌∙◌, Bool, true, none, some, List, [], ◌∷◌, map, arith, Bool-cases,
  Option-cases, inl, inr, In-map_of_In, any-In, Text, ok, if◌then◌else◌,
}
use rental_application_nest.External.Table.{Table, find_first-create, find_first-update_many}
use rental_application_nest.External.Cache.{Cache}
use rental_application_nest.Redis.{get_or_set-invalidate}
use rental_application_nest.Content.Settings.{
  Settings, SettingsType, CreateOrUpdateSettingsDto, State, about_us, contact_us, privacy_policy,
  terms_and_conditions, same_type, is_of, updated, created, create_or_update_settings,
  fetch_settings, get_settings_by_type, settings_ttl,
}

pub same_type_refl : (t : SettingsType) → same_type t t ≡ true
same_type_refl about_us = refl
same_type_refl contact_us = refl
same_type_refl privacy_policy = refl
same_type_refl terms_and_conditions = refl

module _ {Rows Db : Type 0} (settings : Table Settings Rows)
    (redis : Cache SettingsType (List Settings) Db same_type) (client : Bool) where
  -- The row of the type holds the details that were given.
  abbrev Holds : SettingsType → Text → Rows → Type 0
  Holds t d rows =
      (x : Settings) × (settings.find_first (is_of t) rows ≡ some x)
      × (x.details ≡ d)
      × (is_of t x ≡ true)

  created-Holds :
      (new_id : ℕ) (t : SettingsType) (dto : CreateOrUpdateSettingsDto) (d : Text) (rows : Rows)
      → dto.details ≡ some d
      → settings.find_first (is_of t) rows ≡ none
      → Holds t d (settings.create (created new_id t dto) rows)
  created-Holds new_id t dto d rows given missing =
      let x = created new_id t dto in
      (
        x,
        find_first-create settings (is_of t) (is_of t) x rows missing (λ y h. h) (same_type_refl t),
        rw given refl,
        same_type_refl t,
      )

  updated-Holds :
      (t : SettingsType) (dto : CreateOrUpdateSettingsDto) (d : Text) (old : Settings) (rows : Rows)
      → dto.details ≡ some d
      → settings.find_first (is_of t) rows ≡ some old
      → Holds t d (settings.update_many (is_of t) (updated dto) rows)
  updated-Holds t dto d old rows given found =
      let rows' = settings.update_many (is_of t) (updated dto) rows in
      let g = λ (y : Settings). if is_of t y then updated dto y else y in
      let (typed, m) = settings.find_first-some (is_of t) rows found in
      elim (Option-cases (settings.find_first (is_of t) rows')) [
        | inl nothing ↦
            let changed : g old ≡ updated dto old = rw typed refl in
            absurd (
              cc (
                any-In (is_of t) (map g (settings.rows rows)) (updated dto old)
                    (rw changed at (In-map_of_In g (settings.rows rows) old m)) typed,
                (rw (settings.rows-update_many (is_of t) (updated dto) rows) at
                    (settings.find_first-none (is_of t) rows' nothing)),
              ))
        | inr (x, hit) ↦
            let (y, k, e) =
              find_first-update_many settings (is_of t) (is_of t) (updated dto) rows hit in
            let is = (settings.find_first-some (is_of t) rows' hit).0 in
            elim (Bool-cases (is_of t y)) [
              | inl was ↦
                  let same : x ≡ updated dto y = rw was at e in
                  (x, hit, ap (λ z. z.details) same ∙ rw given refl, is)
              | inr other ↦
                  let same : x ≡ y = rw other at e in absurd (cc (ap (is_of t) same, is, other))
            ]
      ]

  create_or_update_settings-Holds :
      (new_id : ℕ) (t : SettingsType) (dto : CreateOrUpdateSettingsDto) (d : Text)
      (s : State Rows Db)
      → dto.details ≡ some d
      → Holds t d (create_or_update_settings settings redis client new_id t dto s).rows
  unfolding create_or_update_settings
  create_or_update_settings-Holds new_id t dto d s given =
      elim (Option-cases (settings.find_first (is_of t) s.rows)) [
        | inl missing ↦
            rw (missing, create_or_update_settings)
              (created-Holds new_id t dto d s.rows given missing)
        | inr (old, found) ↦
            rw (found, create_or_update_settings) (updated-Holds t dto d old s.rows given found)
      ]

  -- After a write, the next read of the type goes to the database.
  reads_stored :
      (new_id now : ℕ) (t : SettingsType) (dto : CreateOrUpdateSettingsDto) (s : State Rows Db)
      → let s' = create_or_update_settings settings redis client new_id t dto s in
        (get_settings_by_type settings redis client now t s').0
        ≡ fetch_settings settings redis client t s'
  unfolding create_or_update_settings get_settings_by_type
  reads_stored new_id now t dto s =
      get_or_set-invalidate redis client t
        (fetch_settings settings redis client t
          (create_or_update_settings settings redis client new_id t dto s))
        settings_ttl now s.redis (same_type_refl t)

  -- Details that are written for a type are read back at every later time, with a Redis client and
  -- without: after `createOrUpdateSettings` with details, `getSettingsByType` answers with one row, of this
  -- type and with these details.
  pub create_or_update_settings-get_settings_by_type :
      (new_id now : ℕ) (t : SettingsType) (dto : CreateOrUpdateSettingsDto) (d : Text)
      (s : State Rows Db)
      → dto.details ≡ some d
      → let s' = create_or_update_settings settings redis client new_id t dto s in
        (x : Settings) × ((get_settings_by_type settings redis client now t s').0 ≡ ok (x ∷ []))
        × (x.details ≡ d)
        × (is_of t x ≡ true)
  unfolding create_or_update_settings fetch_settings
  create_or_update_settings-get_settings_by_type new_id now t dto d s given =
      let (x, found, details, is) = create_or_update_settings-Holds new_id t dto d s given in
      let fetched : fetch_settings settings redis client t
            (create_or_update_settings settings redis client new_id t dto s)
          ≡ ok (x ∷ []) =
        ground (arith, found) in
      (x, reads_stored new_id now t dto s ∙ fetched, details, is)
