-- ===== src/Content/Settings.antt =====
-- src/features/settings/services/settings.service.ts: one row of static content for each type, read
-- through Redis. Videos and ids are numbers; a new row's id is an argument. Filters and projections are
-- left out of the pages.
pub mod Reading
pub mod Cursor
mod Tests
use rental_application_nest.Prelude.{
  ℕ, ◌+◌, ◌-◌, ◌*◌, ◌≡◌, Bool, true, false, Option, none, some, List, [], ◌∷◌, take, drop, last,
  length, ltb, ◌==◌, Text, Result, ok, err, not_found, internal, Action, pure, or_throw, gets,
  modify, ◌>>=◌, ◌>>◌, if◌then◌else◌,
}
use rental_application_nest.External.Table.{Table}
use rental_application_nest.External.Cache.{Cache}
use rental_application_nest.Redis.{get_or_set, invalidate}
use rental_application_nest.Content.Generic.{PaginateResult, number_or, ceil_div}

pub data SettingsType : Type 0 where
  about_us contact_us privacy_policy terms_and_conditions : SettingsType

abbrev pub same_type : SettingsType → SettingsType → Bool
same_type about_us about_us = true
same_type contact_us contact_us = true
same_type privacy_policy privacy_policy = true
same_type terms_and_conditions terms_and_conditions = true
same_type _ _ = false

pub record Settings : Type 0 where
  pub id : ℕ
  pub type : SettingsType
  pub details : Text
  pub introduction_video : Option ℕ

pub record CreateOrUpdateSettingsDto : Type 0 where
  pub details : Option Text
  pub introduction_video : Option ℕ

pub record CursorPaginateResult : Type 0 where
  pub docs : List Settings
  pub next_cursor : Option ℕ
  pub has_next_page : Bool

pub record State (Rows Db : Type 0) : Type 0 where
  pub rows : Rows
  pub redis : Db

abbrev pub settings_ttl : ℕ
settings_ttl = 3600

abbrev pub is_of : SettingsType → Settings → Bool
is_of t x = same_type x.type t

abbrev pub or_else {ℓ} : {A : Type ℓ} → Option A → A → A
or_else none a = a
or_else (some a) _ = a

-- The update of an upsert: what the request has
abbrev pub updated : CreateOrUpdateSettingsDto → Settings → Settings
updated dto x = record x {
  details = or_else dto.details x.details;
  introduction_video = elim dto.introduction_video [
    | none ↦ x.introduction_video
    | some v ↦ some v
  ];
}

-- The creation of an upsert has no video.
abbrev pub created : ℕ → SettingsType → CreateOrUpdateSettingsDto → Settings
created new_id t dto = record {
  id = new_id;
  type = t;
  details = or_else dto.details [];
  introduction_video = none;
}

-- Prisma's `cursor`: the rows from the one with the id on, and none where there is no such row
abbrev pub from_cursor : ℕ → List Settings → List Settings
from_cursor id [] = []
from_cursor id (x ∷ xs) = let rest = from_cursor id xs in if x.id == id then x ∷ xs else rest

abbrev pub after_cursor : Option ℕ → List Settings → List Settings
after_cursor none xs = xs
after_cursor (some id) xs = drop 1 (from_cursor id xs)

abbrev pub id_of : Option Settings → Option ℕ
id_of none = none
id_of (some x) = some x.id

-- One row more than the limit is read; where it is there, it is taken off and its id is the next cursor.
abbrev pub cursor_page : ℕ → List Settings → CursorPaginateResult
cursor_page limit read =
    if ltb limit (length read)
    then record {
      docs = take (length read - 1) read;
      next_cursor = id_of (last read);
      has_next_page = true;
    }
    else record { docs = read; next_cursor = none; has_next_page = false }

module _ {Rows Db : Type 0} (settings : Table Settings Rows)
    (redis : Cache SettingsType (List Settings) Db same_type) (client : Bool) where
  abbrev pub Store : Type 0
  Store = State Rows Db

  -- Beside the key of the type, the key 'settings:all' is deleted, which nothing reads.
  unfoldable pub create_or_update_settings :
      ℕ → SettingsType → CreateOrUpdateSettingsDto → Store → Store
  create_or_update_settings new_id t dto s = record s {
    rows = elim (settings.find_first (is_of t) s.rows) [
      | some x ↦ settings.update_many (is_of t) (updated dto) s.rows
      | none ↦ settings.create (created new_id t dto) s.rows
    ];
    redis = invalidate redis client t s.redis;
  }

  unfoldable pub fetch_settings : SettingsType → Store → Result (List Settings)
  fetch_settings t s = elim (settings.find_first (is_of t) s.rows) [
    | none ↦ err (not_found "Settings not found")
    | some x ↦ ok (x ∷ [])
  ]

  unfoldable pub get_settings_by_type : ℕ → SettingsType → Action Store (List Settings)
  get_settings_by_type now t s =
      let (r, db) = get_or_set redis client t (fetch_settings t s) settings_ttl now s.redis in
      (r, record s { redis = db })

  unfoldable pub get_all_settings : (List Settings → List Settings) → Store → List Settings
  get_all_settings by_type s = by_type (settings.find_many (λ x. true) s.rows)

  unfoldable pub get_all_with_pagination :
      Option ℕ → Option ℕ → (List Settings → List Settings) → Store → PaginateResult Settings
  get_all_with_pagination page_option limit_option order_by s =
      let page = number_or page_option 1 in
      let limit = number_or limit_option 10 in
      let total = settings.count (λ x. true) s.rows in
      record {
        docs =
            take limit
              (drop ((page - 1) * limit) (order_by (settings.find_many (λ x. true) s.rows)));
        page = page;
        limit = limit;
        total = total;
        total_pages = ceil_div total limit;
      }

  unfoldable pub get_all_with_pagination_cursor :
      Option ℕ → Option ℕ → (List Settings → List Settings) → Store → CursorPaginateResult
  get_all_with_pagination_cursor limit_option cursor order_by s =
      let limit = number_or limit_option 10 in
      cursor_page limit
        (take (limit + 1) (after_cursor cursor (order_by (settings.find_many (λ x. true) s.rows))))

  -- `delete` throws where no row has the type.
  unfoldable pub delete_settings_by_type : SettingsType → Action Store (Unit {0})
  delete_settings_by_type t = do
    found ← gets (λ s. settings.find_first (is_of t) s.rows)
    x ← or_throw found (internal "P2025")
    modify (λ s. record s {
      rows = settings.delete_many (is_of t) s.rows;
      redis = invalidate redis client t s.redis;
    })
