-- ===== src/Users/Profiles.antt =====
-- src/features/user-management/user/user.service.ts and userProfile/userProfile.service.ts: users and
-- their profiles, read through Redis. The keys `user:<id>`, `user:stats:<id>` and `user:profile:<id>` of
-- one store differ in their prefix: they are three caches by the user's id. What of a profile is updated
-- is a function on profiles; a new profile's id is an argument.
pub mod Freshness
mod Tests
use rental_application_nest.Prelude.{
  ℕ, Bool, true, false, not, ◌&&◌, Option, none, some, List, [], ◌∷◌, ◌==◌, Text, text_eq,
  to_lower_case, Result, ok, err, not_found, internal, Action, pure, is_some, throw_if, or_throw,
  gets, modify, ◌>>=◌, ◌>>◌,
}
use rental_application_nest.External.Table.{Table}
use rental_application_nest.External.Cache.{Cache}
use rental_application_nest.Redis.{get_or_set, get_or_set_nullable, invalidate}

pub record User : Type 0 where
  pub id : ℕ
  pub name : Text
  pub email : Text
  pub phone_number : Option Text
  pub preferred_time : Option Text
  pub account_creator_id : Option ℕ
  pub is_deleted : Bool

pub record UserProfile : Type 0 where
  pub id : ℕ
  pub user_id : ℕ
  pub support_mode : Option ℕ
  pub notification_style : Option ℕ
  pub other_fields : List (ℕ × ℕ)
  pub is_deleted : Bool

pub record UpdateProfileDto : Type 0 where
  pub name : Option Text
  pub phone_number : Option Text
  pub email : Option Text
  -- what is left of the request, where something is
  pub profile_data : Option (UserProfile → UserProfile)

pub record State (Users Profiles UserDb StatsDb ProfileDb : Type 0) : Type 0 where
  pub users : Users
  pub profiles : Profiles
  pub user_cache : UserDb
  pub stats_cache : StatsDb
  pub profile_cache : ProfileDb

abbrev pub profile_ttl : ℕ
profile_ttl = 900

abbrev pub statistics_ttl : ℕ
statistics_ttl = 300

abbrev pub opt_eq : Option ℕ → ℕ → Bool
opt_eq none n = false
opt_eq (some m) n = m == n

-- `if (name) updateData.name = name`: an empty text changes nothing.
abbrev pub given : Option Text → Text → Text
given none old = old
given (some []) old = old
given (some (c ∷ t)) old = c ∷ t

abbrev pub given_optional : Option Text → Option Text → Option Text
given_optional none old = old
given_optional (some []) old = old
given_optional (some (c ∷ t)) old = some (c ∷ t)

abbrev pub with_dto : UpdateProfileDto → User → User
with_dto dto u = record u {
  name = given dto.name u.name;
  phone_number = given_optional dto.phone_number u.phone_number;
  email = given dto.email u.email;
}

abbrev pub is_profile_of : ℕ → UserProfile → Bool
is_profile_of user_id p = p.user_id == user_id && not p.is_deleted

abbrev pub empty_profile : ℕ → ℕ → UserProfile
empty_profile new_id user_id = record {
  id = new_id;
  user_id = user_id;
  support_mode = none;
  notification_style = none;
  other_fields = [];
  is_deleted = false;
}

module _ {Users Profiles UserDb StatsDb ProfileDb : Type 0} (user : Table User Users)
    (user_profile : Table UserProfile Profiles) (user_cache : Cache ℕ User UserDb ◌==◌)
    (stats_cache : Cache ℕ ℕ StatsDb ◌==◌) (profile_cache : Cache ℕ UserProfile ProfileDb ◌==◌)
    (client : Bool) where
  abbrev pub Store : Type 0
  Store = State Users Profiles UserDb StatsDb ProfileDb

  unfoldable pub find_by_id : ℕ → Store → Option User
  find_by_id id s = user.find_first (λ u. u.id == id && not u.is_deleted) s.users

  unfoldable pub find_by_email : Text → Store → Option User
  find_by_email email s =
      user.find_first (λ u. text_eq u.email (to_lower_case email) && not u.is_deleted) s.users

  -- `UserService.invalidateCache`: the keys of the user and of the statistics
  unfoldable pub invalidate_cache : ℕ → Store → Store
  invalidate_cache id s = record s {
    user_cache = invalidate user_cache client id s.user_cache;
    stats_cache = invalidate stats_cache client id s.stats_cache;
  }

  -- The nested upsert of the user's profile
  abbrev pub upsert_profile : ℕ → ℕ → Option (UserProfile → UserProfile) → Profiles → Profiles
  upsert_profile new_id user_id none db = db
  upsert_profile new_id user_id (some f) db =
      elim (user_profile.find_first (λ p. p.user_id == user_id) db) [
        | some p ↦ user_profile.update_many (λ x. x.user_id == user_id) f db
        | none ↦ user_profile.create (f (empty_profile new_id user_id)) db
      ]

  -- The e-mail address of a user is unique.
  abbrev pub is_taken : ℕ → Option Text → Users → Bool
  is_taken user_id none db = false
  is_taken user_id (some []) db = false
  is_taken user_id (some (c ∷ t)) db =
      is_some (user.find_first (λ x. text_eq x.email (c ∷ t) && not (x.id == user_id)) db)

  -- `update` throws where no row has the id, and where another row has the new e-mail address.
  unfoldable pub update_profile : ℕ → ℕ → UpdateProfileDto → Action Store User
  update_profile new_id user_id dto = do
    found ← gets (λ s. user.find_first (λ u. u.id == user_id) s.users)
    u ← or_throw found (internal "P2025")
    taken ← gets (λ s. is_taken user_id dto.email s.users)
    throw_if taken (internal "P2002")
    modify (λ s. record s {
      users = user.update_many (λ x. x.id == user_id) (with_dto dto) s.users;
      profiles = upsert_profile new_id user_id dto.profile_data s.profiles;
    })
    modify (invalidate_cache user_id)
    pure (with_dto dto u)

  unfoldable pub find_by_id_with_cache : ℕ → ℕ → Action Store (Option User)
  find_by_id_with_cache now id s =
      let (r, db) =
        get_or_set_nullable user_cache client id (ok (find_by_id id s)) profile_ttl now
          s.user_cache in
      (r, record s { user_cache = db })

  unfoldable pub update_preferred_time : ℕ → Text → Action Store User
  update_preferred_time user_id time = do
    found ← gets (λ s. user.find_first (λ u. u.id == user_id) s.users)
    u ← or_throw found (internal "P2025")
    modify (λ s. record s {
      users =
          user.update_many (λ x. x.id == user_id) (λ x. record x { preferred_time = some time })
            s.users;
    })
    modify (invalidate_cache user_id)
    pure (record u { preferred_time = some time })

  unfoldable pub get_user_statistics : ℕ → ℕ → Action Store ℕ
  get_user_statistics now user_id s =
      let children =
        user.count (λ u. not u.is_deleted && opt_eq u.account_creator_id user_id) s.users in
      let (r, db) =
        get_or_set stats_cache client user_id (ok children) statistics_ttl now s.stats_cache in
      (r, record s { stats_cache = db })

  unfoldable pub fetch_profile_by_user_id : ℕ → Store → Option UserProfile
  fetch_profile_by_user_id user_id s = user_profile.find_first (is_profile_of user_id) s.profiles

  unfoldable pub find_by_user_id_with_cache : ℕ → ℕ → Action Store (Option UserProfile)
  find_by_user_id_with_cache now user_id s =
      let (r, db) =
        get_or_set_nullable profile_cache client user_id (ok (fetch_profile_by_user_id user_id s))
          profile_ttl now s.profile_cache in
      (r, record s { profile_cache = db })

  -- `UserProfileService.invalidateCache`: the key of the profile, and those of the user
  unfoldable pub invalidate_profile_cache : ℕ → Store → Store
  unfolding invalidate_cache
  invalidate_profile_cache user_id s =
      invalidate_cache user_id
        (record s { profile_cache = invalidate profile_cache client user_id s.profile_cache })

  unfoldable pub update_by_user_id : ℕ → (UserProfile → UserProfile) → Action Store UserProfile
  update_by_user_id user_id f = do
    found ← gets (fetch_profile_by_user_id user_id)
    p ← or_throw found (not_found "User profile not found")
    modify (λ s. record s {
      profiles = user_profile.update_many (λ x. x.user_id == user_id) f s.profiles;
    })
    modify (invalidate_profile_cache user_id)
    pure (f p)

  unfoldable pub update_support_mode : ℕ → ℕ → Action Store UserProfile
  update_support_mode user_id mode =
      update_by_user_id user_id (λ p. record p { support_mode = some mode })

  unfoldable pub update_notification_style : ℕ → ℕ → Action Store UserProfile
  update_notification_style user_id style =
      update_by_user_id user_id (λ p. record p { notification_style = some style })

  -- The profile that is read for the test may come from the cache; the answer comes from the database.
  unfoldable pub get_profile_with_user : ℕ → ℕ → Action Store (Option (UserProfile × Option User))
  get_profile_with_user now user_id = do
    cached ← find_by_user_id_with_cache now user_id
    known ← or_throw cached (not_found "User profile not found")
    gets (λ s. elim (fetch_profile_by_user_id user_id s) [
      | none ↦ none
      | some p ↦ some (p, user.find_first (λ u. u.id == user_id) s.users)
    ])
