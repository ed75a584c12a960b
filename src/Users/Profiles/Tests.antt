-- ===== src/Users/Profiles/Tests.antt =====
-- Runs of users and profiles in memory.
use rental_application_nest.Prelude.{
  ℕ, ◌≡◌, refl, true, false, none, some, In, List, [], ◌∷◌, ok, ◌==◌,
}
use rental_application_nest.External.Memory.{memory_cache, Expiring}
use rental_application_nest.External.Memory.Tables.{memory_table}
use rental_application_nest.Users.Profiles.{
  User, UserProfile, UpdateProfileDto, State, empty_profile, is_profile_of, update_profile,
  update_by_user_id, fetch_profile_by_user_id, find_by_user_id_with_cache,
}
use rental_application_nest.Users.Profiles.Freshness.{
  update_by_user_id-find_by_user_id_with_cache, update_profile-find_by_user_id_with_cache,
}

abbrev Memory : Type 0
Memory =
    State (List User) (List UserProfile) (ℕ → Expiring User) (ℕ → Expiring ℕ)
      (ℕ → Expiring UserProfile)

abbrev tenant : User
tenant = record {
  id = 7;
  name = [];
  email = [];
  phone_number = none;
  preferred_time = none;
  account_creator_id = none;
  is_deleted = false;
}

abbrev cached : Memory
cached = record {
  users = tenant ∷ [];
  profiles = empty_profile 1 7 ∷ [];
  user_cache = λ k. none;
  stats_cache = λ k. none;
  profile_cache = λ k. some (empty_profile 1 7, 900000);
}

abbrev calm : UserProfile → UserProfile
calm p = record p { support_mode = some 1 }

abbrev dto : UpdateProfileDto
dto = record { name = none; phone_number = none; email = none; profile_data = some calm }

update_by_user_id-find_by_user_id_with_cache_example :
    let s' =
      (update_by_user_id memory_table memory_table
        (memory_cache ◌==◌)
        (memory_cache ◌==◌)
        (memory_cache ◌==◌)
        true
        7
        calm
        cached).1 in
    (find_by_user_id_with_cache memory_table memory_table
      (memory_cache ◌==◌)
      (memory_cache ◌==◌)
      (memory_cache ◌==◌)
      true
      2000
      7
      s').0
    ≡ ok (
        fetch_profile_by_user_id memory_table memory_table
          (memory_cache ◌==◌)
          (memory_cache ◌==◌)
          (memory_cache ◌==◌)
          true
          7
          s')
unfolding update_by_user_id fetch_profile_by_user_id
update_by_user_id-find_by_user_id_with_cache_example =
    update_by_user_id-find_by_user_id_with_cache memory_table memory_table (memory_cache ◌==◌)
      (memory_cache ◌==◌) (memory_cache ◌==◌) true 7 2000 calm cached refl

update_profile-find_by_user_id_with_cache_example :
    let s' =
      (update_profile memory_table memory_table
        (memory_cache ◌==◌)
        (memory_cache ◌==◌)
        (memory_cache ◌==◌)
        true
        2
        7
        dto
        cached).1 in
    ((q y : UserProfile) × (fetch_profile_by_user_id memory_table memory_table
          (memory_cache ◌==◌)
          (memory_cache ◌==◌)
          (memory_cache ◌==◌)
          true
          7
          s'
        ≡ some q)
      × In y (empty_profile 1 7 ∷ [])
      × (is_profile_of 7 y ≡ true)
      × (q ≡ calm y))
    × ((find_by_user_id_with_cache memory_table memory_table
          (memory_cache ◌==◌)
          (memory_cache ◌==◌)
          (memory_cache ◌==◌)
          true
          2000
          7
          s').0
        ≡ ok (some (empty_profile 1 7)))
unfolding update_profile fetch_profile_by_user_id
update_profile-find_by_user_id_with_cache_example =
    update_profile-find_by_user_id_with_cache memory_table memory_table (memory_cache ◌==◌)
      (memory_cache ◌==◌) (memory_cache ◌==◌) true 2 7 2000 dto calm (empty_profile 1 7)
      (empty_profile 1 7) cached refl refl refl refl (λ x. refl) refl
