-- ===== src/Users/Profiles/Freshness.antt =====
-- Which writes a cached profile survives.
use rental_application_nest.Prelude.{
  ℕ, ◌≡◌, refl, ap, ◌∙◌, Bool, true, Option, some, arith, Option-cases, Bool-cases, Result, sym,
  any-In, In, In-map, In-map_of_In, if◌then◌else◌, throw_if, inl, inr, is_ok, ok, ◌==◌, ==_refl,
  ◌>>=◌, ◌>>◌, or_throw, modify,
}
use rental_application_nest.External.Table.{Table}
use rental_application_nest.External.Cache.{Cache}
use rental_application_nest.Redis.{
  get_or_set_nullable, get_or_set_nullable-invalidate, get_or_set_nullable-hit, invalidate,
}
use rental_application_nest.Users.Profiles.{
  User, UserProfile, UpdateProfileDto, State, is_profile_of, is_taken, upsert_profile, profile_ttl,
  invalidate_cache, invalidate_profile_cache, update_profile, update_by_user_id,
  fetch_profile_by_user_id, find_by_user_id_with_cache,
}

module _ {Users Profiles UserDb StatsDb ProfileDb : Type 0} (user : Table User Users)
    (user_profile : Table UserProfile Profiles) (user_cache : Cache ℕ User UserDb ◌==◌)
    (stats_cache : Cache ℕ ℕ StatsDb ◌==◌) (profile_cache : Cache ℕ UserProfile ProfileDb ◌==◌)
    (client : Bool) where
  abbrev Store : Type 0
  Store = State Users Profiles UserDb StatsDb ProfileDb

  read : ℕ → ℕ → Store → Result (Option UserProfile)
  read later user_id s =
      (find_by_user_id_with_cache user user_profile user_cache stats_cache profile_cache client
        later user_id s).0

  stored : ℕ → Store → Option UserProfile
  stored user_id s =
      fetch_profile_by_user_id user user_profile user_cache stats_cache profile_cache client user_id
        s

  read_cached :
      (user_id later : ℕ) (p : UserProfile) (s : Store)
      → client ≡ true
      → profile_cache.get user_id later s.profile_cache ≡ some p
      → read later user_id s ≡ ok (some p)
  unfolding read stored find_by_user_id_with_cache fetch_profile_by_user_id
  read_cached user_id later p s h e =
      get_or_set_nullable-hit profile_cache client user_id (ok (stored user_id s)) profile_ttl later
        s.profile_cache p h e

  read_invalidated :
      (user_id later : ℕ) (db : ProfileDb) (s : Store)
      → s.profile_cache ≡ invalidate profile_cache client user_id db
      → read later user_id s ≡ ok (stored user_id s)
  unfolding read stored find_by_user_id_with_cache
  read_invalidated user_id later db s e =
      ap
        (λ c.
          (get_or_set_nullable profile_cache client user_id (ok (stored user_id s)) profile_ttl
            later c).0)
        e
      ∙ get_or_set_nullable-invalidate profile_cache client user_id (stored user_id s) profile_ttl
          later db (==_refl user_id)

  update_by_user_id-invalidate :
      (user_id : ℕ) (f : UserProfile → UserProfile) (s : Store)
      → let (r, s') =
          update_by_user_id user user_profile user_cache stats_cache profile_cache client user_id f
            s in
        is_ok r ≡ true → s'.profile_cache ≡ invalidate profile_cache client user_id s.profile_cache
  unfolding update_by_user_id invalidate_profile_cache invalidate_cache stored
  update_by_user_id-invalidate user_id f s success = elim (Option-cases (stored user_id s)) [
    | inl missing ↦ absurd (ground (arith, missing))
    | inr (p, found) ↦ rw (found, update_by_user_id, ◌>>=◌, ◌>>◌, or_throw, modify) refl
  ]

  -- A successful update upserts the profile and leaves the profile's cache as it is.
  update_profile-upsert :
      (new_id user_id : ℕ) (dto : UpdateProfileDto) (s : Store)
      → let (r, s') =
          update_profile user user_profile user_cache stats_cache profile_cache client new_id
            user_id dto s in
        is_ok r ≡ true
        → (s'.profile_cache ≡ s.profile_cache)
          × (s'.profiles
              ≡ upsert_profile user user_profile user_cache stats_cache profile_cache client new_id
                  user_id dto.profile_data s.profiles)
  unfolding update_profile invalidate_cache
  update_profile-upsert new_id user_id dto s success =
      elim (Option-cases (user.find_first (λ u. u.id == user_id) s.users)) [
        | inl missing ↦ absurd (ground (arith, missing))
        | inr (u, found) ↦
            elim (Bool-cases (
              is_taken user user_profile user_cache stats_cache profile_cache client user_id
                dto.email s.users)) [
                  | inl taken ↦ absurd (ground (arith, found, taken))
                  | inr free ↦
                      rw (found, free, update_profile, ◌>>=◌, ◌>>◌, or_throw, throw_if, modify)
                        (refl, refl)
                ]
      ]

  -- Where the user has a live profile, the upsert updates the user's rows.
  upsert_profile-update :
      (new_id user_id : ℕ) (f : UserProfile → UserProfile) (old : UserProfile) (db : Profiles)
      → user_profile.find_first (is_profile_of user_id) db ≡ some old
      → upsert_profile user user_profile user_cache stats_cache profile_cache client new_id user_id
          (some f)
          db
        ≡ user_profile.update_many (λ x. x.user_id == user_id) f db
  upsert_profile-update new_id user_id f old db live =
      let p = λ (x : UserProfile). x.user_id == user_id in
      let (own, m) = user_profile.find_first-some (is_profile_of user_id) db live in
      elim (Option-cases (user_profile.find_first p db)) [
        | inr (x, found) ↦ rw (found, upsert_profile) refl
        | inl nothing ↦ absurd (
            ground (
              arith,
              any-In p (user_profile.rows db) old m,
              user_profile.find_first-none p db nothing,
            ))
      ]

  -- The profile that is found after such an update is a live profile of the user, changed.
  update-find_first :
      (user_id : ℕ) (f : UserProfile → UserProfile) (old : UserProfile) (db : Profiles)
      → ((x : UserProfile) → is_profile_of user_id (f x) ≡ is_profile_of user_id x)
      → user_profile.find_first (is_profile_of user_id) db ≡ some old
      → (q y : UserProfile) × (user_profile.find_first
            (is_profile_of user_id)
            (user_profile.update_many (λ x. x.user_id == user_id) f db)
          ≡ some q)
        × In y (user_profile.rows db)
        × (is_profile_of user_id y ≡ true)
        × (q ≡ f y)
  update-find_first user_id f old db keeps live =
      let p = λ (x : UserProfile). x.user_id == user_id in
      let g = λ (x : UserProfile). if p x then f x else x in
      let after = user_profile.update_many p f db in
      let (own, m) = user_profile.find_first-some (is_profile_of user_id) db live in
      let here : In (f old) (user_profile.rows after) =
        rw (user_profile.rows-update_many p f db)
          (rw (is_user old own) at (In-map_of_In g (user_profile.rows db) old m)) in
      elim (Option-cases (user_profile.find_first (is_profile_of user_id) after)) [
        | inl nothing ↦ absurd (
            cc (
              any-In (is_profile_of user_id) (user_profile.rows after) (f old) here
                  (keeps old ∙ own),
              user_profile.find_first-none (is_profile_of user_id) after nothing,
            ))
        | inr (q, found) ↦
            let (of_user, k) = user_profile.find_first-some (is_profile_of user_id) after found in
            let (y, i, e) =
              In-map g (user_profile.rows db) q (rw (user_profile.rows-update_many p f db) at k) in
            elim (Bool-cases (p y)) [
              | inl hit ↦
                  let changed : q ≡ f y = rw hit at e in
                  (
                    q,
                    y,
                    found,
                    i,
                    sym (keeps y) ∙ ap (is_profile_of user_id) (sym changed) ∙ of_user,
                    changed,
                  )
              | inr miss ↦
                  let same : q ≡ y = rw miss at e in
                  absurd (ground (arith, ap (λ x. x.user_id) same))
            ]
      ]
    where
      is_user : (x : UserProfile) → is_profile_of user_id x ≡ true → (x.user_id == user_id) ≡ true
      is_user x own = ground arith

  -- After a successful `updateByUserId` of the profile service, the cached read of the profile answers at
  -- every later time with what is stored, with a Redis client and without.
  pub update_by_user_id-find_by_user_id_with_cache :
      (user_id later : ℕ) (f : UserProfile → UserProfile) (s : Store)
      → is_ok
          (update_by_user_id user user_profile user_cache stats_cache profile_cache client user_id f
            s).0
        ≡ true
      → let s' =
          (update_by_user_id user user_profile user_cache stats_cache profile_cache client user_id f
            s).1 in
        (find_by_user_id_with_cache user user_profile user_cache stats_cache profile_cache client
          later user_id s').0
        ≡ ok (
            fetch_profile_by_user_id user user_profile user_cache stats_cache profile_cache client
              user_id s')
  unfolding read stored
  update_by_user_id-find_by_user_id_with_cache user_id later f s success =
      read_invalidated user_id later s.profile_cache
        (update_by_user_id user user_profile user_cache stats_cache profile_cache client user_id f
          s).1
        (update_by_user_id-invalidate user_id f s success)

  -- `updateProfile` of the user service writes the profile too and leaves it in the cache: where the user
  -- has a live profile, one is cached for a time, and the update succeeds and changes profiles by `f`,
  -- which lets them be live profiles of the user, then the stored profile is afterwards a live profile of
  -- before, changed by `f`; and the cached read answers at that time with the profile that was cached.
  pub update_profile-find_by_user_id_with_cache :
      (new_id user_id later : ℕ) (dto : UpdateProfileDto) (f : UserProfile → UserProfile)
      (p old : UserProfile) (s : Store)
      → client ≡ true
      → profile_cache.get user_id later s.profile_cache ≡ some p
      → fetch_profile_by_user_id user user_profile user_cache stats_cache profile_cache client
          user_id s
        ≡ some old
      → dto.profile_data ≡ some f
      → ((x : UserProfile) → is_profile_of user_id (f x) ≡ is_profile_of user_id x)
      → let (r, s') =
          update_profile user user_profile user_cache stats_cache profile_cache client new_id
            user_id dto s in
        is_ok r ≡ true
        → ((q y : UserProfile) × (fetch_profile_by_user_id user user_profile user_cache stats_cache
                profile_cache client user_id s'
              ≡ some q)
            × In y (user_profile.rows s.profiles)
            × (is_profile_of user_id y ≡ true)
            × (q ≡ f y))
          × ((find_by_user_id_with_cache user user_profile user_cache stats_cache profile_cache
                client later user_id s').0
              ≡ ok (some p))
  unfolding read fetch_profile_by_user_id update_profile
  update_profile-find_by_user_id_with_cache new_id user_id later dto f p old s with_client cached
        live given keeps success =
      let s' =
        (update_profile user user_profile user_cache stats_cache profile_cache client new_id user_id
          dto s).1 in
      let (same, upserted) = update_profile-upsert new_id user_id dto s success in
      let written : s'.profiles
          ≡ user_profile.update_many (λ x. x.user_id == user_id) f s.profiles =
        upserted
        ∙ ap
            (λ o.
              upsert_profile user user_profile user_cache stats_cache profile_cache client new_id
                user_id o s.profiles)
            given
        ∙ upsert_profile-update new_id user_id f old s.profiles live in
      (
        rw written (update-find_first user_id f old s.profiles keeps live),
        read_cached user_id later p s' with_client
            (ap (profile_cache.get user_id later) same ∙ cached),
      )
