-- ===== src/Socket/Rooms/Keys.antt =====
-- The Redis commands of the room service, by their effect on one set.
use rental_application_nest.Prelude.{
  ℕ, ◌≡◌, refl, Bool, true, false, not, ◌&&◌, ◌||◌, List, [], ◌∷◌, inl, inr, arith, ◌==◌, contains,
  Bool-cases,
}
use rental_application_nest.External.Sets.{SetStore}
use rental_application_nest.Socket.Rooms.{
  Key, user_rooms, room_users, task_rooms, group_rooms, same_key, srem_each, purge,
}

-- Whether the user is taken out of the set `j` by the loop over `ids`.
abbrev pub covers : (ℕ → Key) → List ℕ → Key → Bool
covers key [] j = false
covers key (id ∷ ids) j = same_key (key id) j || covers key ids j

pub covers-room_users :
    (ids : List ℕ) (r : ℕ) → covers room_users ids (room_users r) ≡ contains ids r
covers-room_users [] r = refl
covers-room_users (id ∷ ids) r = ground (arith, covers-room_users ids r)

pub covers-task_rooms :
    (ids : List ℕ) (r : ℕ) → covers task_rooms ids (task_rooms r) ≡ contains ids r
covers-task_rooms [] r = refl
covers-task_rooms (id ∷ ids) r = ground (arith, covers-task_rooms ids r)

pub covers-group_rooms :
    (ids : List ℕ) (r : ℕ) → covers group_rooms ids (group_rooms r) ≡ contains ids r
covers-group_rooms [] r = refl
covers-group_rooms (id ∷ ids) r = ground (arith, covers-group_rooms ids r)

pub covers_other :
    (key : ℕ → Key) (j : Key) (ids : List ℕ)
    → ((id : ℕ) → same_key (key id) j ≡ false)
    → covers key ids j ≡ false
covers_other key j [] h = refl
covers_other key j (id ∷ ids) h = rw (h id) (covers_other key j ids h)

pub same_key_sound : (k j : Key) → same_key k j ≡ true → k ≡ j
same_key_sound (user_rooms x) j h = ground arith
same_key_sound k j h = ground arith

module _ {Db : Type 0} (redis : SetStore Key Db same_key) where
  open redis use {
    sadd, srem, del, sismember, smembers, sismember-sadd, sismember-srem, sismember-del,
    contains-smembers,
  }

  pub sismember-sadd-sadd :
      (k l j : Key) (m p n : ℕ) (db : Db)
      → sismember j n (sadd k m (sadd l p db))
        ≡ (same_key k j && m == n || (same_key l j && p == n || sismember j n db))
  sismember-sadd-sadd k l j m p n db = rw sismember-sadd (rw sismember-sadd)

  pub sismember-srem-srem :
      (k l j : Key) (m p n : ℕ) (db : Db)
      → sismember j n (srem k m (srem l p db))
        ≡ (not (same_key k j && m == n) && (not (same_key l j && p == n) && sismember j n db))
  sismember-srem-srem k l j m p n db = rw sismember-srem (rw sismember-srem)

  pub sismember-srem_each :
      (key : ℕ → Key) (u : ℕ) (ids : List ℕ) (j : Key) (n : ℕ) (db : Db)
      → sismember j n (srem_each redis key u ids db)
        ≡ (not (u == n && covers key ids j) && sismember j n db)
  unfolding srem_each
  sismember-srem_each key u [] j n db = ground arith
  sismember-srem_each key u (id ∷ ids) j n db = ground (
    arith,
    sismember-srem_each key u ids j n (srem (key id) u db),
    sismember-srem (key id) j u n db,
  )

  pub sismember-purge :
      (own key : ℕ → Key) (u : ℕ) (j : Key) (n : ℕ) (db : Db)
      → sismember j n (purge redis own key u db) ≡ (
          not (same_key (own u) j)
          && (not (u == n && covers key (smembers (own u) db) j) && sismember j n db))
  unfolding purge
  sismember-purge own key u j n db = go (smembers (own u) db) refl
    where
      go :
          (ids : List ℕ)
          → smembers (own u) db ≡ ids
          → sismember j n (purge redis own key u db)
            ≡ (not (same_key (own u) j) && (not (u == n && covers key ids j) && sismember j n db))
      go [] e =
          rw (e, purge)
            (elim (Bool-cases (same_key (own u) j)) [
              | inl same ↦
                  rw (same, ← same_key_sound (own u) j same)
                    (ground (arith, contains-smembers (own u) n db))
              | inr other ↦ rw other (ground arith)
            ])
      go (id ∷ ids) e =
          rw (e, purge)
            (rw (sismember-del (own u) j n (srem_each redis key u (id ∷ ids) db))
              (rw (sismember-srem_each key u (id ∷ ids) j n db)))
