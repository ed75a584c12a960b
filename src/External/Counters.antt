-- ===== src/External/Counters.antt =====
-- Redis strings that hold integers, with an expiry: the operations of a cache, and INCR, DECR and
-- EXPIRE. INCR and DECR take a missing key for 0.
use rental_application_nest.Prelude.{
  ℕ, zero, suc, ◌+◌, ◌*◌, ◌≤◌, ◌≡◌, Bool, false, Option, none, some, ltb, if◌then◌else◌,
}
use rental_application_nest.External.Cache.{Cache}

-- `negsuc n` is -(n + 1).
pub data ℤ : Type 0 where
  pos negsuc : ℕ → ℤ

abbrev pub suc_ℤ : ℤ → ℤ
suc_ℤ (pos n) = pos (suc n)
suc_ℤ (negsuc zero) = pos 0
suc_ℤ (negsuc (suc n)) = negsuc n

abbrev pub pred_ℤ : ℤ → ℤ
pred_ℤ (pos zero) = negsuc 0
pred_ℤ (pos (suc n)) = pos n
pred_ℤ (negsuc n) = negsuc (suc n)

abbrev pub or_zero : Option ℤ → ℤ
or_zero none = pos 0
or_zero (some z) = z

pub record Counters (Key Db : Type 0) (same : Key → Key → Bool) : Type 0 where
  pub cache : Cache Key ℤ Db same
  pub incr : Key → ℕ → Db → Db
  pub decr : Key → ℕ → Db → Db
  pub expire : Key → ℕ → ℕ → Db → Db
  pub get-incr :
      (k : Key) (now : ℕ) (db : Db)
      → cache.get k now (incr k now db) ≡ some (suc_ℤ (or_zero (cache.get k now db)))
  pub get-decr :
      (k : Key) (now : ℕ) (db : Db)
      → cache.get k now (decr k now db) ≡ some (pred_ℤ (or_zero (cache.get k now db)))
  pub get_other-incr :
      (k j : Key) (now later : ℕ) (db : Db)
      → same k j ≡ false
      → cache.get j later (incr k now db) ≡ cache.get j later db
  pub get_other-decr :
      (k j : Key) (now later : ℕ) (db : Db)
      → same k j ≡ false
      → cache.get j later (decr k now db) ≡ cache.get j later db
  pub get-expire :
      (k j : Key) (ttl now later : ℕ) (db : Db)
      → now ≤ later
      → cache.get j later (expire k ttl now db) ≡ (
          if same k j
          then if ltb later (now + ttl * 1000) then cache.get k now db else none
          else cache.get j later db)
