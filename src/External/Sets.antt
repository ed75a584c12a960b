-- ===== src/External/Sets.antt =====
-- Redis sets, as the socket services use them. `Db` is the server's state, which stays abstract;
-- what is known of it is the answer of SISMEMBER.
use rental_application_nest.Prelude.{ℕ, ◌≡◌, Bool, not, ◌&&◌, ◌||◌, List, ◌==◌, contains}

pub record SetStore (Key Db : Type 0) (same : Key → Key → Bool) : Type 0 where
  pub sadd : Key → ℕ → Db → Db
  pub srem : Key → ℕ → Db → Db
  pub del : Key → Db → Db
  pub sismember : Key → ℕ → Db → Bool
  pub smembers : Key → Db → List ℕ
  pub sismember-sadd :
      (k j : Key) (m n : ℕ) (db : Db)
      → sismember j n (sadd k m db) ≡ (same k j && m == n || sismember j n db)
  pub sismember-srem :
      (k j : Key) (m n : ℕ) (db : Db)
      → sismember j n (srem k m db) ≡ (not (same k j && m == n) && sismember j n db)
  pub sismember-del :
      (k j : Key) (n : ℕ) (db : Db)
      → sismember j n (del k db) ≡ (not (same k j) && sismember j n db)
  pub contains-smembers :
      (k : Key) (n : ℕ) (db : Db) → contains (smembers k db) n ≡ sismember k n db
