-- ===== src/External/Hashes.antt =====
-- Redis hashes whose fields are written together: HSET, HGETALL and DEL. A hash is one value.
use rental_application_nest.Prelude.{ℕ, ◌≡◌, refl, Option, none, some, if◌then◌else◌, ◌==◌}

pub record Hashes (Value Db : Type 0) : Type 0 where
  pub hset : ℕ → Value → Db → Db
  pub hgetall : ℕ → Db → Option Value
  pub del : ℕ → Db → Db
  pub hgetall-hset :
      (k j : ℕ) (v : Value) (db : Db)
      → hgetall j (hset k v db) ≡ (if k == j then some v else hgetall j db)
  pub hgetall-del :
      (k j : ℕ) (db : Db) → hgetall j (del k db) ≡ (if k == j then none else hgetall j db)

-- In memory.
module _ {Value : Type 0} where
  abbrev pub memory_hashes : Hashes Value (ℕ → Option Value)
  memory_hashes = record {
    hset = λ k v f j. if k == j then some v else f j;
    hgetall = λ k f. f k;
    del = λ k f j. if k == j then none else f j;
    hgetall-hset = λ k j v f. refl;
    hgetall-del = λ k j f. refl;
  }
