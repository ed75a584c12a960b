-- ===== src/External/Cache.antt =====
-- Redis strings with an expiry: GET, SET … EX and DEL. Times are in milliseconds, the expiry in
-- seconds. `Value` is what the services pass through JSON.
use rental_application_nest.Prelude.{
  ℕ, ◌+◌, ◌*◌, ◌≤◌, ◌≡◌, Bool, Option, none, some, ltb, if◌then◌else◌,
}

pub record Cache (Key Value Db : Type 0) (same : Key → Key → Bool) : Type 0 where
  pub get : Key → ℕ → Db → Option Value
  pub set_ex : Key → Value → ℕ → ℕ → Db → Db
  pub del : Key → Db → Db
  -- A value is there until its time is over.
  pub get-set_ex :
      (k j : Key) (v : Value) (ttl now later : ℕ) (db : Db)
      → now ≤ later
      → get j later (set_ex k v ttl now db) ≡ (
          if same k j
          then if ltb later (now + ttl * 1000) then some v else none
          else get j later db)
  pub get-del :
      (k j : Key) (now : ℕ) (db : Db)
      → get j now (del k db) ≡ (if same k j then none else get j now db)
  -- Time alone only takes values away.
  pub get_earlier :
      (k : Key) (now later : ℕ) (db : Db) {v : Value}
      → now ≤ later
      → get k later db ≡ some v
      → get k now db ≡ some v
