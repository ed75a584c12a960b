-- ===== src/External/Lists.antt =====
-- Redis lists with an expiry: LPUSH, LTRIM and LRANGE from the first element, EXPIRE and DEL. A stop
-- below 0 counts from the end, -1 is the last element.
use rental_application_nest.Prelude.{
  ℕ, suc, ◌+◌, ◌-◌, ◌*◌, ◌≤◌, ◌≡◌, Bool, List, [], ◌∷◌, take, length, ltb, if◌then◌else◌,
}
use rental_application_nest.External.Counters.{ℤ, pos, negsuc}

-- The elements up to a stop
abbrev pub up_to {ℓ} : {A : Type ℓ} → ℤ → List A → List A
up_to (pos n) xs = take (suc n) xs
up_to (negsuc n) xs = take (length xs - n) xs

pub record ListStore (Key Value Db : Type 0) (same : Key → Key → Bool) : Type 0 where
  -- what is stored at a time, `LRANGE k 0 -1`
  pub items : Key → ℕ → Db → List Value
  pub lrange : Key → ℤ → ℕ → Db → List Value
  pub lpush : Key → Value → ℕ → Db → Db
  pub ltrim : Key → ℤ → ℕ → Db → Db
  pub expire : Key → ℕ → ℕ → Db → Db
  pub del : Key → Db → Db
  pub lrange-items :
      (k : Key) (stop : ℤ) (now : ℕ) (db : Db) → lrange k stop now db ≡ up_to stop (items k now db)
  pub items-lpush :
      (k : Key) (v : Value) (now : ℕ) (db : Db)
      → items k now (lpush k v now db) ≡ v ∷ items k now db
  pub items-ltrim :
      (k : Key) (stop : ℤ) (now : ℕ) (db : Db)
      → items k now (ltrim k stop now db) ≡ up_to stop (items k now db)
  pub items-expire :
      (k j : Key) (ttl now later : ℕ) (db : Db)
      → now ≤ later
      → items j later (expire k ttl now db) ≡ (
          if same k j
          then if ltb later (now + ttl * 1000) then items k now db else []
          else items j later db)
  pub items-del :
      (k j : Key) (later : ℕ) (db : Db)
      → items j later (del k db) ≡ (if same k j then [] else items j later db)
