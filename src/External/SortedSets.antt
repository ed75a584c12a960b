-- ===== src/External/SortedSets.antt =====
-- Redis sorted sets with an expiry. An entry is a score with a member; members are the texts
-- `${now}-${random}`, kept as the two numbers. `entries` lists what a key holds at a time, in an order
-- that nothing relies on. Times are in milliseconds, the expiry in seconds.
use rental_application_nest.Prelude.{
  ℕ, ◌+◌, ◌*◌, ◌≤◌, ◌≡◌, Bool, true, false, not, ◌&&◌, List, [], ◌∷◌, ◌==◌, leb, ltb, if◌then◌else◌,
  filter, length,
}

abbrev pub Entry : Type 0
Entry = ℕ × (ℕ × ℕ)

abbrev pub is_member : ℕ × ℕ → Entry → Bool
is_member m e = e.1.0 == m.0 && e.1.1 == m.1

abbrev pub has_score : ℕ → ℕ → Entry → Bool
has_score low high e = leb low e.0 && leb e.0 high

pub record SortedSets (Key Db : Type 0) (same : Key → Key → Bool) : Type 0 where
  pub entries : Key → ℕ → Db → List Entry
  pub zremrangebyscore : Key → ℕ → ℕ → ℕ → Db → Db
  pub zadd : Key → ℕ → ℕ × ℕ → ℕ → Db → Db
  pub expire : Key → ℕ → ℕ → Db → Db
  pub zcard : Key → ℕ → Db → ℕ
  pub zcard-entries : (k : Key) (now : ℕ) (db : Db) → zcard k now db ≡ length (entries k now db)
  pub entries-zremrangebyscore :
      (k j : Key) (low high now : ℕ) (db : Db)
      → same k j ≡ true
      → entries j now (zremrangebyscore k low high now db)
        ≡ filter (λ e. not (has_score low high e)) (entries j now db)
  -- A member has one score: adding it again replaces it.
  pub entries-zadd :
      (k j : Key) (score now : ℕ) (m : ℕ × ℕ) (db : Db)
      → same k j ≡ true
      → entries j now (zadd k score m now db)
        ≡ (score, m) ∷ filter (λ e. not (is_member m e)) (entries j now db)
  pub entries-expire :
      (k j : Key) (ttl now later : ℕ) (db : Db)
      → same k j ≡ true
      → now ≤ later
      → entries j later (expire k ttl now db)
        ≡ (if ltb later (now + ttl * 1000) then entries j now db else [])
  -- A command leaves the other keys alone.
  pub zremrangebyscore_other :
      (k j : Key) (low high now later : ℕ) (db : Db)
      → same k j ≡ false
      → entries j later (zremrangebyscore k low high now db) ≡ entries j later db
  pub zadd_other :
      (k j : Key) (score now later : ℕ) (m : ℕ × ℕ) (db : Db)
      → same k j ≡ false
      → entries j later (zadd k score m now db) ≡ entries j later db
  pub expire_other :
      (k j : Key) (ttl now later : ℕ) (db : Db)
      → same k j ≡ false
      → entries j later (expire k ttl now db) ≡ entries j later db
