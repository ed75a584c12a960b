-- ===== src/External/Memory/Sorted.antt =====
-- Sorted sets as entries with the time at which the key is over, if it has one.
use rental_application_nest.Prelude.{
  ℕ, ◌+◌, ◌*◌, ◌≤◌, ◌≡◌, refl, Bool, true, false, not, Option, none, some, List, [], ◌∷◌, ltb,
  if◌then◌else◌, filter, length, arith,
}
use rental_application_nest.External.SortedSets.{SortedSets, Entry, is_member, has_score}

abbrev pub Keyed : Type 0
Keyed = List Entry × Option ℕ

abbrev pub entries_at : ℕ → Keyed → List Entry
entries_at now (es, none) = es
entries_at now (es, some end) = if ltb now end then es else []

-- A key that is over is a new one.
abbrev pub end_at : ℕ → Keyed → Option ℕ
end_at now (es, none) = none
end_at now (es, some end) = if ltb now end then some end else none

abbrev pub removed : ℕ → ℕ → ℕ → Keyed → Keyed
removed low high now x = (filter (λ e. not (has_score low high e)) (entries_at now x), end_at now x)

abbrev pub added : ℕ → ℕ × ℕ → ℕ → Keyed → Keyed
added score m now x =
    ((score, m) ∷ filter (λ e. not (is_member m e)) (entries_at now x), end_at now x)

abbrev pub expiring : ℕ → ℕ → Keyed → Keyed
expiring ttl now x = (entries_at now x, some (now + ttl * 1000))

pub entries_at_end :
    (now : ℕ) (es : List Entry) (x : Keyed) → entries_at now (es, end_at now x) ≡ es
entries_at_end now es (fs, none) = refl
entries_at_end now es (fs, some end) = ground arith

module _ {Key : Type 0} (same : Key → Key → Bool) where
  abbrev pub at_key : Key → (Keyed → Keyed) → (Key → Keyed) → Key → Keyed
  at_key k change f j = if same k j then change (f j) else f j

  pub entries-removed :
      (k j : Key) (low high now : ℕ) (f : Key → Keyed)
      → same k j ≡ true
      → entries_at now (at_key k (removed low high now) f j)
        ≡ filter (λ e. not (has_score low high e)) (entries_at now (f j))
  entries-removed k j low high now f h = rw h (entries_at_end now _ (f j))

  pub entries-added :
      (k j : Key) (score now : ℕ) (m : ℕ × ℕ) (f : Key → Keyed)
      → same k j ≡ true
      → entries_at now (at_key k (added score m now) f j)
        ≡ (score, m) ∷ filter (λ e. not (is_member m e)) (entries_at now (f j))
  entries-added k j score now m f h = rw h (entries_at_end now _ (f j))

  pub entries-expiring :
      (k j : Key) (ttl now later : ℕ) (f : Key → Keyed)
      → same k j ≡ true
      → now ≤ later
      → entries_at later (at_key k (expiring ttl now) f j)
        ≡ (if ltb later (now + ttl * 1000) then entries_at now (f j) else [])
  entries-expiring k j ttl now later f h o = rw h refl

  pub at_key_other :
      (k j : Key) (change : Keyed → Keyed) (later : ℕ) (f : Key → Keyed)
      → same k j ≡ false
      → entries_at later (at_key k change f j) ≡ entries_at later (f j)
  at_key_other k j change later f h = rw h refl

  abbrev pub memory_sorted_sets : SortedSets Key (Key → Keyed) same
  memory_sorted_sets = record {
    entries = λ k now f. entries_at now (f k);
    zremrangebyscore = λ k low high now f. at_key k (removed low high now) f;
    zadd = λ k score m now f. at_key k (added score m now) f;
    expire = λ k ttl now f. at_key k (expiring ttl now) f;
    zcard = λ k now f. length (entries_at now (f k));
    zcard-entries = λ k now f. refl;
    entries-zremrangebyscore = entries-removed;
    entries-zadd = entries-added;
    entries-expire = entries-expiring;
    zremrangebyscore_other =
        λ k j low high now later f. at_key_other k j (removed low high now) later f;
    zadd_other = λ k j score now later m f. at_key_other k j (added score m now) later f;
    expire_other = λ k j ttl now later f. at_key_other k j (expiring ttl now) later f;
  }
