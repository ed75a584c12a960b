-- ===== src/External/Memory.antt =====
-- The interfaces held in memory: the behaviour that they state can be met. Tests run on these.
pub mod Tables
pub mod Sorted
pub mod Tokens
pub mod Counters
pub mod Lists
use rental_application_nest.Prelude.{
  ℕ, ◌+◌, ◌*◌, ◌≤◌, ◌≡◌, refl, Bool, not, ◌&&◌, ◌||◌, Option, none, some, List, [], ◌∷◌, arith,
  ◌==◌, ltb, if◌then◌else◌, contains, Bool-cases, inl, inr,
}
use rental_application_nest.External.Cache.{Cache}
use rental_application_nest.External.Sets.{SetStore}

abbrev pub without : ℕ → List ℕ → List ℕ
without m [] = []
without m (x ∷ xs) = let rest = without m xs in if m == x then rest else x ∷ rest

pub contains-without :
    (m n : ℕ) (xs : List ℕ) → contains (without m xs) n ≡ (not (m == n) && contains xs n)
contains-without m n [] = ground arith
contains-without m n (x ∷ xs) = ground (arith, contains-without m n xs)

module _ {Key : Type 0} (same : Key → Key → Bool) where
  -- The members of each set.
  abbrev pub set_add : Key → ℕ → (Key → List ℕ) → Key → List ℕ
  set_add k m f j = if same k j then m ∷ f j else f j

  abbrev pub set_remove : Key → ℕ → (Key → List ℕ) → Key → List ℕ
  set_remove k m f j = if same k j then without m (f j) else f j

  abbrev pub set_delete : Key → (Key → List ℕ) → Key → List ℕ
  set_delete k f j = if same k j then [] else f j

  pub contains-set_remove :
      (k j : Key) (m n : ℕ) (f : Key → List ℕ)
      → contains (set_remove k m f j) n ≡ (not (same k j && m == n) && contains (f j) n)
  contains-set_remove k j m n f = ground (arith, contains-without m n (f j))

  pub contains-set_add :
      (k j : Key) (m n : ℕ) (f : Key → List ℕ)
      → contains (set_add k m f j) n ≡ (same k j && m == n || contains (f j) n)
  contains-set_add k j m n f = ground arith

  pub contains-set_delete :
      (k j : Key) (n : ℕ) (f : Key → List ℕ)
      → contains (set_delete k f j) n ≡ (not (same k j) && contains (f j) n)
  contains-set_delete k j n f = ground arith

  abbrev pub memory_sets : SetStore Key (Key → List ℕ) same
  memory_sets = record {
    sadd = set_add;
    srem = set_remove;
    del = set_delete;
    sismember = λ k m f. contains (f k) m;
    smembers = λ k f. f k;
    sismember-sadd = contains-set_add;
    sismember-srem = contains-set_remove;
    sismember-del = contains-set_delete;
    contains-smembers = λ k n f. refl;
  }

-- A value with the time at which it is over.
abbrev pub Expiring : Type 0 → Type 0
Expiring Value = Option (Value × ℕ)

module _ {Value : Type 0} where
  abbrev pub unexpired : ℕ → Expiring Value → Option Value
  unexpired now none = none
  unexpired now (some (v, end)) = if ltb now end then some v else none

  pub unexpired_earlier :
      (now later : ℕ) (o : Expiring Value) {v : Value}
      → now ≤ later
      → unexpired later o ≡ some v
      → unexpired now o ≡ some v
  unexpired_earlier now later none h e = e
  unexpired_earlier now later (some (w, end)) h e = ground arith

module _ {Key Value : Type 0} (same : Key → Key → Bool) where
  abbrev pub cache_set : Key → Value → ℕ → ℕ → (Key → Expiring Value) → Key → Expiring Value
  cache_set k v ttl now f j = if same k j then some (v, now + ttl * 1000) else f j

  abbrev pub cache_delete : Key → (Key → Expiring Value) → Key → Expiring Value
  cache_delete k f j = if same k j then none else f j

  pub unexpired-cache_set :
      (k j : Key) (v : Value) (ttl now later : ℕ) (f : Key → Expiring Value)
      → now ≤ later
      → unexpired later (cache_set k v ttl now f j) ≡ (
          if same k j
          then if ltb later (now + ttl * 1000) then some v else none
          else unexpired later (f j))
  unexpired-cache_set k j v ttl now later f h = elim (Bool-cases (same k j)) [
    | inl hit ↦ rw hit
    | inr miss ↦ rw miss
  ]

  pub unexpired-cache_delete :
      (k j : Key) (now : ℕ) (f : Key → Expiring Value)
      → unexpired now (cache_delete k f j) ≡ (if same k j then none else unexpired now (f j))
  unexpired-cache_delete k j now f = elim (Bool-cases (same k j)) [
    | inl hit ↦ rw hit
    | inr miss ↦ rw miss
  ]

  abbrev pub memory_cache : Cache Key Value (Key → Expiring Value) same
  memory_cache = record {
    get = λ k now f. unexpired now (f k);
    set_ex = cache_set;
    del = cache_delete;
    get-set_ex = unexpired-cache_set;
    get-del = unexpired-cache_delete;
    get_earlier = λ k now later f. unexpired_earlier now later (f k);
  }
