-- ===== src/External/Memory/Lists.antt =====
-- Lists in memory: the elements with the time at which they are over, where there is one.
use rental_application_nest.Prelude.{
  ℕ, ◌+◌, ◌*◌, ◌≡◌, refl, Bool, true, Option, none, some, List, [], ◌∷◌, ltb, if◌then◌else◌,
  Bool-cases, inl, inr,
}
use rental_application_nest.External.Lists.{up_to, ListStore}

abbrev pub Timed : Type 0 → Type 0
Timed Value = List Value × Option ℕ

module _ {Value : Type 0} where
  abbrev pub in_time : ℕ → Timed Value → List Value
  in_time now (xs, none) = xs
  in_time now (xs, some end) = if ltb now end then xs else []

  -- A key that is over starts without a time.
  abbrev pub end_of : ℕ → Timed Value → Option ℕ
  end_of now (xs, none) = none
  end_of now (xs, some end) = if ltb now end then some end else none

  abbrev pub change : (List Value → List Value) → ℕ → Timed Value → Timed Value
  change f now o = (f (in_time now o), end_of now o)

  in_time-change :
      (f : List Value → List Value) (now : ℕ) (o : Timed Value)
      → in_time now (change f now o) ≡ f (in_time now o)
  in_time-change f now (xs, none) = refl
  in_time-change f now (xs, some end) = elim (Bool-cases (ltb now end)) [
    | inl live ↦ rw (live) (rw (live) refl)
    | inr over ↦ rw (over) refl
  ]

module _ {Key Value : Type 0} (same : Key → Key → Bool) where
  abbrev pub put : Key → Timed Value → (Key → Timed Value) → Key → Timed Value
  put k o f j = if same k j then o else f j

  pub in_time-put :
      (k j : Key) (o : Timed Value) (later : ℕ) (f : Key → Timed Value)
      → in_time later (put k o f j) ≡ (if same k j then in_time later o else in_time later (f j))
  in_time-put k j o later f = elim (Bool-cases (same k j)) [
    | inl hit ↦ rw hit refl
    | inr miss ↦ rw miss refl
  ]

  module _ (same_refl : (k : Key) → same k k ≡ true) where
    pub in_time-put-change :
        (g : List Value → List Value) (k : Key) (now : ℕ) (f : Key → Timed Value)
        → in_time now (put k (change g now (f k)) f k) ≡ g (in_time now (f k))
    in_time-put-change g k now f = rw (same_refl k) (in_time-change g now (f k))

    abbrev pub memory_lists : ListStore Key Value (Key → Timed Value) same
    memory_lists = record {
      items = λ k now f. in_time now (f k);
      lrange = λ k stop now f. up_to stop (in_time now (f k));
      lpush = λ k v now f. put k (change (λ xs. v ∷ xs) now (f k)) f;
      ltrim = λ k stop now f. put k (change (up_to stop) now (f k)) f;
      expire = λ k ttl now f. put k (in_time now (f k), some (now + ttl * 1000)) f;
      del = λ k f. put k ([], none) f;
      lrange-items = λ k stop now f. refl;
      items-lpush = λ k v. in_time-put-change (λ xs. v ∷ xs) k;
      items-ltrim = λ k stop. in_time-put-change (up_to stop) k;
      items-expire = λ k j ttl now later f h.
          in_time-put k j (in_time now (f k), some (now + ttl * 1000)) later f;
      items-del = λ k j later f. in_time-put k j ([], none) later f;
    }
