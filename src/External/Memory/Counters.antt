-- ===== src/External/Memory/Counters.antt =====
-- Integers in memory: a value with the time at which it is over, where it has one.
use rental_application_nest.Prelude.{
  ℕ, ◌+◌, ◌*◌, ◌≤◌, ◌≡◌, refl, Bool, true, false, Option, none, some, ltb, if◌then◌else◌,
  Bool-cases, inl, inr, arith,
}
use rental_application_nest.External.Cache.{Cache}
use rental_application_nest.External.Counters.{ℤ, suc_ℤ, pred_ℤ, or_zero, Counters}

abbrev pub Timed : Type 0
Timed = Option (ℤ × Option ℕ)

abbrev pub in_time : ℕ → Timed → Option ℤ
in_time now none = none
in_time now (some (z, none)) = some z
in_time now (some (z, some end)) = if ltb now end then some z else none

pub in_time_earlier :
    (now later : ℕ) (o : Timed) {z : ℤ}
    → now ≤ later
    → in_time later o ≡ some z
    → in_time now o ≡ some z
in_time_earlier now later none h e = e
in_time_earlier now later (some (z, none)) h e = e
in_time_earlier now later (some (z, some end)) h e = ground arith

-- The time that a live key has; a missing key gets none.
abbrev pub end_of : ℕ → Timed → Option ℕ
end_of now none = none
end_of now (some (z, none)) = none
end_of now (some (z, some end)) = if ltb now end then some end else none

abbrev pub change : (ℤ → ℤ) → ℕ → Timed → Timed
change f now o = some (f (or_zero (in_time now o)), end_of now o)

abbrev pub timed : ℕ → Option ℤ → Timed
timed end none = none
timed end (some z) = some (z, some end)

in_time-change :
    (f : ℤ → ℤ) (now : ℕ) (o : Timed)
    → in_time now (change f now o) ≡ some (f (or_zero (in_time now o)))
in_time-change f now none = refl
in_time-change f now (some (z, none)) = refl
in_time-change f now (some (z, some end)) = ground arith

in_time-timed :
    (end later : ℕ) (o : Option ℤ)
    → in_time later (timed end o) ≡ (if ltb later end then o else none)
in_time-timed end later none = ground arith
in_time-timed end later (some z) = refl

module _ {Key : Type 0} (same : Key → Key → Bool) where
  abbrev pub put : Key → Timed → (Key → Timed) → Key → Timed
  put k o f j = if same k j then o else f j

  pub in_time-put :
      (k j : Key) (o : Timed) (later : ℕ) (f : Key → Timed)
      → in_time later (put k o f j) ≡ (if same k j then in_time later o else in_time later (f j))
  in_time-put k j o later f = elim (Bool-cases (same k j)) [
    | inl hit ↦ rw hit refl
    | inr miss ↦ rw miss refl
  ]

  pub in_time-put_other :
      (k j : Key) (o : Timed) (later : ℕ) (f : Key → Timed)
      → same k j ≡ false
      → in_time later (put k o f j) ≡ in_time later (f j)
  in_time-put_other k j o later f miss = rw miss refl

  pub in_time-put-timed :
      (k j : Key) (end later : ℕ) (o : Option ℤ) (f : Key → Timed)
      → in_time later (put k (timed end o) f j)
        ≡ (if same k j then if ltb later end then o else none else in_time later (f j))
  in_time-put-timed k j end later o f = elim (Bool-cases (same k j)) [
    | inl hit ↦ rw hit (in_time-timed end later o)
    | inr miss ↦ rw miss refl
  ]

  abbrev pub memory_integers : Cache Key ℤ (Key → Timed) same
  memory_integers = record {
    get = λ k now f. in_time now (f k);
    set_ex = λ k z ttl now. put k (timed (now + ttl * 1000) (some z));
    del = λ k. put k none;
    get-set_ex =
        λ k j z ttl now later f h. in_time-put-timed k j (now + ttl * 1000) later (some z) f;
    get-del = λ k j now f. in_time-put k j none now f;
    get_earlier = λ k now later f. in_time_earlier now later (f k);
  }

  module _ (same_refl : (k : Key) → same k k ≡ true) where
    pub in_time-put-change :
        (g : ℤ → ℤ) (k : Key) (now : ℕ) (f : Key → Timed)
        → in_time now (put k (change g now (f k)) f k) ≡ some (g (or_zero (in_time now (f k))))
    in_time-put-change g k now f = rw (same_refl k) (in_time-change g now (f k))

    abbrev pub memory_counters : Counters Key (Key → Timed) same
    memory_counters = record {
      cache = memory_integers;
      incr = λ k now f. put k (change suc_ℤ now (f k)) f;
      decr = λ k now f. put k (change pred_ℤ now (f k)) f;
      expire = λ k ttl now f. put k (timed (now + ttl * 1000) (in_time now (f k))) f;
      get-incr = in_time-put-change suc_ℤ;
      get-decr = in_time-put-change pred_ℤ;
      get_other-incr = λ k j now later f. in_time-put_other k j (change suc_ℤ now (f k)) later f;
      get_other-decr = λ k j now later f. in_time-put_other k j (change pred_ℤ now (f k)) later f;
      get-expire = λ k j ttl now later f h.
          in_time-put-timed k j (now + ttl * 1000) later (in_time now (f k)) f;
    }
