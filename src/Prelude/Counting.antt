-- ===== src/Prelude/Counting.antt =====
-- How the number of rows that pass a test changes when rows are rewritten.
use Prim.Native.Nat.{◌≤◌}
use mathlib.Core.Path.{◌≡◌, refl, ap, sym, ◌∙◌}
use mathlib.Core.Bool.{Bool, true, false}
use mathlib.Core.List.{List, [], ◌∷◌, map}
use native.Mathlib.Omega.{arith}
use rental_application_nest.Prelude.Tests.{bit, Bool-cases}
use rental_application_nest.Prelude.Lists.{count_if, any, filter, In}
use mathlib.Core.Logic.{inl, inr}

pub bit_le : (b : Bool) → bit b ≤ 1
bit_le true = ground arith
bit_le false = ground arith

bit_mono : (b c : Bool) → (b ≡ true → c ≡ true) → bit b ≤ bit c
bit_mono true c h = ground (arith, h refl)
bit_mono false c h = ground arith

module _ {ℓ} {A : Type ℓ} where
  -- A rewriting that lets no new row pass does not raise the count.
  pub count_if-map :
      (p q : A → Bool) (f : A → A) (xs : List A)
      → ((x : A) → p (f x) ≡ true → q x ≡ true)
      → count_if p (map f xs) ≤ count_if q xs
  count_if-map p q f [] h = omega arith
  count_if-map p q f (x ∷ xs) h =
      omega (arith, bit_mono (p (f x)) (q x) (h x), count_if-map p q f xs h)

  -- Where a test does not tell a row from what it becomes, the count stays.
  pub count_if-map_same :
      (p q : A → Bool) (f : A → A) (xs : List A)
      → ((x : A) → p (f x) ≡ q x)
      → count_if p (map f xs) ≡ count_if q xs
  count_if-map_same p q f [] h = refl
  count_if-map_same p q f (x ∷ xs) h = ground (arith, h x, count_if-map_same p q f xs h)

  -- After a rewriting under which no row passes, none is counted.
  pub count_if-map_none :
      (p : A → Bool) (f : A → A) (xs : List A)
      → ((x : A) → p (f x) ≡ false)
      → count_if p (map f xs) ≡ 0
  count_if-map_none p f [] h = refl
  count_if-map_none p f (x ∷ xs) h = ground (arith, h x, count_if-map_none p f xs h)

  pub count_if-filter : (p q : A → Bool) (xs : List A) → count_if p (filter q xs) ≤ count_if p xs
  count_if-filter p q [] = omega arith
  count_if-filter p q (x ∷ xs) = ground (arith, count_if-filter p q xs)

  pub count_if-any : (p : A → Bool) (xs : List A) → any p xs ≡ true → 1 ≤ count_if p xs
  count_if-any p [] h = absurd (ground arith)
  count_if-any p (x ∷ xs) h = ground (arith, count_if-any p xs)

  -- Where no element passes, none is counted.
  pub count_if_none :
      (p : A → Bool) (xs : List A) → ((x : A) → In x xs → p x ≡ false) → count_if p xs ≡ 0
  count_if_none p [] h = refl
  count_if_none p (x ∷ xs) h =
      ground (arith, h x (inl refl), count_if_none p xs (λ y m. h y (inr m)))

  -- An element that passes is in the filtered list.
  pub In-filter_of_In :
      (p : A → Bool) (xs : List A) (r : A) → In r xs → p r ≡ true → In r (filter p xs)
  In-filter_of_In p [] r m h = m
  In-filter_of_In p (x ∷ xs) r (inl e) h = rw (ap p (sym e) ∙ h) (inl e)
  In-filter_of_In p (x ∷ xs) r (inr m) h = elim (Bool-cases (p x)) [
    | inl pass ↦ rw pass (inr (In-filter_of_In p xs r m h))
    | inr fail ↦ rw fail (In-filter_of_In p xs r m h)
  ]

  -- Where a test does not tell a row from what it becomes, it passes as before.
  pub any-map :
      (p : A → Bool) (f : A → A) (xs : List A)
      → ((x : A) → p (f x) ≡ p x)
      → any p (map f xs) ≡ any p xs
  any-map p f [] h = refl
  any-map p f (x ∷ xs) h = ground (arith, h x, any-map p f xs h)

  -- A filter that keeps what passes a test does not change whether something passes.
  pub any-filter :
      (p q : A → Bool) (xs : List A)
      → ((x : A) → p x ≡ true → q x ≡ true)
      → any p (filter q xs) ≡ any p xs
  any-filter p q [] h = refl
  any-filter p q (x ∷ xs) h = elim (Bool-cases (q x)) [
    | inl pass ↦ rw pass (ground (arith, any-filter p q xs h))
    | inr fail ↦ elim (Bool-cases (p x)) [
      | inl hit ↦ absurd (cc (h x hit, fail))
      | inr miss ↦ rw fail (ground (arith, any-filter p q xs h))
    ]
  ]

  -- A rewriting that lets no row pass, where none passed.
  pub any-map_none :
      (p : A → Bool) (f : A → A) (xs : List A)
      → ((x : A) → p (f x) ≡ true → p x ≡ true)
      → any p xs ≡ false
      → any p (map f xs) ≡ false
  any-map_none p f [] h e = refl
  any-map_none p f (x ∷ xs) h e = elim (Bool-cases (p (f x))) [
    | inl hit ↦ absurd (ground (arith, h x hit))
    | inr miss ↦ rw miss (any-map_none p f xs h (ground arith))
  ]

  -- Nothing is left where no row passes a wider test.
  pub filter_none :
      (p q : A → Bool) (xs : List A)
      → ((x : A) → q x ≡ true → p x ≡ true)
      → any p xs ≡ false
      → filter q xs ≡ []
  filter_none p q [] h e = refl
  filter_none p q (x ∷ xs) h e = elim (Bool-cases (q x)) [
    | inl hit ↦ absurd (ground (arith, h x hit))
    | inr miss ↦ rw miss (filter_none p q xs h (ground arith))
  ]

  pub any_narrow :
      (p q : A → Bool) (xs : List A)
      → ((x : A) → p x ≡ true → q x ≡ true)
      → any q xs ≡ false
      → any p xs ≡ false
  any_narrow p q [] h e = refl
  any_narrow p q (x ∷ xs) h e = elim (Bool-cases (p x)) [
    | inl hit ↦ absurd (ground (arith, h x hit))
    | inr miss ↦ rw miss (any_narrow p q xs h (ground arith))
  ]
