-- ===== src/Prelude/Lists.antt =====
-- Lists over the native numbers, with Boolean tests.
use Prim.Native.Nat.{ℕ, zero, suc, ◌+◌, ◌≤◌}
use mathlib.Core.Path.{◌≡◌, refl, ap, ◌∙◌}
use mathlib.Core.Logic.{◌⊎◌, inl, inr}
use mathlib.Core.Bool.{Bool, true, false, ◌||◌}
use mathlib.Core.Option.{Option, none, some}
use mathlib.Core.List.{List, [], ◌∷◌, ◌++◌, map, reverse, reverse-cons}
use native.Mathlib.Omega.{arith}
use rental_application_nest.Prelude.Tests.{◌==◌, if◌then◌else◌, bit, Bool-cases}

module _ {ℓ} {A : Type ℓ} where
  abbrev pub length : List A → ℕ
  length [] = 0
  length (x ∷ xs) = suc (length xs)

  pub length-append : (xs ys : List A) → length (xs ++ ys) ≡ length xs + length ys
  length-append [] ys = omega arith
  length-append (x ∷ xs) ys = omega (arith, length-append xs ys)

abbrev pub contains : List ℕ → ℕ → Bool
contains [] a = false
contains (x ∷ xs) a = x == a || contains xs a

-- No element at all, at any level.
pub data Empty {ℓ} : Type ℓ where

module _ {ℓ} {A : Type ℓ} where
  abbrev pub any : (A → Bool) → List A → Bool
  any p [] = false
  any p (x ∷ xs) = p x || any p xs

  abbrev pub filter : (A → Bool) → List A → List A
  filter p [] = []
  filter p (x ∷ xs) = let rest = filter p xs in if p x then x ∷ rest else rest

  abbrev pub count_if : (A → Bool) → List A → ℕ
  count_if p [] = 0
  count_if p (x ∷ xs) = bit (p x) + count_if p xs

  abbrev pub find : (A → Bool) → List A → Option A
  find p [] = none
  find p (x ∷ xs) = if p x then some x else find p xs

  pub length-filter : (p : A → Bool) (xs : List A) → length (filter p xs) ≡ count_if p xs
  length-filter p [] = refl
  length-filter p (x ∷ xs) = ground (arith, length-filter p xs)

  pub any-count_if : (p : A → Bool) (xs : List A) → any p xs ≡ false → count_if p xs ≡ 0
  any-count_if p [] h = refl
  any-count_if p (x ∷ xs) h = ground (arith, any-count_if p xs)

  -- `r` is one of the elements.
  abbrev pub In : A → List A → Type ℓ
  In r [] = Empty
  In r (x ∷ xs) = (r ≡ x) ⊎ In r xs

  pub any-In : (p : A → Bool) (xs : List A) (r : A) → In r xs → p r ≡ true → any p xs ≡ true
  any-In p [] r m h = elim m [ ]
  any-In p (x ∷ xs) r (inl e) h = ground (arith, ap p e)
  any-In p (x ∷ xs) r (inr m) h = ground (arith, any-In p xs r m h)

module _ {ℓ} {A B : Type ℓ} where
  pub In-map : (f : A → B) (xs : List A) (y : B) → In y (map f xs) → (x : A) × In x xs × (y ≡ f x)
  In-map f [] y m = elim m [ ]
  In-map f (x ∷ xs) y (inl e) = (x, inl refl, e)
  In-map f (x ∷ xs) y (inr m) = let (z, k, e) = In-map f xs y m in (z, inr k, e)

  pub In-map_of_In : (f : A → B) (xs : List A) (x : A) → In x xs → In (f x) (map f xs)
  In-map_of_In f [] x m = elim m [ ]
  In-map_of_In f (y ∷ ys) x (inl e) = inl (ap f e)
  In-map_of_In f (y ∷ ys) x (inr m) = inr (In-map_of_In f ys x m)

module _ {ℓ} {A : Type ℓ} where
  abbrev pub take : ℕ → List A → List A
  take zero xs = []
  take (suc n) [] = []
  take (suc n) (x ∷ xs) = x ∷ take n xs

  pub In-take : (n : ℕ) (xs : List A) (r : A) → In r (take n xs) → In r xs
  In-take zero xs r m = elim m [ ]
  In-take (suc n) [] r m = elim m [ ]
  In-take (suc n) (x ∷ xs) r (inl e) = inl e
  In-take (suc n) (x ∷ xs) r (inr m) = inr (In-take n xs r m)

  -- What passes the filter is an element that passes the test.
  pub In-filter : (p : A → Bool) (xs : List A) (r : A) → In r (filter p xs) → In r xs × (p r ≡ true)
  In-filter p [] r m = elim m [ ]
  In-filter p (x ∷ xs) r m = elim (Bool-cases (p x)) [
    | inl pass ↦ elim (rw pass at m) [
      | inl e ↦ (inl e, ap p e ∙ pass)
      | inr k ↦ let (i, h) = In-filter p xs r k in (inr i, h)
    ]
    | inr fail ↦ let (i, h) = In-filter p xs r (rw fail at m) in (inr i, h)
  ]

module _ {ℓ} {A : Type ℓ} where
  abbrev pub drop : ℕ → List A → List A
  drop zero xs = xs
  drop (suc n) [] = []
  drop (suc n) (x ∷ xs) = drop n xs

  -- The last element, where there is one.
  abbrev pub last : List A → Option A
  last [] = none
  last (x ∷ []) = some x
  last (x ∷ y ∷ ys) = last (y ∷ ys)

  pub In-drop : (n : ℕ) (xs : List A) (r : A) → In r (drop n xs) → In r xs
  In-drop zero xs r m = m
  In-drop (suc n) [] r m = elim m [ ]
  In-drop (suc n) (x ∷ xs) r m = inr (In-drop n xs r m)

  pub In-last : (xs : List A) (r : A) → last xs ≡ some r → In r xs
  In-last [] r h = absurd (ground arith)
  In-last (x ∷ []) r h = inl (ground arith)
  In-last (x ∷ y ∷ ys) r h = inr (In-last (y ∷ ys) r h)

  pub length-take : (n : ℕ) (xs : List A) → length (take n xs) ≤ n
  length-take zero xs = omega arith
  length-take (suc n) [] = omega arith
  length-take (suc n) (x ∷ xs) = omega (arith, length-take n xs)

module _ {ℓ} {A B : Type ℓ} where
  pub last-map : (f : A → B) (xs : List A) {r : A} → last xs ≡ some r → last (map f xs) ≡ some (f r)
  last-map f [] h = absurd (ground arith)
  last-map f (x ∷ []) h = ground arith
  last-map f (x ∷ y ∷ ys) h = last-map f (y ∷ ys) h

module _ {ℓ} {A : Type ℓ} where
  pub In-append : (xs ys : List A) (r : A) → In r (xs ++ ys) → In r xs ⊎ In r ys
  In-append [] ys r m = inr m
  In-append (x ∷ xs) ys r (inl e) = inl (inl e)
  In-append (x ∷ xs) ys r (inr m) = elim (In-append xs ys r m) [
    | inl k ↦ inl (inr k)
    | inr k ↦ inr k
  ]

  pub In-reverse : (xs : List A) (r : A) → In r (reverse xs) → In r xs
  In-reverse [] r m = m
  In-reverse (x ∷ xs) r m = elim (In-append (reverse xs) (x ∷ []) r (rw (reverse-cons x xs) at m)) [
    | inl k ↦ inr (In-reverse xs r k)
    | inr (inl e) ↦ inl e
    | inr (inr k) ↦ elim k [ ]
  ]

  pub In-append_of_In : (xs ys : List A) (r : A) → In r xs ⊎ In r ys → In r (xs ++ ys)
  In-append_of_In [] ys r (inl m) = elim m [ ]
  In-append_of_In [] ys r (inr m) = m
  In-append_of_In (x ∷ xs) ys r (inl (inl e)) = inl e
  In-append_of_In (x ∷ xs) ys r (inl (inr m)) = inr (In-append_of_In xs ys r (inl m))
  In-append_of_In (x ∷ xs) ys r (inr m) = inr (In-append_of_In xs ys r (inr m))

  pub In-reverse_of_In : (xs : List A) (r : A) → In r xs → In r (reverse xs)
  In-reverse_of_In [] r m = m
  In-reverse_of_In (x ∷ xs) r (inl e) =
      rw (reverse-cons x xs) (In-append_of_In (reverse xs) (x ∷ []) r (inr (inl e)))
  In-reverse_of_In (x ∷ xs) r (inr m) =
      rw (reverse-cons x xs)
        (In-append_of_In (reverse xs) (x ∷ []) r (inl (In-reverse_of_In xs r m)))

  pub length-reverse : (xs : List A) → length (reverse xs) ≡ length xs
  length-reverse [] = refl
  length-reverse (x ∷ xs) =
      rw (reverse-cons x xs, length-append (reverse xs) (x ∷ [])) (omega (arith, length-reverse xs))

module _ {ℓ} {A : Type ℓ} where
  -- What is taken in two parts is taken at once.
  pub take-drop :
      (m n k : ℕ) (xs : List A) → m + n ≡ k → take m xs ++ take n (drop m xs) ≡ take k xs
  take-drop zero n k xs e = let same : n ≡ k = omega arith in ap (λ i. take i xs) same
  take-drop (suc m) n zero xs e = absurd (omega arith)
  take-drop (suc m) zero (suc k) [] e = refl
  take-drop (suc m) (suc n) (suc k) [] e = refl
  take-drop (suc m) n (suc k) (x ∷ xs) e = ap (λ ys. x ∷ ys) (take-drop m n k xs (omega arith))

  -- Taking as many as there are, or more, takes all.
  pub take_all : (n : ℕ) (xs : List A) → length xs ≤ n → take n xs ≡ xs
  take_all zero [] h = refl
  take_all zero (x ∷ xs) h = absurd (omega arith)
  take_all (suc n) [] h = refl
  take_all (suc n) (x ∷ xs) h = ap (λ ys. x ∷ ys) (take_all n xs (omega arith))

  pub take-take : (m n : ℕ) (xs : List A) → m ≤ n → take m (take n xs) ≡ take m xs
  take-take zero n xs h = refl
  take-take (suc m) zero xs h = absurd (omega arith)
  take-take (suc m) (suc n) [] h = refl
  take-take (suc m) (suc n) (x ∷ xs) h = ap (λ ys. x ∷ ys) (take-take m n xs (omega arith))

  -- What is taken from two lists, where all of the first is
  pub take-append :
      (m n : ℕ) (xs ys : List A) → m ≡ length xs + n → take m (xs ++ ys) ≡ xs ++ take n ys
  take-append m n [] ys e = let same : m ≡ n = omega arith in ap (λ k. take k ys) same
  take-append zero n (x ∷ xs) ys e = absurd (omega arith)
  take-append (suc m) n (x ∷ xs) ys e = ap (λ zs. x ∷ zs) (take-append m n xs ys (omega arith))

  pub append_empty : (xs : List A) → xs ++ [] ≡ xs
  append_empty [] = refl
  append_empty (x ∷ xs) = ap (λ ys. x ∷ ys) (append_empty xs)

  pub last-append : (xs : List A) (x : A) → last (xs ++ x ∷ []) ≡ some x
  last-append [] x = refl
  last-append (y ∷ []) x = refl
  last-append (y ∷ z ∷ zs) x = last-append (z ∷ zs) x
