-- ===== src/Prelude/Results.antt =====
-- Errors as values: a handler runs on a state, and what it wrote before a throw stays written.
use Prim.Native.String.{String}
use mathlib.Core.Path.{◌≡◌, refl}
use mathlib.Core.Logic.{◌⊎◌, inl, inr}
use mathlib.Core.Bool.{Bool, true, false}
use mathlib.Core.Option.{Option, none, some}
use rental_application_nest.Prelude.Tests.{if◌then◌else◌}

-- The exception classes of @nestjs/common that the services throw, with their message.
pub data HttpError : Type 0 where
  bad_request unauthorized forbidden not_found conflict too_many_requests : String → HttpError
  -- `new Error(...)`, or an error of a client library that nobody catches
  internal : String → HttpError

pub data Result {ℓ} (A : Type ℓ) : Type ℓ where
  ok : A → Result A
  err : HttpError → Result A

abbrev pub is_ok {ℓ} : {A : Type ℓ} → Result A → Bool
is_ok (ok a) = true
is_ok (err e) = false

pub Result-cases :
    {A : Type 0} (r : Result A) → ((a : A) × (r ≡ ok a)) ⊎ ((e : HttpError) × (r ≡ err e))
Result-cases (ok a) = inl (a, refl)
Result-cases (err e) = inr (e, refl)

abbrev pub Action : Type 0 → Type 0 → Type 0
Action S A = S → Result A × S

module _ {S A : Type 0} where
  abbrev pub pure : A → Action S A
  pure a s = (ok a, s)

  abbrev pub throw : HttpError → Action S A
  throw e s = (err e, s)

  abbrev pub gets : (S → A) → Action S A
  gets f s = (ok (f s), s)

abbrev pub or_throw : {S A : Type 0} → Option A → HttpError → Action S A
or_throw o e s = (elim o [ none ↦ err e | some a ↦ ok a ], s)

abbrev pub modify : {S : Type 0} → (S → S) → Action S (Unit {0})
modify f s = (ok tt, f s)

infixl 5 ◌>>=◌ ◌>>◌
abbrev pub ◌>>=◌ : {S A B : Type 0} → Action S A → (A → Action S B) → Action S B
◌>>=◌ m f s = let (r, s') = m s in elim r [ ok a ↦ f a s' | err e ↦ (err e, s') ]

abbrev pub ◌>>◌ : {S A B : Type 0} → Action S A → Action S B → Action S B
m >> k = m >>= λ _. k

-- `try { m } catch (e) { h(e) }`
abbrev pub catching : {S A : Type 0} → Action S A → (HttpError → Action S A) → Action S A
catching m h s = let (r, s') = m s in elim r [ ok a ↦ (ok a, s') | err e ↦ h e s' ]

-- `error.message`
abbrev pub message_of : HttpError → String
message_of (bad_request m) = m
message_of (unauthorized m) = m
message_of (forbidden m) = m
message_of (not_found m) = m
message_of (conflict m) = m
message_of (too_many_requests m) = m
message_of (internal m) = m

abbrev pub throw_if : {S : Type 0} → Bool → HttpError → Action S (Unit {0})
throw_if c e s = (if c then err e else ok tt, s)
