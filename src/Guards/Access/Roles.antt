-- ===== src/Guards/Access/Roles.antt =====
-- Who passes the guards of a route.
use rental_application_nest.Prelude.{
  ℕ, ◌≡◌, inl, inr, Bool, true, false, some, List, ◌∷◌, contains, arith, Option-cases, Bool-cases,
  Result-cases, ◌∙◌, is_ok, Text, ok,
}
use rental_application_nest.External.Crypto.{Jwt, access_secret}
use rental_application_nest.Auth.Service.{Payload}
use rental_application_nest.Guards.Access.{
  Request, extract_token_from_header, auth_guard, roles_guard, guarded, has_role,
}

module _ (jwt : Jwt Payload) (is_expired : Text → ℕ → Bool) where
  auth_guard-private :
      (now : ℕ) (s : Request) {b : Bool}
      → let (answer, s') = auth_guard jwt is_expired false now s in
        answer ≡ ok b
        → (token : Text) × (payload : Payload) × (extract_token_from_header s.authorization
            ≡ some token)
          × (jwt.verify token access_secret now ≡ some payload)
          × (s'.user ≡ some payload)
  unfolding auth_guard
  auth_guard-private now s h = elim (Option-cases (extract_token_from_header s.authorization)) [
    | inl missing ↦ absurd (ground arith)
    | inr (token, e) ↦ elim (Option-cases (jwt.verify token access_secret now)) [
      | inl refused ↦ absurd (ground arith)
      | inr (payload, f) ↦ (token, payload, e, f, ground arith)
    ]
  ]

  guarded-parts :
      (is_public : Bool) (role : ℕ) (roles : List ℕ) (now : ℕ) (s : Request) {b : Bool}
      → let (answer, s') = auth_guard jwt is_expired is_public now s in
        let (whole, s'') = guarded jwt is_expired is_public (some (role ∷ roles)) now s in
        whole ≡ ok b
        → (is_ok answer ≡ true)
          × (has_role jwt is_expired (role ∷ roles) s'.user ≡ ok b)
          × (s''.user ≡ s'.user)
  unfolding guarded roles_guard
  guarded-parts is_public role roles now s h =
      elim (Result-cases (auth_guard jwt is_expired is_public now s).0) [
        | inl (a, passed) ↦ (ground arith, ground arith, ground arith)
        | inr (e, thrown) ↦ absurd (ground arith)
      ]

  has_role-contains :
      (roles : List ℕ) (user : Payload) {b : Bool}
      → has_role jwt is_expired roles (some user) ≡ ok b
      → contains roles user.role ≡ true
  has_role-contains roles user h = elim (Bool-cases (contains roles user.role)) [
    | inl yes_role ↦ yes_role
    | inr no_role ↦ absurd (ground arith)
  ]

  -- A request that passes `AuthGuard` and then `RolesGuard`, on a route that is not public and that
  -- requires some roles, carries a token in its header that the library verifies now with the access
  -- secret; the token's role is one of the required roles, and the user attached is the token's.
  pub guarded_sound :
      (role : ℕ) (roles : List ℕ) (now : ℕ) (s : Request) {b : Bool}
      → let (answer, s') = guarded jwt is_expired false (some (role ∷ roles)) now s in
        answer ≡ ok b
        → (token : Text) × (payload : Payload) × (extract_token_from_header s.authorization
            ≡ some token)
          × (jwt.verify token access_secret now ≡ some payload)
          × (contains (role ∷ roles) payload.role ≡ true)
          × (s'.user ≡ some payload)
  guarded_sound role roles now s h =
      let (passed, has, same) = guarded-parts false role roles now s h in
      elim (Result-cases (auth_guard jwt is_expired false now s).0) [
        | inr (e, thrown) ↦ absurd (ground arith)
        | inl (a, done) ↦
            let (token, payload, e, f, attached) = auth_guard-private now s done in
            (
              token,
              payload,
              e,
              f,
              has_role-contains (role ∷ roles) payload (rw attached at has),
              same ∙ attached,
            )
      ]
