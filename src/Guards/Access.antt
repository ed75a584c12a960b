-- ===== src/Guards/Access.antt =====
-- libs/common/src/guards: auth.guard.ts, roles.guard.ts and secondary-user.guard.ts. What a decorator
-- set on the route is an argument. A role is a number.
pub mod Roles
pub mod Bearer
mod Tests
use rental_application_nest.Prelude.{
  ℕ, ◌≡◌, Bool, true, false, not, ◌&&◌, ◌||◌, Option, none, some, List, [], ◌∷◌, if◌then◌else◌,
  ◌==◌, contains, is_some, Text, text_eq, to_lower_case, Result, ok, err, HttpError, unauthorized,
  forbidden, Action, pure, throw, throw_if, or_throw, gets, modify, ◌>>=◌, ◌>>◌,
}
use rental_application_nest.External.Crypto.{Jwt, access_secret}
use rental_application_nest.Auth.Service.{Payload}

-- A request: its `authorization` header, and the user that the guard attaches.
pub record Request : Type 0 where
  pub authorization : Option Text
  pub user : Option Payload

-- The part before the first space, and the part between the first and the second, if there is a first.
abbrev pub first_word : Text → Text
first_word [] = []
first_word (c ∷ cs) = let rest = first_word cs in if c == b' ' then [] else c ∷ rest

abbrev pub second_word : Text → Option Text
second_word [] = none
second_word (c ∷ cs) = let rest = second_word cs in if c == b' ' then some (first_word cs) else rest

abbrev pub bearer : Text
bearer = b'b' ∷ b'e' ∷ b'a' ∷ b'r' ∷ b'e' ∷ b'r' ∷ []

-- An empty token counts as none, as the guard tests it by `!token`.
abbrev pub non_empty : Option Text → Option Text
non_empty none = none
non_empty (some []) = none
non_empty (some (c ∷ cs)) = some (c ∷ cs)

unfoldable pub extract_token_from_header : Option Text → Option Text
extract_token_from_header none = none
extract_token_from_header (some header) =
    if text_eq (to_lower_case (first_word header)) bearer
    then non_empty (second_word header)
    else none

-- `is_expired` says whether the library's error is a `TokenExpiredError`.
module _ (jwt : Jwt Payload) (is_expired : Text → ℕ → Bool) where
  unfoldable pub auth_guard : Bool → ℕ → Action Request Bool
  auth_guard true now s =
      let token = extract_token_from_header s.authorization in
      let payload : Option Payload = elim token [
        | none ↦ none
        | some t ↦ jwt.verify t access_secret now
      ] in
      (ok true, record s { user = if is_some payload then payload else s.user })
  auth_guard false now s = elim (extract_token_from_header s.authorization) [
    | none ↦ (err (unauthorized "Authentication token is required"), s)
    | some t ↦ elim (jwt.verify t access_secret now) [
      | none ↦ (
        err (unauthorized (if is_expired t now then "Token has expired" else "Invalid token")),
        s,
      )
      | some payload ↦ (ok true, record s { user = some payload })
    ]
  ]

  abbrev pub has_role : List ℕ → Option Payload → Result Bool
  has_role roles none = err (forbidden "User not authenticated")
  has_role roles (some user) =
      if contains roles user.role then ok true else err (forbidden "Access denied")

  unfoldable pub roles_guard : Option (List ℕ) → Action Request Bool
  roles_guard none s = (ok true, s)
  roles_guard (some []) s = (ok true, s)
  roles_guard (some (role ∷ roles)) s = (has_role (role ∷ roles) s.user, s)

  -- `@UseGuards(AuthGuard, RolesGuard)`
  unfoldable pub guarded : Bool → Option (List ℕ) → ℕ → Action Request Bool
  guarded is_public roles now = do allowed ← auth_guard is_public now; roles_guard roles

abbrev pub admin : ℕ
admin = 0

abbrev pub business : ℕ
business = 1

abbrev pub child : ℕ
child = 2

-- `is_secondary_user` is the user service's answer.
unfoldable pub secondary_user_guard : (ℕ → Bool) → Option Payload → Result Bool
secondary_user_guard is_secondary_user none = ok false
secondary_user_guard is_secondary_user (some user) =
    if user.role == business
    then ok true
    else if user.role == child
    then if is_secondary_user user.user_id
      then ok true
      else err (
          forbidden
            "Only Secondary Users can perform this action. Ask your parent to grant permission.")
    else ok (user.role == admin)
