-- ===== src/Users/OauthAccounts/Linking.antt =====
-- Unlinking an account, and linking it again.
use rental_application_nest.Prelude.{
  ℕ, ◌≡◌, refl, Bool, true, false, not, Option, none, some, List, [], ◌∷◌, ◌∙◌, modify, or_throw,
  arith, if◌then◌else◌, Bool-cases, Option-cases, inl, inr, any-count_if, count_if-any,
  count_if-map_none, any-In, In, In-map_of_In, HttpError, conflict, to_lower_case, ==_refl, Text,
  ◌==◌, is_some, is_ok, ◌>>=◌, ◌>>◌, throw_if,
}
use rental_application_nest.External.Table.{Table}
use rental_application_nest.Users.OauthAccounts.{
  OauthProvider, OauthAccount, has_identity, is_linked, unlinked, create, find_by_provider,
  create_or_link_oauth_account, link_oauth_account, update_last_used, unlink_oauth_account,
  has_oauth_account,
}

-- The row of a new account
abbrev account_of :
    ℕ → ℕ → ℕ → OauthProvider → ℕ → Text → Option ℕ → Option ℕ → Option ℕ → OauthAccount
account_of new_id now user_id provider provider_id email access refresh id_token = record {
  id = new_id;
  user_id = user_id;
  auth_provider = provider;
  provider_id = provider_id;
  email = to_lower_case email;
  access_token = access;
  refresh_token = refresh;
  id_token = id_token;
  is_verified = true;
  last_used_at = some now;
  is_deleted = false;
}

-- A method of the service that writes
pub data Call : Type 0 where
  creates : ℕ → ℕ → ℕ → OauthProvider → ℕ → Text → Option ℕ → Option ℕ → Option ℕ → Call
  links : ℕ → ℕ → ℕ → OauthProvider → ℕ → Text → Option ℕ → Call
  uses : ℕ → ℕ → Call
  unlinks : ℕ → OauthProvider → Call

module _ {Accounts : Type 0} (oauth_account : Table OauthAccount Accounts) where
  -- A row that passes is found.
  find_first_of_count :
      (p : OauthAccount → Bool) (s : Accounts)
      → is_some (oauth_account.find_first p s) ≡ not (oauth_account.count p s == 0)
  find_first_of_count p s =
      rw (oauth_account.count-rows p s) (elim (Option-cases (oauth_account.find_first p s)) [
        | inl nothing ↦ ground (
          arith,
          any-count_if p (oauth_account.rows s) (oauth_account.find_first-none p s nothing),
        )
        | inr (a, found) ↦
            let (live, m) = oauth_account.find_first-some p s found in
            ground (
              arith,
              count_if-any p (oauth_account.rows s) (any-In p (oauth_account.rows s) a m live),
            )
      ])

  unlinked_count :
      (user_id : ℕ) (provider : OauthProvider) (s : Accounts)
      → oauth_account.count
          (is_linked user_id provider)
          (oauth_account.update_many (is_linked user_id provider) unlinked s)
        ≡ 0
  unlinked_count user_id provider s =
      let p = is_linked user_id provider in
      rw
        (
          oauth_account.count-rows p (oauth_account.update_many p unlinked s),
          oauth_account.rows-update_many p unlinked s,
        )
        (count_if-map_none p (λ a. if p a then unlinked a else a) (oauth_account.rows s)
          (λ a. elim (Bool-cases (p a)) [
            | inl hit ↦ rw hit (ground arith)
            | inr miss ↦ rw miss miss
          ]))

  -- `unlinkOAuthAccount` succeeds exactly where `hasOAuthAccount` held before, and in either case
  -- `hasOAuthAccount` does not hold after it.
  unlink_oauth_account-has_oauth_account :
      (user_id : ℕ) (provider : OauthProvider) (s : Accounts)
      → let (r, s') = unlink_oauth_account oauth_account user_id provider s in
        (is_ok r ≡ has_oauth_account oauth_account user_id provider s)
        × (has_oauth_account oauth_account user_id provider s' ≡ false)
  unfolding unlink_oauth_account has_oauth_account
  unlink_oauth_account-has_oauth_account user_id provider s =
      let p = is_linked user_id provider in
      (
        ground (arith, find_first_of_count p s),
        ground (
          arith,
          find_first_of_count p (oauth_account.update_many p unlinked s),
          unlinked_count user_id provider s,
        ),
      )

  -- A stored pair of provider and provider id is refused.
  create_taken :
      (a b : OauthAccount) (s : Accounts)
      → In a (oauth_account.rows s)
      → has_identity b.auth_provider b.provider_id a ≡ true
      → is_ok (create oauth_account b s).0 ≡ false
  create_taken a b s m h =
      let p = has_identity b.auth_provider b.provider_id in
      elim (Option-cases (oauth_account.find_first p s)) [
        | inl nothing ↦
            absurd (
              cc (any-In p (oauth_account.rows s) a m h, oauth_account.find_first-none p s nothing))
        | inr (c, found) ↦ rw (found, ◌>>=◌, ◌>>◌, throw_if) refl
      ]

  guarded_create :
      (taken : Bool) (e : HttpError) (a b : OauthAccount) (s : Accounts)
      → In a (oauth_account.rows s)
      → has_identity b.auth_provider b.provider_id a ≡ true
      → is_ok ((throw_if taken e >> create oauth_account b) s).0 ≡ false
  guarded_create true e a b s m h = refl
  guarded_create false e a b s m h = create_taken a b s m h

  -- Unlinking keeps the pair stored.
  unlink_oauth_account-In :
      (user_id : ℕ) (provider : OauthProvider) (a : OauthAccount) (s : Accounts)
      → In a (oauth_account.rows s)
      → is_linked user_id provider a ≡ true
      → In
          (unlinked a)
          (oauth_account.rows (unlink_oauth_account oauth_account user_id provider s).1)
  unfolding unlink_oauth_account
  unlink_oauth_account-In user_id provider a s m h =
      let p = is_linked user_id provider in
      let e : (if p a then unlinked a else a) ≡ unlinked a = rw h refl in
      rw (oauth_account.rows-update_many p unlinked s)
        (rw e at (In-map_of_In (λ x. if p x then unlinked x else x) (oauth_account.rows s) a m))

  unfoldable pub step : Call → Accounts → Accounts
  step (creates new_id now user_id provider provider_id email access refresh id_token) s =
      (create_or_link_oauth_account oauth_account new_id now user_id provider provider_id email
        access refresh id_token s).1
  step (links new_id now user_id provider provider_id email access) s =
      (link_oauth_account oauth_account new_id now user_id provider provider_id email access s).1
  step (uses now id) s = (update_last_used oauth_account now id s).1
  step (unlinks user_id provider) s = (unlink_oauth_account oauth_account user_id provider s).1

  unfoldable pub run : List Call → Accounts → Accounts
  run [] s = s
  run (c ∷ cs) s = run cs (step c s)

  -- A row with the pair is stored, live or not.
  abbrev IsTaken : OauthProvider → ℕ → Accounts → Type 0
  IsTaken provider provider_id s =
      (a : OauthAccount) × In a (oauth_account.rows s)
      × (has_identity provider provider_id a ≡ true)

  create-IsTaken :
      (guarded : Bool) (e : HttpError) (provider : OauthProvider) (provider_id : ℕ)
      (b : OauthAccount) (s : Accounts)
      → IsTaken provider provider_id s
      → IsTaken provider provider_id ((throw_if guarded e >> create oauth_account b) s).1
  create-IsTaken true e provider provider_id b s taken = taken
  create-IsTaken false e provider provider_id b s (a, m, h) =
      let p = has_identity b.auth_provider b.provider_id in
      elim (Option-cases (oauth_account.find_first p s)) [
        | inr (c, found) ↦ rw (found, create, ◌>>=◌, ◌>>◌, throw_if) (a, m, h)
        | inl nothing ↦
            rw (nothing, create, ◌>>=◌, ◌>>◌, throw_if, modify)
              (a, rw (oauth_account.rows-create b s) (inr m), h)
      ]

  update-IsTaken :
      (p : OauthAccount → Bool) (f : OauthAccount → OauthAccount) (provider : OauthProvider)
      (provider_id : ℕ) (s : Accounts)
      → ((x : OauthAccount)
          → has_identity provider provider_id (f x) ≡ has_identity provider provider_id x)
      → IsTaken provider provider_id s
      → IsTaken provider provider_id (oauth_account.update_many p f s)
  update-IsTaken p f provider provider_id s keeps (a, m, h) =
      let g = λ (x : OauthAccount). if p x then f x else x in
      let kept : has_identity provider provider_id (g a) ≡ true = elim (Bool-cases (p a)) [
        | inl hit ↦ rw hit (keeps a ∙ h)
        | inr miss ↦ rw miss h
      ] in
      (
        g a,
        rw (oauth_account.rows-update_many p f s) (In-map_of_In g (oauth_account.rows s) a m),
        kept,
      )

  step-IsTaken :
      (c : Call) (provider : OauthProvider) (provider_id : ℕ) (s : Accounts)
      → IsTaken provider provider_id s
      → IsTaken provider provider_id (step c s)
  unfolding step create_or_link_oauth_account link_oauth_account update_last_used
      unlink_oauth_account
  step-IsTaken (creates new_id now user_id q id email access refresh id_token) provider provider_id
        s taken =
      create-IsTaken (is_some (find_by_provider oauth_account q id s))
        (conflict "OAuth account already exists") provider provider_id
        (account_of new_id now user_id q id email access refresh id_token) s taken
  step-IsTaken (links new_id now user_id q id email access) provider provider_id s taken =
      create-IsTaken (is_some (oauth_account.find_first (is_linked user_id q) s))
        (conflict "User already has this OAuth provider linked") provider provider_id
        (account_of new_id now user_id q id email access none none) s taken
  step-IsTaken (uses now id) provider provider_id s taken =
      elim (Option-cases (oauth_account.find_first (λ a. a.id == id) s)) [
        | inl missing ↦ rw (missing, step, update_last_used, ◌>>=◌, ◌>>◌, or_throw) taken
        | inr (a, found) ↦
            rw (found, step, update_last_used, ◌>>=◌, ◌>>◌, or_throw, modify)
              (update-IsTaken (λ x. x.id == id) (λ x. record x { last_used_at = some now }) provider
                provider_id s (λ x. refl) taken)
      ]
  step-IsTaken (unlinks user_id q) provider provider_id s taken =
      update-IsTaken (is_linked user_id q) unlinked provider provider_id s (λ x. refl) taken

  run-IsTaken :
      (cs : List Call) (provider : OauthProvider) (provider_id : ℕ) (s : Accounts)
      → IsTaken provider provider_id s
      → IsTaken provider provider_id (run cs s)
  unfolding run
  run-IsTaken [] provider provider_id s taken = taken
  run-IsTaken (c ∷ cs) provider provider_id s taken =
      run-IsTaken cs provider provider_id (step c s) (step-IsTaken c provider provider_id s taken)

  -- An account that was unlinked is not linked again by the service's own methods: where a user's linked
  -- account for a provider is stored and the user unlinks the provider, then after any further calls
  -- of the service's own methods that write, `createOrLinkOAuthAccount` and `linkOAuthAccount` with the
  -- account's provider id both fail, for every user. The inherited `deleteById` and `updateById`, which
  -- no route calls and which could free the pair, are not among the calls.
  pub unlink_oauth_account-create :
      (cs : List Call) (user_id new_id now other_id : ℕ) (provider : OauthProvider)
      (a : OauthAccount) (email : Text) (access refresh id_token : Option ℕ) (s : Accounts)
      → In a (oauth_account.rows s)
      → is_linked user_id provider a ≡ true
      → let s' = run cs (unlink_oauth_account oauth_account user_id provider s).1 in
        (is_ok
            (create_or_link_oauth_account oauth_account new_id now other_id provider a.provider_id
              email access refresh id_token s').0
          ≡ false)
        × (is_ok
              (link_oauth_account oauth_account new_id now other_id provider a.provider_id email
                access s').0
            ≡ false)
  unfolding create_or_link_oauth_account link_oauth_account
  unlink_oauth_account-create cs user_id new_id now other_id provider a email access refresh
        id_token s m h =
      let s' = run cs (unlink_oauth_account oauth_account user_id provider s).1 in
      let same : has_identity provider a.provider_id (unlinked a) ≡ true =
        ground (arith, ==_refl a.provider_id) in
      let (b, stored, taken) =
        run-IsTaken cs provider a.provider_id
          (unlink_oauth_account oauth_account user_id provider s).1
          (unlinked a, unlink_oauth_account-In user_id provider a s m h, same) in
      (
        guarded_create (is_some (find_by_provider oauth_account provider a.provider_id s'))
            (conflict "OAuth account already exists") b
            (account_of new_id now other_id provider a.provider_id email access refresh id_token) s'
            stored taken,
        guarded_create (is_some (oauth_account.find_first (is_linked other_id provider) s'))
            (conflict "User already has this OAuth provider linked") b
            (account_of new_id now other_id provider a.provider_id email access none none) s' stored
            taken,
      )
