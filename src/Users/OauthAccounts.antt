-- ===== src/Users/OauthAccounts.antt =====
-- src/features/user-management/oauthAccount/oauthAccount.service.ts: the Google and Apple accounts of
-- users. The table has `@@unique([authProvider, providerId])`, which soft-deleted rows count for too:
-- `create` throws where a row with the pair is stored. Ids and provider tokens are numbers.
pub mod Linking
mod Tests
use rental_application_nest.Prelude.{
  ℕ, Bool, true, false, not, ◌&&◌, Option, none, some, List, ◌==◌, is_some, any, Text,
  to_lower_case, Result, ok, err, conflict, not_found, internal, Action, pure, throw_if, or_throw,
  gets, modify, ◌>>=◌, ◌>>◌,
}
use rental_application_nest.External.Table.{Table}

pub data OauthProvider : Type 0 where
  google apple : OauthProvider

abbrev pub same_provider : OauthProvider → OauthProvider → Bool
same_provider google google = true
same_provider apple apple = true
same_provider _ _ = false

pub record OauthAccount : Type 0 where
  pub id : ℕ
  pub user_id : ℕ
  pub auth_provider : OauthProvider
  pub provider_id : ℕ
  pub email : Text
  pub access_token : Option ℕ
  pub refresh_token : Option ℕ
  pub id_token : Option ℕ
  pub is_verified : Bool
  pub last_used_at : Option ℕ
  pub is_deleted : Bool

pub record LinkedProviders : Type 0 where
  pub google : Bool
  pub apple : Bool

-- The pair that the schema declares unique
abbrev pub has_identity : OauthProvider → ℕ → OauthAccount → Bool
has_identity provider provider_id a =
    same_provider a.auth_provider provider && a.provider_id == provider_id

-- `{ userId, authProvider, isDeleted: false }`
abbrev pub is_linked : ℕ → OauthProvider → OauthAccount → Bool
is_linked user_id provider a =
    a.user_id == user_id && (same_provider a.auth_provider provider && not a.is_deleted)

abbrev pub unlinked : OauthAccount → OauthAccount
unlinked a = record a { is_deleted = true }

module _ {Accounts : Type 0} (oauth_account : Table OauthAccount Accounts) where
  abbrev pub create : OauthAccount → Action Accounts OauthAccount
  create a = do
    taken ← gets (oauth_account.find_first (has_identity a.auth_provider a.provider_id))
    throw_if (is_some taken) (internal "P2002")
    modify (oauth_account.create a)
    pure a

  unfoldable pub find_by_provider : OauthProvider → ℕ → Accounts → Option OauthAccount
  find_by_provider provider provider_id =
      oauth_account.find_first (λ a. has_identity provider provider_id a && not a.is_deleted)

  unfoldable pub find_by_user_id : ℕ → Accounts → List OauthAccount
  find_by_user_id user_id = oauth_account.find_many (λ a. a.user_id == user_id && not a.is_deleted)

  unfoldable pub create_or_link_oauth_account :
      ℕ
      → ℕ
      → ℕ
      → OauthProvider
      → ℕ
      → Text
      → Option ℕ
      → Option ℕ
      → Option ℕ
      → Action Accounts OauthAccount
  create_or_link_oauth_account new_id now user_id provider provider_id email access refresh
        id_token =
      do
        existing ← gets (find_by_provider provider provider_id)
        throw_if (is_some existing) (conflict "OAuth account already exists")
        create (record {
          id = new_id;
          user_id = user_id;
          auth_provider = provider;
          provider_id = provider_id;
          email = to_lower_case email;
          access_token = access;
          refresh_token = refresh;
          id_token = id_token;
          is_verified = true;
          last_used_at = some now;
          is_deleted = false;
        })

  unfoldable pub link_oauth_account :
      ℕ → ℕ → ℕ → OauthProvider → ℕ → Text → Option ℕ → Action Accounts OauthAccount
  link_oauth_account new_id now user_id provider provider_id email access = do
    existing ← gets (oauth_account.find_first (is_linked user_id provider))
    throw_if (is_some existing) (conflict "User already has this OAuth provider linked")
    create (record {
      id = new_id;
      user_id = user_id;
      auth_provider = provider;
      provider_id = provider_id;
      email = to_lower_case email;
      access_token = access;
      refresh_token = none;
      id_token = none;
      is_verified = true;
      last_used_at = some now;
      is_deleted = false;
    })

  unfoldable pub update_last_used : ℕ → ℕ → Action Accounts OauthAccount
  update_last_used now id = do
    found ← gets (oauth_account.find_first (λ a. a.id == id))
    a ← or_throw found (internal "P2025")
    modify (oauth_account.update_many (λ x. x.id == id) (λ x. record x { last_used_at = some now }))
    pure (record a { last_used_at = some now })

  -- The rows are updated before the count is tested.
  unfoldable pub unlink_oauth_account : ℕ → OauthProvider → Action Accounts (Unit {0})
  unlink_oauth_account user_id provider = do
    count ← gets (oauth_account.count (is_linked user_id provider))
    modify (oauth_account.update_many (is_linked user_id provider) unlinked)
    throw_if (count == 0) (not_found "OAuth account not found")

  unfoldable pub get_user_oauth_accounts : ℕ → Accounts → LinkedProviders
  unfolding find_by_user_id
  get_user_oauth_accounts user_id s =
      let accounts = find_by_user_id user_id s in
      record {
        google = any (λ a. same_provider a.auth_provider google) accounts;
        apple = any (λ a. same_provider a.auth_provider apple) accounts;
      }

  unfoldable pub has_oauth_account : ℕ → OauthProvider → Accounts → Bool
  has_oauth_account user_id provider s =
      is_some (oauth_account.find_first (is_linked user_id provider) s)
