-- ===== src/Users/OauthAccounts/Tests.antt =====
-- Runs of the linked accounts in memory.
use rental_application_nest.Prelude.{◌≡◌, refl, false, true, none, inl, List, [], ◌∷◌, is_ok}
use rental_application_nest.External.Memory.Tables.{memory_table}
use rental_application_nest.Users.OauthAccounts.{
  OauthAccount, google, apple, create_or_link_oauth_account, link_oauth_account,
  unlink_oauth_account,
}
use rental_application_nest.Users.OauthAccounts.Linking.{
  Call, links, uses, unlinks, run, unlink_oauth_account-create,
}

abbrev account : OauthAccount
account = record {
  id = 1;
  user_id = 7;
  auth_provider = google;
  provider_id = 500;
  email = [];
  access_token = none;
  refresh_token = none;
  id_token = none;
  is_verified = true;
  last_used_at = none;
  is_deleted = false;
}

-- Another user's Apple account in between
abbrev calls : List Call
calls = links 3 80 8 apple 500 [] none ∷ uses 81 1 ∷ unlinks 8 apple ∷ []

unlink_oauth_account-create_example :
    let s' = run memory_table calls (unlink_oauth_account memory_table 7 google (account ∷ [])).1 in
    (is_ok (create_or_link_oauth_account memory_table 2 90 7 google 500 [] none none none s').0
      ≡ false)
    × (is_ok (link_oauth_account memory_table 2 90 7 google 500 [] none s').0 ≡ false)
unlink_oauth_account-create_example =
    unlink_oauth_account-create memory_table calls 7 2 90 7 google account [] none none none
      (account ∷ []) (inl refl) refl
