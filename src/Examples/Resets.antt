-- ===== src/Examples/Resets.antt =====
-- Password reset: tests, and the theorems at a store with one code and one account.
use smart_platform_services.Common.{
  ◌≡◌, refl, true, false, none, some, [], ◌∷◌, text, ltb, All, exists_where, count_where,
  find_where, same_text, to_lower_case,
}
use smart_platform_services.Identity.Exec.{ok}
use smart_platform_services.Identity.Session.{is_session_active}
use smart_platform_services.Identity.Store.{Store, PasswordResetToken}
use smart_platform_services.Identity.Reset.{
  IssueToken, issue_password_reset_token, issue_transaction, insert_token, close_challenge,
  token_row, find_password_reset_token, ResetPassword, reset, can_reset, reset_password_with_token,
  reset_found, reset_with,
}
use smart_platform_services.Identity.Reset.Issue.{issue_password_reset_token_lem}
use smart_platform_services.Identity.Reset.SingleUse.{has_password, reset_password_with_token_lem}
use smart_platform_services.Examples.{empty_store, coded_store, audit}

abbrev pub exchange : IssueToken
exchange = record {
  challenge_id = 10;
  user_id = 1;
  email = text "ann@site.vn";
  code_hash = 555;
  token_hash = 42;
  context_hash = 9;
  expires_at = 900;
  issued_at = 200;
  audit = audit;
}

abbrev pub exchange_again : IssueToken
exchange_again = record exchange { token_hash = 43; issued_at = 250 }

pub exchanges : (issue_password_reset_token exchange coded_store).0 ≡ ok true
unfolding issue_password_reset_token issue_transaction insert_token close_challenge exists_where
    same_text to_lower_case
exchanges = refl

-- Test: a wrong code buys no token.
wrong_code_test :
    (issue_password_reset_token (record exchange { code_hash = 556 }) coded_store).0 ≡ ok false
unfolding issue_password_reset_token issue_transaction exists_where same_text
wrong_code_test = refl

issue_password_reset_token_lem_example :
    let after = (issue_password_reset_token exchange coded_store).1 in
    (find_password_reset_token 42 after ≡ some (token_row exchange))
    × (issue_password_reset_token exchange_again after ≡ (ok false, after))
issue_password_reset_token_lem_example =
    issue_password_reset_token_lem exchange exchange_again coded_store exchanges refl

abbrev token : PasswordResetToken
token = token_row exchange

abbrev token_store : Store
token_store = record empty_store { reset_tokens = token ∷ [] }

abbrev new_password : ResetPassword
new_password = record {
  token_hash = 42;
  context_hash = 9;
  password_hash = text "new-hash";
  reset_at = 300;
  audit = audit;
}

resets : (reset_password_with_token new_password token_store).0 ≡ reset
unfolding reset_password_with_token reset_found reset_with find_password_reset_token find_where
    count_where
resets = refl

reset_password_with_token_lem_example :
    let after = (reset_password_with_token new_password token_store).1 in
    (t : PasswordResetToken) × (find_password_reset_token 42 token_store ≡ some t)
    × (t.consumed_at ≡ none)
    × (ltb 300 t.expires_at ≡ true)
    × (t.context_hash ≡ 9)
    × (find_password_reset_token 42 after ≡ some (record t { consumed_at = some 300 }))
    × (count_where (can_reset t.user_id) token_store.users ≡ 1)
    × (count_where (has_password t.user_id (text "new-hash")) after.users ≡ 1)
    × All (λ u. can_reset t.user_id u ≡ true → u.password_hash ≡ some (text "new-hash")) after.users
    × (is_session_active 5 t.user_id 400 after ≡ false)
reset_password_with_token_lem_example =
    reset_password_with_token_lem new_password token_store 5 400 resets
