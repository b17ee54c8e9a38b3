-- ===== src/Examples/Flows.antt =====
-- The flows of the authentication service: tests, and the theorems at a store with one account.
use smart_platform_services.Common.{
  ◌+◌, ◌/◌, ◌≡◌, ◌↔◌, refl, true, false, none, some, [], ◌∷◌, text, arith, All, ltb, nat_eq,
  if◌then◌else◌, ◌==◌, text_Eq, find_where, exists_where, update_where, count_where, same_text,
  to_lower_case, trim, split, slice, stars, collapse_spaces,
}
use smart_platform_services.Identity.Contracts.{
  AuthenticatedActor, renter, active, registration, unauthorized, bad_request, too_many_requests,
  invalid_credentials, password_reset_token_invalid, password_confirmation_mismatch,
}
use smart_platform_services.Identity.Exec.{ok, err}
use smart_platform_services.Identity.Reset.{
  find_password_reset_token, can_reset, reset_password_with_token, reset_found, reset_with,
}
use smart_platform_services.Identity.Session.{
  is_session_active, create_session, revoke_sessions_for_user, update_sessions,
}
use smart_platform_services.Identity.Store.{Store, IdentityUser, PasswordResetToken}
use smart_platform_services.Identity.Throttle.{record_failure}
use smart_platform_services.Identity.Throttle.Limiter.{longest_wait}
use smart_platform_services.Identity.Tokens.{AuthSessionTokens, token_pair, sign_refresh, create}
use smart_platform_services.Identity.Users.{
  find_one, find_by_id, find_by_email, update_password, update_users,
}
use smart_platform_services.Identity.Auth.{
  normalize_email, mask_email, device_key, login_keys, hash_reset_token, hash_recovery_context,
  otp_code,
}
use smart_platform_services.Identity.Auth.SignIn.{
  LoginInput, ChangePasswordInput, verifies, require_user, login, change_password,
}
use smart_platform_services.Identity.Auth.NewPassword.{complete_password_recovery}
use smart_platform_services.Identity.Auth.NewPassword.{RecoveryReset}
use smart_platform_services.Identity.Auth.Refusal.{wrong_for, login_refused}
use smart_platform_services.Identity.Auth.Sessions.{change_password_lem}
use smart_platform_services.Identity.Auth.Completion.{
  complete_password_recovery_lem, complete_password_recovery_twice,
}
use smart_platform_services.Identity.Bodies.{
  is_e164_phone, is_otp_code, is_new_password, is_special_password,
}
use smart_platform_services.Identity.Bodies.Normal.{otp_code_lem}
use smart_platform_services.Identity.Auth.Codes.{value_from, code_number}
use smart_platform_services.Examples.{empty_store, runtime}
use smart_platform_services.Examples.Platform.{codec, auth, client, draws}

-- Tests of the helpers.
normalize_test : normalize_email (text "  Ann@Site.VN ") ≡ text "ann@site.vn"
unfolding normalize_email trim to_lower_case
normalize_test = refl

mask_test : mask_email (text "annabel@site.vn") ≡ text "an*****@site.vn"
unfolding mask_email split slice stars
mask_test = refl

device_test : device_key client ≡ text "d1"
unfolding device_key trim
device_test = refl

collapse_test : collapse_spaces (text "Ann  Thi   Le") ≡ text "Ann Thi Le"
unfolding collapse_spaces
collapse_test = refl

abbrev wrong_login : LoginInput
wrong_login = record { email = text "ann@site.vn"; password = text "guess" }

is_wrong :
    wrong_for runtime auth codec
      (text "guess")
      (find_by_email (normalize_email (text "ann@site.vn")) empty_store)
    ≡ true
unfolding find_by_email find_one find_where normalize_email trim to_lower_case same_text
is_wrong = refl

login_refused_example :
    let keys = login_keys auth (normalize_email (text "ann@site.vn")) client in
    let wait = longest_wait runtime empty_store 100000 keys in
    login runtime auth codec wrong_login client 100000 draws empty_store ≡ (
      if nat_eq wait 0
      then (
        err (unauthorized invalid_credentials),
        (record_failure runtime keys 100000 empty_store).1,
      )
      else (err (too_many_requests ((wait + 999) / 1000)), empty_store))
login_refused_example =
    login_refused runtime auth codec wrong_login client 100000 draws empty_store is_wrong

abbrev actor : AuthenticatedActor
actor = record { id = 1; roles = renter ∷ []; status = active; session_id = 5 }

abbrev new_password : ChangePasswordInput
new_password = record { current_password = text "old-hash"; new_password = text "new-hash" }

abbrev tokens : AuthSessionTokens
tokens = token_pair auth codec 1 21 (sign_refresh auth codec 1 21 22 100000 24) 100000 23

changes :
    (change_password runtime auth codec actor new_password client [] 90000 draws empty_store).0
    ≡ ok tokens
unfolding change_password require_user find_by_id find_one find_where create create_session
    exists_where revoke_sessions_for_user update_sessions update_where update_password update_users
changes = refl

change_password_lem_example :
    let after =
      (change_password runtime auth codec actor new_password client [] 90000 draws empty_store).1 in
    (user : IdentityUser) × (find_by_id 1 empty_store ≡ some user)
    × (verifies runtime auth codec (text "old-hash") user ≡ true)
    × (verifies runtime auth codec (text "new-hash") user ≡ false)
    × (find_by_id 1 after ≡ some (record user { password_hash = some (text "new-hash") }))
    × (is_session_active 5 1 150000 after ≡ false)
    × (is_session_active 21 1 150000 after ≡ true)
change_password_lem_example =
    change_password_lem runtime auth codec actor new_password client [] 90000 draws empty_store
      tokens 5 150000 changes refl (omega arith)

abbrev reset_token : PasswordResetToken
reset_token = record {
  user_id = 1;
  challenge_id = 10;
  token_hash = hash_reset_token runtime (text "secret");
  context_hash = hash_recovery_context runtime client;
  expires_at = 200000;
  consumed_at = none;
}

abbrev reset_store : Store
reset_store = record empty_store { reset_tokens = reset_token ∷ [] }

abbrev completion : RecoveryReset
completion = record {
  reset_token = text "secret";
  new_password = text "new-hash";
  confirm_password = text "new-hash";
}

completes :
    (complete_password_recovery runtime auth completion client [] 100000 reset_store).0
    ≡ ok (text "ann@site.vn")
unfolding complete_password_recovery find_password_reset_token find_where same_text find_by_id
    find_one reset_password_with_token reset_found reset_with count_where hash_reset_token
    hash_recovery_context device_key trim
completes = refl

complete_password_recovery_lem_example :
    let after =
      (complete_password_recovery runtime auth completion client [] 100000 reset_store).1 in
    let hash = hash_reset_token runtime (text "secret") in
    (t : PasswordResetToken) × (find_password_reset_token hash reset_store ≡ some t)
    × (t.consumed_at ≡ none)
    × (ltb 100000 t.expires_at ≡ true)
    × (t.context_hash ≡ hash_recovery_context runtime client)
    × (find_password_reset_token hash after ≡ some (record t { consumed_at = some 100000 }))
    × All (λ u. can_reset t.user_id u ≡ true → u.password_hash ≡ some (text "new-hash")) after.users
    × (is_session_active 5 t.user_id 150000 after ≡ false)
complete_password_recovery_lem_example =
    complete_password_recovery_lem runtime auth completion client [] 100000 reset_store
      (text "ann@site.vn") 5 150000 completes

complete_password_recovery_twice_example :
    let after =
      (complete_password_recovery runtime auth completion client [] 100000 reset_store).1 in
    complete_password_recovery runtime auth completion client [] 110000 after ≡ (
      err (
          if text "new-hash" == text "new-hash"
          then unauthorized password_reset_token_invalid
          else bad_request password_confirmation_mismatch),
      after,
    )
complete_password_recovery_twice_example =
    complete_password_recovery_twice runtime auth completion completion client client [] [] 100000
      110000 reset_store (text "ann@site.vn") completes refl

e164_test : is_e164_phone (text "+84901234567") ≡ true
unfolding is_e164_phone
e164_test = refl

password_test : is_special_password (text "Secret1") ≡ false
unfolding is_special_password is_new_password
password_test = refl

otp_code_lem_example :
    let code = otp_code runtime registration in
    (is_otp_code (code 41) ≡ true)
    × (value_from 0 (code 41) ≡ code_number runtime registration 41)
    × (code 41 ≡ code 42
        ↔ code_number runtime registration 41 ≡ code_number runtime registration 42)
otp_code_lem_example = otp_code_lem runtime registration 41 42
