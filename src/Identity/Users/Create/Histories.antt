-- ===== src/Identity/Users/Create/Histories.antt =====
-- Histories of the statements that write accounts, the reset of a password among them.
use smart_platform_services.Common.{
  not, ℕ, refl, inl, inr, Option, List, [], ◌∷◌, Text, ◌==◌, nat_Eq, text_Eq, Bool-cases,
  Option-cases, is_some, leb, ◌||◌, count_where,
}
use smart_platform_services.Identity.Contracts.{provider_Eq}
use smart_platform_services.Identity.Store.{Store, PasswordResetToken}
use smart_platform_services.Identity.Users.{
  update_users, activate_phone, update_password, mark_login, update_renter_profile,
}
use smart_platform_services.Identity.Reset.{
  ResetPassword, reset_password_with_token, reset_found, reset_with, find_password_reset_token,
  can_reset, set_password, record_recovery_audit,
}
use smart_platform_services.Identity.Otp.{updated_exactly_one_row}
use smart_platform_services.Identity.Session.{revoke_sessions_for_user, update_sessions}
use smart_platform_services.Identity.Users.Create.{
  NewPhoneUser, create_phone_user, CompleteEmailSignup, complete_email_signup, NewSocialUser,
  create_social_user,
}
use smart_platform_services.Identity.Users.Create.Unique.{
  AreDistinct, Accounts, update-AreDistinct, create_phone_user-Accounts,
  complete_email_signup-Accounts, create_social_user-Accounts, update_renter_profile-Accounts,
}

-- The statements that write accounts, with what the database draws.
pub data AccountStatement : Type 0 where
  create_phone : ℕ → NewPhoneUser → AccountStatement
  complete_signup : ℕ → CompleteEmailSignup → AccountStatement
  create_social : ℕ → NewSocialUser → AccountStatement
  activate : ℕ → ℕ → AccountStatement
  set_password_hash : ℕ → Text → AccountStatement
  sign_in : ℕ → ℕ → AccountStatement
  rename : ℕ → Text → Option Text → AccountStatement
  reset_password : ResetPassword → AccountStatement

unfoldable pub execute : AccountStatement → Store → Store
execute (create_phone id input) store = (create_phone_user id input store).1
execute (complete_signup id input) store = (complete_email_signup id input store).1
execute (create_social id input) store = (create_social_user id input store).1
execute (activate id at) store = activate_phone id at store
execute (set_password_hash id hash) store = update_password id hash store
execute (sign_in id at) store = mark_login id at store
execute (rename id name phone) store = (update_renter_profile id name phone store).1
execute (reset_password input) store = (reset_password_with_token input store).1

unfoldable pub execute_all : List AccountStatement → Store → Store
execute_all [] store = store
execute_all (statement ∷ statements) store = execute_all statements (execute statement store)

reset_with-Accounts :
    (input : ResetPassword) (token : PasswordResetToken) (store : Store)
    → Accounts store
    → Accounts (reset_with input token store).1
unfolding reset_with update_users revoke_sessions_for_user update_sessions record_recovery_audit
reset_with-Accounts input token store h =
    let written =
      update-AreDistinct (set_password input) (λ u. refl) (λ u. refl) (λ u. refl)
        (can_reset token.user_id) store.users h in
    elim (Bool-cases (
      is_some token.consumed_at
      || leb token.expires_at input.reset_at
      || not (token.context_hash == input.context_hash))) [
        | inl e ↦ rw e h
        | inr e ↦
            elim (Bool-cases
              (not (updated_exactly_one_row (count_where (can_reset token.user_id) store.users)))) [
                | inl f ↦ rw (e, f) written
                | inr f ↦ rw (e, f) written
              ]
      ]

reset-Accounts :
    (input : ResetPassword) (store : Store)
    → Accounts store
    → Accounts (reset_password_with_token input store).1
unfolding reset_password_with_token reset_found
reset-Accounts input store h =
    elim (Option-cases (find_password_reset_token input.token_hash store)) [
      | inl n ↦ rw n h
      | inr (token, f) ↦ rw f (reset_with-Accounts input token store h)
    ]

execute-Accounts :
    (statement : AccountStatement) (store : Store)
    → Accounts store
    → Accounts (execute statement store)
unfolding execute activate_phone update_password mark_login update_users
execute-Accounts (create_phone id input) store h = create_phone_user-Accounts id input store h
execute-Accounts (complete_signup id input) store h =
    complete_email_signup-Accounts id input store h
execute-Accounts (create_social id input) store h = create_social_user-Accounts id input store h
execute-Accounts (activate id at) store h =
    update-AreDistinct _ (λ u. refl) (λ u. refl) (λ u. refl) _ store.users h
execute-Accounts (set_password_hash id hash) store h =
    update-AreDistinct _ (λ u. refl) (λ u. refl) (λ u. refl) _ store.users h
execute-Accounts (sign_in id at) store h =
    update-AreDistinct _ (λ u. refl) (λ u. refl) (λ u. refl) _ store.users h
execute-Accounts (rename id name phone) store h =
    update_renter_profile-Accounts id name phone store h
execute-Accounts (reset_password input) store h = reset-Accounts input store h

-- After any statements on accounts, in any order and with any outcome, no two accounts have the same id,
-- and no two that are not deleted have the same address in lower case, if it was so before.
pub execute_all-AreDistinct :
    (statements : List AccountStatement) (store : Store)
    → AreDistinct store.users
    → AreDistinct (execute_all statements store).users
unfolding execute_all
execute_all-AreDistinct [] store h = h
execute_all-AreDistinct (statement ∷ statements) store h =
    execute_all-AreDistinct statements (execute statement store)
      (execute-Accounts statement store h)
