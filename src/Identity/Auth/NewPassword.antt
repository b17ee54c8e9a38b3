-- ===== src/Identity/Auth/NewPassword.antt =====
-- completePasswordRecovery of libs/identity/src/services/auth.service.ts.
use smart_platform_services.Common.{
  ℕ, Bool, true, false, not, ◌&&◌, Option, none, some, Text, ltb, if◌then◌else◌, ◌==◌, nat_Eq,
  text_Eq, is_none, is_truthy,
}
use smart_platform_services.Identity.Contracts.{
  active, status_Eq, unauthorized, bad_request, password_reset_token_invalid,
  password_confirmation_mismatch, password_unchanged,
}
use smart_platform_services.Identity.Exec.{Exec, ok, pure, throw, gets, require, ◌>>=◌, ◌>>◌}
use smart_platform_services.Identity.Reset.{
  find_password_reset_token, PasswordResetResult, reset, invalid, ResetPassword,
  reset_password_with_token,
}
use smart_platform_services.Identity.Runtime.{Runtime, SessionClientContext, AuthConfig}
use smart_platform_services.Identity.Store.{
  Store, IdentityUser, PasswordResetToken, recovery_reset, no_outcome,
}
use smart_platform_services.Identity.Users.{find_by_id}
use smart_platform_services.Identity.Auth.{hash_reset_token, hash_recovery_context, recovery_audit}

-- `PasswordRecoveryResetDto`
pub record RecoveryReset : Type 0 where
  pub reset_token : Text
  pub new_password : Text
  pub confirm_password : Text

module _ (r : Runtime) (a : AuthConfig) where
  abbrev pub is_good_token : PasswordResetToken → SessionClientContext → ℕ → Bool
  is_good_token token context now =
      is_none token.consumed_at
      && ltb now token.expires_at
      && token.context_hash == hash_recovery_context r context

  abbrev pub require_token :
      Option PasswordResetToken → SessionClientContext → ℕ → Exec Store PasswordResetToken
  require_token none context now = throw (unauthorized password_reset_token_invalid)
  require_token (some token) context now =
      if is_good_token token context now
      then pure token
      else throw (unauthorized password_reset_token_invalid)

  -- The account of a token, with its address and its password's hash.
  abbrev pub account_with :
      IdentityUser → Option Text → Option Text → Exec Store (IdentityUser × (Text × Text))
  account_with user (some email) (some hash) =
      if is_truthy (some email) && is_truthy (some hash) && user.status == active
      then pure (user, (email, hash))
      else throw (unauthorized password_reset_token_invalid)
  account_with user _ _ = throw (unauthorized password_reset_token_invalid)

  abbrev pub require_account : Option IdentityUser → Exec Store (IdentityUser × (Text × Text))
  require_account none = throw (unauthorized password_reset_token_invalid)
  require_account (some user) = account_with user user.email user.password_hash

  abbrev pub is_reset : PasswordResetResult → Bool
  is_reset reset = true
  is_reset invalid = false

  abbrev pub reset_input :
      RecoveryReset → IdentityUser → Text → SessionClientContext → Text → ℕ → ResetPassword
  reset_input input user email context salt now = record {
    token_hash = hash_reset_token r input.reset_token;
    context_hash = hash_recovery_context r context;
    password_hash = r.scrypt_hash salt input.new_password;
    reset_at = now;
    audit = recovery_audit recovery_reset (some user.id) email context now no_outcome;
  }

  abbrev pub resetting : ResetPassword → Exec Store Bool
  resetting input store = (
    ok (is_reset (reset_password_with_token input store).0),
    (reset_password_with_token input store).1,
  )

  -- `completePasswordRecovery`: it answers with the account's address.
  unfoldable pub complete_password_recovery :
      RecoveryReset → SessionClientContext → Text → ℕ → Exec Store Text
  complete_password_recovery input context salt now = do
    require (input.new_password == input.confirm_password)
        (bad_request password_confirmation_mismatch)
    found ← gets (find_password_reset_token (hash_reset_token r input.reset_token))
    token ← require_token found context now
    owner ← gets (find_by_id token.user_id)
    account ← require_account owner
    require (not (r.scrypt_verify input.new_password account.1.1)) (bad_request password_unchanged)
    done ← resetting (reset_input input account.0 account.1.0 context salt now)
    require done (unauthorized password_reset_token_invalid)
    pure account.1.0
