-- ===== src/Identity/Auth/Recovery.antt =====
-- requestPasswordRecovery and verifyPasswordRecovery of
-- libs/identity/src/services/auth.service.ts.
use smart_platform_services.Common.{
  ℕ, ◌+◌, ◌*◌, min, max, Bool, true, false, ◌&&◌, Option, none, some, List, Text, ltb,
  if◌then◌else◌, ◌==◌, nat_Eq, text_Eq, is_none,
}
use smart_platform_services.Identity.Contracts.{
  password_reset, status_Eq, unauthorized, password_recovery_otp_invalid,
}
use smart_platform_services.Identity.Exec.{Exec, pure, throw, gets, modify, require, ◌>>=◌, ◌>>◌}
use smart_platform_services.Identity.Otp.{
  by_email, NewChallenge, find_otp_challenge, record_otp_failure,
}
use smart_platform_services.Identity.Otp.Replace.{OutboxInput, replace_password_recovery_challenge}
use smart_platform_services.Identity.Reset.{IssueToken, issue_password_reset_token}
use smart_platform_services.Identity.Runtime.{
  Runtime, SessionClientContext, AuthConfig, ThrottleKey,
}
use smart_platform_services.Identity.Store.{
  Store, IdentityUser, OtpChallenge, recovery_requested, recovery_resent, recovery_verify_failed,
  recovery_verified, cooldown, accepted, queued, no_outcome, AuditEvent,
}
use smart_platform_services.Identity.Throttle.{assert_allowed, record_failure, clear}
use smart_platform_services.Identity.Users.{find_by_email}
use smart_platform_services.Identity.Auth.{
  normalize_email, remaining_seconds, is_eligible, id_of, password_recovery_request_keys,
  otp_verify_keys, hash_otp, otp_matches, otp_code, hash_reset_token, hash_recovery_context,
  recovery_audit, audit_recovery,
}

pub record PasswordRecoveryAcceptedResponse : Type 0 where
  pub challenge_id : ℕ
  pub expires_in_seconds : ℕ
  pub resend_after_seconds : ℕ

pub record PasswordRecoveryVerifiedResponse : Type 0 where
  pub reset_token : Text
  pub expires_in_seconds : ℕ

-- `PasswordRecoveryVerifyDto`
pub record RecoveryVerify : Type 0 where
  pub email : Text
  pub challenge_id : ℕ
  pub code : Text

-- What `requestPasswordRecovery` draws from `randomUUID()`.
pub record RecoveryDraws : Type 0 where
  pub now : ℕ
  pub challenge_id : ℕ
  pub outbox_id : ℕ

module _ (r : Runtime) (a : AuthConfig) where
  abbrev pub password_recovery_accepted : ℕ → ℕ → PasswordRecoveryAcceptedResponse
  password_recovery_accepted challenge_id resend_after = record {
    challenge_id = challenge_id;
    expires_in_seconds = a.otp_ttl_seconds;
    resend_after_seconds = max 1 (min a.otp_resend_cooldown_seconds resend_after);
  }

  abbrev pub new_recovery : Text → RecoveryDraws → NewChallenge
  new_recovery email d = record {
    id = d.challenge_id;
    email = some email;
    phone = none;
    purpose = password_reset;
    code_hash = hash_otp r email password_reset (otp_code r password_reset d.challenge_id);
    max_attempts = a.otp_max_attempts;
    expires_at = d.now + a.otp_ttl_seconds * 1000;
  }

  abbrev pub recovery_mail : Bool → Text → RecoveryDraws → Option OutboxInput
  recovery_mail false email d = none
  recovery_mail true email d = some (record {
    id = d.outbox_id;
    challenge_id = d.challenge_id;
    email = email;
    occurred_at = d.now;
  })

  abbrev requested_event : Option OtpChallenge → AuditEvent
  requested_event none = recovery_requested
  requested_event (some current) = recovery_resent

  -- The audit row of a request that stored a challenge.
  unfoldable pub audit_request :
      Option IdentityUser → Option OtpChallenge → Text → SessionClientContext → ℕ → Store → Store
  audit_request user current email context now =
      if is_eligible user
      then audit_recovery (requested_event current) (id_of user) email context now queued
      else audit_recovery recovery_requested none email context now accepted

  unfoldable pub open_recovery :
      Option IdentityUser
      → Option OtpChallenge
      → Text
      → SessionClientContext
      → RecoveryDraws
      → Exec Store PasswordRecoveryAcceptedResponse
  open_recovery user current email context d = do
    replace_password_recovery_challenge (new_recovery email d)
        (recovery_mail (is_eligible user) email d)
    modify (audit_request user current email context d.now)
    pure (password_recovery_accepted d.challenge_id a.otp_resend_cooldown_seconds)

  unfoldable pub proceed_recovery :
      Option IdentityUser
      → Option OtpChallenge
      → Text
      → SessionClientContext
      → RecoveryDraws
      → Exec Store PasswordRecoveryAcceptedResponse
  proceed_recovery user none email context d = open_recovery user none email context d
  proceed_recovery user (some current) email context d =
      let remaining = remaining_seconds a.otp_resend_cooldown_seconds current.created_at d.now in
      if ltb 0 remaining
      then (do
        modify (audit_recovery recovery_requested (id_of user) email context d.now cooldown)
        pure (password_recovery_accepted current.id remaining))
      else open_recovery user (some current) email context d

  unfoldable pub request_password_recovery :
      Text → SessionClientContext → RecoveryDraws → Exec Store PasswordRecoveryAcceptedResponse
  request_password_recovery raw_email context d =
      let email = normalize_email raw_email in
      let keys = password_recovery_request_keys a email context in
      do
        assert_allowed r keys d.now
        record_failure r keys d.now
        user ← gets (find_by_email email)
        current ← gets (find_otp_challenge (by_email email) password_reset)
        proceed_recovery user current email context d

  abbrev pub accepts_recovery_code : RecoveryVerify → Text → ℕ → OtpChallenge → Bool
  accepts_recovery_code input email now c =
      c.id == input.challenge_id
      && is_none c.consumed_at
      && ltb now c.expires_at
      && ltb c.attempt_count c.max_attempts
      && otp_matches r email password_reset input.code c.code_hash

  abbrev count_recovery_failure : Option OtpChallenge → RecoveryVerify → Store → Store
  count_recovery_failure none input store = store
  count_recovery_failure (some c) input store =
      if c.id == input.challenge_id && ltb c.attempt_count c.max_attempts
      then record_otp_failure c.id store
      else store

  unfoldable pub refuse_recovery_code :
      Option OtpChallenge
      → Option IdentityUser
      → RecoveryVerify
      → Text
      → List ThrottleKey
      → SessionClientContext
      → ℕ
      → Exec Store PasswordRecoveryVerifiedResponse
  refuse_recovery_code challenge user input email keys context now = do
    modify (count_recovery_failure challenge input)
    record_failure r keys now
    modify (audit_recovery recovery_verify_failed (id_of user) email context now no_outcome)
    throw (unauthorized password_recovery_otp_invalid)

  abbrev pub exchange_of :
      OtpChallenge → IdentityUser → Text → Text → SessionClientContext → ℕ → IssueToken
  exchange_of c user email token context now = record {
    challenge_id = c.id;
    user_id = user.id;
    email = email;
    code_hash = c.code_hash;
    token_hash = hash_reset_token r token;
    context_hash = hash_recovery_context r context;
    expires_at = now + a.reset_token_ttl_seconds * 1000;
    issued_at = now;
    audit = recovery_audit recovery_verified (some user.id) email context now no_outcome;
  }

  unfoldable pub exchange_code :
      OtpChallenge
      → IdentityUser
      → Text
      → List ThrottleKey
      → Text
      → SessionClientContext
      → ℕ
      → Exec Store PasswordRecoveryVerifiedResponse
  exchange_code c user email keys token context now = do
    issued ← issue_password_reset_token (exchange_of c user email token context now)
    require issued (unauthorized password_recovery_otp_invalid)
    modify (clear r keys)
    pure (record { reset_token = token; expires_in_seconds = a.reset_token_ttl_seconds })

  unfoldable pub verify_recovery_challenge :
      Option OtpChallenge
      → Option IdentityUser
      → RecoveryVerify
      → Text
      → List ThrottleKey
      → Text
      → SessionClientContext
      → ℕ
      → Exec Store PasswordRecoveryVerifiedResponse
  verify_recovery_challenge (some c) (some user) input email keys token context now =
      if is_eligible (some user) && accepts_recovery_code input email now c
      then exchange_code c user email keys token context now
      else refuse_recovery_code (some c) (some user) input email keys context now
  verify_recovery_challenge challenge user input email keys token context now =
      refuse_recovery_code challenge user input email keys context now

  -- `verifyPasswordRecovery`; `token` is the text of `randomBytes(32)`.
  unfoldable pub verify_password_recovery :
      RecoveryVerify → SessionClientContext → Text → ℕ → Exec Store PasswordRecoveryVerifiedResponse
  verify_password_recovery input context token now =
      let email = normalize_email input.email in
      let keys = otp_verify_keys email context in
      do
        assert_allowed r keys now
        challenge ← gets (find_otp_challenge (by_email email) password_reset)
        user ← gets (find_by_email email)
        verify_recovery_challenge challenge user input email keys token context now
