-- ===== src/Identity/Reset.antt =====
-- The password-reset statements of libs/identity/src/persistence/postgres-identity.repository.ts,
-- with the unique keys of password_reset_tokens
-- (database/migrations/1700000003000-password-recovery.ts).
pub mod SingleUse
pub mod Issue
use smart_platform_services.Common.{
  ℕ, Bool, true, false, ◌&&◌, ◌||◌, not, Option, none, some, List, ◌∷◌, Text, ltb, leb,
  if◌then◌else◌, ◌==◌, nat_Eq, text_Eq, holds, is_none, is_some, find_where, exists_where,
  update_where, count_where, to_lower_case,
}
use smart_platform_services.Identity.Contracts.{
  password_reset, purpose_Eq, active, status_Eq, unique_violation, uq_password_reset_tokens_hash,
  uq_password_reset_tokens_challenge,
}
use smart_platform_services.Identity.Exec.{Exec, ok, err, pure, modify, transaction, ◌>>◌}
use smart_platform_services.Identity.Otp.{updated_exactly_one_row}
use smart_platform_services.Identity.Session.{revoke_sessions_for_user}
use smart_platform_services.Identity.Store.{
  Store, IdentityUser, OtpChallenge, PasswordResetToken, RecoveryAudit, AuditEvent,
  recovery_verified, recovery_reset, recovery_sessions_revoked, password_was_reset,
}
use smart_platform_services.Identity.Users.{is_user, is_current, update_users}

-- `insertRecoveryAudit`
unfoldable pub record_recovery_audit : RecoveryAudit → Store → Store
record_recovery_audit input store = record store { audits = input ∷ store.audits }

pub record IssueToken : Type 0 where
  pub challenge_id : ℕ
  pub user_id : ℕ
  pub email : Text
  pub code_hash : ℕ
  pub token_hash : ℕ
  pub context_hash : ℕ
  pub expires_at : ℕ
  pub issued_at : ℕ
  pub audit : RecoveryAudit

-- The conditions of the join on the account: `lower(u.email) = lower(oc.email)` among them.
abbrev pub can_reset : ℕ → IdentityUser → Bool
can_reset id u = is_user id u && u.status == active && is_some u.password_hash && is_current u

abbrev same_address : Option Text → Option Text → Bool
same_address none b = false
same_address (some a) none = false
same_address (some a) (some b) = to_lower_case a == to_lower_case b

abbrev pub can_issue : IssueToken → List IdentityUser → OtpChallenge → Bool
can_issue input users oc =
    oc.id == input.challenge_id
    && holds oc.email input.email
    && oc.purpose == password_reset
    && oc.code_hash == input.code_hash
    && is_none oc.consumed_at
    && is_none oc.verified_at
    && ltb input.issued_at oc.expires_at
    && ltb oc.attempt_count oc.max_attempts
    && exists_where (λ u. can_reset input.user_id u && same_address u.email oc.email) users

abbrev pub token_row : IssueToken → PasswordResetToken
token_row input = record {
  user_id = input.user_id;
  challenge_id = input.challenge_id;
  token_hash = input.token_hash;
  context_hash = input.context_hash;
  expires_at = input.expires_at;
  consumed_at = none;
}

abbrev pub is_reset_token : ℕ → PasswordResetToken → Bool
is_reset_token hash t = t.token_hash == hash

abbrev pub is_token_of : ℕ → PasswordResetToken → Bool
is_token_of challenge t = t.challenge_id == challenge

unfoldable pub insert_token : PasswordResetToken → Exec Store Unit
insert_token row store =
    if exists_where (is_token_of row.challenge_id) store.reset_tokens
    then (err (unique_violation uq_password_reset_tokens_challenge), store)
    else if exists_where (is_reset_token row.token_hash) store.reset_tokens
    then (err (unique_violation uq_password_reset_tokens_hash), store)
    else (ok tt, record store { reset_tokens = row ∷ store.reset_tokens })

-- `UPDATE otp_challenges SET verified_at = $2, consumed_at = $2 WHERE id = $1`
unfoldable pub close_challenge : ℕ → ℕ → Store → Store
close_challenge id at store = record store {
  challenges =
      update_where (λ c. c.id == id)
        (λ c. record c { verified_at = some at; consumed_at = some at }) store.challenges;
}

unfoldable pub issue_transaction : IssueToken → Exec Store Bool
issue_transaction input store =
    if exists_where (can_issue input store.users) store.challenges
    then (do
      modify (close_challenge input.challenge_id input.issued_at)
      insert_token (token_row input)
      modify (
          record_recovery_audit
            (record (input.audit) { user_id = some input.user_id; event_type = recovery_verified }))
      pure true)
        store
    else (ok false, store)

unfoldable pub issue_password_reset_token : IssueToken → Exec Store Bool
issue_password_reset_token input = transaction (issue_transaction input)

unfoldable pub find_password_reset_token : ℕ → Store → Option PasswordResetToken
find_password_reset_token token_hash store =
    find_where (is_reset_token token_hash) store.reset_tokens

pub data PasswordResetResult : Type 0 where
  reset invalid : PasswordResetResult

pub record ResetPassword : Type 0 where
  pub token_hash : ℕ
  pub context_hash : ℕ
  pub password_hash : Text
  pub reset_at : ℕ
  pub audit : RecoveryAudit

-- The writes of a reset: the token is consumed, the account's sessions are revoked, and two audit
-- rows are added.
abbrev pub consume_token : ResetPassword → Store → Store
consume_token input store = record store {
  reset_tokens =
      update_where (is_reset_token input.token_hash)
        (λ t. record t { consumed_at = some input.reset_at }) store.reset_tokens;
}

abbrev pub audit_reset : ResetPassword → ℕ → AuditEvent → Store → Store
audit_reset input user event =
    record_recovery_audit (record (input.audit) { user_id = some user; event_type = event })

abbrev pub set_password : ResetPassword → IdentityUser → IdentityUser
set_password input u = record u { password_hash = some input.password_hash }

unfoldable pub reset_with : ResetPassword → PasswordResetToken → Store → PasswordResetResult × Store
reset_with input token store =
    if is_some token.consumed_at
      || leb token.expires_at input.reset_at
      || not (token.context_hash == input.context_hash)
    then (invalid, store)
    else (let updated = count_where (can_reset token.user_id) store.users in
        let store₁ = update_users (can_reset token.user_id) (set_password input) store in
        if not (updated_exactly_one_row updated)
        then (invalid, store₁)
        else (let store₂ = consume_token input store₁ in
            let store₃ =
              revoke_sessions_for_user token.user_id input.reset_at password_was_reset store₂ in
            let store₄ = audit_reset input token.user_id recovery_reset store₃ in
            (reset, audit_reset input token.user_id recovery_sessions_revoked store₄)))

unfoldable pub reset_found :
    ResetPassword → Option PasswordResetToken → Store → PasswordResetResult × Store
reset_found input none store = (invalid, store)
reset_found input (some token) store = reset_with input token store

-- Nothing in the transaction throws, so it commits on every branch.
unfoldable pub reset_password_with_token : ResetPassword → Store → PasswordResetResult × Store
reset_password_with_token input store =
    reset_found input (find_password_reset_token input.token_hash store) store
