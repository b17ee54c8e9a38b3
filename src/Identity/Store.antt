-- ===== src/Identity/Store.antt =====
-- The tables that libs/identity keeps, as its repository reads and writes them
-- (libs/identity/src/persistence/identity.repository.ts, postgres-identity.repository.ts). A date
-- is a number of milliseconds, a uuid a number, a digest the number that its hex digits spell.
use smart_platform_services.Common.{ℕ, Bool, Option, List, Text}
use smart_platform_services.Identity.Contracts.{ActorRole, ActorStatus, SocialProvider, OtpPurpose}

pub record IdentityUser : Type 0 where
  pub id : ℕ
  pub email : Option Text
  pub phone : Option Text
  pub password_hash : Option Text
  pub display_name : Option Text
  pub status : ActorStatus
  pub roles : List ActorRole
  pub phone_login_enabled : Bool
  pub deleted_at : Option ℕ
  pub last_login_at : Option ℕ
  pub email_verified_at : Option ℕ
  pub phone_verified_at : Option ℕ

pub record SocialIdentity : Type 0 where
  pub user_id : ℕ
  pub provider : SocialProvider
  pub provider_subject : Text

pub record OtpChallenge : Type 0 where
  pub id : ℕ
  pub email : Option Text
  pub phone : Option Text
  pub purpose : OtpPurpose
  pub code_hash : ℕ
  pub attempt_count : ℕ
  pub max_attempts : ℕ
  pub expires_at : ℕ
  pub consumed_at : Option ℕ
  pub created_at : ℕ
  pub verified_at : Option ℕ

pub record PasswordResetToken : Type 0 where
  pub user_id : ℕ
  pub challenge_id : ℕ
  pub token_hash : ℕ
  pub context_hash : ℕ
  pub expires_at : ℕ
  pub consumed_at : Option ℕ

pub data AuditEvent : Type 0 where
  recovery_requested recovery_resent recovery_verify_failed recovery_verified : AuditEvent
  recovery_reset recovery_sessions_revoked : AuditEvent

pub data AuditOutcome : Type 0 where
  cooldown accepted queued no_outcome : AuditOutcome

pub record RecoveryAudit : Type 0 where
  pub event_type : AuditEvent
  pub user_id : Option ℕ
  pub masked_email : Text
  pub occurred_at : ℕ
  pub ip_address : Option Text
  pub user_agent : Option Text
  pub outcome : AuditOutcome

pub data OutboxEventType : Type 0 where
  registration_email password_recovery_email : OutboxEventType

pub record OutboxEvent : Type 0 where
  pub id : ℕ
  pub aggregate_id : ℕ
  pub event_type : OutboxEventType
  pub email : Text
  pub occurred_at : ℕ
  pub next_attempt_at : ℕ
  pub published_at : Option ℕ
  pub superseded_at : Option ℕ
  pub locked_at : Option ℕ
  pub lock_token : Option ℕ
  pub attempt_count : ℕ
  pub created_at : ℕ

pub data RevokeReason : Type 0 where
  rotated expired refresh_reuse logged_out logout_all : RevokeReason
  password_was_reset password_change account_not_active : RevokeReason

pub record AuthSession : Type 0 where
  pub id : ℕ
  pub family_id : ℕ
  pub user_id : ℕ
  pub refresh_token_hash : ℕ
  pub expires_at : ℕ
  pub ip_address : Option Text
  pub user_agent : Option Text
  pub revoked_at : Option ℕ
  pub revoke_reason : Option RevokeReason
  pub replaced_by_session_id : Option ℕ
  pub last_used_at : Option ℕ

pub record ThrottleBucket : Type 0 where
  pub scope : Text
  pub key_hash : ℕ
  pub window_started_at : ℕ
  pub attempt_count : ℕ
  pub blocked_until : Option ℕ

-- The database, and the value of its `now()` in the transaction that runs.
pub record Store : Type 0 where
  pub clock : ℕ
  pub users : List IdentityUser
  pub social_identities : List SocialIdentity
  pub challenges : List OtpChallenge
  pub reset_tokens : List PasswordResetToken
  pub sessions : List AuthSession
  pub throttles : List ThrottleBucket
  pub outbox : List OutboxEvent
  pub audits : List RecoveryAudit
