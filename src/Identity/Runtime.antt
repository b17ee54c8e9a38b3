-- ===== src/Identity/Runtime.antt =====
-- What the services take from the platform and from their configuration: the digests of
-- node:crypto, the password hash, and the policy numbers that the constructors read.
use smart_platform_services.Common.{ℕ, Bool, Option, Text}

pub record Runtime : Type 0 where
  -- `createHmac('sha256', auth.otpHashSecret).update(text).digest('hex')`
  pub hmac : Text → ℕ
  -- `createHash('sha256').update(text).digest('hex')`
  pub sha256 : Text → ℕ
  -- `createHmac('sha256', auth.otpHashSecret).update(text).digest().readUInt32BE(0)`
  pub hmac_word : Text → ℕ
  -- How a uuid is spelled in a text.
  pub uuid_text : ℕ → Text
  -- `scrypt(password, salt, …)` as `PasswordHasherService.hash` encodes it, and `verify`.
  pub scrypt_hash : Text → Text → Text
  pub scrypt_verify : Text → Text → Bool

-- `ThrottlePolicy` of identity.repository.ts
pub record ThrottlePolicy : Type 0 where
  pub limit : ℕ
  pub window_ms : ℕ
  pub block_ms : ℕ

-- `ThrottleKey` of rate-limiter.service.ts
pub record ThrottleKey : Type 0 where
  pub scope : Text
  pub value : Text
  pub policy : ThrottlePolicy

-- `SessionClientContext` of jwt-session.service.ts
pub record SessionClientContext : Type 0 where
  pub ip_address : Option Text
  pub user_agent : Option Text
  pub device_id : Option Text

-- The `auth` section of the configuration (libs/common/src/config/environment.ts). The
-- functions `hmac` and `hmac_word` are those with its `otp_hash_secret`.
pub record AuthConfig : Type 0 where
  pub jwt_access_secret : Text
  pub jwt_refresh_secret : Text
  pub jwt_issuer : Text
  pub access_ttl_seconds : ℕ
  pub refresh_ttl_seconds : ℕ
  pub otp_hash_secret : Text
  pub otp_ttl_seconds : ℕ
  pub otp_max_attempts : ℕ
  pub otp_resend_cooldown_seconds : ℕ
  pub otp_request_limit_per_hour : ℕ
  pub otp_ip_limit_per_hour : ℕ
  pub otp_device_limit_per_hour : ℕ
  pub login_failure_limit : ℕ
  pub login_abuse_limit : ℕ
  pub login_window_seconds : ℕ
  pub login_lock_seconds : ℕ
  pub password_recovery_email_limit : ℕ
  pub password_recovery_email_window_seconds : ℕ
  pub password_recovery_ip_limit : ℕ
  pub password_recovery_ip_window_seconds : ℕ
  pub password_recovery_device_limit : ℕ
  pub reset_token_ttl_seconds : ℕ
  pub legacy_phone_flows_enabled : Bool
