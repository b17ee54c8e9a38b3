-- ===== src/Identity/Auth.antt =====
-- The private helpers of libs/identity/src/services/auth.service.ts, and
-- libs/identity/src/services/recovery-otp-code.service.ts.
pub mod SignIn
pub mod Admission
pub mod Signup
pub mod Verification
pub mod Recovery
pub mod NewPassword
pub mod Legacy
pub mod Disabled
pub mod Refusal
pub mod Requests
pub mod Sessions
pub mod Completion
pub mod Codes
use smart_platform_services.Common.{
  ℕ, ◌+◌, ◌-◌, ◌*◌, ◌/◌, ◌%◌, min, max, Bool, true, false, ◌&&◌, Option, none, some, List, [], ◌∷◌,
  ◌++◌, Text, text, ltb, if◌then◌else◌, ◌==◌, nat_Eq, length, split, slice, stars, decimal, trim,
  to_lower_case, or_null, is_truthy,
}
use smart_platform_services.Identity.Contracts.{
  OtpPurpose, registration, login, password_reset, active, status_Eq, service_unavailable,
  legacy_phone_auth_disabled,
}
use smart_platform_services.Identity.Exec.{Exec, require, ok, err}
use smart_platform_services.Identity.Reset.{record_recovery_audit}
use smart_platform_services.Identity.Runtime.{
  Runtime, SessionClientContext, AuthConfig, ThrottlePolicy, ThrottleKey,
}
use smart_platform_services.Identity.Store.{
  Store, IdentityUser, OtpChallenge, AuditEvent, AuditOutcome, RecoveryAudit,
}

abbrev pub purpose_text : OtpPurpose → Text
purpose_text registration = text "registration"
purpose_text login = text "login"
purpose_text password_reset = text "password_reset"

unfoldable pub normalize_email : Text → Text
normalize_email email = to_lower_case (trim email)

unfoldable pub normalize_phone : Text → Text
normalize_phone phone = trim phone

abbrev first_part : List Text → Text
first_part [] = []
first_part (local ∷ rest) = local

-- `undefined` in a template is spelled out.
abbrev second_part : List Text → Text
second_part (local ∷ domain ∷ rest) = domain
second_part _ = text "undefined"

unfoldable pub mask_email : Text → Text
mask_email email =
    let local = first_part (split b'@' email) in
    let domain = second_part (split b'@' email) in
    let visible = slice (min 2 (length local)) local in
    visible ++ (stars (max 1 (length local - length visible)) ++ (b'@' ∷ domain))

-- How many whole seconds of the cooldown are left: `cooldown - Math.floor((now - created) / 1000)`
abbrev pub remaining_seconds : ℕ → ℕ → ℕ → ℕ
remaining_seconds cooldown created now =
    if ltb now created
    then cooldown + (created - now + 999) / 1000
    else cooldown - (now - created) / 1000

-- `Math.max(1, Math.ceil((expires - now) / 1000))`
abbrev pub seconds_left : ℕ → ℕ → ℕ
seconds_left expires now = max 1 ((expires - now + 999) / 1000)

-- `user?.status === 'active' && Boolean(user.passwordHash)`
abbrev pub is_eligible : Option IdentityUser → Bool
is_eligible none = false
is_eligible (some user) = user.status == active && is_truthy user.password_hash

abbrev pub id_of : Option IdentityUser → Option ℕ
id_of none = none
id_of (some user) = some user.id

abbrev or_unknown : Option Text → Text
or_unknown none = text "unknown"
or_unknown (some s) = s

abbrev trimmed : Option Text → Option Text
trimmed none = none
trimmed (some s) = or_null (trim s)

abbrev or_else : Option Text → Text → Text
or_else none b = b
or_else (some a) b = a

unfoldable pub device_key : SessionClientContext → Text
device_key context =
    or_else (trimmed context.device_id)
      (or_unknown context.ip_address ++ (b':' ∷ or_unknown context.user_agent))

-- `compactKeys` with the key of the address, which is left out when there is none.
abbrev pub with_ip : Option Text → (Text → ThrottleKey) → List ThrottleKey → List ThrottleKey
with_ip none key keys = keys
with_ip (some []) key keys = keys
with_ip (some (c ∷ s)) key keys = key (c ∷ s) ∷ keys

abbrev pub minutes : ℕ → ℕ
minutes n = n * 60000

abbrev limited : ThrottlePolicy → ℕ → ThrottlePolicy
limited policy n = record policy { limit = n }

abbrev pub fixed_policy : ℕ → ℕ → ThrottlePolicy
fixed_policy limit n = record { limit = limit; window_ms = minutes n; block_ms = minutes n }

abbrev key_of : Text → ThrottlePolicy → Text → ThrottleKey
key_of scope policy value = record { scope = scope; value = value; policy = policy }

unfoldable pub otp_verify_keys : Text → SessionClientContext → List ThrottleKey
otp_verify_keys email context =
    let policy = fixed_policy 10 15 in
    key_of (text "otp_verify_email") policy email
    ∷ with_ip context.ip_address (key_of (text "otp_verify_ip") policy)
        (key_of (text "otp_verify_device") policy (device_key context) ∷ [])

unfoldable pub legacy_otp_request_keys : Text → Option Text → List ThrottleKey
legacy_otp_request_keys phone ip_address =
    key_of (text "otp_request_phone") (fixed_policy 3 15) phone
    ∷ with_ip ip_address (key_of (text "otp_request_ip") (fixed_policy 20 60)) []

unfoldable pub legacy_otp_verify_keys : Text → Option Text → List ThrottleKey
legacy_otp_verify_keys phone ip_address =
    key_of (text "otp_verify_phone") (fixed_policy 10 15) phone
    ∷ with_ip ip_address (key_of (text "otp_verify_ip") (fixed_policy 10 15)) []

module _ (a : AuthConfig) where
  unfoldable pub login_keys : Text → SessionClientContext → List ThrottleKey
  login_keys email context =
      let policy : ThrottlePolicy = record {
        limit = a.login_failure_limit;
        window_ms = a.login_window_seconds * 1000;
        block_ms = a.login_lock_seconds * 1000;
      } in
      key_of (text "login_email") policy email
      ∷ with_ip context.ip_address (key_of (text "login_ip") (limited policy a.login_abuse_limit)) (
          key_of (text "login_device") (limited policy a.login_abuse_limit) (device_key context)
          ∷ [])

  unfoldable pub otp_request_keys : Text → SessionClientContext → List ThrottleKey
  otp_request_keys email context =
      let policy = fixed_policy a.otp_request_limit_per_hour 60 in
      key_of (text "otp_request_email") policy email
      ∷ with_ip context.ip_address
          (key_of (text "otp_request_ip") (limited policy a.otp_ip_limit_per_hour))
          (key_of (text "otp_request_device") (limited policy a.otp_device_limit_per_hour)
              (device_key context)
            ∷ [])

  unfoldable pub password_recovery_request_keys : Text → SessionClientContext → List ThrottleKey
  password_recovery_request_keys email context =
      let email_policy : ThrottlePolicy = record {
        limit = a.password_recovery_email_limit;
        window_ms = a.password_recovery_email_window_seconds * 1000;
        block_ms = a.password_recovery_email_window_seconds * 1000;
      } in
      let abuse_policy : ThrottlePolicy = record {
        limit = a.password_recovery_ip_limit;
        window_ms = a.password_recovery_ip_window_seconds * 1000;
        block_ms = a.password_recovery_ip_window_seconds * 1000;
      } in
      key_of (text "password_recovery_email") email_policy email
      ∷ with_ip context.ip_address (key_of (text "password_recovery_ip") abuse_policy) (
          key_of (text "password_recovery_device")
            (limited abuse_policy a.password_recovery_device_limit) (device_key context)
          ∷ [])

  unfoldable pub assert_legacy_phone_flows_enabled : Exec Store Unit
  assert_legacy_phone_flows_enabled =
      require a.legacy_phone_flows_enabled (service_unavailable legacy_phone_auth_disabled)

module _ (r : Runtime) where
  unfoldable pub hash_otp : Text → OtpPurpose → Text → ℕ
  hash_otp recipient purpose code =
      r.hmac (purpose_text purpose ++ (b':' ∷ (recipient ++ (b':' ∷ code))))

  unfoldable pub otp_matches : Text → OtpPurpose → Text → ℕ → Bool
  otp_matches recipient purpose code expected_hash =
      hash_otp recipient purpose code == expected_hash

  unfoldable pub hash_reset_token : Text → ℕ
  hash_reset_token token = r.hmac (text "password_reset_token:" ++ token)

  unfoldable pub hash_recovery_context : SessionClientContext → ℕ
  hash_recovery_context context = r.hmac (text "password_reset_context:" ++ device_key context)

  -- `forPurpose` of RecoveryOtpCodeService. The word has 32 bits, so that ten digits are enough.
  unfoldable pub otp_code : OtpPurpose → ℕ → Text
  otp_code purpose challenge_id =
      let word = r.hmac_word (purpose_text purpose ++ (b':' ∷ r.uuid_text challenge_id)) in
      decimal 10 (100000 + word % 900000)

-- `auditRecovery`
abbrev pub recovery_audit :
    AuditEvent → Option ℕ → Text → SessionClientContext → ℕ → AuditOutcome → RecoveryAudit
recovery_audit event_type user_id email context occurred_at outcome = record {
  event_type = event_type;
  user_id = user_id;
  masked_email = mask_email email;
  occurred_at = occurred_at;
  ip_address = context.ip_address;
  user_agent = context.user_agent;
  outcome = outcome;
}

unfoldable pub audit_recovery :
    AuditEvent → Option ℕ → Text → SessionClientContext → ℕ → AuditOutcome → Store → Store
audit_recovery event_type user_id email context occurred_at outcome =
    record_recovery_audit (recovery_audit event_type user_id email context occurred_at outcome)
