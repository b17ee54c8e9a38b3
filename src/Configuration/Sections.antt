-- ===== src/Configuration/Sections.antt =====
-- libs/common/src/config/environment.ts: the configuration that is read from the environment.
use smart_platform_services.Common.{
  ℕ, Bool, not, Option, none, some, List, [], ◌∷◌, Text, text, if◌then◌else◌, text_Eq, trim, split,
  is_truthy, holds,
}
use smart_platform_services.Identity.Runtime.{AuthConfig}
use smart_platform_services.Configuration.{Environment, Reading, without_empty}

-- The sections of the configuration. A number is none when `Number` gives none.
pub record AppSection : Type 0 where
  pub environment : Text
  pub log_level : Text
  pub cors_origins : List Text
  pub renter_port : Option ℕ
  pub owner_port : Option ℕ
  pub admin_port : Option ℕ
  pub build_revision : Option Text

pub record DatabaseSection : Type 0 where
  pub host : Option Text
  pub port : Option ℕ
  pub name : Option Text
  pub user : Option Text
  pub password : Option Text
  pub ssl : Bool
  pub ssl_reject_unauthorized : Bool
  pub pool_size : Option ℕ
  pub run_migrations_on_startup : Bool

-- The keys of the `auth` section that the mail and SMS ports read, with `app.environment`.
pub record DeliverySection : Type 0 where
  pub environment : Text
  pub email_delivery_mode : Text
  pub brevo_api_key : Option Text
  pub brevo_sender_email : Option Text
  pub brevo_sender_name : Text
  pub otp_delivery_mode : Text
  pub legacy_phone_flows_enabled : Bool

infixl 5 ◌>>=◌
abbrev pub ◌>>=◌ {ℓ} : {A B : Type ℓ} → Option A → (A → Option B) → Option B
◌>>=◌ none f = none
◌>>=◌ (some a) f = f a

-- `value ?? fallback`
abbrev pub text_or : Option Text → Text → Text
text_or none fallback = fallback
text_or (some value) fallback = value

-- `Boolean` as a filter of texts.
abbrev pub nonempty : List Text → List Text
nonempty [] = []
nonempty (t ∷ ts) = if is_truthy (some t) then t ∷ nonempty ts else nonempty ts

abbrev pub trimmed : List Text → List Text
trimmed [] = []
trimmed (t ∷ ts) = trim t ∷ trimmed ts

unfoldable pub split_csv : Option Text → List Text
split_csv value = nonempty (trimmed (split b',' (text_or value [])))

abbrev pub is_text : Environment → Text → Text → Bool
is_text env key value = holds (env key) value

module _ (r : Reading) where
  -- `Number(process.env[key] ?? fallback)`
  unfoldable pub number_or : Environment → Text → ℕ → Option ℕ
  number_or env key fallback = elim (env key) [ none ↦ some fallback | some t ↦ r.number t ]

  unfoldable pub app_section : Environment → AppSection
  app_section env = record {
    environment = text_or (env (text "NODE_ENV")) (text "development");
    log_level = text_or (env (text "LOG_LEVEL")) (text "log");
    cors_origins = split_csv (env (text "CORS_ORIGINS"));
    renter_port = number_or env (text "RENTER_API_PORT") 3001;
    owner_port = number_or env (text "OWNER_API_PORT") 3002;
    admin_port = number_or env (text "ADMIN_API_PORT") 3003;
    build_revision = without_empty (env (text "RENDER_GIT_COMMIT"));
  }

  unfoldable pub database_section : Environment → DatabaseSection
  database_section env = record {
    host = env (text "DATABASE_HOST");
    port = number_or env (text "DATABASE_PORT") 5432;
    name = env (text "DATABASE_NAME");
    user = env (text "DATABASE_USER");
    password = env (text "DATABASE_PASSWORD");
    ssl = is_text env (text "DATABASE_SSL") (text "true");
    ssl_reject_unauthorized =
        not (is_text env (text "DATABASE_SSL_REJECT_UNAUTHORIZED") (text "false"));
    pool_size = number_or env (text "DATABASE_POOL_SIZE") 10;
    run_migrations_on_startup =
        is_text env (text "DATABASE_RUN_MIGRATIONS_ON_STARTUP") (text "true");
  }

  -- The auth section, or none when a secret is missing or a number is none.
  unfoldable pub auth_section : Environment → Option AuthConfig
  auth_section env = do
    access_secret ← env (text "JWT_ACCESS_SECRET")
    refresh_secret ← env (text "JWT_REFRESH_SECRET")
    access_ttl ← number_or env (text "JWT_ACCESS_TTL_SECONDS") 900
    refresh_ttl ← number_or env (text "JWT_REFRESH_TTL_SECONDS") 2592000
    otp_secret ← env (text "OTP_HASH_SECRET")
    otp_ttl ← number_or env (text "OTP_TTL_SECONDS") 600
    max_attempts ← number_or env (text "OTP_MAX_ATTEMPTS") 5
    cooldown ← number_or env (text "OTP_RESEND_COOLDOWN_SECONDS") 60
    request_limit ← number_or env (text "OTP_REQUEST_LIMIT_PER_HOUR") 5
    ip_limit ← number_or env (text "OTP_IP_LIMIT_PER_HOUR") 20
    device_limit ← number_or env (text "OTP_DEVICE_LIMIT_PER_HOUR") 20
    failure_limit ← number_or env (text "LOGIN_FAILURE_LIMIT") 5
    abuse_limit ← number_or env (text "LOGIN_ABUSE_LIMIT") 20
    login_window ← number_or env (text "LOGIN_WINDOW_SECONDS") 900
    login_lock ← number_or env (text "LOGIN_LOCK_SECONDS") 900
    recovery_limit ← number_or env (text "PASSWORD_RECOVERY_EMAIL_LIMIT") 5
    recovery_window ← number_or env (text "PASSWORD_RECOVERY_EMAIL_WINDOW_SECONDS") 900
    recovery_ip_limit ← number_or env (text "PASSWORD_RECOVERY_IP_LIMIT") 20
    recovery_ip_window ← number_or env (text "PASSWORD_RECOVERY_IP_WINDOW_SECONDS") 3600
    recovery_device_limit ← number_or env (text "PASSWORD_RECOVERY_DEVICE_LIMIT") 20
    reset_ttl ← number_or env (text "RESET_TOKEN_TTL_SECONDS") 600
    some (record {
      jwt_access_secret = access_secret;
      jwt_refresh_secret = refresh_secret;
      jwt_issuer = text_or (env (text "JWT_ISSUER")) (text "smart-platform-services");
      access_ttl_seconds = access_ttl;
      refresh_ttl_seconds = refresh_ttl;
      otp_hash_secret = otp_secret;
      otp_ttl_seconds = otp_ttl;
      otp_max_attempts = max_attempts;
      otp_resend_cooldown_seconds = cooldown;
      otp_request_limit_per_hour = request_limit;
      otp_ip_limit_per_hour = ip_limit;
      otp_device_limit_per_hour = device_limit;
      login_failure_limit = failure_limit;
      login_abuse_limit = abuse_limit;
      login_window_seconds = login_window;
      login_lock_seconds = login_lock;
      password_recovery_email_limit = recovery_limit;
      password_recovery_email_window_seconds = recovery_window;
      password_recovery_ip_limit = recovery_ip_limit;
      password_recovery_ip_window_seconds = recovery_ip_window;
      password_recovery_device_limit = recovery_device_limit;
      reset_token_ttl_seconds = reset_ttl;
      legacy_phone_flows_enabled = is_text env (text "LEGACY_PHONE_FLOWS_ENABLED") (text "true");
    })

unfoldable pub delivery_section : Environment → DeliverySection
delivery_section env = record {
  environment = text_or (env (text "NODE_ENV")) (text "development");
  email_delivery_mode = text_or (env (text "EMAIL_DELIVERY_MODE")) (text "disabled");
  brevo_api_key = env (text "BREVO_API_KEY");
  brevo_sender_email = env (text "BREVO_SENDER_EMAIL");
  brevo_sender_name = text_or (env (text "BREVO_SENDER_NAME")) (text "Smart Platform");
  otp_delivery_mode = text_or (env (text "OTP_DELIVERY_MODE")) (text "disabled");
  legacy_phone_flows_enabled = is_text env (text "LEGACY_PHONE_FLOWS_ENABLED") (text "true");
}
