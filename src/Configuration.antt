-- ===== src/Configuration.antt =====
-- libs/common/src/config/environment.ts: the schema of the environment. Joi and Number are parameters.
pub mod Sections
pub mod Bounds
use smart_platform_services.Common.{
  ℕ, Bool, true, false, not, ◌&&◌, ◌||◌, Option, none, some, List, [], ◌∷◌, Text, text, leb,
  if◌then◌else◌, ◌==◌, text_Eq, nat_eq, length, trim, split, is_truthy, holds,
}
use smart_platform_services.Identity.Runtime.{AuthConfig}

-- The variables of the process, by their names.
abbrev pub Environment : Type 0
Environment = Text → Option Text

-- What Joi accepts of a text, and `Number`, which gives none for what is not a natural number.
pub record Reading : Type 0 where
  pub joi_number : Text → Option ℕ
  pub joi_boolean : Text → Bool
  pub is_hostname : Text → Bool
  pub is_email : Text → Bool
  pub number : Text → Option ℕ

-- The rules of the schema.
pub data Rule : Type 0 where
  valid : List Text → Rule
  at_least : ℕ → Rule
  characters : ℕ → ℕ → Rule
  integer : ℕ → ℕ → Rule
  boolean name_pattern hostname email : Rule

-- Whether a variable may be missing, and whether an empty text counts as missing: `.required()`,
-- `.default(…)` or `.optional()`, with `.empty('')` and with `.when('EMAIL_DELIVERY_MODE', …)`.
pub data Presence : Type 0 where
  required optional empty_is_missing required_for_brevo : Presence

pub record Variable : Type 0 where
  pub key : Text
  pub presence : Presence
  pub rule : Rule

-- `/^[a-zA-Z0-9_-]+$/`
abbrev pub is_name_character : ℕ → Bool
is_name_character c =
    (leb b'a' c && leb c b'z')
    || (leb b'A' c && leb c b'Z')
    || (leb b'0' c && leb c b'9')
    || nat_eq c b'_'
    || nat_eq c b'-'

abbrev pub all_of {ℓ} : {A : Type ℓ} → (A → Bool) → List A → Bool
all_of p [] = true
all_of p (a ∷ xs) = p a && all_of p xs

abbrev pub one_of : Text → List Text → Bool
one_of value [] = false
one_of value (t ∷ ts) = value == t || one_of value ts

-- `min` and `max` of an integer.
abbrev pub is_between : ℕ → ℕ → Option ℕ → Bool
is_between least most none = false
is_between least most (some n) = leb least n && leb n most

-- The text of the variables that are for Brevo counts only when it is not empty.
abbrev pub without_empty : Option Text → Option Text
without_empty none = none
without_empty (some t) = if is_truthy (some t) then some t else none

module _ (r : Reading) where
  unfoldable pub satisfies : Rule → Text → Bool
  satisfies (valid texts) t = one_of t texts
  satisfies (at_least least) t = is_truthy (some t) && leb least (length t)
  satisfies (characters least most) t =
      is_truthy (some t) && leb least (length t) && leb (length t) most
  satisfies (integer least most) t = is_between least most (r.joi_number t)
  satisfies boolean t = r.joi_boolean t
  satisfies name_pattern t = is_truthy (some t) && all_of is_name_character t
  satisfies hostname t = r.is_hostname t
  satisfies email t = r.is_email t

  abbrev pub is_valid_text : Rule → (missing : Bool) → Option Text → Bool
  is_valid_text rule missing none = missing
  is_valid_text rule missing (some t) = satisfies rule t

  unfoldable pub is_valid : Environment → Variable → Bool
  is_valid env v = elim v.presence [
    | required ↦ is_valid_text v.rule false (env v.key)
    | optional ↦ is_valid_text v.rule true (env v.key)
    | empty_is_missing ↦ is_valid_text v.rule true (without_empty (env v.key))
    | required_for_brevo ↦
        is_valid_text v.rule (not (holds (env (text "EMAIL_DELIVERY_MODE")) (text "brevo")))
          (without_empty (env v.key))
  ]

abbrev pub numeric : Text → ℕ → ℕ → Variable
numeric key least most = record { key = key; presence = optional; rule = integer least most }

abbrev pub flag : Text → Variable
flag key = record { key = key; presence = optional; rule = boolean }

abbrev pub secret : Text → ℕ → Variable
secret key least = record { key = key; presence = required; rule = at_least least }

abbrev pub choice : Text → List Text → Variable
choice key texts = record { key = key; presence = optional; rule = valid texts }

unfoldable pub environment_schema : List Variable
environment_schema =
    choice (text "NODE_ENV") (text "development" ∷ text "test" ∷ text "production" ∷ [])
    ∷ choice (text "LOG_LEVEL") (
        text "fatal" ∷ text "error" ∷ text "warn" ∷ text "log" ∷ text "debug" ∷ text "verbose" ∷ [])
    ∷ secret (text "CORS_ORIGINS") 1
    ∷ numeric (text "RENTER_API_PORT") 0 65535
    ∷ numeric (text "OWNER_API_PORT") 0 65535
    ∷ numeric (text "ADMIN_API_PORT") 0 65535
    ∷ record { key = text "DATABASE_HOST"; presence = required; rule = hostname }
    ∷ numeric (text "DATABASE_PORT") 0 65535
    ∷ record { key = text "DATABASE_NAME"; presence = required; rule = name_pattern }
    ∷ secret (text "DATABASE_USER") 1
    ∷ secret (text "DATABASE_PASSWORD") 8
    ∷ flag (text "DATABASE_SSL")
    ∷ flag (text "DATABASE_SSL_REJECT_UNAUTHORIZED")
    ∷ numeric (text "DATABASE_POOL_SIZE") 1 100
    ∷ flag (text "DATABASE_RUN_MIGRATIONS_ON_STARTUP")
    ∷ flag (text "PASSWORD_RECOVERY_OUTBOX_CONSUMER_ENABLED")
    ∷ record { key = text "RENDER_GIT_COMMIT"; presence = empty_is_missing; rule = at_least 1 }
    ∷ secret (text "JWT_ACCESS_SECRET") 32
    ∷ secret (text "JWT_REFRESH_SECRET") 32
    ∷ record { key = text "JWT_ISSUER"; presence = optional; rule = at_least 3 }
    ∷ numeric (text "JWT_ACCESS_TTL_SECONDS") 60 3600
    ∷ numeric (text "JWT_REFRESH_TTL_SECONDS") 3600 7776000
    ∷ secret (text "OTP_HASH_SECRET") 32
    ∷ numeric (text "OTP_TTL_SECONDS") 60 900
    ∷ numeric (text "OTP_MAX_ATTEMPTS") 1 10
    ∷ numeric (text "OTP_RESEND_COOLDOWN_SECONDS") 1 3600
    ∷ numeric (text "OTP_REQUEST_LIMIT_PER_HOUR") 1 100
    ∷ numeric (text "OTP_IP_LIMIT_PER_HOUR") 1 1000
    ∷ numeric (text "OTP_DEVICE_LIMIT_PER_HOUR") 1 1000
    ∷ numeric (text "PASSWORD_RECOVERY_EMAIL_LIMIT") 1 100
    ∷ numeric (text "PASSWORD_RECOVERY_EMAIL_WINDOW_SECONDS") 60 86400
    ∷ numeric (text "PASSWORD_RECOVERY_IP_LIMIT") 1 1000
    ∷ numeric (text "PASSWORD_RECOVERY_IP_WINDOW_SECONDS") 60 86400
    ∷ numeric (text "PASSWORD_RECOVERY_DEVICE_LIMIT") 1 1000
    ∷ numeric (text "RESET_TOKEN_TTL_SECONDS") 60 900
    ∷ numeric (text "LOGIN_FAILURE_LIMIT") 1 20
    ∷ numeric (text "LOGIN_ABUSE_LIMIT") 1 1000
    ∷ numeric (text "LOGIN_WINDOW_SECONDS") 60 86400
    ∷ numeric (text "LOGIN_LOCK_SECONDS") 60 86400
    ∷ choice (text "EMAIL_DELIVERY_MODE") (text "disabled" ∷ text "console" ∷ text "brevo" ∷ [])
    ∷ record { key = text "BREVO_API_KEY"; presence = required_for_brevo; rule = at_least 20 }
    ∷ record { key = text "BREVO_SENDER_EMAIL"; presence = required_for_brevo; rule = email }
    ∷ record {
      key = text "BREVO_SENDER_NAME";
      presence = empty_is_missing;
      rule = characters 1 160;
    }
    ∷ choice (text "OTP_DELIVERY_MODE") (text "disabled" ∷ text "console" ∷ [])
    ∷ flag (text "LEGACY_PHONE_FLOWS_ENABLED")
    ∷ []

-- `validateEnvironment` returns, and does not throw.
unfoldable pub validate_environment : Reading → Environment → Bool
validate_environment r env = all_of (is_valid r env) environment_schema
