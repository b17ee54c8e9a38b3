-- ===== src/Examples/Settings.antt =====
-- The configuration and the ports of mail: tests, and the theorems in an environment with Brevo.
use smart_platform_services.Common.{
  ℕ, ◌+◌, ◌*◌, ◌-◌, ◌≡◌, refl, true, false, ◌&&◌, Option, none, some, List, [], ◌∷◌, Text, text,
  leb, if◌then◌else◌, ◌==◌, text_Eq, same_text, trim, split,
}
use smart_platform_services.Identity.Contracts.{registration, password_reset}
use smart_platform_services.Configuration.{
  Environment, Reading, is_valid, satisfies, environment_schema, validate_environment,
}
use smart_platform_services.Configuration.Sections.{
  split_csv, auth_section, DeliverySection, delivery_section,
}
use smart_platform_services.Configuration.Bounds.{Succeeds, IsBounded, auth_section-IsBounded}
use smart_platform_services.Identity.Ports.{
  EmailOtpMessage, LegacyPhoneOtpMessage, local_line, responded, not_fetched, send_otp,
  assert_available, send,
}
use smart_platform_services.Identity.Ports.Disclosure.{AreAllowed, send_otp_discloses}
use smart_platform_services.Identity.Ports.Answers.{Sent, send_otp_lem}

abbrev lookup : List (Text × Text) → Environment
lookup [] key = none
lookup ((k, value) ∷ entries) key = if k == key then some value else lookup entries key

abbrev decimal_from : ℕ → Text → Option ℕ
decimal_from n [] = some n
decimal_from n (c ∷ s) =
    let rest = decimal_from (10 * n + (c - 48)) s in if leb b'0' c && leb c b'9' then rest else none

abbrev reading : Reading
reading = record {
  joi_number = decimal_from 0;
  joi_boolean = λ t. t == text "true";
  is_hostname = λ t. true;
  is_email = λ t. true;
  number = decimal_from 0;
}

abbrev secrets : List (Text × Text)
secrets =
    (text "CORS_ORIGINS", text "http://localhost:3000, ,http://localhost:8081")
    ∷ (text "DATABASE_HOST", text "localhost")
    ∷ (text "DATABASE_NAME", text "smart_platform")
    ∷ (text "DATABASE_USER", text "smart_platform")
    ∷ (text "DATABASE_PASSWORD", text "local-password")
    ∷ (text "JWT_ACCESS_SECRET", text "test-access-secret-at-least-32-characters")
    ∷ (text "JWT_REFRESH_SECRET", text "test-refresh-secret-at-least-32-characters")
    ∷ (text "OTP_HASH_SECRET", text "test-otp-secret-at-least-32-characters")
    ∷ (text "LOGIN_FAILURE_LIMIT", text "7")
    ∷ []

abbrev brevo_entries : List (Text × Text)
brevo_entries =
    (text "NODE_ENV", text "production")
    ∷ (text "EMAIL_DELIVERY_MODE", text "brevo")
    ∷ (text "BREVO_API_KEY", text "brevo-key-of-at-least-20")
    ∷ (text "BREVO_SENDER_EMAIL", text "no-reply@site.vn")
    ∷ secrets

abbrev brevo : Environment
brevo = lookup brevo_entries

brevo_valid : validate_environment reading brevo ≡ true
unfolding validate_environment environment_schema is_valid satisfies same_text
brevo_valid = refl

-- Without the key of Brevo, its mode is refused.
keyless_test :
    validate_environment reading (lookup ((text "EMAIL_DELIVERY_MODE", text "brevo") ∷ secrets))
    ≡ false
unfolding validate_environment environment_schema is_valid satisfies same_text
keyless_test = refl

origins_test :
    split_csv (lookup secrets (text "CORS_ORIGINS"))
    ≡ text "http://localhost:3000" ∷ text "http://localhost:8081" ∷ []
unfolding split_csv split trim same_text
origins_test = refl

auth_section-IsBounded_example : Succeeds IsBounded (auth_section reading brevo)
auth_section-IsBounded_example = auth_section-IsBounded reading brevo (λ t n e. e) brevo_valid

abbrev code_mail : EmailOtpMessage
code_mail = record {
  email = text "ann@site.vn";
  purpose = password_reset;
  code = text "123456";
  expires_in_seconds = 600;
}

abbrev code_message : LegacyPhoneOtpMessage
code_message = record {
  phone = text "0902";
  purpose = registration;
  code = text "123456";
  expires_in_seconds = 600;
}

-- The console of a development machine.
abbrev console : DeliverySection
console = delivery_section (lookup ((text "EMAIL_DELIVERY_MODE", text "console") ∷ secrets))

console_test :
    (send_otp console not_fetched code_mail []).1
    ≡ local_line (record {
      email = text "ann@site.vn";
      purpose = password_reset;
      code = none;
      expires_in_seconds = 600;
    })
      ∷ []
unfolding send_otp assert_available delivery_section same_text
console_test = refl

send_otp_discloses_example :
    AreAllowed console (send_otp console (responded true) code_mail []).1
    × AreAllowed console (send console code_message []).1
send_otp_discloses_example =
    send_otp_discloses console (responded true) code_mail code_message [] tt

send_otp_lem_example :
    Sent brevo
      (responded true)
      code_mail
      []
      (send_otp (delivery_section brevo) (responded true) code_mail [])
send_otp_lem_example = send_otp_lem reading brevo brevo_valid (responded true) code_mail []
