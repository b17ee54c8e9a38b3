-- ===== src/Identity/Ports.antt =====
-- libs/identity/src/providers/otp-delivery.port.ts: the mail that carries a one-time code, and the line of
-- the legacy phone flows. What Brevo answers is an argument.
pub mod Disclosure
pub mod Answers
use smart_platform_services.Common.{
  ℕ, ◌+◌, ◌/◌, Bool, true, false, not, ◌&&◌, ◌||◌, Option, none, some, List, [], ◌∷◌, Text, text,
  if◌then◌else◌, ◌==◌, text_Eq, is_none,
}
use smart_platform_services.Identity.Contracts.{
  OtpPurpose, registration, password_reset, purpose_Eq, service_unavailable, failure,
  otp_provider_unavailable, legacy_phone_auth_disabled,
}
use smart_platform_services.Identity.Exec.{
  Exec, ok, pure, throw, modify, require, catching, ◌>>=◌, ◌>>◌,
}
use smart_platform_services.Configuration.Sections.{DeliverySection}

pub record EmailOtpMessage : Type 0 where
  pub email : Text
  pub purpose : OtpPurpose
  pub code : Text
  pub expires_in_seconds : ℕ

pub record LegacyPhoneOtpMessage : Type 0 where
  pub phone : Text
  pub purpose : OtpPurpose
  pub code : Text
  pub expires_in_seconds : ℕ

-- The body of a request to Brevo; its two contents have the code and the minutes.
pub record BrevoRequest : Type 0 where
  pub api_key : Text
  pub sender_email : Text
  pub sender_name : Text
  pub to : Text
  pub subject : Text
  pub code : Text
  pub minutes : ℕ

-- A line of the local delivery, with the code or without.
pub record LocalEvent : Type 0 where
  pub email : Text
  pub purpose : OtpPurpose
  pub code : Option Text
  pub expires_in_seconds : ℕ

-- What leaves the process.
pub data Outgoing : Type 0 where
  local_line : LocalEvent → Outgoing
  legacy_line : LegacyPhoneOtpMessage → Outgoing
  brevo_request : BrevoRequest → Outgoing

-- What `fetch` gives: a response, whose `ok` it has, or a failure.
pub data Fetched : Type 0 where
  responded : (is_ok : Bool) → Fetched
  not_fetched : Fetched

-- `this.config.getOrThrow`
unfoldable pub get_or_throw : Option Text → Exec (List Outgoing) Text
get_or_throw none = throw failure
get_or_throw (some value) = pure value

abbrev pub put_out : Outgoing → List Outgoing → List Outgoing
put_out sent log = sent ∷ log

module _ (c : DeliverySection) where
  abbrev pub is_production : Bool
  is_production = c.environment == text "production"

  unfoldable pub assert_available : Exec (List Outgoing) Unit
  assert_available =
      if c.email_delivery_mode == text "brevo"
      then (do get_or_throw c.brevo_api_key; get_or_throw c.brevo_sender_email; pure tt)
      else require (c.email_delivery_mode == text "console" && not is_production)
          (service_unavailable otp_provider_unavailable)

  abbrev pub subject_of : OtpPurpose → Text
  subject_of purpose =
      if purpose == password_reset
      then text "Mã xác thực khôi phục mật khẩu Smart Platform"
      else text "Mã xác thực đăng ký Smart Platform"

  abbrev pub brevo_body : Text → Text → EmailOtpMessage → BrevoRequest
  brevo_body key sender message = record {
    api_key = key;
    sender_email = sender;
    sender_name = c.brevo_sender_name;
    to = message.email;
    subject = subject_of message.purpose;
    code = message.code;
    minutes = (message.expires_in_seconds + 59) / 60;
  }

  -- `if (!response.ok) throw this.unavailable()`, and a failure of `fetch`.
  abbrev pub check_response : Fetched → Exec (List Outgoing) Unit
  check_response (responded is_ok) = require is_ok (service_unavailable otp_provider_unavailable)
  check_response not_fetched = throw failure

  -- The request, and what its answer comes to.
  abbrev pub request_brevo : Fetched → EmailOtpMessage → Text → Text → Exec (List Outgoing) Unit
  request_brevo fetched message key sender =
      modify (put_out (brevo_request (brevo_body key sender message))) >> check_response fetched

  -- Whatever is thrown becomes the same exception.
  unfoldable pub send_with_brevo : Fetched → EmailOtpMessage → Exec (List Outgoing) Unit
  send_with_brevo fetched message =
      catching
        (do
          key ← get_or_throw c.brevo_api_key
          sender ← get_or_throw c.brevo_sender_email
          request_brevo fetched message key sender)
        (λ e. throw (service_unavailable otp_provider_unavailable))

  -- The code is in the line of a registration only.
  abbrev pub local_event : EmailOtpMessage → LocalEvent
  local_event message = record {
    email = message.email;
    purpose = message.purpose;
    code = if message.purpose == registration then some message.code else none;
    expires_in_seconds = message.expires_in_seconds;
  }

  unfoldable pub send_otp : Fetched → EmailOtpMessage → Exec (List Outgoing) Unit
  send_otp fetched message =
      assert_available
      >> (if c.email_delivery_mode == text "brevo"
          then send_with_brevo fetched message
          else modify (put_out (local_line (local_event message))))

  -- `ConfigurableOtpDeliveryService.send`
  unfoldable pub send : LegacyPhoneOtpMessage → Exec (List Outgoing) Unit
  send message = do
    require
        (c.legacy_phone_flows_enabled && c.otp_delivery_mode == text "console" && not is_production)
        (service_unavailable legacy_phone_auth_disabled)
    modify (put_out (legacy_line message))
