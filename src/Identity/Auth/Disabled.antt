-- ===== src/Identity/Auth/Disabled.antt =====
-- The phone flows while the configuration has them switched off.
use smart_platform_services.Common.{ℕ, ◌≡◌, refl, false, Text}
use smart_platform_services.Identity.Contracts.{
  OtpPurpose, service_unavailable, legacy_phone_auth_disabled,
}
use smart_platform_services.Identity.Exec.{err}
use smart_platform_services.Identity.Runtime.{Runtime, AuthConfig, SessionClientContext}
use smart_platform_services.Identity.Store.{Store}
use smart_platform_services.Identity.Tokens.{Draws}
use smart_platform_services.Identity.Jwt.{Codec}
use smart_platform_services.Identity.Auth.{assert_legacy_phone_flows_enabled}
use smart_platform_services.Identity.Auth.Legacy.{
  Register, PhoneReset, PhoneDraws, register, request_otp, verify_otp, forgot_password,
  reset_password,
}

-- While the phone flows are switched off, each of them answers that it is unavailable, and reads and
-- writes nothing.
pub legacy_flows_disabled :
    (r : Runtime) (a : AuthConfig) (k : Codec) (input : Register) (reset : PhoneReset)
    (phone code salt : Text) (purpose : OtpPurpose) (context : SessionClientContext) (id now : ℕ)
    (p : PhoneDraws) (d : Draws) (store : Store)
    → a.legacy_phone_flows_enabled ≡ false
    → (register r a input context id salt p store
        ≡ (err (service_unavailable legacy_phone_auth_disabled), store))
      × (request_otp r a phone purpose context p store
          ≡ (err (service_unavailable legacy_phone_auth_disabled), store))
      × (verify_otp r a k phone purpose code context now d store
          ≡ (err (service_unavailable legacy_phone_auth_disabled), store))
      × (forgot_password r a phone context p store
          ≡ (err (service_unavailable legacy_phone_auth_disabled), store))
      × (reset_password r a k reset context salt now d store
          ≡ (err (service_unavailable legacy_phone_auth_disabled), store))
unfolding register request_otp verify_otp forgot_password reset_password
    assert_legacy_phone_flows_enabled
legacy_flows_disabled r a k input reset phone code salt purpose context id now p d store off =
    rw off (refl, refl, refl, refl, refl)
