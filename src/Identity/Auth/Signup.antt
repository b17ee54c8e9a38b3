-- ===== src/Identity/Auth/Signup.antt =====
-- requestSignupOtp of libs/identity/src/services/auth.service.ts.
use smart_platform_services.Common.{
  ℕ, ◌+◌, ◌*◌, min, Bool, true, false, Option, none, some, List, Text, ltb, if◌then◌else◌, nat_Eq,
}
use smart_platform_services.Identity.Contracts.{registration, failure}
use smart_platform_services.Identity.Exec.{Exec, Result, ok, pure, throw, lift, gets, ◌>>=◌, ◌>>◌}
use smart_platform_services.Identity.Otp.{by_email, NewChallenge, find_otp_challenge}
use smart_platform_services.Identity.Otp.Replace.{OutboxInput, replace_registration_challenge}
use smart_platform_services.Identity.Runtime.{
  Runtime, SessionClientContext, AuthConfig, ThrottleKey,
}
use smart_platform_services.Identity.Store.{Store, IdentityUser, OtpChallenge}
use smart_platform_services.Identity.Throttle.{assert_allowed, record_failure}
use smart_platform_services.Identity.Users.{find_by_email}
use smart_platform_services.Identity.Auth.{
  normalize_email, remaining_seconds, seconds_left, otp_request_keys, hash_otp, otp_code,
}

pub record OtpAcceptedResponse : Type 0 where
  pub attempt_id : ℕ
  pub expires_in_seconds : ℕ
  pub resend_after_seconds : ℕ

-- What `requestSignupOtp` draws from `randomUUID()`: the id of the attempt, or of an attempt that is
-- not stored, and that of the mail.
pub record SignupDraws : Type 0 where
  pub now : ℕ
  pub attempt_id : ℕ
  pub outbox_id : ℕ

-- A statement that answers with a Boolean and writes.
abbrev pub stating {ℓ} : {A S : Type ℓ} → (S → A × S) → Exec S A
stating f s = (ok (f s).0, (f s).1)

module _ (r : Runtime) (a : AuthConfig) where
  abbrev pub otp_accepted : ℕ → ℕ → ℕ → OtpAcceptedResponse
  otp_accepted attempt_id expires resend = record {
    attempt_id = attempt_id;
    expires_in_seconds = expires;
    resend_after_seconds = resend;
  }

  abbrev pub new_registration : Text → SignupDraws → NewChallenge
  new_registration email d = record {
    id = d.attempt_id;
    email = some email;
    phone = none;
    purpose = registration;
    code_hash = hash_otp r email registration (otp_code r registration d.attempt_id);
    max_attempts = a.otp_max_attempts;
    expires_at = d.now + a.otp_ttl_seconds * 1000;
  }

  abbrev pub registration_mail : Text → SignupDraws → OutboxInput
  registration_mail email d = record {
    id = d.outbox_id;
    challenge_id = d.attempt_id;
    email = email;
    occurred_at = d.now;
  }

  -- The answer when another request was first.
  abbrev concurrent : Option OtpChallenge → ℕ → Exec Store OtpAcceptedResponse
  concurrent none now = throw failure
  concurrent (some other) now =
      pure (otp_accepted other.id (seconds_left other.expires_at now) a.otp_resend_cooldown_seconds)

  unfoldable pub finish_signup_request : Bool → Text → SignupDraws → Exec Store OtpAcceptedResponse
  finish_signup_request true email d =
      pure (otp_accepted d.attempt_id a.otp_ttl_seconds a.otp_resend_cooldown_seconds)
  finish_signup_request false email d = do
    other ← gets (find_otp_challenge (by_email email) registration)
    concurrent other d.now

  unfoldable pub open_signup :
      Option IdentityUser → Text → Option ℕ → SignupDraws → Exec Store OtpAcceptedResponse
  open_signup (some user) email previous d =
      pure (otp_accepted d.attempt_id a.otp_ttl_seconds a.otp_resend_cooldown_seconds)
  open_signup none email previous d = do
    created ←
        replace_registration_challenge (new_registration email d) previous
          (registration_mail email d)
    finish_signup_request created email d

  -- The answer while the current code is in its cooldown, if it is.
  unfoldable pub cooling : Option OtpChallenge → ℕ → Option OtpAcceptedResponse
  cooling none now = none
  cooling (some current) now =
      let remaining = remaining_seconds a.otp_resend_cooldown_seconds current.created_at now in
      if ltb 0 remaining
      then some (
          otp_accepted current.id (seconds_left current.expires_at now)
            (min a.otp_resend_cooldown_seconds remaining))
      else none

  unfoldable pub proceed_signup :
      Option OtpAcceptedResponse
      → List ThrottleKey
      → Text
      → Option ℕ
      → SignupDraws
      → Exec Store OtpAcceptedResponse
  proceed_signup (some answer) keys email previous d = pure answer
  proceed_signup none keys email previous d = do
    record_failure r keys d.now
    user ← gets (find_by_email email)
    open_signup user email previous d

  -- `available` is what the mail delivery's `assertAvailable` does.
  unfoldable pub request_signup_otp :
      Result {0} Unit
      → Text
      → SessionClientContext
      → Option ℕ
      → SignupDraws
      → Exec Store OtpAcceptedResponse
  request_signup_otp available raw_email context previous d =
      let email = normalize_email raw_email in
      let keys = otp_request_keys a email context in
      do
        assert_allowed r keys d.now
        lift available
        current ← gets (find_otp_challenge (by_email email) registration)
        proceed_signup (cooling current d.now) keys email previous d
