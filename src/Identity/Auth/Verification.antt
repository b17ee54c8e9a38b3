-- ===== src/Identity/Auth/Verification.antt =====
-- verifySignupOtp and completeSignup of libs/identity/src/services/auth.service.ts.
use smart_platform_services.Common.{
  ℕ, Bool, ◌&&◌, Option, none, some, List, Text, ltb, if◌then◌else◌, ◌==◌, nat_Eq, is_none, is_some,
  trim, or_null, collapse_spaces,
}
use smart_platform_services.Identity.Contracts.{
  registration, unauthorized, bad_request, invalid_otp, signup_unavailable,
}
use smart_platform_services.Identity.Exec.{Exec, pure, throw, gets, modify, require, ◌>>=◌, ◌>>◌}
use smart_platform_services.Identity.Otp.{
  by_email, find_otp_challenge, record_otp_failure, mark_otp_verified,
}
use smart_platform_services.Identity.Runtime.{
  Runtime, SessionClientContext, AuthConfig, ThrottleKey,
}
use smart_platform_services.Identity.Store.{Store, IdentityUser, OtpChallenge}
use smart_platform_services.Identity.Throttle.{assert_allowed, record_failure, clear}
use smart_platform_services.Identity.Users.Create.{complete_email_signup}
use smart_platform_services.Identity.Auth.{
  normalize_email, seconds_left, otp_verify_keys, otp_matches,
}
use smart_platform_services.Identity.Auth.Signup.{stating}

pub record SignupOtpVerifiedResponse : Type 0 where
  pub attempt_id : ℕ
  pub expires_in_seconds : ℕ

-- `SignupOtpVerifyDto`
pub record SignupOtpVerify : Type 0 where
  pub email : Text
  pub attempt_id : ℕ
  pub code : Text

-- `SignupCompleteDto`
pub record SignupComplete : Type 0 where
  pub email : Text
  pub attempt_id : ℕ
  pub code : Text
  pub password : Text
  pub display_name : Text
  pub phone : Option Text

module _ (r : Runtime) (a : AuthConfig) where
  abbrev pub accepts_signup_code : SignupOtpVerify → Text → ℕ → OtpChallenge → Bool
  accepts_signup_code input email now c =
      c.id == input.attempt_id
      && is_none c.consumed_at
      && is_none c.verified_at
      && ltb now c.expires_at
      && ltb c.attempt_count c.max_attempts
      && otp_matches r email registration input.code c.code_hash

  -- `recordOtpFailure` unless the challenge is used up or verified.
  abbrev count_signup_failure : Option OtpChallenge → Store → Store
  count_signup_failure none store = store
  count_signup_failure (some c) store =
      if ltb c.attempt_count c.max_attempts && is_none c.verified_at
      then record_otp_failure c.id store
      else store

  unfoldable pub refuse_signup_code :
      Option OtpChallenge → List ThrottleKey → ℕ → Exec Store SignupOtpVerifiedResponse
  refuse_signup_code challenge keys now = do
    modify (count_signup_failure challenge)
    record_failure r keys now
    throw (unauthorized invalid_otp)

  unfoldable pub verify_signup_challenge :
      Option OtpChallenge
      → SignupOtpVerify
      → Text
      → List ThrottleKey
      → ℕ
      → Exec Store SignupOtpVerifiedResponse
  verify_signup_challenge none input email keys now = refuse_signup_code none keys now
  verify_signup_challenge (some c) input email keys now =
      if accepts_signup_code input email now c
      then (do
        marked ← stating (mark_otp_verified c.id now)
        require marked (unauthorized invalid_otp)
        modify (clear r keys)
        pure (record { attempt_id = c.id; expires_in_seconds = seconds_left c.expires_at now }))
      else refuse_signup_code (some c) keys now

  unfoldable pub verify_signup_otp :
      SignupOtpVerify → SessionClientContext → ℕ → Exec Store SignupOtpVerifiedResponse
  verify_signup_otp input context now =
      let email = normalize_email input.email in
      let keys = otp_verify_keys email context in
      do
        assert_allowed r keys now
        challenge ← gets (find_otp_challenge (by_email email) registration)
        verify_signup_challenge challenge input email keys now

  abbrev null_phone : Option Text → Option Text
  null_phone none = none
  null_phone (some phone) = or_null (trim phone)

  abbrev can_sign_up : SignupComplete → Text → OtpChallenge → Bool
  can_sign_up input email c =
      c.id == input.attempt_id
      && is_some c.verified_at
      && otp_matches r email registration input.code c.code_hash

  abbrev created : Option IdentityUser → Exec Store Unit
  created none = throw (bad_request signup_unavailable)
  created (some user) = pure tt

  unfoldable pub complete_with :
      Option OtpChallenge → SignupComplete → Text → ℕ → Text → ℕ → Exec Store Unit
  complete_with none input email id salt now = throw (bad_request signup_unavailable)
  complete_with (some c) input email id salt now =
      if can_sign_up input email c
      then (do
        user ← complete_email_signup id (record {
          challenge_id = c.id;
          email = email;
          phone = null_phone input.phone;
          password_hash = r.scrypt_hash salt input.password;
          display_name = collapse_spaces (trim input.display_name);
          code_hash = c.code_hash;
          completed_at = now;
        })
        created user)
      else throw (bad_request signup_unavailable)

  -- `completeSignup`; `id` is drawn by the database and `salt` by the password hasher.
  unfoldable pub complete_signup : SignupComplete → ℕ → Text → ℕ → Exec Store Unit
  complete_signup input id salt now =
      let email = normalize_email input.email in
      do
        challenge ← gets (find_otp_challenge (by_email email) registration)
        complete_with challenge input email id salt now
