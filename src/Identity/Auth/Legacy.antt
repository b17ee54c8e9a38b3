-- ===== src/Identity/Auth/Legacy.antt =====
-- The phone flows of libs/identity/src/services/auth.service.ts: register, requestOtp, verifyOtp,
-- forgotPassword and resetPassword.
use smart_platform_services.Common.{
  ℕ, ◌+◌, ◌*◌, Bool, true, false, ◌&&◌, Option, none, some, List, Text, ltb, if◌then◌else◌, ◌==◌,
  nat_Eq, is_none, trim, decimal,
}
use smart_platform_services.Identity.Contracts.{
  ActorRole, OtpPurpose, registration, login, password_reset, purpose_Eq, pending, active,
  status_Eq, Error, unauthorized, conflict, invalid_otp, phone_already_registered,
}
use smart_platform_services.Identity.Exec.{
  Exec, Result, pure, throw, lift, gets, modify, require, catching, ◌>>=◌, ◌>>◌,
}
use smart_platform_services.Identity.Otp.{
  by_phone, NewChallenge, find_otp_challenge, record_otp_failure, consume_otp, cancel_otp,
}
use smart_platform_services.Identity.Otp.Replace.{replace_otp_challenge}
use smart_platform_services.Identity.Runtime.{
  Runtime, SessionClientContext, AuthConfig, ThrottleKey,
}
use smart_platform_services.Identity.Session.{revoke_sessions_for_user}
use smart_platform_services.Identity.Store.{Store, IdentityUser, OtpChallenge, password_was_reset}
use smart_platform_services.Identity.Throttle.{assert_allowed, record_failure, clear}
use smart_platform_services.Identity.Tokens.{AuthSessionTokens, Draws, create}
use smart_platform_services.Identity.Jwt.{Codec}
use smart_platform_services.Identity.Users.{
  find_by_phone, activate_phone, mark_login, update_password,
}
use smart_platform_services.Identity.Users.Create.{create_phone_user}
use smart_platform_services.Identity.Auth.{
  normalize_phone, legacy_otp_request_keys, legacy_otp_verify_keys,
  assert_legacy_phone_flows_enabled, hash_otp, otp_matches,
}
use smart_platform_services.Identity.Auth.Signup.{stating}
use smart_platform_services.Identity.Auth.SignIn.{require_user}

-- `RegisterDto`
pub record Register : Type 0 where
  pub phone : Text
  pub password : Text
  pub display_name : Text
  pub role : ActorRole

-- `ResetPasswordDto`
pub record PhoneReset : Type 0 where
  pub phone : Text
  pub code : Text
  pub new_password : Text

-- What a request for a code draws: `randomInt(100_000, 1_000_000)` among it. `delivery` is what the
-- delivery does when it is given the code, and `later` the time of the cancellation if it throws.
pub record PhoneDraws : Type 0 where
  pub now : ℕ
  pub later : ℕ
  pub challenge_id : ℕ
  pub number : ℕ
  pub delivery : Result {0} Unit

abbrev pub expects : OtpPurpose → Option IdentityUser → Bool
expects purpose none = false
expects registration (some user) = user.status == pending
expects login (some user) = user.status == active
expects password_reset (some user) = user.status == active

module _ (r : Runtime) (a : AuthConfig) where
  abbrev pub phone_challenge : Text → OtpPurpose → PhoneDraws → NewChallenge
  phone_challenge phone purpose d = record {
    id = d.challenge_id;
    email = none;
    phone = some phone;
    purpose = purpose;
    code_hash = hash_otp r phone purpose (decimal 10 d.number);
    max_attempts = a.otp_max_attempts;
    expires_at = d.now + a.otp_ttl_seconds * 1000;
  }

  abbrev undelivered : Bool → PhoneDraws → Error → Exec Store Unit
  undelivered true d e = modify (cancel_otp d.challenge_id d.later)
  undelivered false d e = do modify (cancel_otp d.challenge_id d.later); throw e

  -- The part of `issuePhoneOtp` behind the test of `eligible`.
  unfoldable pub send_if : Bool → Text → OtpPurpose → Bool → PhoneDraws → Exec Store ℕ
  send_if false phone purpose suppress_delivery_errors d = pure a.otp_ttl_seconds
  send_if true phone purpose suppress_delivery_errors d = do
    replace_otp_challenge (phone_challenge phone purpose d)
    catching (lift d.delivery) (undelivered suppress_delivery_errors d)
    pure a.otp_ttl_seconds

  -- `issuePhoneOtp`: it answers with the seconds until the code expires.
  unfoldable pub issue_phone_otp :
      Text → OtpPurpose → SessionClientContext → Bool → PhoneDraws → Exec Store ℕ
  issue_phone_otp phone purpose context suppress_delivery_errors d =
      let keys = legacy_otp_request_keys phone context.ip_address in
      do
        assert_allowed r keys d.now
        record_failure r keys d.now
        user ← gets (find_by_phone phone)
        send_if (expects purpose user) phone purpose suppress_delivery_errors d

  unfoldable pub request_otp : Text → OtpPurpose → SessionClientContext → PhoneDraws → Exec Store ℕ
  request_otp raw_phone purpose context d = do
    assert_legacy_phone_flows_enabled a
    issue_phone_otp (normalize_phone raw_phone) purpose context false d

  unfoldable pub forgot_password : Text → SessionClientContext → PhoneDraws → Exec Store ℕ
  forgot_password raw_phone context d = do
    assert_legacy_phone_flows_enabled a
    issue_phone_otp (normalize_phone raw_phone) password_reset context true d

  abbrev unregistered : Option IdentityUser → Exec Store Unit
  unregistered none = pure tt
  unregistered (some user) = throw (conflict phone_already_registered)

  -- `register`: it answers with the new account's id; the database draws `id`, the hasher `salt`.
  unfoldable pub register :
      Register → SessionClientContext → ℕ → Text → PhoneDraws → Exec Store (ℕ × ℕ)
  register input context id salt d =
      let phone = normalize_phone input.phone in
      do
        assert_legacy_phone_flows_enabled a
        existing ← gets (find_by_phone phone)
        unregistered existing
        user ← create_phone_user id (record {
          phone = phone;
          password_hash = r.scrypt_hash salt input.password;
          display_name = trim input.display_name;
          role = input.role;
        })
        expires ← request_otp phone registration context d
        pure (user.id, expires)

  abbrev pub accepts_phone_code : Text → OtpPurpose → Text → ℕ → OtpChallenge → Bool
  accepts_phone_code phone purpose code now c =
      is_none c.consumed_at
      && ltb now c.expires_at
      && ltb c.attempt_count c.max_attempts
      && otp_matches r phone purpose code c.code_hash

  -- The test of `resetPassword` reads no `consumedAt`.
  abbrev pub accepts_reset_code : Text → Text → ℕ → OtpChallenge → Bool
  accepts_reset_code phone code now c =
      ltb now c.expires_at
      && ltb c.attempt_count c.max_attempts
      && otp_matches r phone password_reset code c.code_hash

  abbrev count_phone_failure : Option OtpChallenge → Store → Store
  count_phone_failure none store = store
  count_phone_failure (some c) store =
      if ltb c.attempt_count c.max_attempts then record_otp_failure c.id store else store

  unfoldable pub refuse_phone_code :
      Option OtpChallenge → List ThrottleKey → ℕ → Exec Store OtpChallenge
  refuse_phone_code challenge keys now = do
    modify (count_phone_failure challenge)
    record_failure r keys now
    throw (unauthorized invalid_otp)

  -- The two flows that redeem a code differ in the test that it must pass.
  unfoldable pub check_phone_code :
      (OtpChallenge → Bool) → Option OtpChallenge → List ThrottleKey → ℕ → Exec Store OtpChallenge
  check_phone_code accepts none keys now = refuse_phone_code none keys now
  check_phone_code accepts (some c) keys now =
      if accepts c then pure c else refuse_phone_code (some c) keys now

  abbrev require_phone_user : Option IdentityUser → Exec Store IdentityUser
  require_phone_user none = throw (unauthorized invalid_otp)
  require_phone_user (some user) = pure user

  -- A registration code activates the account.
  unfoldable pub activated : OtpPurpose → IdentityUser → ℕ → Exec Store IdentityUser
  activated purpose user now =
      if purpose == registration
      then (do
        require (user.status == pending) (unauthorized invalid_otp)
        modify (activate_phone user.id now)
        require_user user.id)
      else pure user

  module _ (k : Codec) where
    unfoldable pub verify_otp :
        Text → OtpPurpose → Text → SessionClientContext → ℕ → Draws → Exec Store AuthSessionTokens
    verify_otp raw_phone purpose code context now d =
        let phone = normalize_phone raw_phone in
        let keys = legacy_otp_verify_keys phone context.ip_address in
        do
          assert_legacy_phone_flows_enabled a
          assert_allowed r keys now
          challenge ← gets (find_otp_challenge (by_phone phone) purpose)
          c ← check_phone_code (accepts_phone_code phone purpose code now) challenge keys now
          consumed ← stating (consume_otp c.id now)
          require consumed (unauthorized invalid_otp)
          modify (clear r keys)
          found ← gets (find_by_phone phone)
          known ← require_phone_user found
          user ← activated purpose known now
          require (user.status == active) (unauthorized invalid_otp)
          modify (mark_login user.id now)
          create a k r user context d

    unfoldable pub reset_password :
        PhoneReset → SessionClientContext → Text → ℕ → Draws → Exec Store AuthSessionTokens
    reset_password input context salt now d =
        let phone = normalize_phone input.phone in
        let keys = legacy_otp_verify_keys phone context.ip_address in
        do
          assert_legacy_phone_flows_enabled a
          assert_allowed r keys now
          challenge ← gets (find_otp_challenge (by_phone phone) password_reset)
          c ← check_phone_code (accepts_reset_code phone input.code now) challenge keys now
          found ← gets (find_by_phone phone)
          user ← require_phone_user found
          require (user.status == active) (unauthorized invalid_otp)
          consumed ← stating (consume_otp c.id now)
          require consumed (unauthorized invalid_otp)
          modify (update_password user.id (r.scrypt_hash salt input.new_password))
          modify (revoke_sessions_for_user user.id now password_was_reset)
          modify (clear r keys)
          create a k r user context d
