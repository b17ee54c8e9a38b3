-- ===== src/Identity/Controller.antt =====
-- libs/identity/src/http/auth.controller.ts: the routes of the authentication API. The bodies are those that
-- the validation of libs/identity/src/http/auth.dto.ts has let pass.
pub mod LogOut
use smart_platform_services.Common.{ℕ, Bool, Option, none, some, Text, or_null}
use smart_platform_services.Identity.Contracts.{
  OtpPurpose, ActorRole, SocialProvider, AuthenticatedActor,
}
use smart_platform_services.Identity.Exec.{Exec, Result, pure, modify, ◌>>=◌, ◌>>◌}
use smart_platform_services.Identity.Store.{Store}
use smart_platform_services.Identity.Runtime.{Runtime, SessionClientContext, AuthConfig}
use smart_platform_services.Identity.Jwt.{Codec}
use smart_platform_services.Identity.Tokens.{AuthSessionTokens, Draws, refresh, logout}
use smart_platform_services.Identity.Access.{jwt_auth_guard}
use smart_platform_services.Identity.Auth.SignIn.{
  LoginInput, login, ChangePasswordInput, change_password, log_out_all, VerifiedSocialIdentity,
  social_login,
}
use smart_platform_services.Identity.Auth.Signup.{
  OtpAcceptedResponse, SignupDraws, request_signup_otp,
}
use smart_platform_services.Identity.Auth.Verification.{
  SignupOtpVerifiedResponse, SignupOtpVerify, SignupComplete, verify_signup_otp, complete_signup,
}
use smart_platform_services.Identity.Auth.Recovery.{
  PasswordRecoveryAcceptedResponse, PasswordRecoveryVerifiedResponse, RecoveryVerify, RecoveryDraws,
  request_password_recovery, verify_password_recovery,
}
use smart_platform_services.Identity.Auth.NewPassword.{RecoveryReset, complete_password_recovery}
use smart_platform_services.Identity.Auth.Legacy.{
  Register, PhoneReset, PhoneDraws, register, request_otp, verify_otp, forgot_password,
  reset_password,
}

-- What a request brings besides its body.
pub record Headers : Type 0 where
  pub ip : Option Text
  pub user_agent : Option Text
  pub device_id : Option Text
  pub authorization : Option Text

abbrev pub ip_or_null : Option Text → Option Text
ip_or_null none = none
ip_or_null (some ip) = or_null ip

unfoldable pub context_of : Headers → SessionClientContext
context_of h = record {
  ip_address = ip_or_null h.ip;
  user_agent = h.user_agent;
  device_id = h.device_id;
}

-- The routes with their bodies.
pub data AuthRequest : Type 0 where
  post_signup_otp_request : Text → Option ℕ → AuthRequest
  post_signup_otp_verify : SignupOtpVerify → AuthRequest
  post_signup_complete : SignupComplete → AuthRequest
  post_register : Register → AuthRequest
  post_login : LoginInput → AuthRequest
  post_recovery_request : Text → AuthRequest
  post_recovery_verify : RecoveryVerify → AuthRequest
  post_recovery_reset : RecoveryReset → AuthRequest
  post_otp_request : Text → OtpPurpose → AuthRequest
  post_otp_verify : Text → OtpPurpose → Text → AuthRequest
  post_password_forgot : Text → AuthRequest
  post_password_reset : PhoneReset → AuthRequest
  post_password_change : ChangePasswordInput → AuthRequest
  post_token_refresh : Text → AuthRequest
  post_logout : Text → AuthRequest
  post_logout_all : AuthRequest
  post_oauth : Text → Text → Option ActorRole → AuthRequest
  get_me : AuthRequest

pub data AuthAnswer : Type 0 where
  otp_accepted : OtpAcceptedResponse → AuthAnswer
  signup_verified : SignupOtpVerifiedResponse → AuthAnswer
  recovery_accepted : PasswordRecoveryAcceptedResponse → AuthAnswer
  recovery_verified : PasswordRecoveryVerifiedResponse → AuthAnswer
  session : AuthSessionTokens → AuthAnswer
  status : Text → AuthAnswer
  registered : ℕ × ℕ → AuthAnswer
  expires_in : ℕ → AuthAnswer
  me : AuthenticatedActor → AuthAnswer
  signed_up no_content : AuthAnswer

-- What the platform and the providers draw or answer for a request; `seconds` is the time of the tokens.
pub record AuthDraws : Type 0 where
  pub now : ℕ
  pub seconds : ℕ
  pub user_id : ℕ
  pub salt : Text
  pub reset_token : Text
  pub mail_available : Result {0} Unit
  pub verify_social : SocialProvider → Text → Result VerifiedSocialIdentity
  pub signup : SignupDraws
  pub recovery : RecoveryDraws
  pub phone : PhoneDraws
  pub session : Draws

module _ (r : Runtime) (a : AuthConfig) (k : Codec) where
  -- `@UseGuards(JwtAuthGuard)`
  abbrev pub authenticated :
      Headers → AuthDraws → (AuthenticatedActor → Exec Store AuthAnswer) → Exec Store AuthAnswer
  authenticated h d route = jwt_auth_guard a k h.authorization d.seconds d.now >>= route

  unfoldable pub handle_auth : Headers → AuthDraws → AuthRequest → Exec Store AuthAnswer
  handle_auth h d (post_signup_otp_request email previous) = do
    x ← request_signup_otp r a d.mail_available email (context_of h) previous d.signup
    pure (otp_accepted x)
  handle_auth h d (post_signup_otp_verify input) = do
    x ← verify_signup_otp r a input (context_of h) d.now
    pure (signup_verified x)
  handle_auth h d (post_signup_complete input) = do
    complete_signup r a input d.user_id d.salt d.now
    pure signed_up
  handle_auth h d (post_register input) = do
    x ← register r a input (context_of h) d.user_id d.salt d.phone
    pure (registered x)
  handle_auth h d (post_login input) = do
    x ← login r a k input (context_of h) d.now d.session
    pure (session x)
  handle_auth h d (post_recovery_request email) = do
    x ← request_password_recovery r a email (context_of h) d.recovery
    pure (recovery_accepted x)
  handle_auth h d (post_recovery_verify input) = do
    x ← verify_password_recovery r a input (context_of h) d.reset_token d.now
    pure (recovery_verified x)
  handle_auth h d (post_recovery_reset input) = do
    x ← complete_password_recovery r a input (context_of h) d.salt d.now
    pure (status x)
  handle_auth h d (post_otp_request phone purpose) = do
    x ← request_otp r a phone purpose (context_of h) d.phone
    pure (expires_in x)
  handle_auth h d (post_otp_verify phone purpose code) = do
    x ← verify_otp r a k phone purpose code (context_of h) d.now d.session
    pure (session x)
  handle_auth h d (post_password_forgot phone) = do
    x ← forgot_password r a phone (context_of h) d.phone
    pure (expires_in x)
  handle_auth h d (post_password_reset input) = do
    x ← reset_password r a k input (context_of h) d.salt d.now d.session
    pure (session x)
  handle_auth h d (post_password_change input) = authenticated h d (λ actor. do
    x ← change_password r a k actor input (context_of h) d.salt d.now d.session
    pure (session x))
  handle_auth h d (post_token_refresh token) = do
    x ← refresh a k r token (context_of h) d.seconds d.session
    pure (session x)
  handle_auth h d (post_logout token) = do modify (logout a k r token d.now); pure no_content
  handle_auth h d post_logout_all =
      authenticated h d (λ actor. do modify (log_out_all actor d.now); pure no_content)
  handle_auth h d (post_oauth provider credential role) = do
    x ←
        social_login r a k d.verify_social provider credential role (context_of h) d.user_id d.now
          d.session
    pure (session x)
  handle_auth h d get_me = authenticated h d (λ actor. pure (me actor))
