-- ===== src/Identity/Auth/SignIn.antt =====
-- login, changePassword, logoutAll and socialLogin of libs/identity/src/services/auth.service.ts. The
-- time that a method reads first is `now`; the session's own is in Draws.
use smart_platform_services.Common.{
  ℕ, Bool, false, not, ◌&&◌, Option, none, some, List, [], ◌∷◌, Text, text, if◌then◌else◌, ◌==◌,
  text_Eq, trim, is_truthy, or_null,
}
use smart_platform_services.Identity.Contracts.{
  ActorRole, SocialProvider, google, facebook, apple, pending, active, status_Eq,
  AuthenticatedActor, bad_request, unauthorized, forbidden, conflict, account_unverified,
  account_inactive, invalid_credentials, password_unchanged, invalid_session,
  social_provider_unsupported, social_signup_details_required, explicit_identity_link_required,
}
use smart_platform_services.Identity.Exec.{
  Exec, Result, pure, throw, lift, gets, modify, require, ◌>>=◌, ◌>>◌,
}
use smart_platform_services.Identity.Runtime.{
  Runtime, SessionClientContext, AuthConfig, ThrottleKey,
}
use smart_platform_services.Identity.Session.{revoke_sessions_for_user}
use smart_platform_services.Identity.Store.{Store, IdentityUser, logout_all, password_change}
use smart_platform_services.Identity.Throttle.{assert_allowed, record_failure, clear}
use smart_platform_services.Identity.Tokens.{AuthSessionTokens, Draws, create}
use smart_platform_services.Identity.Jwt.{Codec}
use smart_platform_services.Identity.Users.{
  find_by_email, find_by_id, find_by_social_identity, update_password, mark_login,
}
use smart_platform_services.Identity.Users.Create.{create_social_user}
use smart_platform_services.Identity.Auth.{normalize_email, login_keys}

pub record LoginInput : Type 0 where
  pub email : Text
  pub password : Text

pub record ChangePasswordInput : Type 0 where
  pub current_password : Text
  pub new_password : Text

-- `SocialLoginDto`, and what the provider's verifier answers.
pub record VerifiedSocialIdentity : Type 0 where
  pub subject : Text
  pub email : Option Text
  pub display_name : Option Text

unfoldable pub log_out_all : AuthenticatedActor → ℕ → Store → Store
log_out_all actor now = revoke_sessions_for_user actor.id now logout_all

-- `requireUser`
abbrev or_invalid : Option IdentityUser → Exec Store IdentityUser
or_invalid none = throw (unauthorized invalid_session)
or_invalid (some user) = pure user

unfoldable pub require_user : ℕ → Exec Store IdentityUser
require_user id = do found ← gets (find_by_id id); or_invalid found

module _ (r : Runtime) (a : AuthConfig) (k : Codec) where
  -- `user.passwordHash && await this.passwords.verify(password, user.passwordHash)`
  abbrev pub verifies : Text → IdentityUser → Bool
  verifies password user = elim user.password_hash [
    | none ↦ false
    | some hash ↦ is_truthy (some hash) && r.scrypt_verify password hash
  ]

  unfoldable pub refuse_login : List ThrottleKey → ℕ → Exec Store AuthSessionTokens
  refuse_login keys now = do record_failure r keys now; throw (unauthorized invalid_credentials)

  -- What follows a password that is right.
  unfoldable pub admit :
      IdentityUser → SessionClientContext → ℕ → Draws → Exec Store AuthSessionTokens
  admit user context now d =
      if user.status == pending
      then throw (forbidden account_unverified)
      else if not (user.status == active)
      then throw (forbidden account_inactive)
      else (do modify (mark_login user.id now); create a k r user context d)

  unfoldable pub login_as :
      Option IdentityUser
      → LoginInput
      → List ThrottleKey
      → SessionClientContext
      → ℕ
      → Draws
      → Exec Store AuthSessionTokens
  login_as none input keys context now d = refuse_login keys now
  login_as (some user) input keys context now d =
      if verifies input.password user
      then (do modify (clear r keys); admit user context now d)
      else refuse_login keys now

  unfoldable pub login :
      LoginInput → SessionClientContext → ℕ → Draws → Exec Store AuthSessionTokens
  login input context now d =
      let email = normalize_email input.email in
      let keys = login_keys a email context in
      do
        assert_allowed r keys now
        user ← gets (find_by_email email)
        login_as user input keys context now d

  -- `changePassword`; `salt` is drawn by the password hasher.
  unfoldable pub change_password :
      AuthenticatedActor
      → ChangePasswordInput
      → SessionClientContext
      → Text
      → ℕ
      → Draws
      → Exec Store AuthSessionTokens
  change_password actor input context salt now d = do
    user ← require_user actor.id
    require (verifies input.current_password user) (unauthorized invalid_credentials)
    require (not (verifies input.new_password user)) (bad_request password_unchanged)
    modify (update_password user.id (r.scrypt_hash salt input.new_password))
    modify (revoke_sessions_for_user user.id now password_change)
    create a k r user context d

  -- `isSocialProvider`
  abbrev pub social_provider : Text → Option SocialProvider
  social_provider name =
      if name == text "google"
      then some google
      else if name == text "facebook"
      then some facebook
      else if name == text "apple"
      then some apple
      else none

  abbrev display_name_of : Option Text → Text
  display_name_of none = text "Smart Platform User"
  display_name_of (some name) = elim (or_null (trim name)) [
    | none ↦ text "Smart Platform User"
    | some s ↦ s
  ]

  abbrev require_email : Option Text → Exec Store Text
  require_email none = throw (bad_request social_signup_details_required)
  require_email (some []) = throw (bad_request social_signup_details_required)
  require_email (some (c ∷ s)) = pure (c ∷ s)

  abbrev require_role : Option ActorRole → Exec Store ActorRole
  require_role none = throw (bad_request social_signup_details_required)
  require_role (some role) = pure role

  abbrev no_account : Option IdentityUser → Exec Store Unit
  no_account none = pure tt
  no_account (some user) = throw (conflict explicit_identity_link_required)

  -- The first login with an identity; `id` is drawn by the database.
  unfoldable pub first_social_login :
      SocialProvider → VerifiedSocialIdentity → Option ActorRole → ℕ → Exec Store IdentityUser
  first_social_login provider verified role id = do
    email ← require_email verified.email
    new_role ← require_role role
    existing ← gets (find_by_email email)
    no_account existing
    create_social_user id (record {
      email = normalize_email email;
      display_name = display_name_of verified.display_name;
      role = new_role;
      provider = provider;
      provider_subject = verified.subject;
    })

  unfoldable pub linked_or_new :
      Option IdentityUser
      → SocialProvider
      → VerifiedSocialIdentity
      → Option ActorRole
      → ℕ
      → Exec Store IdentityUser
  linked_or_new (some user) provider verified role id = pure user
  linked_or_new none provider verified role id = first_social_login provider verified role id

  unfoldable pub social_login_with :
      SocialProvider
      → VerifiedSocialIdentity
      → Option ActorRole
      → SessionClientContext
      → ℕ
      → ℕ
      → Draws
      → Exec Store AuthSessionTokens
  social_login_with provider verified role context id now d = do
    found ← gets (find_by_social_identity provider verified.subject)
    user ← linked_or_new found provider verified role id
    require (user.status == active) (forbidden account_inactive)
    modify (mark_login user.id now)
    create a k r user context d

  -- `verify` is the verifier of the provider, which answers or throws.
  unfoldable pub social_login :
      (SocialProvider → Text → Result VerifiedSocialIdentity)
      → Text
      → Text
      → Option ActorRole
      → SessionClientContext
      → ℕ
      → ℕ
      → Draws
      → Exec Store AuthSessionTokens
  social_login verify name credential role context id now d = elim (social_provider name) [
    | none ↦ throw (bad_request social_provider_unsupported)
    | some provider ↦ do
      verified ← lift (verify provider credential)
      social_login_with provider verified role context id now d
  ]
