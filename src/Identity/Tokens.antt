-- ===== src/Identity/Tokens.antt =====
-- create, refresh, logout and authenticateAccess of libs/identity/src/security/jwt-session.service.ts.
-- A date is in milliseconds, a claim's in seconds.
pub mod RoundTrip
pub mod Authenticate
pub mod Refresh
pub mod Lasting
use smart_platform_services.Common.{
  ℕ, ◌+◌, ◌*◌, ◌/◌, Bool, true, false, not, ◌&&◌, ◌||◌, Option, none, some, List, [], ◌∷◌, ◌++◌,
  Text, text, ltb, leb, if◌then◌else◌, ◌==◌, nat_Eq, text_Eq, holds, is_some, split, slice,
}
use smart_platform_services.Identity.Contracts.{
  AuthenticatedActor, active, status_Eq, unauthorized, invalid_session,
}
use smart_platform_services.Identity.Exec.{
  Exec, Result, ok, err, pure, throw, lift, gets, modify, ◌>>=◌, ◌>>◌,
}
use smart_platform_services.Identity.Runtime.{Runtime, SessionClientContext, AuthConfig}
use smart_platform_services.Identity.Session.{
  NewSession, create_session, RotationInput, SessionRotationResult, was_rotated, was_missing,
  was_expired, was_reused, rotate_session, is_session_active, revoke_session_by_token_hash,
  revoke_sessions_for_user,
}
use smart_platform_services.Identity.Store.{Store, IdentityUser, logged_out, account_not_active}
use smart_platform_services.Identity.Users.{find_by_id}
use smart_platform_services.Identity.Jwt.{
  Claims, Codec, AccessIds, RefreshIds, seconds, sign, verify_access, verify_refresh,
}

pub record AuthSessionTokens : Type 0 where
  pub access_token : Text
  pub refresh_token : Text
  pub access_expires_in_seconds : ℕ
  pub refresh_expires_in_seconds : ℕ

-- What a sign-in draws: the time and the ids of `randomUUID()`.
pub record Draws : Type 0 where
  pub now : ℕ
  pub session_id : ℕ
  pub family_id : ℕ
  pub access_jti : ℕ
  pub refresh_jti : ℕ

module _ (a : AuthConfig) (k : Codec) where
  abbrev pub access_claims : ℕ → ℕ → ℕ → ℕ → Claims
  access_claims user_id session_id issued_at jti = record {
    iss = some a.jwt_issuer;
    aud = some (text "smart-platform-api");
    sub = some user_id;
    sid = some session_id;
    fid = none;
    typ = some (text "access");
    iat = some (seconds issued_at);
    exp = some (seconds issued_at + a.access_ttl_seconds);
    jti = some jti;
  }

  unfoldable pub sign_access : ℕ → ℕ → ℕ → ℕ → Text
  sign_access user_id session_id issued_at jti =
      sign a k (access_claims user_id session_id issued_at jti) a.jwt_access_secret

  abbrev pub refresh_claims : ℕ → ℕ → ℕ → ℕ → ℕ → Claims
  refresh_claims user_id session_id family_id issued_at jti = record {
    iss = some a.jwt_issuer;
    aud = some (text "smart-platform-auth");
    sub = some user_id;
    sid = some session_id;
    fid = some family_id;
    typ = some (text "refresh");
    iat = some (seconds issued_at);
    exp = some (seconds issued_at + a.refresh_ttl_seconds);
    jti = some jti;
  }

  unfoldable pub sign_refresh : ℕ → ℕ → ℕ → ℕ → ℕ → Text
  sign_refresh user_id session_id family_id issued_at jti =
      sign a k (refresh_claims user_id session_id family_id issued_at jti) a.jwt_refresh_secret

  abbrev pub token_pair : ℕ → ℕ → Text → ℕ → ℕ → AuthSessionTokens
  token_pair user_id session_id refresh_token issued_at jti = record {
    access_token = sign_access user_id session_id issued_at jti;
    refresh_token = refresh_token;
    access_expires_in_seconds = a.access_ttl_seconds;
    refresh_expires_in_seconds = a.refresh_ttl_seconds;
  }

  module _ (r : Runtime) where
    abbrev cut : Option Text → Option Text
    cut none = none
    cut (some s) = some (slice 500 s)

    abbrev pub new_session : ℕ → ℕ → ℕ → Text → SessionClientContext → ℕ → NewSession
    new_session user_id session_id family_id refresh_token context issued_at = record {
      id = session_id;
      family_id = family_id;
      user_id = user_id;
      refresh_token_hash = r.sha256 refresh_token;
      expires_at = issued_at + a.refresh_ttl_seconds * 1000;
      ip_address = context.ip_address;
      user_agent = cut context.user_agent;
    }

    unfoldable pub create :
        IdentityUser → SessionClientContext → Draws → Exec Store AuthSessionTokens
    create user context d =
        let refresh_token = sign_refresh user.id d.session_id d.family_id d.now d.refresh_jti in
        do
          create_session (new_session user.id d.session_id d.family_id refresh_token context d.now)
          pure (token_pair user.id d.session_id refresh_token d.now d.access_jti)

    -- The part of `refresh` behind `rotateSession`: the answer is for an active account only.
    abbrev pub finish_for :
        Option IdentityUser → RefreshIds → Text → Draws → Exec Store AuthSessionTokens
    finish_for none claims replacement_token d store = (
      err (unauthorized invalid_session),
      revoke_sessions_for_user claims.user_id d.now account_not_active store,
    )
    finish_for (some user) claims replacement_token d store =
        if user.status == active
        then (ok (token_pair user.id d.session_id replacement_token d.now d.access_jti), store)
        else (
          err (unauthorized invalid_session),
          revoke_sessions_for_user claims.user_id d.now account_not_active store,
        )

    unfoldable pub finish_refresh :
        SessionRotationResult → RefreshIds → Text → Draws → Exec Store AuthSessionTokens
    finish_refresh was_rotated claims replacement_token d store =
        finish_for (find_by_id claims.user_id store) claims replacement_token d store
    finish_refresh _ claims replacement_token d store = (err (unauthorized invalid_session), store)

    abbrev pub rotation : RefreshIds → Text → Text → SessionClientContext → Draws → RotationInput
    rotation claims refresh_token replacement_token context d = record {
      current_session_id = claims.session_id;
      current_family_id = claims.family_id;
      current_token_hash = r.sha256 refresh_token;
      replacement =
          new_session claims.user_id d.session_id claims.family_id replacement_token context d.now;
      used_at = d.now;
    }

    -- `refresh`; `at` is the time of the check of the token. `d.family_id` is not used.
    unfoldable pub refresh : Text → SessionClientContext → ℕ → Draws → Exec Store AuthSessionTokens
    refresh refresh_token context at d = do
      claims ← lift (verify_refresh a k refresh_token at)
      let replacement_token =
          sign_refresh claims.user_id d.session_id claims.family_id d.now d.refresh_jti
      result ← rotate_session (rotation claims refresh_token replacement_token context d)
      finish_refresh result claims replacement_token d

    unfoldable pub logout : Text → ℕ → Store → Store
    logout refresh_token at = revoke_session_by_token_hash (r.sha256 refresh_token) at logged_out

  abbrev actor_of : AccessIds → Bool → Option IdentityUser → Result AuthenticatedActor
  actor_of claims live none = err (unauthorized invalid_session)
  actor_of claims live (some user) =
      if live && user.status == active
      then ok (record {
        id = user.id;
        roles = user.roles;
        status = user.status;
        session_id = claims.session_id;
      })
      else err (unauthorized invalid_session)

  -- `authenticateAccess`: `at` is the time of the check of the token, `now` that of the session's.
  unfoldable pub authenticate_access : Text → ℕ → ℕ → Exec Store AuthenticatedActor
  authenticate_access access_token at now = do
    claims ← lift (verify_access a k access_token at)
    active_session ← gets (is_session_active claims.session_id claims.user_id now)
    user ← gets (find_by_id claims.user_id)
    lift (actor_of claims active_session user)
