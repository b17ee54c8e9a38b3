-- ===== src/Identity/Tokens/Authenticate.antt =====
-- Whom an access token lets in, and until when.
use smart_platform_services.Common.{
  ℕ, ◌+◌, ◌*◌, ◌<◌, ◌≤◌, ◌≡◌, ◌≢◌, refl, sym, ◌∙◌, true, false, ◌&&◌, Option, none, some, Text,
  arith, ◌==◌, nat_Eq, text_Eq, eq_self, Bool-cases, inl, inr, exists_where, same_text,
}
use smart_platform_services.Identity.Contracts.{
  AuthenticatedActor, active, status_Eq, same_status_iff,
}
use smart_platform_services.Identity.Exec.{Result-cases, ok}
use smart_platform_services.Identity.Runtime.{Runtime, AuthConfig, SessionClientContext}
use smart_platform_services.Identity.Session.{
  update_sessions, create_session, is_session, is_token, is_session_active,
  revoke_sessions_for_user,
}
use smart_platform_services.Identity.Session.Rotation.{revoke_sessions_for_user_lem}
use smart_platform_services.Identity.Store.{Store, IdentityUser, RevokeReason}
use smart_platform_services.Identity.Users.{find_by_id_sound, find_one, find_by_id}
use smart_platform_services.Identity.Tokens.{
  AuthSessionTokens, Draws, access_claims, sign_access, sign_refresh, create, actor_of,
  authenticate_access,
}
use smart_platform_services.Identity.Jwt.{
  Codec, AccessIds, seconds, fresh_claims, verify, access_ids, verify_access,
}
use smart_platform_services.Identity.Tokens.RoundTrip.{IsCodecFor, verify-sign}

-- What holds of an access that is granted.
pub record Grants (a : AuthConfig) (k : Codec) (token : Text) (at now : ℕ) (store : Store)
    (actor : AuthenticatedActor) : Type 0 where
  pub ids :
      verify_access a k token at ≡ ok (record { user_id = actor.id; session_id = actor.session_id })
  pub live : is_session_active actor.session_id actor.id now store ≡ true
  pub user : IdentityUser
  pub found : find_by_id actor.id store ≡ some user
  pub is_active : user.status ≡ active
  pub roles : actor.roles ≡ user.roles

module _ (a : AuthConfig) (k : Codec) where
  granted :
      (token : Text) (at now : ℕ) (store : Store) (actor : AuthenticatedActor) (c : AccessIds)
      (o : Option IdentityUser)
      → verify_access a k token at ≡ ok c
      → find_by_id c.user_id store ≡ o
      → actor_of a k c (is_session_active c.session_id c.user_id now store) o ≡ ok actor
      → Grants a k token at now store actor
  granted token at now store actor c none v f e = absurd (cc)
  granted token at now store actor c (some user) v f e =
      elim (Bool-cases
        (is_session_active c.session_id c.user_id now store && user.status == active)) [
          | inl l ↦
              let made : ok actor
                  ≡ ok (record {
                    id = user.id;
                    roles = user.roles;
                    status = user.status;
                    session_id = c.session_id;
                  }) =
                sym e ∙ rw l refl in
              let owner = find_by_id_sound c.user_id store user f in
              record {
                ids = ground (arith, v, made, owner);
                live = ground (arith, l, made, owner);
                user = user;
                found = ground (arith, f, made, owner);
                is_active = ground (arith, l, same_status_iff user.status active);
                roles = ground (arith, made);
              }
          | inr l ↦ absurd (cc (rw l at e))
        ]

  -- Access is granted only by a token that is verified, for the user and the session that it names, to
  -- a session that is live and unexpired, and to an account that is there and active; the roles are
  -- those that the account has at that time.
  pub authenticate_access_sound :
      (token : Text) (at now : ℕ) (store : Store) (actor : AuthenticatedActor)
      → (authenticate_access a k token at now store).0 ≡ ok actor
      → Grants a k token at now store actor
  unfolding authenticate_access
  authenticate_access_sound token at now store actor e =
      elim (Result-cases (verify_access a k token at)) [
        | inl (c, v) ↦
            granted token at now store actor c (find_by_id c.user_id store) v refl (rw v at e)
        | inr (x, v) ↦ absurd (cc (rw v at e))
      ]

  -- After all sessions of a user are revoked, at whatever time and for whatever reason, no token lets
  -- that user in, at any time; and whom a token lets in, it could let in before.
  pub authenticate_access-revoke_sessions_for_user :
      (token : Text) (at now : ℕ) (user revoked : ℕ) (reason : RevokeReason) (store : Store)
      (actor : AuthenticatedActor)
      → (authenticate_access a k token at now
          (revoke_sessions_for_user user revoked reason store)).0
        ≡ ok actor
      → (actor.id ≢ user) × Grants a k token at now store actor
  unfolding find_by_id find_one revoke_sessions_for_user update_sessions
  authenticate_access-revoke_sessions_for_user token at now user revoked reason store actor e =
      let after = revoke_sessions_for_user user revoked reason store in
      let g = authenticate_access_sound token at now after actor e in
      let lem =
        revoke_sessions_for_user_lem user revoked reason store actor.session_id actor.id now in
      elim (Bool-cases (actor.id == user)) [
        | inl s ↦
            let gone : is_session_active actor.session_id actor.id now after ≡ false =
              lem ∙ rw s refl in
            absurd (cc (g.live, gone))
        | inr s ↦
            let kept : is_session_active actor.session_id actor.id now after
                ≡ is_session_active actor.session_id actor.id now store =
              lem ∙ rw s refl in
            (
              λ same. absurd (ground (arith, s, same)),
              record {
                ids = g.ids;
                live = sym kept ∙ g.live;
                user = g.user;
                found = g.found;
                is_active = g.is_active;
                roles = g.roles;
              },
            )
      ]

module _ (r : Runtime) (a : AuthConfig) (k : Codec) where
  pub create-active :
      (user : IdentityUser) (context : SessionClientContext) (d : Draws) (store : Store)
      (tokens : AuthSessionTokens) (now : ℕ)
      → (create a k r user context d store).0 ≡ ok tokens
      → now < d.now + a.refresh_ttl_seconds * 1000
      → let after = (create a k r user context d store).1 in
        (tokens.access_token ≡ sign_access a k user.id d.session_id d.now d.access_jti)
        × (is_session_active d.session_id user.id now after ≡ true)
        × (after.users ≡ store.users)
  unfolding create create_session is_session_active exists_where
  create-active user context d store tokens now e l =
      elim (Bool-cases (exists_where (is_session d.session_id) store.sessions)) [
        | inl x ↦ absurd (cc (rw x at e))
        | inr x ↦
            elim (Bool-cases (
              exists_where
                (is_token (
                  r.sha256 (sign_refresh a k user.id d.session_id d.family_id d.now d.refresh_jti)))
                store.sessions)) [
                  | inl y ↦ absurd (cc (rw (x, y) at e))
                  | inr y ↦
                      let made = rw (x, y) at e in
                      rw (x, y)
                        (
                          ground (arith, made),
                          ground (arith, eq_self d.session_id, eq_self user.id),
                          refl,
                        )
                ]
      ]

  -- The access token that `create` gives lets its user in, in the store that `create` leaves, for as
  -- long as neither it nor the session has expired; what it answers is the account as it is stored,
  -- which may differ from the row that was read earlier.
  pub authenticate_access-create :
      (user stored : IdentityUser) (context : SessionClientContext) (d : Draws) (store : Store)
      (tokens : AuthSessionTokens) (at now : ℕ)
      → IsCodecFor k a.jwt_access_secret (access_claims a k user.id d.session_id d.now d.access_jti)
      → (create a k r user context d store).0 ≡ ok tokens
      → find_by_id user.id store ≡ some stored
      → stored.status ≡ active
      → seconds d.now ≤ seconds at + 30
      → seconds at < seconds d.now + a.access_ttl_seconds
      → now < d.now + a.refresh_ttl_seconds * 1000
      → let after = (create a k r user context d store).1 in
        authenticate_access a k tokens.access_token at now after ≡ (
          ok (record {
            id = user.id;
            roles = stored.roles;
            status = stored.status;
            session_id = d.session_id;
          }),
          after,
        )
  unfolding authenticate_access verify_access sign_access access_ids find_by_id find_one same_text
  authenticate_access-create user stored context d store tokens at now codec e found act early late
        live =
      let after = (create a k r user context d store).1 in
      let made = create-active user context d store tokens now e live in
      let claims = access_claims a k user.id d.session_id d.now d.access_jti in
      let fresh : fresh_claims a k (seconds at) claims ≡ true =
        ground (arith, eq_self a.jwt_issuer) in
      let checked : verify a k (sign_access a k user.id d.session_id d.now d.access_jti)
            a.jwt_access_secret at
          ≡ ok claims =
        verify-sign a k a.jwt_access_secret claims codec at ∙ rw fresh refl in
      let same : stored.id ≡ user.id = find_by_id_sound user.id store stored found in
      rw (made.0, checked, made.1, made.2, found, act) (rw same refl)

  -- A sign-in changes no other session.
  pub create-other :
      (user : IdentityUser) (context : SessionClientContext) (d : Draws) (store : Store)
      (id owner now : ℕ)
      → (id == d.session_id) ≡ false
      → is_session_active id owner now (create a k r user context d store).1
        ≡ is_session_active id owner now store
  unfolding create create_session is_session_active exists_where
  create-other user context d store id owner now other =
      let token =
        r.sha256 (sign_refresh a k user.id d.session_id d.family_id d.now d.refresh_jti) in
      elim (Bool-cases (exists_where (is_session d.session_id) store.sessions)) [
        | inl x ↦ rw x refl
        | inr x ↦ elim (Bool-cases (exists_where (is_token token) store.sessions)) [
          | inl y ↦ rw (x, y) refl
          | inr y ↦ rw (x, y) (ground (arith, other))
        ]
      ]
