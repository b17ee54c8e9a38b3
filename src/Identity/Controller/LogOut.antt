-- ===== src/Identity/Controller/LogOut.antt =====
-- What signing out everywhere does to later requests.
use smart_platform_services.Common.{ℕ, ◌≡◌, ◌≢◌, refl, inl, inr, Option, Text, Option-cases}
use smart_platform_services.Identity.Contracts.{AuthenticatedActor}
use smart_platform_services.Identity.Exec.{Result-cases, ok}
use smart_platform_services.Identity.Store.{Store, logout_all}
use smart_platform_services.Identity.Session.{revoke_sessions_for_user}
use smart_platform_services.Identity.Runtime.{Runtime, AuthConfig}
use smart_platform_services.Identity.Jwt.{Codec, verify_access}
use smart_platform_services.Identity.Tokens.{authenticate_access}
use smart_platform_services.Identity.Tokens.Authenticate.{
  authenticate_access-revoke_sessions_for_user,
}
use smart_platform_services.Identity.Access.{jwt_auth_guard, bearer_token, parts_of}
use smart_platform_services.Identity.Auth.SignIn.{log_out_all}
use smart_platform_services.Identity.Controller.{
  Headers, AuthDraws, post_logout_all, get_me, me, handle_auth,
}

module _ (a : AuthConfig) (k : Codec) where
  -- The guard writes nothing.
  jwt_auth_guard_keeps :
      (authorization : Option Text) (at now : ℕ) (store : Store)
      → (jwt_auth_guard a k authorization at now store).1 ≡ store
  unfolding jwt_auth_guard authenticate_access
  jwt_auth_guard_keeps authorization at now store =
      elim (Option-cases (bearer_token (parts_of authorization))) [
        | inl n ↦ rw n refl
        | inr (token, f) ↦ elim (Result-cases (verify_access a k token at)) [
          | inl (c, v) ↦ rw (f, v) refl
          | inr (e, v) ↦ rw (f, v) refl
        ]
      ]

  -- Nobody whose sessions have all been revoked passes the guard.
  jwt_auth_guard-revoke_sessions_for_user :
      (authorization : Option Text) (at now user revoked : ℕ) (store : Store)
      (who : AuthenticatedActor)
      → (jwt_auth_guard a k authorization at now
          (revoke_sessions_for_user user revoked logout_all store)).0
        ≡ ok who
      → who.id ≢ user
  unfolding jwt_auth_guard
  jwt_auth_guard-revoke_sessions_for_user authorization at now user revoked store who e =
      elim (Option-cases (bearer_token (parts_of authorization))) [
        | inl n ↦ absurd (cc (rw n at e))
        | inr (token, f) ↦
            (authenticate_access-revoke_sessions_for_user a k token at now user revoked logout_all
              store who (rw f at e)).0
      ]

module _ (r : Runtime) (a : AuthConfig) (k : Codec) where
  -- After POST /auth/logout/all by an actor who passes the guard, GET /auth/me never answers with that
  -- account, whatever token a request brings and whenever it comes.
  pub log_out_all_lem :
      (h other : Headers) (d later : AuthDraws) (store : Store) (actor who : AuthenticatedActor)
      → (jwt_auth_guard a k h.authorization d.seconds d.now store).0 ≡ ok actor
      → (handle_auth r a k other later get_me (handle_auth r a k h d post_logout_all store).1).0
        ≡ ok (me who)
      → who.id ≢ actor.id
  unfolding handle_auth log_out_all
  log_out_all_lem h other d later store actor who passed e =
      let after = revoke_sessions_for_user actor.id d.now logout_all store in
      let kept = jwt_auth_guard_keeps a k h.authorization d.seconds d.now store in
      let answered = rw (passed, kept) at e in
      elim (Result-cases (jwt_auth_guard a k other.authorization later.seconds later.now after).0) [
        | inr (x, v) ↦ absurd (cc (rw v at answered))
        | inl (x, v) ↦
            let same : x ≡ who = cc (rw v at answered) in
            rw⁻¹ same (
              jwt_auth_guard-revoke_sessions_for_user a k other.authorization later.seconds
                later.now actor.id d.now store x v)
      ]
