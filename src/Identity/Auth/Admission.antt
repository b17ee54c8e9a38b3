-- ===== src/Identity/Auth/Admission.antt =====
-- A login lets the account in: the guard, the limiter and the session of `login` together.
use smart_platform_services.Common.{
  ℕ, ◌+◌, ◌*◌, ◌<◌, ◌≤◌, ◌≡◌, refl, sym, ◌∙◌, ◌==◌, ◌&&◌, Bool, some, Text, arith, eq_self, nat_eq,
  nat_Eq, Bool-cases, inl, inr, find_where_sound, find_where-update_where, count_where,
  count_where_mono, find_where_other,
}
use native.Mathlib.Nat.{le_trans}
use smart_platform_services.Identity.Contracts.{pending, active, status_Eq, same_status_iff}
use smart_platform_services.Identity.Exec.{ok}
use smart_platform_services.Identity.Runtime.{Runtime, AuthConfig, SessionClientContext}
use smart_platform_services.Identity.Store.{Store, IdentityUser}
use smart_platform_services.Identity.Throttle.{clear}
use smart_platform_services.Identity.Throttle.Limiter.{longest_wait, assert_allowed_lem}
use smart_platform_services.Identity.Throttle.Frame.{record_failure-OnlyThrottles, clear-users}
use smart_platform_services.Identity.Users.{
  is_user, is_current, has_email, find_one, find_by_id, find_by_email, mark_login, update_users,
}
use smart_platform_services.Identity.Jwt.{Codec, seconds}
use smart_platform_services.Identity.Tokens.{
  AuthSessionTokens, Draws, access_claims, authenticate_access, create,
}
use smart_platform_services.Identity.Tokens.RoundTrip.{IsCodecFor}
use smart_platform_services.Identity.Tokens.Authenticate.{authenticate_access-create}
use smart_platform_services.Identity.Auth.{normalize_email, login_keys}
use smart_platform_services.Identity.Auth.SignIn.{
  LoginInput, verifies, refuse_login, admit, login_as, login,
}

-- The id of an account that is found by its address finds it too, when ids are distinct.
found_by_id :
    (email : Text) (store : Store) (user : IdentityUser)
    → ((id : ℕ) → count_where (is_user id) store.users ≤ 1)
    → find_by_email email store ≡ some user
    → find_by_id user.id store ≡ some user
unfolding find_by_email find_by_id find_one
found_by_id email store user distinct f =
    let by_address : IdentityUser → Bool = λ u. has_email email u && is_current u in
    let by_id : IdentityUser → Bool = λ u. is_user user.id u && is_current u in
    find_where_other by_address by_id store.users user f
      (ground (arith, eq_self user.id, find_where_sound by_address store.users user f))
      (le_trans (count_where_mono by_id (is_user user.id) store.users (λ u k. ground (arith, k)))
        (distinct user.id))

marked :
    (id at : ℕ) (store : Store) (user : IdentityUser)
    → find_by_id id store ≡ some user
    → find_by_id id (mark_login id at store) ≡ some (record user { last_login_at = some at })
unfolding find_by_id find_one mark_login update_users
marked id at store user f =
    find_where-update_where (λ u. is_user id u && is_current u) (is_user id)
      (λ u. record u { last_login_at = some at }) store.users (λ u k. refl)
    ∙ ground (arith, f, find_where_sound (λ u. is_user id u && is_current u) store.users user)

module _ (r : Runtime) (a : AuthConfig) (k : Codec) where
  -- A login that gives tokens has found the password right and the account active.
  login-ok :
      (input : LoginInput) (context : SessionClientContext) (now : ℕ) (d : Draws) (store : Store)
      (user : IdentityUser) (tokens : AuthSessionTokens)
      → find_by_email (normalize_email input.email) store ≡ some user
      → (login r a k input context now d store).0 ≡ ok tokens
      → let keys = login_keys a (normalize_email input.email) context in
        (user.status ≡ active)
        × (login r a k input context now d store
            ≡ create a k r user context d (mark_login user.id now (clear r keys store)))
  unfolding login login_as refuse_login admit
  login-ok input context now d store user tokens f e =
      let keys = login_keys a (normalize_email input.email) context in
      let limiter = assert_allowed_lem r keys now store in
      elim (Bool-cases (nat_eq (longest_wait r store now keys) 0)) [
        | inr z ↦ absurd (cc (rw (limiter, z) at e))
        | inl z ↦ elim (Bool-cases (verifies r a k input.password user)) [
          | inr v ↦
              absurd
                (cc (rw (limiter, z, f, v, (record_failure-OnlyThrottles r keys now store).0) at e))
          | inl v ↦ elim (Bool-cases (user.status == pending)) [
            | inl p ↦ absurd (cc (rw (limiter, z, f, v, p) at e))
            | inr p ↦ elim (Bool-cases (user.status == active)) [
              | inr q ↦ absurd (cc (rw (limiter, z, f, v, p, q) at e))
              | inl q ↦ ((same_status_iff user.status active).0 q, rw (limiter, z, f, v, p, q) refl)
            ]
          ]
        ]
      ]

  -- When a login gives tokens for the account that its address finds, the access token lets that
  -- account in, with its roles, in the store that the login leaves: for as long as neither the token
  -- nor the session has expired, and on a clock not more than 30 seconds behind the login's, where the
  -- ids of the accounts are distinct and the codec reads back what it has written.
  pub authenticate_access-login :
      (input : LoginInput) (context : SessionClientContext) (now : ℕ) (d : Draws) (store : Store)
      (user : IdentityUser) (tokens : AuthSessionTokens) (at later : ℕ)
      → ((id : ℕ) → count_where (is_user id) store.users ≤ 1)
      → IsCodecFor k a.jwt_access_secret (access_claims a k user.id d.session_id d.now d.access_jti)
      → find_by_email (normalize_email input.email) store ≡ some user
      → (login r a k input context now d store).0 ≡ ok tokens
      → seconds d.now ≤ seconds at + 30
      → seconds at < seconds d.now + a.access_ttl_seconds
      → later < d.now + a.refresh_ttl_seconds * 1000
      → let after = (login r a k input context now d store).1 in
        authenticate_access a k tokens.access_token at later after ≡ (
          ok (record {
            id = user.id;
            roles = user.roles;
            status = active;
            session_id = d.session_id;
          }),
          after,
        )
  authenticate_access-login input context now d store user tokens at later distinct codec f e early
        late live =
      let keys = login_keys a (normalize_email input.email) context in
      let cleared = clear r keys store in
      let step = login-ok input context now d store user tokens f e in
      let stored : find_by_id user.id cleared ≡ some user =
        unfold find_by_id find_one in
        rw (clear-users r keys store)
          (found_by_id (normalize_email input.email) store user distinct f) in
      rw (step.1, sym step.0)
        (authenticate_access-create r a k user (record user { last_login_at = some now }) context d
          (mark_login user.id now cleared) tokens at later codec (rw step.1 at e)
          (marked user.id now cleared user stored) step.0 early late live)
