-- ===== src/Identity/Tokens/Refresh.antt =====
-- Refresh tokens: each is good for one use, and a second use is detected.
use smart_platform_services.Common.{
  ℕ, ◌+◌, ◌*◌, ◌≡◌, refl, ap, ◌∙◌, ◌⊎◌, false, some, Text, ltb, ◌==◌, nat_Eq, eq_self, Bool-cases,
  Option-cases, inl, inr,
}
use smart_platform_services.Identity.Contracts.{active, status_Eq, unauthorized, invalid_session}
use smart_platform_services.Identity.Exec.{Result-cases, ok, err}
use smart_platform_services.Identity.Runtime.{Runtime, AuthConfig, SessionClientContext}
use smart_platform_services.Identity.Session.{
  SessionRotationResult, was_rotated, was_missing, was_expired, was_reused, RotationInput,
  rotate_session, is_session_active, revoke_sessions_for_user,
}
use smart_platform_services.Identity.Session.Rotation.{
  FamilyRevoked, rotate_session_lem, rotate_session_twice, revoke_sessions_for_user_lem,
}
use smart_platform_services.Identity.Store.{Store, IdentityUser, account_not_active}
use smart_platform_services.Identity.Users.{find_by_id}
use smart_platform_services.Identity.Tokens.{
  AuthSessionTokens, Draws, sign_refresh, new_session, rotation, finish_refresh, refresh,
}
use smart_platform_services.Identity.Jwt.{Codec, RefreshIds, verify_refresh}
use smart_platform_services.Identity.Tokens.Lasting.{verify_refresh-later}

module _ (r : Runtime) (a : AuthConfig) (k : Codec) where
  abbrev replacement_for : RefreshIds → Draws → Text
  replacement_for ids d =
      sign_refresh a k ids.user_id d.session_id ids.family_id d.now d.refresh_jti

  abbrev rotation_for : RefreshIds → Text → SessionClientContext → Draws → RotationInput
  rotation_for ids token context d = rotation a k r ids token (replacement_for ids d) context d

  finish_refresh-ok :
      (result : SessionRotationResult) (ids : RefreshIds) (replacement : Text) (d : Draws)
      (store : Store) (tokens : AuthSessionTokens)
      → (finish_refresh a k r result ids replacement d store).0 ≡ ok tokens
      → (result ≡ was_rotated) × ((finish_refresh a k r result ids replacement d store).1 ≡ store)
  unfolding finish_refresh
  finish_refresh-ok was_rotated ids replacement d store tokens e =
      elim (Option-cases (find_by_id ids.user_id store)) [
        | inl n ↦ absurd (cc (rw n at e))
        | inr (user, f) ↦ elim (Bool-cases (user.status == active)) [
          | inl s ↦ rw (f, s) (refl, refl)
          | inr s ↦ absurd (cc (rw (f, s) at e))
        ]
      ]
  finish_refresh-ok was_missing ids replacement d store tokens e = absurd (cc)
  finish_refresh-ok was_expired ids replacement d store tokens e = absurd (cc)
  finish_refresh-ok was_reused ids replacement d store tokens e = absurd (cc)

  -- A refresh that succeeds is a rotation that succeeds.
  refresh-ok :
      (token : Text) (context : SessionClientContext) (at : ℕ) (d : Draws) (store : Store)
      (ids : RefreshIds) (tokens : AuthSessionTokens)
      → verify_refresh a k token at ≡ ok ids
      → (refresh a k r token context at d store).0 ≡ ok tokens
      → ((rotate_session (rotation_for ids token context d) store).0 ≡ ok was_rotated)
        × ((refresh a k r token context at d store).1
            ≡ (rotate_session (rotation_for ids token context d) store).1)
  unfolding refresh
  refresh-ok token context at d store ids tokens v e =
      elim (Result-cases (rotate_session (rotation_for ids token context d) store).0) [
        | inl (result, q) ↦
            let after = (rotate_session (rotation_for ids token context d) store).1 in
            let done =
              finish_refresh-ok result ids (replacement_for ids d) d after tokens
                (rw (v, q) at e) in
            rw (v, q) (ap ok done.0, done.1)
        | inr (x, q) ↦ absurd (cc (rw (v, q) at e))
      ]

  -- After a refresh the session that the token named is not active any more, and the new one is active
  -- for the same user until it expires.
  pub refresh_lem :
      (token : Text) (context : SessionClientContext) (at : ℕ) (d : Draws) (store : Store)
      (ids : RefreshIds) (tokens : AuthSessionTokens) (now : ℕ)
      → verify_refresh a k token at ≡ ok ids
      → (refresh a k r token context at d store).0 ≡ ok tokens
      → let after = (refresh a k r token context at d store).1 in
        (is_session_active ids.session_id ids.user_id now after ≡ false)
        × (is_session_active d.session_id ids.user_id now after
            ≡ ltb now (d.now + a.refresh_ttl_seconds * 1000))
  refresh_lem token context at d store ids tokens now v e =
      let step = refresh-ok token context at d store ids tokens v e in
      let done =
        rotate_session_lem (rotation_for ids token context d) store ids.user_id now step.0 in
      rw step.1 (done.0, done.1 ∙ rw (eq_self ids.user_id) refl)

  -- A refresh token that has been used is refused when it comes again, at any time, from whatever
  -- client and with whatever draws: when it is not accepted at that time nothing is written, and
  -- otherwise it names the session that it named before, and the whole family of that is revoked.
  pub refresh_twice :
      (token : Text) (context other : SessionClientContext) (at later : ℕ) (d e : Draws)
      (store : Store) (ids : RefreshIds) (tokens : AuthSessionTokens)
      → verify_refresh a k token at ≡ ok ids
      → (refresh a k r token context at d store).0 ≡ ok tokens
      → let after = (refresh a k r token context at d store).1 in
        let again = refresh a k r token other later e after in
        (again.0 ≡ err (unauthorized invalid_session))
        × ((verify_refresh a k token later ≡ err (unauthorized invalid_session)) × (again.1 ≡ after)
            ⊎ (verify_refresh a k token later ≡ ok ids)
              × FamilyRevoked ids.family_id again.1.sessions)
  unfolding refresh finish_refresh
  refresh_twice token context other at later d e store ids tokens v ok₁ =
      let step = refresh-ok token context at d store ids tokens v ok₁ in
      let after = (rotate_session (rotation_for ids token context d) store).1 in
      let second =
        rotate_session_twice (rotation_for ids token context d)
          (new_session a k r ids.user_id e.session_id ids.family_id (replacement_for ids e) other
            e.now)
          e.now store step.0 in
      elim (verify_refresh-later a k token at later ids v) [
        | inl w ↦ rw (step.1, w) (refl, inl (refl, refl))
        | inr w ↦ rw (step.1, w, second.0) (refl, inr (refl, second.1))
      ]

  -- A refresh for an account that is gone or not active gives no tokens and leaves the account no
  -- active session at any time.
  pub refresh_inactive :
      (token : Text) (context : SessionClientContext) (at : ℕ) (d : Draws) (store : Store)
      (ids : RefreshIds) (id now : ℕ)
      → verify_refresh a k token at ≡ ok ids
      → (rotate_session (rotation_for ids token context d) store).0 ≡ ok was_rotated
      → ((user : IdentityUser)
          → find_by_id ids.user_id (rotate_session (rotation_for ids token context d) store).1
            ≡ some user
          → (user.status == active) ≡ false)
      → let (answer, after) = refresh a k r token context at d store in
        (answer ≡ err (unauthorized invalid_session))
        × (is_session_active id ids.user_id now after ≡ false)
  unfolding refresh finish_refresh
  refresh_inactive token context at d store ids id now v q h =
      let after = (rotate_session (rotation_for ids token context d) store).1 in
      let gone : is_session_active id ids.user_id now
            (revoke_sessions_for_user ids.user_id d.now account_not_active after)
          ≡ false =
        revoke_sessions_for_user_lem ids.user_id d.now account_not_active after id ids.user_id now
        ∙ rw (eq_self ids.user_id) refl in
      elim (Option-cases (find_by_id ids.user_id after)) [
        | inl n ↦ rw (v, q, n) (refl, gone)
        | inr (user, f) ↦ rw (v, q, f, h user f) (refl, gone)
      ]
