-- ===== src/Identity/Auth/Sessions.antt =====
-- A new password ends the account's sessions.
use smart_platform_services.Common.{
  ℕ, ◌+◌, ◌*◌, ◌<◌, ◌≡◌, refl, sym, ap, ◌∙◌, true, false, ◌&&◌, some, Text, arith, ◌==◌, nat_Eq,
  text_Eq, eq_self, Bool-cases, Option-cases, inl, inr, find_where-update_where,
}
use smart_platform_services.Identity.Contracts.{AuthenticatedActor}
use smart_platform_services.Identity.Exec.{ok}
use smart_platform_services.Identity.Runtime.{Runtime, AuthConfig, SessionClientContext}
use smart_platform_services.Identity.Session.{
  is_session_active, revoke_sessions_for_user, update_sessions,
}
use smart_platform_services.Identity.Session.Rotation.{revoke_sessions_for_user_lem}
use smart_platform_services.Identity.Store.{Store, IdentityUser, password_change}
use smart_platform_services.Identity.Tokens.{AuthSessionTokens, Draws, create}
use smart_platform_services.Identity.Jwt.{Codec}
use smart_platform_services.Identity.Tokens.Authenticate.{create-active, create-other}
use smart_platform_services.Identity.Users.{
  find_one, find_by_id, find_by_id_sound, is_user, is_current, update_users, update_password,
}
use smart_platform_services.Identity.Auth.SignIn.{
  ChangePasswordInput, verifies, require_user, change_password,
}

abbrev with_password : Text → IdentityUser → IdentityUser
with_password hash user = record user { password_hash = some hash }

find_by_id-update_password :
    (id : ℕ) (hash : Text) (store : Store) (user : IdentityUser)
    → find_by_id id store ≡ some user
    → find_by_id id (update_password user.id hash store) ≡ some (with_password hash user)
unfolding find_by_id find_one update_password update_users
find_by_id-update_password id hash store user e =
    find_where-update_where (λ u. is_user id u && is_current u) (is_user user.id)
      (with_password hash) store.users (λ u k. refl)
    ∙ rw e (ground (arith, eq_self user.id))

module _ (r : Runtime) (a : AuthConfig) (k : Codec) where
  -- The store before the new session.
  abbrev ended : ℕ → Text → ℕ → Store → Store
  ended id hash now store =
      revoke_sessions_for_user id now password_change (update_password id hash store)

  changes :
      (actor : AuthenticatedActor) (input : ChangePasswordInput) (context : SessionClientContext)
      (salt : Text) (now : ℕ) (d : Draws) (store : Store) (tokens : AuthSessionTokens)
      → (change_password r a k actor input context salt now d store).0 ≡ ok tokens
      → (user : IdentityUser) × (find_by_id actor.id store ≡ some user)
        × (verifies r a k input.current_password user ≡ true)
        × (verifies r a k input.new_password user ≡ false)
        × (change_password r a k actor input context salt now d store
            ≡ create a k r user context d
                (ended user.id (r.scrypt_hash salt input.new_password) now store))
  unfolding change_password require_user
  changes actor input context salt now d store tokens e =
      elim (Option-cases (find_by_id actor.id store)) [
        | inl n ↦ absurd (cc (rw n at e))
        | inr (user, f) ↦ elim (Bool-cases (verifies r a k input.current_password user)) [
          | inr v ↦ absurd (cc (rw (f, v) at e))
          | inl v ↦ elim (Bool-cases (verifies r a k input.new_password user)) [
            | inl w ↦ absurd (cc (rw (f, v, w) at e))
            | inr w ↦ rw (f, v, w) (user, refl, v, w, refl)
          ]
        ]
      ]

  -- A change of password succeeds only with the current password and for a different one. It then
  -- stores the hash of the new one, ends every session that the account had, and opens the one whose
  -- tokens it answers.
  pub change_password_lem :
      (actor : AuthenticatedActor) (input : ChangePasswordInput) (context : SessionClientContext)
      (salt : Text) (now : ℕ) (d : Draws) (store : Store) (tokens : AuthSessionTokens)
      (id later : ℕ)
      → (change_password r a k actor input context salt now d store).0 ≡ ok tokens
      → (id == d.session_id) ≡ false
      → later < d.now + a.refresh_ttl_seconds * 1000
      → let after = (change_password r a k actor input context salt now d store).1 in
        (user : IdentityUser) × (find_by_id actor.id store ≡ some user)
        × (verifies r a k input.current_password user ≡ true)
        × (verifies r a k input.new_password user ≡ false)
        × (find_by_id actor.id after
            ≡ some (record user { password_hash = some (r.scrypt_hash salt input.new_password) }))
        × (is_session_active id actor.id later after ≡ false)
        × (is_session_active d.session_id actor.id later after ≡ true)
  unfolding find_by_id find_one revoke_sessions_for_user update_sessions
  change_password_lem actor input context salt now d store tokens id later e other live =
      let hash = r.scrypt_hash salt input.new_password in
      let (user, found, old, new, eq) = changes actor input context salt now d store tokens e in
      let owner = find_by_id_sound actor.id store user found in
      let before = ended user.id hash now store in
      let made =
        create-active r a k user context d before tokens later (sym (ap (λ x. x.0) eq) ∙ e) live in
      let gone : is_session_active id user.id later before ≡ false =
        revoke_sessions_for_user_lem user.id now password_change
          (update_password user.id hash store) id user.id later
        ∙ rw (eq_self user.id) refl in
      rw eq (
        user,
        found,
        old,
        new,
        rw made.2 (find_by_id-update_password actor.id hash store user found),
        rw⁻¹ owner (create-other r a k user context d before id user.id later other ∙ gone),
        rw⁻¹ owner made.1,
      )
