-- ===== src/Identity/Auth/Completion.antt =====
-- The end of a password recovery: what it ends, and that its token is spent.
use smart_platform_services.Common.{
  ℕ, ◌≡◌, refl, sym, true, false, ◌&&◌, Option, none, some, Text, ltb, if◌then◌else◌, ◌==◌, nat_Eq,
  text_Eq, is_truthy, Bool-cases, ◌⊎◌, inl, inr, All,
}
use smart_platform_services.Identity.Contracts.{
  active, status_Eq, Error, unauthorized, bad_request, password_reset_token_invalid,
  password_confirmation_mismatch,
}
use smart_platform_services.Identity.Exec.{Exec, ok, err}
use smart_platform_services.Identity.Runtime.{Runtime, AuthConfig, SessionClientContext}
use smart_platform_services.Identity.Reset.{
  find_password_reset_token, PasswordResetResult, reset, invalid, ResetPassword,
  reset_password_with_token, can_reset,
}
use smart_platform_services.Identity.Reset.SingleUse.{reset_password_with_token_lem}
use smart_platform_services.Identity.Session.{is_session_active}
use smart_platform_services.Identity.Store.{Store, IdentityUser, PasswordResetToken}
use smart_platform_services.Identity.Users.{find_by_id}
use smart_platform_services.Identity.Auth.{hash_reset_token, hash_recovery_context}
use smart_platform_services.Identity.Auth.NewPassword.{
  is_good_token, require_token, account_with, require_account, is_reset, reset_input,
  complete_password_recovery,
}
use smart_platform_services.Identity.Auth.NewPassword.{RecoveryReset}

-- A check that writes nothing: it passes with a value, or throws.
abbrev Settled : {A : Type 0} → Exec Store A → Store → Type 0
Settled {A} m store =
    ((x : A) × (m store ≡ (ok x, store))) ⊎ ((e : Error) × (m store ≡ (err e, store)))

module _ (r : Runtime) (a : AuthConfig) where
  require_token-Settled :
      (o : Option PasswordResetToken) (context : SessionClientContext) (now : ℕ) (store : Store)
      → Settled (require_token r a o context now) store
  require_token-Settled none context now store =
      inr (unauthorized password_reset_token_invalid, refl)
  require_token-Settled (some token) context now store =
      elim (Bool-cases (is_good_token r a token context now)) [
        | inl g ↦ inl (token, rw g refl)
        | inr g ↦ inr (unauthorized password_reset_token_invalid, rw g refl)
      ]

  account_with-Settled :
      (user : IdentityUser) (email hash : Option Text) (store : Store)
      → Settled (account_with r a user email hash) store
  account_with-Settled user none hash store = inr (unauthorized password_reset_token_invalid, refl)
  account_with-Settled user (some e) none store =
      inr (unauthorized password_reset_token_invalid, refl)
  account_with-Settled user (some e) (some h) store =
      elim (Bool-cases (is_truthy (some e) && is_truthy (some h) && user.status == active)) [
        | inl g ↦ inl ((user, (e, h)), rw g refl)
        | inr g ↦ inr (unauthorized password_reset_token_invalid, rw g refl)
      ]

  require_account-Settled :
      (o : Option IdentityUser) (store : Store) → Settled (require_account r a o) store
  require_account-Settled none store = inr (unauthorized password_reset_token_invalid, refl)
  require_account-Settled (some user) store =
      account_with-Settled user user.email user.password_hash store

  is_reset-true : (x : PasswordResetResult) → is_reset r a x ≡ true → x ≡ reset
  is_reset-true reset e = refl
  is_reset-true invalid e = absurd (cc)

  completes :
      (input : RecoveryReset) (context : SessionClientContext) (salt : Text) (now : ℕ)
      (store : Store) (answer : Text)
      → (complete_password_recovery r a input context salt now store).0 ≡ ok answer
      → (write : ResetPassword) × (write.token_hash ≡ hash_reset_token r input.reset_token)
        × (write.context_hash ≡ hash_recovery_context r context)
        × (write.reset_at ≡ now)
        × (write.password_hash ≡ r.scrypt_hash salt input.new_password)
        × ((reset_password_with_token write store).0 ≡ reset)
        × ((complete_password_recovery r a input context salt now store).1
            ≡ (reset_password_with_token write store).1)
  unfolding complete_password_recovery
  completes input context salt now store answer e =
      let found = find_password_reset_token (hash_reset_token r input.reset_token) store in
      elim (Bool-cases (input.new_password == input.confirm_password)) [
        | inr p ↦ absurd (cc (rw p at e))
        | inl p ↦ elim (require_token-Settled found context now store) [
          | inr (x, q) ↦ absurd (cc (rw (p, q) at e))
          | inl (token, q) ↦ elim (require_account-Settled (find_by_id token.user_id store) store) [
            | inr (x, u) ↦ absurd (cc (rw (p, q, u) at e))
            | inl (account, u) ↦
                elim (Bool-cases (r.scrypt_verify input.new_password account.1.1)) [
                  | inl v ↦ absurd (cc (rw (p, q, u, v) at e))
                  | inr v ↦
                      let write = reset_input r a input account.0 account.1.0 context salt now in
                      let result = (reset_password_with_token write store).0 in
                      elim (Bool-cases (is_reset r a result)) [
                        | inr w ↦ absurd (cc (rw (p, q, u, v, w) at e))
                        | inl w ↦
                            rw (p, q, u, v, w)
                              (write, refl, refl, refl, refl, is_reset-true result w, refl)
                      ]
                ]
          ]
        ]
      ]

  -- A recovery that completes has found a token that is stored, unconsumed and unexpired, and that was
  -- issued to the same client. It spends the token, gives the token's account the hash of the new
  -- password, and leaves the account no active session, at any time.
  pub complete_password_recovery_lem :
      (input : RecoveryReset) (context : SessionClientContext) (salt : Text) (now : ℕ)
      (store : Store) (answer : Text) (session later : ℕ)
      → (complete_password_recovery r a input context salt now store).0 ≡ ok answer
      → let after = (complete_password_recovery r a input context salt now store).1 in
        let hash = hash_reset_token r input.reset_token in
        (token : PasswordResetToken) × (find_password_reset_token hash store ≡ some token)
        × (token.consumed_at ≡ none)
        × (ltb now token.expires_at ≡ true)
        × (token.context_hash ≡ hash_recovery_context r context)
        × (find_password_reset_token hash after ≡ some (record token { consumed_at = some now }))
        × All
            (λ u.
              can_reset token.user_id u ≡ true
              → u.password_hash ≡ some (r.scrypt_hash salt input.new_password))
            after.users
        × (is_session_active session token.user_id later after ≡ false)
  complete_password_recovery_lem input context salt now store answer session later e =
      let (write, token_hash, context_hash, at, password, done, eq) =
        completes input context salt now store answer e in
      let (token, found, unspent, fresh, same, spent, _, _, hashed, ended) =
        reset_password_with_token_lem write store session later done in
      rw (eq, sym token_hash, sym context_hash, sym at, sym password)
        (token, found, unspent, fresh, same, spent, hashed, ended)

  -- The token of a recovery that has completed completes no other, whatever client, password and time
  -- come with it: the attempt is told that the token is invalid, or that the two passwords differ if
  -- they do, and writes nothing.
  pub complete_password_recovery_twice :
      (input again : RecoveryReset) (context other : SessionClientContext) (salt pepper : Text)
      (now later : ℕ) (store : Store) (answer : Text)
      → (complete_password_recovery r a input context salt now store).0 ≡ ok answer
      → again.reset_token ≡ input.reset_token
      → let after = (complete_password_recovery r a input context salt now store).1 in
        complete_password_recovery r a again other pepper later after ≡ (
          err (
              if again.new_password == again.confirm_password
              then unauthorized password_reset_token_invalid
              else bad_request password_confirmation_mismatch),
          after,
        )
  unfolding complete_password_recovery
  complete_password_recovery_twice input again context other salt pepper now later store answer e
        same =
      let after = (complete_password_recovery r a input context salt now store).1 in
      let spent = complete_password_recovery_lem input context salt now store answer 0 0 e in
      elim (Bool-cases (again.new_password == again.confirm_password)) [
        | inr p ↦ rw p refl
        | inl p ↦ rw (p, same, spent.5) refl
      ]
