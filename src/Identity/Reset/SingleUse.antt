-- ===== src/Identity/Reset/SingleUse.antt =====
-- A reset token works once: what a reset writes, and what a refused one leaves.
use native.Mathlib.Nat.{le_trans}
use smart_platform_services.Common.{
  Bool, Text, holds, text_Eq, ◌&&◌, count_where-update_where_into, find_where_sound, eq_self, All,
  All-update_where_any, ℕ, ◌≤◌, ◌≡◌, refl, ◌∙◌, true, false, Option, none, some, arith, ltb, nat_Eq,
  is_some, count_where, find_where-update_where, update_where_none, exists_where_of_zero,
  count_where_mono,
}
use smart_platform_services.Identity.Contracts.{status_Eq}
use smart_platform_services.Identity.Session.{
  revoke_sessions_for_user, is_session_active, update_sessions,
}
use smart_platform_services.Identity.Session.Rotation.{revoke_sessions_for_user_lem}
use smart_platform_services.Identity.Store.{
  Store, IdentityUser, PasswordResetToken, password_was_reset, recovery_reset,
  recovery_sessions_revoked,
}
use smart_platform_services.Identity.Users.{is_user, update_users}
use smart_platform_services.Identity.Reset.{
  record_recovery_audit, can_reset, is_reset_token, find_password_reset_token, reset, invalid,
  ResetPassword, consume_token, audit_reset, set_password, reset_with, reset_found,
  reset_password_with_token,
}

-- What a reset has found, and the writes it makes in order.
abbrev written : ResetPassword → ℕ → Store → Store
written input user store =
    let store₁ = update_users (can_reset user) (set_password input) store in
    let store₂ = consume_token input store₁ in
    let store₃ = revoke_sessions_for_user user input.reset_at password_was_reset store₂ in
    let store₄ = audit_reset input user recovery_reset store₃ in
    audit_reset input user recovery_sessions_revoked store₄

pub record Resets (input : ResetPassword) (store after : Store) : Type 0 where
  pub token : PasswordResetToken
  pub found : find_password_reset_token input.token_hash store ≡ some token
  pub unconsumed : token.consumed_at ≡ none
  pub unexpired : ltb input.reset_at token.expires_at ≡ true
  pub same_context : token.context_hash ≡ input.context_hash
  pub one_account : count_where (can_reset token.user_id) store.users ≡ 1
  pub writes : after ≡ written input token.user_id store

reset_found-Resets :
    (input : ResetPassword) (store : Store) (o : Option PasswordResetToken)
    → find_password_reset_token input.token_hash store ≡ o
    → (reset_found input o store).0 ≡ reset
    → Resets input store (reset_found input o store).1
unfolding reset_found reset_with
reset_found-Resets input store none f e = absurd (cc)
reset_found-Resets input store (some token) f e = record {
  token = token;
  found = f;
  unconsumed = ground arith;
  unexpired = ground arith;
  same_context = ground arith;
  one_account = ground arith;
  writes = ground arith;
}

pub reset_password-Resets :
    (input : ResetPassword) (store : Store)
    → (reset_password_with_token input store).0 ≡ reset
    → Resets input store (reset_password_with_token input store).1
unfolding reset_password_with_token
reset_password-Resets input store e =
    reset_found-Resets input store (find_password_reset_token input.token_hash store) refl e

-- An account that a token of the user may reset has the password.
abbrev pub has_password : ℕ → Text → IdentityUser → Bool
has_password user hash u = can_reset user u && holds u.password_hash hash

module _ (input : ResetPassword) (store after : Store) (m : Resets input store after) where
  token_after :
      find_password_reset_token input.token_hash after
      ≡ some (record (m.token) { consumed_at = some input.reset_at })
  unfolding find_password_reset_token update_users revoke_sessions_for_user update_sessions
      record_recovery_audit
  token_after = rw m.writes (
      find_where-update_where (is_reset_token input.token_hash) (is_reset_token input.token_hash)
        (λ t. record t { consumed_at = some input.reset_at }) store.reset_tokens (λ t k. refl)
      ∙ ground (
        arith,
        m.found,
        find_where_sound (is_reset_token input.token_hash) store.reset_tokens m.token,
      ))

  sessions_after : (id later : ℕ) → is_session_active id m.token.user_id later after ≡ false
  unfolding is_session_active record_recovery_audit
  sessions_after id later =
      let store₁ = update_users (can_reset m.token.user_id) (set_password input) store in
      rw m.writes (
        revoke_sessions_for_user_lem m.token.user_id input.reset_at password_was_reset
          (consume_token input store₁) id m.token.user_id later
        ∙ rw (eq_self m.token.user_id) refl)

  password_after :
      All
        (λ u. can_reset m.token.user_id u ≡ true → u.password_hash ≡ some input.password_hash)
        after.users
  unfolding update_users revoke_sessions_for_user update_sessions record_recovery_audit
  password_after = rw m.writes (
      All-update_where_any
        (λ u. can_reset m.token.user_id u ≡ true → u.password_hash ≡ some input.password_hash)
        (can_reset m.token.user_id) (set_password input) store.users (λ u k i. refl)
        (λ u k i. absurd (cc (k, i))))

  one_password : count_where (has_password m.token.user_id input.password_hash) after.users ≡ 1
  unfolding update_users revoke_sessions_for_user update_sessions record_recovery_audit
  one_password = rw m.writes (
      count_where-update_where_into (has_password m.token.user_id input.password_hash)
        (can_reset m.token.user_id) (set_password input) store.users
        (λ u k. ground (arith, k, eq_self input.password_hash)) (λ u k. ground (arith, k))
      ∙ m.one_account)

-- A reset succeeds only for a token that is stored, unconsumed, unexpired and presented in the
-- context it was issued in, and for exactly one account: the token's, active, not deleted and with a
-- password. It then consumes the token, gives that account the new password, so that exactly one
-- such account has it, and leaves the account no active session, at any time.
pub reset_password_with_token_lem :
    (input : ResetPassword) (store : Store) (session later : ℕ)
    → (reset_password_with_token input store).0 ≡ reset
    → let after = (reset_password_with_token input store).1 in
      (token : PasswordResetToken) × (find_password_reset_token input.token_hash store ≡ some token)
      × (token.consumed_at ≡ none)
      × (ltb input.reset_at token.expires_at ≡ true)
      × (token.context_hash ≡ input.context_hash)
      × (find_password_reset_token input.token_hash after
          ≡ some (record token { consumed_at = some input.reset_at }))
      × (count_where (can_reset token.user_id) store.users ≡ 1)
      × (count_where (has_password token.user_id input.password_hash) after.users ≡ 1)
      × All
          (λ u. can_reset token.user_id u ≡ true → u.password_hash ≡ some input.password_hash)
          after.users
      × (is_session_active session token.user_id later after ≡ false)
reset_password_with_token_lem input store session later e =
    let after = (reset_password_with_token input store).1 in
    let m = reset_password-Resets input store e in
    (
      m.token,
      m.found,
      m.unconsumed,
      m.unexpired,
      m.same_context,
      token_after input store after m,
      m.one_account,
      one_password input store after m,
      password_after input store after m,
      sessions_after input store after m session later,
    )

consumed_refused :
    (input : ResetPassword) (store : Store) (token : PasswordResetToken)
    → find_password_reset_token input.token_hash store ≡ some token
    → is_some token.consumed_at ≡ true
    → reset_password_with_token input store ≡ (invalid, store)
unfolding reset_password_with_token reset_found reset_with
consumed_refused input store token f c = rw (f, c) refl

-- A token that has reset a password is refused from then on, whatever context, password and time
-- come with it, and the refusal writes nothing.
pub reset_password_twice :
    (input again : ResetPassword) (store : Store)
    → (reset_password_with_token input store).0 ≡ reset
    → again.token_hash ≡ input.token_hash
    → let after = (reset_password_with_token input store).1 in
      reset_password_with_token again after ≡ (invalid, after)
reset_password_twice input again store e same =
    let after = (reset_password_with_token input store).1 in
    let m = reset_password-Resets input store e in
    consumed_refused again after (record (m.token) { consumed_at = some input.reset_at })
      (rw same (token_after input store after m)) refl

reset_with-invalid :
    (input : ResetPassword) (token : PasswordResetToken) (store : Store)
    → count_where (can_reset token.user_id) store.users ≤ 1
    → (reset_with input token store).0 ≡ invalid
    → (reset_with input token store).1 ≡ store
unfolding reset_with update_users
reset_with-invalid input token store one e = ground (
  arith,
  update_where_none (can_reset token.user_id) (set_password input) store.users,
  exists_where_of_zero (can_reset token.user_id) store.users,
)

-- A refused reset writes nothing, as long as the ids of the accounts are distinct.
pub reset_password_refused :
    (input : ResetPassword) (store : Store)
    → ((id : ℕ) → count_where (is_user id) store.users ≤ 1)
    → (reset_password_with_token input store).0 ≡ invalid
    → (reset_password_with_token input store).1 ≡ store
unfolding reset_password_with_token reset_found
reset_password_refused input store distinct e =
    go (find_password_reset_token input.token_hash store) e
  where
    go :
        (o : Option PasswordResetToken)
        → (reset_found input o store).0 ≡ invalid
        → (reset_found input o store).1 ≡ store
    go none e = refl
    go (some token) e =
        reset_with-invalid input token store
          (le_trans
            (count_where_mono (can_reset token.user_id) (is_user token.user_id) store.users
              (λ u k. ground (arith, k)))
            (distinct token.user_id))
          e
