-- ===== src/Identity/Session/Rotation.antt =====
-- One rotation: what each outcome means, and what a second use of the same token does.
use smart_platform_services.Common.{
  ℕ, ◌≡◌, refl, ◌∙◌, true, false, ◌&&◌, Option, none, some, List, ◌∷◌, arith, ltb, leb,
  find_where_sound, find_where-update_where, find_where-exists_where, exists_where_mono,
  exists_where-anti, if◌then◌else◌, ◌==◌, nat_Eq, find_where, exists_where, update_where, All,
  All-update_where_any, Bool-cases, inl, inr, exists_where-update_where,
  exists_where-update_where_none,
}
use smart_platform_services.Identity.Exec.{ok, err, Result, keep_or_undo}
use smart_platform_services.Identity.Store.{Store, AuthSession, RevokeReason}
use smart_platform_services.Identity.Session.{
  NewSession, session_row, is_session, is_token, in_family, is_live, create_session,
  SessionRotationResult, was_rotated, was_reused, RotationInput, is_presented, revoke_reused,
  revoke, retire, update_sessions, rotate_current, rotate_found, rotate_session, is_usable,
  is_session_active, live_of, revoke_sessions_for_user,
}

-- No session of the family is live.
abbrev pub FamilyRevoked : ℕ → List AuthSession → Type 0
FamilyRevoked family = All (λ s. in_family family s ≡ true → is_live s ≡ false)

-- Logging out everywhere leaves the user no active session at any time, and changes no other user's.
pub revoke_sessions_for_user_lem :
    (user at : ℕ) (reason : RevokeReason) (store : Store) (id other later : ℕ)
    → is_session_active id other later (revoke_sessions_for_user user at reason store)
      ≡ (if other == user then false else is_session_active id other later store)
unfolding is_session_active revoke_sessions_for_user update_sessions
revoke_sessions_for_user_lem user at reason store id other later =
    elim (Bool-cases (other == user)) [
      | inl e ↦ rw e (
          exists_where-update_where_none (is_usable id other later) (live_of user)
            (revoke at reason) store.sessions (λ s k. ground (arith, e, k)) (λ s k. ground arith))
      | inr e ↦ rw e (
          exists_where-update_where (is_usable id other later) (live_of user) (revoke at reason)
            store.sessions (λ s k. ground (arith, e, k)))
    ]

-- What a rotation that succeeds has found and written.
record Rotates (input : RotationInput) (store : Store) (after : Store) : Type 0 where
  current : AuthSession
  found :
      find_where (is_presented input.current_session_id input.current_token_hash) store.sessions
      ≡ some current
  family : in_family input.current_family_id current ≡ true
  live : is_live current ≡ true
  unexpired : leb current.expires_at input.used_at ≡ false
  same_user : (input.replacement.user_id == current.user_id) ≡ true
  same_family : (input.replacement.family_id == current.family_id) ≡ true
  fresh_id : exists_where (is_session input.replacement.id) store.sessions ≡ false
  fresh_token : exists_where (is_token input.replacement.refresh_token_hash) store.sessions ≡ false
  written : after ≡ record store {
    sessions =
        update_where
          (is_session current.id)
          (retire input.used_at input.replacement.id)
          (session_row input.replacement ∷ store.sessions);
  }

rotate_found-Rotates :
    (input : RotationInput) (store : Store) (o : Option AuthSession)
    → find_where (is_presented input.current_session_id input.current_token_hash) store.sessions ≡ o
    → (rotate_found input o store).0 ≡ ok was_rotated
    → Rotates input store (rotate_found input o store).1
unfolding rotate_found rotate_current create_session update_sessions
rotate_found-Rotates input store none f e = absurd (cc)
rotate_found-Rotates input store (some current) f e = record {
  current = current;
  found = f;
  family = ground arith;
  live = ground arith;
  unexpired = ground arith;
  same_user = ground arith;
  same_family = ground arith;
  fresh_id = ground arith;
  fresh_token = ground arith;
  written = ground arith;
}

keep_or_undo-Rotates :
    (input : RotationInput) (store : Store) (r : Result SessionRotationResult × Store)
    → (r.0 ≡ ok was_rotated → Rotates input store r.1)
    → (keep_or_undo r store).0 ≡ ok was_rotated
    → Rotates input store (keep_or_undo r store).1
keep_or_undo-Rotates input store (ok a, t) h e = h e
keep_or_undo-Rotates input store (err x, t) h e = absurd (cc)

rotate_session-Rotates :
    (input : RotationInput) (store : Store)
    → (rotate_session input store).0 ≡ ok was_rotated
    → Rotates input store (rotate_session input store).1
unfolding rotate_session
rotate_session-Rotates input store e =
    let o =
      find_where (is_presented input.current_session_id input.current_token_hash) store.sessions in
    keep_or_undo-Rotates input store (rotate_found input o store)
      (rotate_found-Rotates input store o refl) e

module _ (input : RotationInput) (store after : Store) (m : Rotates input store after) where
  open m use {current, found, fresh_id, written}

  is_presented-current :
      is_presented input.current_session_id input.current_token_hash current ≡ true
  is_presented-current =
      find_where_sound (is_presented input.current_session_id input.current_token_hash)
        store.sessions current found

  current_id : current.id ≡ input.current_session_id
  current_id = ground (arith, is_presented-current)

  other_id : (input.replacement.id == input.current_session_id) ≡ false
  other_id = elim (Bool-cases (input.replacement.id == input.current_session_id)) [
    | inl e ↦ absurd (
        not_fresh (
          exists_where_mono (is_presented input.current_session_id input.current_token_hash)
            (is_session input.replacement.id) store.sessions (λ s k. ground (arith, e, k))
            (find_where-exists_where
                (is_presented input.current_session_id input.current_token_hash) store.sessions
              ∙ rw found refl)))
    | inr e ↦ e
  ]
    where
      not_fresh : exists_where (is_session input.replacement.id) store.sessions ≡ true → ⊥
      not_fresh k = cc (k, fresh_id)

  old_inactive : (user at : ℕ) → is_session_active input.current_session_id user at after ≡ false
  unfolding is_session_active
  old_inactive user at = rw written (
      exists_where-update_where_none (is_usable input.current_session_id user at)
        (is_session current.id) (retire input.used_at input.replacement.id)
        (session_row input.replacement ∷ store.sessions) (λ s k. ground (arith, current_id, k))
        (λ s k. ground arith))

  new_active :
      (user at : ℕ)
      → is_session_active input.replacement.id user at after
        ≡ (user == input.replacement.user_id && ltb at input.replacement.expires_at)
  unfolding is_session_active exists_where
  new_active user at =
      let usable = is_usable input.replacement.id user at in
      rw written (
        exists_where-update_where usable (is_session current.id)
          (retire input.used_at input.replacement.id)
          (session_row input.replacement ∷ store.sessions)
          (λ s k. ground (arith, current_id, other_id, k))
        ∙ ground (
          arith,
          exists_where-anti usable (is_session input.replacement.id) store.sessions
              (λ s k. ground (arith, k)) fresh_id,
        ))

  found_again :
      find_where (is_presented input.current_session_id input.current_token_hash) after.sessions
      ≡ some (retire input.used_at input.replacement.id current)
  unfolding find_where
  found_again =
      let presented = is_presented input.current_session_id input.current_token_hash in
      rw written (
        find_where-update_where presented (is_session current.id)
          (retire input.used_at input.replacement.id)
          (session_row input.replacement ∷ store.sessions) (λ s k. refl)
        ∙ ground (arith, other_id, found))

-- After a rotation the old session is never active again, and the new one is active for its user
-- until it expires.
pub rotate_session_lem :
    (input : RotationInput) (store : Store) (user at : ℕ)
    → (rotate_session input store).0 ≡ ok was_rotated
    → let after = (rotate_session input store).1 in
      (is_session_active input.current_session_id user at after ≡ false)
      × (is_session_active input.replacement.id user at after
          ≡ (user == input.replacement.user_id && ltb at input.replacement.expires_at))
rotate_session_lem input store user at e =
    let after = (rotate_session input store).1 in
    let m = rotate_session-Rotates input store e in
    (old_inactive input store after m user at, new_active input store after m user at)

-- The row that a token presents, if it is revoked and in the family that the token names.
record IsReuse (input : RotationInput) (store : Store) (current : AuthSession) : Type 0 where
  found :
      find_where (is_presented input.current_session_id input.current_token_hash) store.sessions
      ≡ some current
  family : in_family input.current_family_id current ≡ true
  dead : is_live current ≡ false

rotate_session-eq_reused :
    (input : RotationInput) (store : Store) (current : AuthSession)
    → IsReuse input store current
    → rotate_session input store ≡ (
      ok was_reused,
      update_sessions (in_family current.family_id) (revoke_reused input.used_at) store,
    )
unfolding rotate_session rotate_found rotate_current
rotate_session-eq_reused input store current u = rw u.found (ground arith)

update_sessions-FamilyRevoked :
    (family at : ℕ) (store : Store)
    → FamilyRevoked family (update_sessions (in_family family) (revoke_reused at) store).sessions
unfolding update_sessions
update_sessions-FamilyRevoked family at store =
    All-update_where_any (λ s. in_family family s ≡ true → is_live s ≡ false) (in_family family)
      (revoke_reused at) store.sessions (λ s k i. ground arith) (λ s k i. absurd (cc (k, i)))

rotate_session_reused :
    (input : RotationInput) (store : Store) (current : AuthSession)
    → IsReuse input store current
    → ((rotate_session input store).0 ≡ ok was_reused)
      × FamilyRevoked input.current_family_id (rotate_session input store).1.sessions
rotate_session_reused input store current u =
    let family : current.family_id ≡ input.current_family_id = ground (arith, u.family) in
    rw (rotate_session-eq_reused input store current u, family)
      (refl, update_sessions-FamilyRevoked input.current_family_id input.used_at store)

-- A refresh token that was rotated is detected when it comes again, whatever replacement and time
-- come with it: the answer is `was_reused`, and no session of its family is live any more, the one
-- that replaced it included.
pub rotate_session_twice :
    (input : RotationInput) (replacement : NewSession) (later : ℕ) (store : Store)
    → (rotate_session input store).0 ≡ ok was_rotated
    → let again = record input { replacement = replacement; used_at = later } in
      let after = (rotate_session input store).1 in
      ((rotate_session again after).0 ≡ ok was_reused)
      × FamilyRevoked input.current_family_id (rotate_session again after).1.sessions
rotate_session_twice input replacement later store e =
    let after = (rotate_session input store).1 in
    let m = rotate_session-Rotates input store e in
    rotate_session_reused (record input { replacement = replacement; used_at = later }) after
      (retire input.used_at input.replacement.id m.current)
      (record { found = found_again input store after m; family = m.family; dead = refl })
