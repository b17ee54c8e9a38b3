-- ===== src/Identity/Session.antt =====
-- The session statements of libs/identity/src/persistence/postgres-identity.repository.ts, with the
-- unique keys of auth_sessions (database/migrations/1700000001000-identity-auth-schema.ts).
pub mod Rotation
pub mod Family
use smart_platform_services.Common.{
  ℕ, Bool, true, false, ◌&&◌, ◌||◌, not, Option, none, some, List, ◌∷◌, Text, ltb, leb,
  if◌then◌else◌, ◌==◌, nat_Eq, is_none, is_some, find_where, exists_where, update_where,
}
use smart_platform_services.Identity.Contracts.{
  unique_violation, auth_sessions_pkey, auth_sessions_refresh_token_hash_key,
}
use smart_platform_services.Identity.Exec.{Exec, ok, err, pure, modify, transaction, ◌>>=◌, ◌>>◌}
use smart_platform_services.Identity.Store.{
  Store, AuthSession, RevokeReason, rotated, expired, refresh_reuse,
}

-- `NewSession` of identity.repository.ts
pub record NewSession : Type 0 where
  pub id : ℕ
  pub family_id : ℕ
  pub user_id : ℕ
  pub refresh_token_hash : ℕ
  pub expires_at : ℕ
  pub ip_address : Option Text
  pub user_agent : Option Text

abbrev pub session_row : NewSession → AuthSession
session_row s = record {
  id = s.id;
  family_id = s.family_id;
  user_id = s.user_id;
  refresh_token_hash = s.refresh_token_hash;
  expires_at = s.expires_at;
  ip_address = s.ip_address;
  user_agent = s.user_agent;
  revoked_at = none;
  revoke_reason = none;
  replaced_by_session_id = none;
  last_used_at = none;
}

abbrev pub is_session : ℕ → AuthSession → Bool
is_session id s = s.id == id

abbrev pub is_token : ℕ → AuthSession → Bool
is_token hash s = s.refresh_token_hash == hash

abbrev pub in_family : ℕ → AuthSession → Bool
in_family family s = s.family_id == family

abbrev pub is_live : AuthSession → Bool
is_live s = is_none s.revoked_at

-- `insertSession`
unfoldable pub create_session : NewSession → Exec Store Unit
create_session s store =
    if exists_where (is_session s.id) store.sessions
    then (err (unique_violation auth_sessions_pkey), store)
    else if exists_where (is_token s.refresh_token_hash) store.sessions
    then (err (unique_violation auth_sessions_refresh_token_hash_key), store)
    else (ok tt, record store { sessions = session_row s ∷ store.sessions })

pub data SessionRotationResult : Type 0 where
  was_rotated was_missing was_expired was_reused : SessionRotationResult

pub record RotationInput : Type 0 where
  pub current_session_id : ℕ
  pub current_family_id : ℕ
  pub current_token_hash : ℕ
  pub replacement : NewSession
  pub used_at : ℕ

-- `WHERE id = $1 AND refresh_token_hash = $2`
abbrev pub is_presented : ℕ → ℕ → AuthSession → Bool
is_presented id hash s = is_session id s && is_token hash s

-- `COALESCE`
abbrev coalesce {ℓ} : {A : Type ℓ} → Option A → A → Option A
coalesce none a = some a
coalesce (some b) a = some b

abbrev pub revoke_reused : ℕ → AuthSession → AuthSession
revoke_reused at s = record s {
  revoked_at = coalesce s.revoked_at at;
  revoke_reason = coalesce s.revoke_reason refresh_reuse;
}

abbrev pub revoke : ℕ → RevokeReason → AuthSession → AuthSession
revoke at reason s = record s { revoked_at = some at; revoke_reason = some reason }

abbrev pub retire : ℕ → ℕ → AuthSession → AuthSession
retire at replacement s = record s {
  revoked_at = some at;
  revoke_reason = some rotated;
  replaced_by_session_id = some replacement;
  last_used_at = some at;
}

unfoldable pub update_sessions : (AuthSession → Bool) → (AuthSession → AuthSession) → Store → Store
update_sessions p f store = record store { sessions = update_where p f store.sessions }

-- The transaction once the presented session is read.
unfoldable pub rotate_current : RotationInput → AuthSession → Exec Store SessionRotationResult
rotate_current input current =
    if not (in_family input.current_family_id current)
    then pure was_missing
    else if is_some current.revoked_at
    then (do
      modify (update_sessions (in_family current.family_id) (revoke_reused input.used_at))
      pure was_reused)
    else if leb current.expires_at input.used_at
    then (do
      modify (update_sessions (is_session current.id) (revoke input.used_at expired))
      pure was_expired)
    else if not (input.replacement.user_id == current.user_id)
        || not (input.replacement.family_id == current.family_id)
    then pure was_missing
    else (do
      create_session input.replacement
      modify (update_sessions (is_session current.id) (retire input.used_at input.replacement.id))
      pure was_rotated)

unfoldable pub rotate_found : RotationInput → Option AuthSession → Exec Store SessionRotationResult
rotate_found input none = pure was_missing
rotate_found input (some current) = rotate_current input current

unfoldable pub rotate_session : RotationInput → Exec Store SessionRotationResult
rotate_session input = transaction λ store.
    rotate_found input
      (find_where (is_presented input.current_session_id input.current_token_hash) store.sessions)
      store

abbrev pub is_usable : ℕ → ℕ → ℕ → AuthSession → Bool
is_usable id user at s = is_session id s && s.user_id == user && is_live s && ltb at s.expires_at

unfoldable pub is_session_active : ℕ → ℕ → ℕ → Store → Bool
is_session_active id user at store = exists_where (is_usable id user at) store.sessions

unfoldable pub revoke_session_by_token_hash : ℕ → ℕ → RevokeReason → Store → Store
revoke_session_by_token_hash hash at reason =
    update_sessions (λ s. is_token hash s && is_live s) (revoke at reason)

abbrev pub live_of : ℕ → AuthSession → Bool
live_of user s = s.user_id == user && is_live s

unfoldable pub revoke_sessions_for_user : ℕ → ℕ → RevokeReason → Store → Store
revoke_sessions_for_user user at reason = update_sessions (live_of user) (revoke at reason)
