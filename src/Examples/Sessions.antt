-- ===== src/Examples/Sessions.antt =====
-- Sessions: tests, and the theorems at a store with one session.
use smart_platform_services.Common.{
  ◌≡◌, refl, false, none, [], ◌∷◌, arith, ◌==◌, nat_Eq, exists_where, update_where, count_where,
  find_where,
}
use smart_platform_services.Identity.Exec.{ok}
use smart_platform_services.Identity.Store.{Store, logged_out}
use smart_platform_services.Identity.Session.{
  NewSession, session_row, RotationInput, create_session, rotate_session, rotate_found,
  rotate_current, update_sessions, is_session_active, revoke_session_by_token_hash, was_rotated,
  was_reused, was_expired, was_missing,
}
use smart_platform_services.Identity.Session.Rotation.{FamilyRevoked, rotate_session_twice}
use smart_platform_services.Identity.Session.Family.{
  OneLive, Reach, here, next, sign_in, refresh, Reach-OneLive,
}
use smart_platform_services.Examples.{empty_store}

abbrev first : NewSession
first = record {
  id = 1;
  family_id = 7;
  user_id = 1;
  refresh_token_hash = 100;
  expires_at = 1000;
  ip_address = none;
  user_agent = none;
}

abbrev second : NewSession
second = record first { id = 2; refresh_token_hash = 200; expires_at = 2000 }

abbrev third : NewSession
third = record first { id = 3; refresh_token_hash = 300; expires_at = 2000 }

abbrev signed_in : Store
signed_in = record empty_store { sessions = session_row first ∷ [] }

abbrev rotation : RotationInput
rotation = record {
  current_session_id = 1;
  current_family_id = 7;
  current_token_hash = 100;
  replacement = second;
  used_at = 500;
}

-- Tests: the outcomes of a rotation.
rotates : (rotate_session rotation signed_in).0 ≡ ok was_rotated
unfolding rotate_session rotate_found rotate_current create_session exists_where find_where
rotates = refl

expired_test : (rotate_session (record rotation { used_at = 1000 }) signed_in).0 ≡ ok was_expired
unfolding rotate_session rotate_found rotate_current find_where
expired_test = refl

missing_test :
    (rotate_session (record rotation { current_token_hash = 101 }) signed_in).0 ≡ ok was_missing
unfolding rotate_session rotate_found find_where
missing_test = refl

log_out_test :
    is_session_active 1 1 600 (revoke_session_by_token_hash 100 550 logged_out signed_in) ≡ false
unfolding revoke_session_by_token_hash update_sessions is_session_active exists_where update_where
log_out_test = refl

rotate_session_twice_example :
    let again = record rotation { replacement = third; used_at = 600 } in
    let after = (rotate_session rotation signed_in).1 in
    ((rotate_session again after).0 ≡ ok was_reused)
    × FamilyRevoked 7 (rotate_session again after).1.sessions
rotate_session_twice_example = rotate_session_twice rotation third 600 signed_in rotates

none_live : OneLive empty_store.sessions
unfolding count_where
none_live family = omega arith

no_family : exists_where (λ s. s.family_id == 7) empty_store.sessions ≡ false
unfolding exists_where
no_family = refl

abbrev after_refresh : Store
after_refresh = (rotate_session rotation (create_session first empty_store).1).1

reached : Reach empty_store after_refresh
reached =
    next (next here (sign_in first empty_store no_family))
      (refresh rotation (create_session first empty_store).1)

Reach-OneLive_example : OneLive after_refresh.sessions
Reach-OneLive_example = Reach-OneLive none_live reached
