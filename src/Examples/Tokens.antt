-- ===== src/Examples/Tokens.antt =====
-- Tokens: tests, and the theorems with the concrete codec.
use smart_platform_services.Common.{
  ℕ, ◌⊎◌, text, ◌≤◌, count_where, trim, to_lower_case, ◌≡◌, ◌≢◌, refl, ap, true, false, some, [],
  ◌∷◌, Text, arith, Lacks, if◌then◌else◌, find_where, exists_where, update_where, same_text, split,
}
use smart_platform_services.Identity.Contracts.{
  AuthenticatedActor, unauthorized, invalid_session, active, renter, status_Eq,
}
use smart_platform_services.Identity.Exec.{ok, err}
use smart_platform_services.Identity.Session.{
  create_session, rotate_session, rotate_found, rotate_current, update_sessions, is_session_active,
  revoke_sessions_for_user,
}
use smart_platform_services.Identity.Session.Rotation.{FamilyRevoked}
use smart_platform_services.Identity.Store.{Store, logout_all}
use smart_platform_services.Identity.Users.{
  find_by_id, find_by_email, is_user, mark_login, update_users, find_one,
}
use smart_platform_services.Identity.Tokens.{
  AuthSessionTokens, access_claims, sign_access, sign_refresh, create, token_pair, finish_refresh,
  refresh, authenticate_access,
}
use smart_platform_services.Identity.Jwt.{
  Claims, RefreshIds, sign, verify, verify_parts, check_parsed, access_ids, refresh_ids,
  verify_access, verify_refresh, has_content, dot, fresh_claims,
}
use smart_platform_services.Identity.Tokens.RoundTrip.{IsCodecFor, verify-sign}
use smart_platform_services.Identity.Tokens.Authenticate.{
  Grants, authenticate_access_sound, authenticate_access-revoke_sessions_for_user,
  authenticate_access-create,
}
use smart_platform_services.Identity.Tokens.Refresh.{refresh_lem, refresh_twice}
use smart_platform_services.Identity.Auth.{normalize_email, login_keys}
use smart_platform_services.Identity.Auth.SignIn.{LoginInput, login, login_as, admit}
use smart_platform_services.Identity.Auth.Admission.{authenticate_access-login}
use smart_platform_services.Identity.Throttle.{bucket_of, find_throttle, clear, clear_throttle}
use smart_platform_services.Identity.Throttle.Limiter.{longest_wait, assert_allowed_lem}
use smart_platform_services.Examples.{empty_store, ann, runtime}
use smart_platform_services.Examples.Platform.{codec, auth, client, draws, later_draws}

unshift-shift : (s : Text) → codec.from_base64url (codec.base64url s) ≡ s
unshift-shift [] = refl
unshift-shift (c ∷ s) = ground (arith, unshift-shift s)

shift-Lacks : (s : Text) → Lacks dot (codec.base64url s)
shift-Lacks [] = tt
shift-Lacks (c ∷ s) = (ground arith, shift-Lacks s)

shift-content : (s : Text) → has_content s ≡ true → has_content (codec.base64url s) ≡ true
shift-content [] h = h
shift-content (c ∷ s) h = refl

abbrev claims : Claims
claims = access_claims auth codec 1 21 100000 23

lawful : IsCodecFor codec auth.jwt_access_secret claims
lawful = record {
  read_back = unshift-shift;
  no_dot = shift-Lacks;
  not_empty = shift-content;
  header_parses = refl;
  header_content = refl;
  claims_parse = refl;
  claims_content = refl;
  mac_content = λ s. refl;
}

verify-sign_example :
    verify auth codec (sign auth codec claims auth.jwt_access_secret) auth.jwt_access_secret 150000
    ≡ (if fresh_claims auth codec 150 claims then ok claims else err (unauthorized invalid_session))
verify-sign_example = verify-sign auth codec auth.jwt_access_secret claims lawful 150000

abbrev signed_in : Store
signed_in = (create auth codec runtime ann client draws empty_store).1

abbrev tokens : AuthSessionTokens
tokens = token_pair auth codec 1 21 (sign_refresh auth codec 1 21 22 100000 24) 100000 23

creates : (create auth codec runtime ann client draws empty_store).0 ≡ ok tokens
unfolding create create_session exists_where
creates = refl

ann_found : find_by_id 1 empty_store ≡ some ann
unfolding find_by_id find_one find_where
ann_found = refl

abbrev actor : AuthenticatedActor
actor = record { id = 1; roles = renter ∷ []; status = active; session_id = 21 }

abbrev right_login : LoginInput
right_login = record { email = text "ann@site.vn"; password = text "old-hash" }

not_blocked :
    longest_wait runtime empty_store 100000
      (login_keys auth (normalize_email (text "ann@site.vn")) client)
    ≡ 0
unfolding login_keys normalize_email trim to_lower_case bucket_of find_throttle find_where
not_blocked = refl

ann_by_email : find_by_email (normalize_email (text "ann@site.vn")) empty_store ≡ some ann
unfolding find_by_email find_one find_where normalize_email trim to_lower_case same_text
ann_by_email = refl

logs_in : (login runtime auth codec right_login client 100000 draws empty_store).0 ≡ ok tokens
unfolding login login_as admit create create_session exists_where login_keys clear clear_throttle
    mark_login update_users
logs_in =
    rw
      (
        assert_allowed_lem runtime (login_keys auth (normalize_email (text "ann@site.vn")) client)
            100000 empty_store,
        not_blocked,
        ann_by_email,
      )
      refl

one_account : (id : ℕ) → count_where (is_user id) empty_store.users ≤ 1
unfolding count_where
one_account id = ground arith

authenticate_access-login_example :
    let after = (login runtime auth codec right_login client 100000 draws empty_store).1 in
    authenticate_access auth codec tokens.access_token 150000 150000 after ≡ (ok actor, after)
authenticate_access-login_example =
    authenticate_access-login runtime auth codec right_login client 100000 draws empty_store ann
      tokens 150000 150000 one_account lawful ann_by_email logs_in (omega arith) (omega arith)
      (omega arith)

lets_in : (authenticate_access auth codec tokens.access_token 150000 150000 signed_in).0 ≡ ok actor
lets_in =
    ap (λ x. x.0)
      (authenticate_access-create runtime auth codec ann ann client draws empty_store tokens 150000
        150000 lawful creates ann_found refl (omega arith) (omega arith) (omega arith))

authenticate_access_sound_example :
    Grants auth codec tokens.access_token 150000 150000 signed_in actor
authenticate_access_sound_example =
    authenticate_access_sound auth codec tokens.access_token 150000 150000 signed_in actor lets_in

-- Another user's sessions are revoked, and Ann is still let in.
still_in :
    (authenticate_access auth codec tokens.access_token 150000 150000
      (revoke_sessions_for_user 2 140000 logout_all signed_in)).0
    ≡ ok actor
unfolding authenticate_access verify_access access_ids verify verify_parts check_parsed sign_access
    sign split same_text revoke_sessions_for_user update_sessions is_session_active find_by_id
    find_one find_where exists_where update_where create create_session
still_in = refl

authenticate_access-revoke_sessions_for_user_example :
    (actor.id ≢ 2) × Grants auth codec tokens.access_token 150000 150000 signed_in actor
authenticate_access-revoke_sessions_for_user_example =
    authenticate_access-revoke_sessions_for_user auth codec tokens.access_token 150000 150000 2
      140000 logout_all signed_in actor still_in

abbrev ids : RefreshIds
ids = record { user_id = 1; session_id = 21; family_id = 22 }

verifies_refresh : verify_refresh auth codec tokens.refresh_token 200000 ≡ ok ids
unfolding verify_refresh refresh_ids verify verify_parts check_parsed sign_refresh sign split
    same_text
verifies_refresh = refl

abbrev new_tokens : AuthSessionTokens
new_tokens = token_pair auth codec 1 31 (sign_refresh auth codec 1 31 22 200000 34) 200000 33

refreshes :
    (refresh auth codec runtime tokens.refresh_token client 200000 later_draws signed_in).0
    ≡ ok new_tokens
unfolding refresh finish_refresh verify_refresh refresh_ids verify verify_parts check_parsed
    sign_refresh sign split same_text rotate_session rotate_found rotate_current create_session
    update_sessions create find_by_id find_one find_where exists_where update_where
refreshes = refl

refresh_lem_example :
    let after =
      (refresh auth codec runtime tokens.refresh_token client 200000 later_draws signed_in).1 in
    (is_session_active 21 1 250000 after ≡ false) × (is_session_active 31 1 250000 after ≡ true)
refresh_lem_example =
    refresh_lem runtime auth codec tokens.refresh_token client 200000 later_draws signed_in ids
      new_tokens 250000 verifies_refresh refreshes

refresh_twice_example :
    let after =
      (refresh auth codec runtime tokens.refresh_token client 200000 later_draws signed_in).1 in
    let again = refresh auth codec runtime tokens.refresh_token client 300000 draws after in
    (again.0 ≡ err (unauthorized invalid_session))
    × ((verify_refresh auth codec tokens.refresh_token 300000 ≡ err (unauthorized invalid_session))
          × (again.1 ≡ after)
        ⊎ (verify_refresh auth codec tokens.refresh_token 300000 ≡ ok ids)
          × FamilyRevoked 22 again.1.sessions)
refresh_twice_example =
    refresh_twice runtime auth codec tokens.refresh_token client client 200000 300000 later_draws
      draws signed_in ids new_tokens verifies_refresh refreshes
