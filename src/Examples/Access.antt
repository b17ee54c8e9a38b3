-- ===== src/Examples/Access.antt =====
-- Guards and access checks: tests, and the theorems at a store with one account.
use smart_platform_services.Common.{
  ◌≡◌, refl, true, none, some, [], ◌∷◌, ◌++◌, Text, text, same_text, split, find_where,
  exists_where,
}
use smart_platform_services.Identity.Contracts.{
  renter, active, AuthenticatedActor, forbidden, permission_policy_undefined, role_forbidden,
}
use smart_platform_services.Identity.Exec.{ok, err}
use smart_platform_services.Identity.Jwt.{
  sign, verify, verify_parts, check_parsed, access_ids, verify_access,
}
use smart_platform_services.Identity.Session.{create_session, is_session_active}
use smart_platform_services.Identity.Store.{Store}
use smart_platform_services.Identity.Tokens.{sign_access, create, authenticate_access}
use smart_platform_services.Identity.Tokens.Authenticate.{Grants}
use smart_platform_services.Identity.Users.{find_by_id, find_one, includes}
use smart_platform_services.Identity.Access.{
  get_actor_snapshot, get_actors_snapshot, get_renter_profile, require_active, assert_role,
  assert_admin, assert_permission, bearer_token, parts_of, has_a_role, roles_guard, jwt_auth_guard,
  guarded,
}
use smart_platform_services.Identity.Access.Guards.{guarded_sound}
use smart_platform_services.Examples.{empty_store, ann, runtime}
use smart_platform_services.Examples.Platform.{codec, auth, client, draws}

-- Tests: Ann is an active renter.
permission_test :
    (assert_permission 1 (text "x") empty_store).0 ≡ err (forbidden permission_policy_undefined)
unfolding assert_permission require_active get_actor_snapshot find_by_id find_one find_where
permission_test = refl

admin_test : (assert_admin 1 empty_store).0 ≡ err (forbidden role_forbidden)
unfolding assert_admin assert_role require_active get_actor_snapshot find_by_id find_one find_where
    includes exists_where
admin_test = refl

snapshots_test :
    get_actors_snapshot (1 ∷ 2 ∷ []) empty_store
    ≡ record { id = 1; roles = renter ∷ []; status = active } ∷ []
unfolding get_actors_snapshot get_actor_snapshot find_by_id find_one find_where
snapshots_test = refl

profile_test :
    get_renter_profile 1 empty_store
    ≡ some (record {
      email = some (text "ann@site.vn");
      phone = none;
      display_name = some (text "Ann");
    })
unfolding get_renter_profile find_by_id find_one find_where includes exists_where
profile_test = refl

abbrev signed_in : Store
signed_in = (create auth codec runtime ann client draws empty_store).1

abbrev actor : AuthenticatedActor
actor = record { id = 1; roles = renter ∷ []; status = active; session_id = 21 }

abbrev header : Text
header = text "Bearer " ++ sign_access auth codec 1 21 100000 23

passes : (guarded auth codec (renter ∷ []) (some header) 150000 150000 signed_in).0 ≡ ok actor
unfolding guarded jwt_auth_guard roles_guard split same_text authenticate_access verify_access
    access_ids verify verify_parts check_parsed sign_access sign is_session_active find_by_id
    find_one find_where exists_where includes create create_session
passes = refl

guarded_sound_example :
    (t : Text) × (bearer_token (parts_of (some header)) ≡ some t)
    × Grants auth codec t 150000 150000 signed_in actor
    × (has_a_role (renter ∷ []) actor.roles ≡ true)
guarded_sound_example =
    guarded_sound auth codec renter [] (some header) 150000 150000 signed_in actor passes
