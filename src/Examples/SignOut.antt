-- ===== src/Examples/SignOut.antt =====
-- Signing out everywhere, at a store where two users are signed in.
use smart_platform_services.Common.{
  ◌≡◌, ◌≢◌, refl, some, none, [], ◌∷◌, ◌++◌, Text, text, same_text, split, find_where, exists_where,
  update_where,
}
use smart_platform_services.Identity.Contracts.{renter, active, AuthenticatedActor, failure}
use smart_platform_services.Identity.Exec.{ok, err}
use smart_platform_services.Identity.Jwt.{
  sign, verify, verify_parts, check_parsed, access_ids, verify_access,
}
use smart_platform_services.Identity.Session.{
  create_session, is_session_active, revoke_sessions_for_user, update_sessions,
}
use smart_platform_services.Identity.Store.{Store, IdentityUser}
use smart_platform_services.Identity.Tokens.{sign_access, sign_refresh, create, authenticate_access}
use smart_platform_services.Identity.Users.{find_by_id, find_one}
use smart_platform_services.Identity.Access.{jwt_auth_guard}
use smart_platform_services.Identity.Auth.SignIn.{log_out_all}
use smart_platform_services.Identity.Controller.{
  Headers, AuthDraws, post_logout_all, get_me, me, handle_auth,
}
use smart_platform_services.Identity.Controller.LogOut.{log_out_all_lem}
use smart_platform_services.Examples.{empty_store, ann, runtime}
use smart_platform_services.Examples.Platform.{codec, auth, client, draws, later_draws}

abbrev binh : IdentityUser
binh = record ann { id = 2; email = some (text "binh@site.vn") }

abbrev two_sessions : Store
two_sessions =
    (create auth codec runtime binh client (record later_draws { now = 110000 })
      (create auth codec runtime ann client draws
        (record empty_store { users = ann ∷ binh ∷ [] })).1).1

abbrev headers : Text → Headers
headers token = record {
  ip = none;
  user_agent = none;
  device_id = none;
  authorization = some (text "Bearer " ++ token);
}

abbrev drawn : AuthDraws
drawn = record {
  now = 150000;
  seconds = 150000;
  user_id = 9;
  salt = [];
  reset_token = [];
  mail_available = ok tt;
  verify_social = λ provider credential. err failure;
  signup = record { now = 0; attempt_id = 0; outbox_id = 0 };
  recovery = record { now = 0; challenge_id = 0; outbox_id = 0 };
  phone = record { now = 0; later = 0; challenge_id = 0; number = 0; delivery = ok tt };
  session = later_draws;
}

abbrev by_ann : Headers
by_ann = headers (sign_access auth codec 1 21 100000 23)

abbrev by_binh : Headers
by_binh = headers (sign_access auth codec 2 31 110000 33)

abbrev ann_actor : AuthenticatedActor
ann_actor = record { id = 1; roles = renter ∷ []; status = active; session_id = 21 }

abbrev binh_actor : AuthenticatedActor
binh_actor = record { id = 2; roles = renter ∷ []; status = active; session_id = 31 }

ann_passes :
    (jwt_auth_guard auth codec by_ann.authorization 150000 150000 two_sessions).0 ≡ ok ann_actor
unfolding jwt_auth_guard split same_text authenticate_access verify_access access_ids verify
    verify_parts check_parsed sign_access sign is_session_active find_by_id find_one find_where
    exists_where create create_session sign_refresh
ann_passes = refl

binh_stays :
    (handle_auth runtime auth codec by_binh drawn get_me
      (handle_auth runtime auth codec by_ann drawn post_logout_all two_sessions).1).0
    ≡ ok (me binh_actor)
unfolding handle_auth log_out_all revoke_sessions_for_user update_sessions jwt_auth_guard split
    same_text authenticate_access verify_access access_ids verify verify_parts check_parsed
    sign_access sign is_session_active find_by_id find_one find_where exists_where update_where
    create create_session sign_refresh
binh_stays = refl

log_out_all_lem_example : binh_actor.id ≢ ann_actor.id
log_out_all_lem_example =
    log_out_all_lem runtime auth codec by_ann by_binh drawn drawn two_sessions ann_actor binh_actor
      ann_passes binh_stays
