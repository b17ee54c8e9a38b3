-- ===== src/Identity/Access.antt =====
-- libs/identity/src/services/identity-query.service.ts, and the guards of
-- libs/identity/src/security/jwt-auth.guard.ts and roles.guard.ts.
pub mod Guards
use smart_platform_services.Common.{
  ℕ, Bool, true, false, not, ◌&&◌, ◌||◌, Option, none, some, List, [], ◌∷◌, Text, text,
  if◌then◌else◌, ◌==◌, text_Eq, split, exists_where,
}
use smart_platform_services.Identity.Contracts.{
  ActorRole, renter, owner, admin, ActorStatus, active, status_Eq, AuthenticatedActor, unauthorized,
  forbidden, not_found, actor_not_found, actor_inactive, role_forbidden,
  permission_policy_undefined, bearer_token_required,
}
use smart_platform_services.Identity.Exec.{Exec, pure, throw, gets, lift, require, ◌>>=◌, ◌>>◌}
use smart_platform_services.Identity.Jwt.{Codec, has_content}
use smart_platform_services.Identity.Runtime.{AuthConfig}
use smart_platform_services.Identity.Store.{Store, IdentityUser}
use smart_platform_services.Identity.Tokens.{authenticate_access}
use smart_platform_services.Identity.Users.{RenterProfile, find_by_id, includes, profile_of}

pub record ActorSnapshot : Type 0 where
  pub id : ℕ
  pub roles : List ActorRole
  pub status : ActorStatus

abbrev pub snapshot_of : Option IdentityUser → Option ActorSnapshot
snapshot_of none = none
snapshot_of (some u) = some (record { id = u.id; roles = u.roles; status = u.status })

unfoldable pub get_actor_snapshot : ℕ → Store → Option ActorSnapshot
get_actor_snapshot id store = snapshot_of (find_by_id id store)

-- The snapshots of the actors that are found, in the order of the ids.
unfoldable pub get_actors_snapshot : List ℕ → Store → List ActorSnapshot
get_actors_snapshot [] store = []
get_actors_snapshot (id ∷ ids) store =
    let rest = get_actors_snapshot ids store in
    elim (get_actor_snapshot id store) [ none ↦ rest | some actor ↦ actor ∷ rest ]

abbrev pub renter_profile_of : Option IdentityUser → Option RenterProfile
renter_profile_of none = none
renter_profile_of (some u) = if includes renter u.roles then profile_of (some u) else none

unfoldable pub get_renter_profile : ℕ → Store → Option RenterProfile
get_renter_profile id store = renter_profile_of (find_by_id id store)

abbrev pub active_or_throw : Option ActorSnapshot → Exec Store ActorSnapshot
active_or_throw none = throw (not_found actor_not_found)
active_or_throw (some actor) =
    if actor.status == active then pure actor else throw (forbidden actor_inactive)

unfoldable pub require_active : ℕ → Exec Store ActorSnapshot
require_active id = do found ← gets (get_actor_snapshot id); active_or_throw found

unfoldable pub assert_role : ℕ → ActorRole → Exec Store Unit
assert_role id role = do
  actor ← require_active id
  require (includes role actor.roles) (forbidden role_forbidden)

unfoldable pub assert_renter : ℕ → Exec Store Unit
assert_renter id = assert_role id renter

unfoldable pub assert_owner : ℕ → Exec Store Unit
assert_owner id = assert_role id owner

unfoldable pub assert_admin : ℕ → Exec Store Unit
assert_admin id = assert_role id admin

unfoldable pub assert_permission : ℕ → Text → Exec Store Unit
assert_permission id permission = do
  require_active id
  throw (forbidden permission_policy_undefined)

unfoldable pub assert_payer : ℕ → Exec Store Unit
assert_payer id = do
  actor ← require_active id
  require (includes renter actor.roles || includes owner actor.roles) (forbidden role_forbidden)

-- `authorization?.split(' ') ?? []`, of which the guard reads three parts.
abbrev pub bearer_token : List Text → Option Text
bearer_token (scheme ∷ token ∷ []) =
    if scheme == text "Bearer" && has_content token then some token else none
bearer_token (scheme ∷ token ∷ extra ∷ rest) =
    if scheme == text "Bearer" && has_content token && not (has_content extra)
    then some token
    else none
bearer_token _ = none

abbrev pub parts_of : Option Text → List Text
parts_of none = []
parts_of (some authorization) = split b' ' authorization

-- `required.some((role) => actor.roles.includes(role))`
abbrev pub has_a_role : List ActorRole → List ActorRole → Bool
has_a_role required roles = exists_where (λ role. includes role roles) required

-- `RolesGuard.canActivate`; no requirement lets any request pass.
unfoldable pub roles_guard : List ActorRole → Option AuthenticatedActor → Exec Store Unit
roles_guard [] actor = pure tt
roles_guard (role ∷ rest) none = throw (forbidden role_forbidden)
roles_guard (role ∷ rest) (some actor) =
    require (has_a_role (role ∷ rest) actor.roles) (forbidden role_forbidden)

module _ (a : AuthConfig) (k : Codec) where
  abbrev pub authenticate_token : Option Text → ℕ → ℕ → Exec Store AuthenticatedActor
  authenticate_token none at now = throw (unauthorized bearer_token_required)
  authenticate_token (some token) at now = authenticate_access a k token at now

  -- `JwtAuthGuard.canActivate`: the actor of the request.
  unfoldable pub jwt_auth_guard : Option Text → ℕ → ℕ → Exec Store AuthenticatedActor
  jwt_auth_guard authorization at now =
      authenticate_token (bearer_token (parts_of authorization)) at now

  -- Both guards, in the order in which the controllers name them.
  unfoldable pub guarded : List ActorRole → Option Text → ℕ → ℕ → Exec Store AuthenticatedActor
  guarded required authorization at now = do
    actor ← jwt_auth_guard authorization at now
    roles_guard required (some actor)
    pure actor
