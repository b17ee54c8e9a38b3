-- ===== src/Identity/Users.antt =====
-- The account statements of libs/identity/src/persistence/postgres-identity.repository.ts, with the
-- unique indexes of users and social_identities. The id of a new account is drawn by the database
-- and is an argument; the roles are seeded, and the profile rows of a new account are not kept.
pub mod Create
use smart_platform_services.Common.{
  arith, ◌≡◌, find_where_sound, ℕ, Bool, true, false, not, ◌&&◌, Option, none, some, List, [], ◌∷◌,
  Text, ltb, if◌then◌else◌, ◌==◌, nat_Eq, text_Eq, holds, is_none, is_some, find_where,
  exists_where, update_where, to_lower_case,
}
use smart_platform_services.Identity.Contracts.{
  ActorRole, renter, role_Eq, ActorStatus, pending, active, status_Eq, SocialProvider, provider_Eq,
  registration, purpose_Eq, Error, conflict, failure, unique_violation, users_pkey,
  uq_users_email_normalized, uq_users_legacy_phone_login, uq_social_identities_subject, Code,
  phone_already_registered, signup_unavailable, social_identity_conflict,
}
use smart_platform_services.Identity.Exec.{
  Exec, ok, err, pure, throw, gets, modify, transaction, catching, ◌>>=◌, ◌>>◌,
}
use smart_platform_services.Identity.Store.{Store, IdentityUser, SocialIdentity, OtpChallenge}

-- `lower(u.email) = lower($1)`
abbrev pub has_email : Text → IdentityUser → Bool
has_email email u = elim u.email [ none ↦ false | some e ↦ to_lower_case e == to_lower_case email ]

abbrev pub is_user : ℕ → IdentityUser → Bool
is_user id u = u.id == id

abbrev pub is_current : IdentityUser → Bool
is_current u = is_none u.deleted_at

-- `findOne`: every lookup passes over deleted accounts.
unfoldable pub find_one : (IdentityUser → Bool) → Store → Option IdentityUser
find_one p store = find_where (λ u. p u && is_current u) store.users

unfoldable pub find_by_phone : Text → Store → Option IdentityUser
find_by_phone phone = find_one λ u. holds u.phone phone && u.phone_login_enabled

unfoldable pub find_by_email : Text → Store → Option IdentityUser
find_by_email email = find_one (has_email email)

unfoldable pub find_by_id : ℕ → Store → Option IdentityUser
find_by_id id = find_one (is_user id)

unfoldable pub find_by_social_identity : SocialProvider → Text → Store → Option IdentityUser
find_by_social_identity provider subject store = find_one linked store
  where
    linked : IdentityUser → Bool
    linked u =
        exists_where
          (λ si. si.user_id == u.id && si.provider == provider && si.provider_subject == subject)
          store.social_identities

abbrev pub meets_email : IdentityUser → IdentityUser → Bool
meets_email new u = elim new.email [ none ↦ false | some e ↦ has_email e u && is_current u ]

abbrev pub meets_phone : IdentityUser → IdentityUser → Bool
meets_phone new u = elim new.phone [
  | none ↦ false
  | some p ↦ holds u.phone p && u.phone_login_enabled && is_current u && new.phone_login_enabled
]

-- `INSERT INTO users …`
unfoldable pub insert_user : IdentityUser → Exec Store Unit
insert_user new store =
    if exists_where (is_user new.id) store.users
    then (err (unique_violation users_pkey), store)
    else if exists_where (meets_email new) store.users
    then (err (unique_violation uq_users_email_normalized), store)
    else if exists_where (meets_phone new) store.users
    then (err (unique_violation uq_users_legacy_phone_login), store)
    else (ok tt, record store { users = new ∷ store.users })

unfoldable pub update_users : (IdentityUser → Bool) → (IdentityUser → IdentityUser) → Store → Store
update_users p f store = record store { users = update_where p f store.users }

unfoldable pub activate_phone : ℕ → ℕ → Store → Store
activate_phone id verified_at =
    update_users (λ u. is_user id u && u.status == pending)
      (λ u. record u { status = active; phone_verified_at = some verified_at })

unfoldable pub update_password : ℕ → Text → Store → Store
update_password id password_hash =
    update_users (is_user id) (λ u. record u { password_hash = some password_hash })

unfoldable pub mark_login : ℕ → ℕ → Store → Store
mark_login id at = update_users (is_user id) (λ u. record u { last_login_at = some at })

unfoldable pub includes : ActorRole → List ActorRole → Bool
includes role roles = exists_where (λ r. r == role) roles

abbrev pub is_active_renter : ℕ → IdentityUser → Bool
is_active_renter id u =
    is_user id u && u.status == active && is_current u && includes renter u.roles

-- `RenterProfileSnapshot`
pub record RenterProfile : Type 0 where
  pub email : Option Text
  pub phone : Option Text
  pub display_name : Option Text

abbrev pub profile_of : Option IdentityUser → Option RenterProfile
profile_of none = none
profile_of (some u) =
    some (record { email = u.email; phone = u.phone; display_name = u.display_name })

abbrev pub renamed : Text → Option Text → IdentityUser → IdentityUser
renamed display_name phone u = record u { display_name = some display_name; phone = phone }

-- The index on the phones that sign in, and the check that an account has an address or a phone.
abbrev pub check_renamed : Text → Option Text → Option IdentityUser → Exec Store Unit
check_renamed display_name phone none store = (ok tt, store)
check_renamed display_name phone (some u) store =
    if exists_where (λ v. not (is_user u.id v) && meets_phone (renamed display_name phone u) v)
      store.users
    then (err (unique_violation uq_users_legacy_phone_login), store)
    else if is_none u.email && is_none phone
    then (err failure, store)
    else (ok tt, store)

-- `UPDATE … RETURNING`: the row as it is written.
unfoldable pub update_renter_profile : ℕ → Text → Option Text → Exec Store (Option RenterProfile)
update_renter_profile id display_name phone = do
  found ← gets (λ store. find_where (is_active_renter id) store.users)
  check_renamed display_name phone found
  modify (update_users (is_active_renter id) (renamed display_name phone))
  gets (λ store. profile_of (find_where (is_active_renter id) store.users))

pub find_by_id_sound :
    (id : ℕ) (store : Store) (user : IdentityUser) → find_by_id id store ≡ some user → user.id ≡ id
unfolding find_by_id find_one
find_by_id_sound id store user e =
    ground (arith, find_where_sound (λ u. is_user id u && is_current u) store.users user e)
