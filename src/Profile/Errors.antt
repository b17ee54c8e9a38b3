-- ===== src/Profile/Errors.antt =====
-- How the profile services fail.
use smart_platform_services.Common.{
  ℕ, ◌≡◌, refl, inl, inr, Bool, true, false, not, ◌&&◌, Option, none, some, List, is_none,
  find_where, exists_where, Bool-cases,
}
use smart_platform_services.Contract.Query.{ActiveRentalSummary}
use smart_platform_services.Identity.Contracts.{
  unauthorized, service_unavailable, invalid_session, profile_unavailable,
  profile_update_unavailable,
}
use smart_platform_services.Identity.Exec.{Result, ok, err, catch_result, ◌>>=◌}
use smart_platform_services.Identity.Store.{Store, IdentityUser}
use smart_platform_services.Identity.Users.{
  RenterProfile, is_user, is_active_renter, renamed, meets_phone, update_users,
  update_renter_profile,
}
use smart_platform_services.Profile.{
  UpdateRenterProfileDto, is_http_exception, rethrown, rethrow, both, profile_response, read_with,
  respond_updated, update,
}
use smart_platform_services.Profile.RoundTrip.{found_after}

-- A value, or an HTTP exception.
abbrev pub IsAnswered : {A : Type 0} → Result A → Type 0
IsAnswered (ok a) = Unit
IsAnswered (err e) = is_http_exception e ≡ true

rethrown-IsAnswered :
    {A : Type 0} (r : Result A) → IsAnswered (rethrown (service_unavailable profile_unavailable) r)
rethrown-IsAnswered (ok a) = tt
rethrown-IsAnswered (err e) = elim (Bool-cases (is_http_exception e)) [
  | inl h ↦ rw h h
  | inr h ↦ rw h refl
]

catch_result-IsAnswered :
    {A : Type 0} (r : Result A × Store)
    → IsAnswered (catch_result r (rethrow (service_unavailable profile_update_unavailable))).0
catch_result-IsAnswered (ok a, t) = tt
catch_result-IsAnswered (err e, t) = elim (Bool-cases (is_http_exception e)) [
  | inl h ↦ rw h h
  | inr h ↦ rw h refl
]

-- Whatever the identity and the contract services do, and however the database fails, the profile
-- services answer with a profile or with an HTTP exception.
pub profile_errors :
    (first : Bool) (identity : Result (Option RenterProfile))
    (rentals : Result (List ActiveRentalSummary)) (id : ℕ) (input : UpdateRenterProfileDto)
    (store : Store)
    → IsAnswered (read_with first identity rentals) × IsAnswered (update id input store).0
unfolding read_with update
profile_errors first identity rentals id input store = (
  rethrown-IsAnswered (profile_response (both first identity rentals)),
  catch_result-IsAnswered (
      (do
        profile ← update_renter_profile id input.display_name input.phone
        respond_updated input profile)
        store),
)

-- An update for an active renter without an address, whose phone does not clash, is answered as an
-- invalid session, although it has been written.
pub update_written_refused :
    (id : ℕ) (input : UpdateRenterProfileDto) (store : Store) (u : IdentityUser)
    → find_where (is_active_renter id) store.users ≡ some u
    → u.email ≡ none
    → is_none input.phone ≡ false
    → exists_where
        (λ v. not (is_user u.id v) && meets_phone (renamed input.display_name input.phone u) v)
        store.users
      ≡ false
    → update id input store ≡ (
      err (unauthorized invalid_session),
      update_users (is_active_renter id) (renamed input.display_name input.phone) store,
    )
unfolding update update_renter_profile update_users
update_written_refused id input store u f no_email phone clash =
    let after = found_after id input store u f in
    rw (f, clash, no_email, phone, after, no_email) refl
