-- ===== src/Profile.antt =====
-- The profile of a renter: apps/renter-api/src/profile-read.service.ts, profile-update.service.ts,
-- profile-update.dto.ts and profile.controller.ts. What the services log is not kept.
pub mod RoundTrip
pub mod Errors
use smart_platform_services.Common.{
  ℕ, Bool, true, false, ◌&&◌, Option, none, some, List, [], ◌∷◌, Text, text, if◌then◌else◌,
  is_truthy, trim, collapse_spaces, same_text, ◌==◌, text_Eq,
}
use smart_platform_services.Contract.Query.{
  ActiveRentalSummary, mapped, list_active_rentals_for_renter,
}
use smart_platform_services.Identity.Access.{get_renter_profile, guarded}
use smart_platform_services.Identity.Contracts.{
  Error, bad_request, unauthorized, forbidden, not_found, conflict, service_unavailable,
  too_many_requests, unique_violation, failure, profile_incomplete, profile_unavailable,
  profile_update_unavailable, invalid_session,
}
use smart_platform_services.Identity.Exec.{
  Exec, Result, ok, err, pure, throw, catching, ◌>>=◌, ◌>>◌,
}
use smart_platform_services.Identity.Store.{Store}
use smart_platform_services.Identity.Users.{RenterProfile, update_renter_profile}
use smart_platform_services.Property.{PropertyStore}

-- The profile of both responses; `avatar` is always null.
pub record RenterProfileResponse : Type 0 where
  pub display_name : Text
  pub email : Text
  pub phone : Option Text

pub record RenterProfileReadResponse : Type 0 where
  pub profile : RenterProfileResponse
  pub rentals : List ActiveRentalSummary

-- `error instanceof HttpException`
abbrev pub is_http_exception : Error → Bool
is_http_exception (unique_violation c) = false
is_http_exception failure = false
is_http_exception _ = true

-- `Promise.all` of two: where both fail, the one that fails first is the error.
unfoldable pub both {ℓ} :
    {A B : Type ℓ} → (identity_first : Bool) → Result A → Result B → Result (A × B)
both first (ok a) (ok b) = ok (a, b)
both first (ok a) (err e) = err e
both first (err e) (ok b) = err e
both true (err e) (err e') = err e
both false (err e) (err e') = err e'

-- `value?.trim() || fallback`
abbrev pub trimmed_or : Option Text → Text → Text
trimmed_or none fallback = fallback
trimmed_or (some value) fallback = let t = trim value in if is_truthy (some t) then t else fallback

abbrev pub complete_profile :
    RenterProfile → Option Text → List ActiveRentalSummary → Result RenterProfileReadResponse
complete_profile identity none rentals = err (conflict profile_incomplete)
complete_profile identity (some email) rentals =
    if is_truthy (some email)
    then ok (record {
      profile = record {
        display_name = trimmed_or identity.display_name (text "Người dùng SmartTrọ");
        email = email;
        phone = identity.phone;
      };
      rentals = rentals;
    })
    else err (conflict profile_incomplete)

abbrev pub profile_response :
    Result (Option RenterProfile × List ActiveRentalSummary) → Result RenterProfileReadResponse
profile_response (ok (none, rentals)) = err (conflict profile_incomplete)
profile_response (ok (some identity, rentals)) =
    complete_profile identity (mapped trim identity.email) rentals
profile_response (err e) = err e

-- The catch clause of both services.
abbrev pub rethrown {ℓ} : {A : Type ℓ} → Error → Result A → Result A
rethrown other (ok a) = ok a
rethrown other (err e) = if is_http_exception e then err e else err other

-- `ProfileReadService.read`, with what the two dependencies answer.
unfoldable pub read_with :
    Bool
    → Result (Option RenterProfile)
    → Result (List ActiveRentalSummary)
    → Result RenterProfileReadResponse
read_with first identity rentals =
    rethrown (service_unavailable profile_unavailable)
      (profile_response (both first identity rentals))

-- The same over the tables, when the database answers.
unfoldable pub read : ℕ → Store → PropertyStore → Result RenterProfileReadResponse
read renter_id store tables =
    read_with true (ok (get_renter_profile renter_id store))
      (list_active_rentals_for_renter renter_id tables)

-- The body of a PATCH, after its transforms: `collapsedName` and `nullablePhone`.
pub record UpdateRenterProfileDto : Type 0 where
  pub display_name : Text
  pub phone : Option Text

unfoldable pub collapsed_name : Text → Text
collapsed_name value = collapse_spaces (trim value)

unfoldable pub nullable_phone : Option Text → Option Text
nullable_phone none = none
nullable_phone (some value) = if trim value == text "" then none else some value

abbrev pub updated_response :
    UpdateRenterProfileDto → RenterProfile → Option Text → Exec Store RenterProfileResponse
updated_response input profile none = throw (unauthorized invalid_session)
updated_response input profile (some email) =
    if is_truthy (some email)
    then pure (record {
      display_name = elim profile.display_name [ none ↦ input.display_name | some name ↦ name ];
      email = email;
      phone = profile.phone;
    })
    else throw (unauthorized invalid_session)

abbrev pub respond_updated :
    UpdateRenterProfileDto → Option RenterProfile → Exec Store RenterProfileResponse
respond_updated input none = throw (unauthorized invalid_session)
respond_updated input (some profile) = updated_response input profile (mapped trim profile.email)

abbrev pub rethrow {ℓ} : {A : Type ℓ} {S : Type ℓ} → Error → Error → Exec S A
rethrow other e = if is_http_exception e then throw e else throw other

-- `ProfileUpdateService.update`
unfoldable pub update : ℕ → UpdateRenterProfileDto → Exec Store RenterProfileResponse
update renter_id input =
    catching
      (do
        profile ← update_renter_profile renter_id input.display_name input.phone
        respond_updated input profile)
      (rethrow (service_unavailable profile_update_unavailable))
