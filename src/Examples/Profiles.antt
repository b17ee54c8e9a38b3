-- ===== src/Examples/Profiles.antt =====
-- Profiles of renters: tests, and the theorems at a renter with an address and at one without.
use smart_platform_services.Common.{
  ◌≤◌, ◌≡◌, refl, true, false, not, ◌&&◌, [], ◌∷◌, some, none, text, count_where, exists_where,
  find_where, update_where, arith, trim, nat_Eq, same_text,
}
use smart_platform_services.Identity.Contracts.{unauthorized, invalid_session}
use smart_platform_services.Identity.Exec.{ok, err}
use smart_platform_services.Identity.Store.{Store, IdentityUser}
use smart_platform_services.Identity.Users.{
  is_user, meets_phone, includes, is_active_renter, renamed, update_users, update_renter_profile,
}
use smart_platform_services.Profile.{RenterProfileResponse, UpdateRenterProfileDto, read, update}
use smart_platform_services.Profile.RoundTrip.{profile_round_trip}
use smart_platform_services.Profile.Errors.{update_written_refused}
use smart_platform_services.Examples.{ann, empty_store}
use smart_platform_services.Examples.Properties.{houses}
use smart_platform_services.Examples.Rentals.{let_rental, let_test}

abbrev new_name : UpdateRenterProfileDto
new_name = record { display_name = text "Anna"; phone = some (text "0901234567") }

abbrev anna : RenterProfileResponse
anna = record {
  display_name = text "Anna";
  email = text "ann@site.vn";
  phone = some (text "0901234567");
}

update_test : (update 1 new_name empty_store).0 ≡ ok anna
unfolding update update_renter_profile update_users find_where update_where exists_where same_text
    includes trim
update_test = refl

one_ann : count_where (is_user 1) empty_store.users ≤ 1
unfolding count_where
one_ann = omega arith

trimmed : trim new_name.display_name ≡ new_name.display_name
unfolding trim
trimmed = refl

profile_round_trip_example :
    (anna.display_name ≡ new_name.display_name)
    × (anna.phone ≡ new_name.phone)
    × (read 1 (update 1 new_name empty_store).1 houses
        ≡ ok (record { profile = anna; rentals = let_rental ∷ [] }))
profile_round_trip_example =
    profile_round_trip 1 new_name empty_store anna houses (let_rental ∷ []) one_ann trimmed refl
      let_test update_test

-- An owner of a phone number only.
abbrev phone_ann : IdentityUser
phone_ann = record ann { email = none; phone = some (text "0909"); phone_login_enabled = true }

abbrev phone_store : Store
phone_store = record empty_store { users = phone_ann ∷ [] }

phone_found : find_where (is_active_renter 1) phone_store.users ≡ some phone_ann
unfolding find_where includes exists_where
phone_found = refl

no_clash :
    exists_where
      (λ v.
        not (is_user 1 v) && meets_phone (renamed new_name.display_name new_name.phone phone_ann) v)
      phone_store.users
    ≡ false
unfolding exists_where
no_clash = refl

update_written_refused_example : update 1 new_name phone_store ≡ (
  err (unauthorized invalid_session),
  update_users (is_active_renter 1) (renamed new_name.display_name new_name.phone) phone_store,
)
update_written_refused_example =
    update_written_refused 1 new_name phone_store phone_ann phone_found refl refl no_clash
