-- ===== src/Profile/RoundTrip.antt =====
-- What a renter reads after an update of the profile.
use smart_platform_services.Common.{
  ℕ, ◌≤◌, ◌≡◌, refl, ap, inl, inr, true, not, ◌&&◌, Option, none, some, List, Text, nat_Eq, arith,
  is_truthy, is_none, trim, find_where, exists_where, update_where, count_where, Bool-cases,
  Option-cases, find_where_sound, find_where-update_where, find_where_unique, count_where_mono,
}
use smart_platform_services.Contract.Query.{
  ActiveRentalSummary, mapped, list_active_rentals_for_renter,
}
use smart_platform_services.Identity.Access.{get_renter_profile}
use smart_platform_services.Identity.Contracts.{renter}
use smart_platform_services.Identity.Exec.{ok}
use smart_platform_services.Identity.Store.{Store, IdentityUser}
use smart_platform_services.Identity.Users.{
  is_user, is_current, is_active_renter, includes, renamed, meets_phone, update_users,
  update_renter_profile, find_by_id, find_one,
}
use smart_platform_services.Property.{PropertyStore}
use smart_platform_services.Profile.{
  RenterProfileResponse, UpdateRenterProfileDto, both, read_with, read, update,
}

is_active_renter-includes :
    (id : ℕ) (u : IdentityUser) → is_active_renter id u ≡ true → includes renter u.roles ≡ true
is_active_renter-includes id u e = ground arith

module _ (id : ℕ) (input : UpdateRenterProfileDto) (store : Store) where
  abbrev found : Option IdentityUser
  found = find_where (is_active_renter id) store.users

  abbrev written : Store
  written = update_users (is_active_renter id) (renamed input.display_name input.phone) store

  pub found_after :
      (u : IdentityUser)
      → found ≡ some u
      → find_where
          (is_active_renter id)
          (update_where (is_active_renter id) (renamed input.display_name input.phone) store.users)
        ≡ some (renamed input.display_name input.phone u)
  found_after u f =
      rw
        (
          find_where-update_where (is_active_renter id) (is_active_renter id)
              (renamed input.display_name input.phone) store.users (λ x e. refl),
          f,
          find_where_sound (is_active_renter id) store.users u f,
        )
        refl

  none_after :
      found ≡ none
      → find_where
          (is_active_renter id)
          (update_where (is_active_renter id) (renamed input.display_name input.phone) store.users)
        ≡ none
  none_after f =
      rw
        (
          find_where-update_where (is_active_renter id) (is_active_renter id)
              (renamed input.display_name input.phone) store.users (λ x e. refl),
          f,
        )
        refl

  -- A successful update has found an active renter with an address, and written the row.
  update-ok :
      (response : RenterProfileResponse)
      → (update id input store).0 ≡ ok response
      → (u : IdentityUser) × (email : Text) × (found ≡ some u)
        × (mapped trim u.email ≡ some email)
        × (is_truthy (some email) ≡ true)
        × (response
            ≡ record { display_name = input.display_name; email = email; phone = input.phone })
        × ((update id input store).1 ≡ written)
  unfolding update update_renter_profile update_users
  update-ok response e = elim (Option-cases found) [
    | inl n ↦ absurd (cc (rw (n, none_after n) at e))
    | inr (u, f) ↦
        elim (Bool-cases (
          exists_where
            (λ v. not (is_user u.id v) && meets_phone (renamed input.display_name input.phone u) v)
            store.users)) [
              | inl t ↦ absurd (cc (rw (f, t) at e))
              | inr t ↦ elim (Bool-cases (is_none u.email && is_none input.phone)) [
                | inl m ↦ absurd (cc (rw (f, t, m) at e))
                | inr m ↦ elim (Option-cases (mapped trim u.email)) [
                  | inl x ↦ absurd (cc (rw (f, t, m, found_after u f, x) at e))
                  | inr (email, x) ↦ elim (Bool-cases (is_truthy (some email))) [
                    | inr y ↦ absurd (cc (rw (f, t, m, found_after u f, x, y) at e))
                    | inl y ↦ (
                      u,
                      email,
                      f,
                      x,
                      y,
                      cc (rw (f, t, m, found_after u f, x, y) at e),
                      rw (f, t, m, found_after u f, x, y) refl,
                    )
                  ]
                ]
              ]
            ]
  ]

  at_most_one :
      count_where (is_user id) store.users ≤ 1
      → count_where (λ v. is_user id v && is_current v) store.users ≤ 1
  at_most_one distinct =
      let fewer =
        count_where_mono (λ v. is_user id v && is_current v) (is_user id) store.users
          (λ v e. ground arith) in
      omega (arith, fewer)

  find_by_id-written :
      (u : IdentityUser)
      → count_where (is_user id) store.users ≤ 1
      → found ≡ some u
      → find_by_id id written ≡ some (renamed input.display_name input.phone u)
  unfolding find_by_id find_one update_users
  find_by_id-written u distinct f =
      let same : find_where (λ v. is_user id v && is_current v) store.users ≡ some u =
        find_where_unique (is_active_renter id) (λ v. is_user id v && is_current v) store.users u
          (λ v e. ground arith) (at_most_one distinct) f in
      rw
        (
          find_where-update_where (λ v. is_user id v && is_current v) (is_active_renter id)
              (renamed input.display_name input.phone) store.users (λ x e. refl),
          same,
          find_where_sound (is_active_renter id) store.users u f,
        )
        refl

  -- After an update that succeeded, the renter reads the name and the phone that were sent and the
  -- address that the update answered, where the name has no white space around it and is not empty, and
  -- where the ids of the accounts are distinct and the renter's rentals can be read.
  pub profile_round_trip :
      (response : RenterProfileResponse) (tables : PropertyStore)
      (rentals : List ActiveRentalSummary)
      → count_where (is_user id) store.users ≤ 1
      → trim input.display_name ≡ input.display_name
      → is_truthy (some input.display_name) ≡ true
      → list_active_rentals_for_renter id tables ≡ ok rentals
      → (update id input store).0 ≡ ok response
      → (response.display_name ≡ input.display_name)
        × (response.phone ≡ input.phone)
        × (read id (update id input store).1 tables
            ≡ ok (record { profile = response; rentals = rentals }))
  unfolding read read_with both get_renter_profile
  profile_round_trip response tables rentals distinct trimmed named listed e =
      let (u, email, f, x, y, r, w) = update-ok response e in
      let role : includes renter u.roles ≡ true =
        is_active_renter-includes id u (find_where_sound (is_active_renter id) store.users u f) in
      (
        ap (λ (v : RenterProfileResponse). v.display_name) r,
        ap (λ (v : RenterProfileResponse). v.phone) r,
        rw (w, r, listed, find_by_id-written u distinct f, role, x, y, trimmed, named) refl,
      )
