-- ===== src/Examples/Rentals.antt =====
-- The rentals of a renter: tests, and the theorem at a property with one room that is let.
use smart_platform_services.Common.{
  ◌≡◌, ◌⊎◌, refl, ℕ, true, false, not, ◌&&◌, ◌==◌, nat_Eq, [], ◌∷◌, some, text, List, count_where,
  exists_where, find_where, trim,
}
use smart_platform_services.Identity.Contracts.{service_unavailable, profile_unavailable}
use smart_platform_services.Identity.Exec.{ok, err}
use smart_platform_services.Contract.Query.{
  ActiveRentalSummary, is_listed, has_displayable_rental, contract_record, contract_records,
  has_lifecycle, list_active_renter_contracts, insert_rental, sorted_rentals, rentals_of,
  list_active_rentals_for_renter,
}
use smart_platform_services.Contract.Rentals.{IsSorted, list_active_rentals_lem}
use smart_platform_services.Property.{PropertyStore}
use smart_platform_services.Examples.Properties.{house, houses, let_contract}

abbrev pub let_rental : ActiveRentalSummary
let_rental = record {
  contract_id = 30;
  room = text "Room A";
  property = text "House";
  property_address = house.address;
  expires_at = some (text "2027-01-01");
  signed_at = 2;
}

-- Tests: the one rental, and none where the property is missing.
pub let_test : list_active_rentals_for_renter 1 houses ≡ ok (let_rental ∷ [])
unfolding list_active_rentals_for_renter list_active_renter_contracts contract_records rentals_of
    has_displayable_rental insert_rental sorted_rentals find_where exists_where trim has_lifecycle
let_test = refl

missing_test :
    list_active_rentals_for_renter 1 (record houses { properties = [] })
    ≡ err (service_unavailable profile_unavailable)
unfolding list_active_rentals_for_renter list_active_renter_contracts contract_records rentals_of
    has_displayable_rental insert_rental sorted_rentals find_where exists_where trim has_lifecycle
missing_test = refl

abbrev two_lets : PropertyStore
two_lets = record houses {
  contracts =
      record let_contract { id = 31; room_id = 10; renter_signed_at = some 1 } ∷ let_contract ∷ [];
}

list_active_rentals_lem_example :
    ((exists_where
          (λ c. is_listed 1 c && not (has_displayable_rental (contract_record c two_lets)))
          two_lets.contracts
        ≡ true)
      × (list_active_rentals_for_renter 1 two_lets ≡ err (service_unavailable profile_unavailable)))
    ⊎ ((rentals : List ActiveRentalSummary) × (list_active_rentals_for_renter 1 two_lets
          ≡ ok rentals)
        × (exists_where
              (λ c. is_listed 1 c && not (has_displayable_rental (contract_record c two_lets)))
              two_lets.contracts
            ≡ false)
        × IsSorted rentals
        × ((id : ℕ)
            → count_where (λ r. r.contract_id == id) rentals
              ≡ count_where (λ c. is_listed 1 c && c.id == id) two_lets.contracts))
list_active_rentals_lem_example = list_active_rentals_lem 1 two_lets
