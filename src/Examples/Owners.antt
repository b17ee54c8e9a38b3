-- ===== src/Examples/Owners.antt =====
-- Requests of owners, at a property with two rooms.
use smart_platform_services.Common.{
  ℕ, ◌≡◌, refl, none, some, [], ◌∷◌, text, find_where, nat_Eq, exists_where, List,
}
use smart_platform_services.Identity.Contracts.{failure}
use smart_platform_services.Identity.Exec.{err}
use smart_platform_services.Property.{
  maintenance, RoomRecord, find_property, find_room, rooms_query, join,
}
use smart_platform_services.Property.Owner.{update_property}
use smart_platform_services.Property.Owner.Requests.{
  UpdatePropertyDto, patch_property, patch_room_status, remove_property, get_properties,
  property_body,
}
use smart_platform_services.Property.Owner.Isolation.{Referenced}
use smart_platform_services.Property.Owner.History.{OwnerCall, run, run_isolated}
use smart_platform_services.Property.Owner.Patch.{patch_property_incomplete}
use smart_platform_services.Examples.Properties.{house, free_room, houses}

abbrev renamed_only : UpdatePropertyDto
renamed_only = record { name = some (text "New name"); description = none; address = none }

abbrev strangers : ℕ → OwnerCall
strangers id = record { actor = id; draws = record { id = 90; now = 9 }; request = get_properties }

-- What two other owners try.
abbrev attempts : List OwnerCall
attempts =
    record (strangers 51) { request = remove_property 1 }
    ∷ record (strangers 52) { request = patch_room_status 10 maintenance }
    ∷ record (strangers 51) { request = patch_property 1 renamed_only }
    ∷ strangers 52
    ∷ []

abbrev found_room : RoomRecord
found_room = record { row = free_room; owner_id = some 50 }

houses-Referenced : Referenced houses
unfolding exists_where
houses-Referenced = (refl, (refl, tt))

house_found : find_property 1 houses ≡ some house
unfolding find_property find_where
house_found = refl

room_found : find_room 10 houses ≡ some found_room
unfolding find_room rooms_query join find_where
room_found = refl

run_isolated_example :
    (find_property 1 (run attempts houses) ≡ some house)
    × (find_room 10 (run attempts houses) ≡ some found_room)
run_isolated_example =
    run_isolated 50 1 10 attempts houses house found_room houses-Referenced
      (refl, (refl, (refl, (refl, tt)))) house_found refl room_found refl

patch_property_incomplete_example :
    update_property 50 1 (property_body renamed_only) houses ≡ (err failure, houses)
patch_property_incomplete_example =
    patch_property_incomplete 50 1 renamed_only houses house house_found refl refl refl
