-- ===== src/Examples/Properties.antt =====
-- Properties and rooms: tests, and the theorems at an active property with two rooms.
use smart_platform_services.Common.{
  same_text, Bool, false, List, map, ◌≡◌, ℕ, refl, ◌↔◌, some, true, none, [], ◌∷◌, text, find_where,
  exists_where, update_where, ◌==◌, nat_Eq, if◌then◌else◌,
}
use smart_platform_services.Contract
use smart_platform_services.Contract.{ContractRow}
use smart_platform_services.Identity.Contracts.{
  invalid_room_batch, bad_request, forbidden, not_found, room_active_contract, room_not_found,
  room_not_bookable,
}
use smart_platform_services.Identity.Exec.{Result, ok, err}
use smart_platform_services.Property.{
  string_value, active, available, maintenance, PropertyRecord, RoomRow, RoomRecord, room_inactive,
  PropertyStore, join, rooms_query, list_public_rooms, find_property, find_room,
  has_active_contract, save_room, room_status_changed,
}
use smart_platform_services.Property.Service.{
  require_property, require_room, assert_owner_owns_room, assert_room_bookable, set_room_status,
}
use smart_platform_services.Property.Snapshots.{
  ViewingRoomsSnapshot, get_viewing_rooms_snapshot, are_distinct, find_rooms,
  get_room_billing_snapshot,
}
use smart_platform_services.Property.Status.{MaySet, with_status, set_room_status_lem}
use smart_platform_services.Property.Bookable.{DistinctIds, is_answer, assert_room_bookable_iff}

abbrev pub house : PropertyRecord
house = record {
  id = 1;
  created_at = 5;
  owner_id = 50;
  name = text "House";
  description = none;
  address = (text "city", string_value (text "Hue")) ∷ [];
  status = active;
  deleted_at = none;
}

abbrev pub free_room : RoomRow
free_room = record {
  id = 10;
  property_id = 1;
  code = text "A";
  name = text "Room A";
  description = none;
  monthly_rent = text "100";
  deposit_amount = text "0";
  currency = text "VND";
  status = available;
  deleted_at = none;
}

abbrev repaired_room : RoomRow
repaired_room = record free_room { id = 11; code = text "B"; status = maintenance }

abbrev pub let_contract : ContractRow
let_contract = record {
  id = 30;
  room_id = 11;
  renter_id = 1;
  status = Contract.active;
  ends_on = some (text "2027-01-01");
  owner_signed_at = some 1;
  renter_signed_at = some 2;
  activated_at = some 3;
}

abbrev pub houses : PropertyStore
houses = record {
  properties = house ∷ [];
  rooms = free_room ∷ repaired_room ∷ [];
  contracts = let_contract ∷ [];
  events = [];
}

houses-DistinctIds : DistinctIds houses.rooms
unfolding DistinctIds exists_where
houses-DistinctIds = (refl, (refl, tt))

-- Tests: the room under repair cannot be booked, nor become available while it is let.
repaired_test : (assert_room_bookable 11 houses).0 ≡ err (forbidden room_not_bookable)
unfolding assert_room_bookable require_room require_property find_room find_property rooms_query
    join find_where
repaired_test = refl

let_test : (set_room_status 50 11 available houses).0 ≡ err (bad_request room_active_contract)
unfolding set_room_status require_room assert_owner_owns_room has_active_contract find_room
    rooms_query join find_where exists_where
let_test = refl

stranger_test : (set_room_status 51 10 maintenance houses).0 ≡ err (not_found room_not_found)
unfolding set_room_status require_room assert_owner_owns_room find_room rooms_query join find_where
stranger_test = refl

owner_test : (set_room_status 50 10 maintenance houses).1 ≡ record houses {
  rooms = record free_room { status = maintenance } ∷ repaired_room ∷ [];
  events = room_status_changed 10 1 50 available maintenance ∷ [];
}
unfolding set_room_status require_room assert_owner_owns_room has_active_contract save_room
    find_room rooms_query join find_where exists_where update_where same_text
owner_test = refl

assert_room_bookable_iff_example :
    ((assert_room_bookable 10 houses).0 ≡ ok tt)
    ↔ (exists_where (is_answer 10) (list_public_rooms houses) ≡ true)
assert_room_bookable_iff_example = assert_room_bookable_iff 10 houses houses-DistinctIds

abbrev saved : RoomRecord
saved = record { row = record repaired_room { status = room_inactive }; owner_id = none }

closed_test : (set_room_status 50 11 room_inactive houses).0 ≡ ok saved
unfolding set_room_status require_room assert_owner_owns_room has_active_contract save_room
    find_room rooms_query join find_where exists_where update_where same_text
closed_test = refl

abbrev closed_room : ℕ
closed_room = 11

set_room_status_lem_example :
    (room : RoomRecord) × MaySet 50 11 room_inactive houses room
    × (find_room closed_room (set_room_status 50 11 room_inactive houses).1 ≡ (
        if closed_room == closed_room
        then some (with_status room_inactive room)
        else find_room closed_room houses))
set_room_status_lem_example =
    set_room_status_lem 50 11 closed_room room_inactive houses saved closed_test

abbrev map_bookable : Result ViewingRoomsSnapshot → List Bool
map_bookable (ok snapshot) = map (λ room. room.bookable) snapshot.rooms
map_bookable (err e) = []

batch_test :
    (get_viewing_rooms_snapshot (10 ∷ 10 ∷ []) 50 houses).0 ≡ err (bad_request invalid_room_batch)
unfolding get_viewing_rooms_snapshot are_distinct exists_where
batch_test = refl

viewing_test :
    map_bookable (get_viewing_rooms_snapshot (10 ∷ 11 ∷ []) 50 houses).0 ≡ true ∷ false ∷ []
unfolding get_viewing_rooms_snapshot are_distinct exists_where find_rooms require_property
    find_property rooms_query join find_where
viewing_test = refl

deleted_test : get_room_billing_snapshot 12 houses ≡ none
unfolding get_room_billing_snapshot find_room rooms_query join find_where
deleted_test = refl
