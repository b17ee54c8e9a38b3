-- ===== src/Property/Snapshots.antt =====
-- The snapshots that libs/property/src/property.service.ts gives to the other libraries.
use smart_platform_services.Common.{
  ℕ, Bool, true, false, not, ◌&&◌, ◌||◌, Option, none, some, List, [], ◌∷◌, map, Text,
  if◌then◌else◌, ◌==◌, nat_Eq, nat_eq, ltb, length, is_some, is_none, exists_where,
}
use smart_platform_services.Identity.Contracts.{
  bad_request, not_found, room_not_found, invalid_room_batch, mixed_room_batch, failure,
}
use smart_platform_services.Identity.Exec.{Exec, pure, throw, gets, require, ◌>>=◌, ◌>>◌}
use smart_platform_services.Property.{
  Address, PropertyStatus, active, RoomStatus, available, property_status_Eq, room_status_Eq,
  PropertyRecord, RoomRecord, PropertyStore, rooms_query, find_property, find_room,
}
use smart_platform_services.Property.Service.{require_property, is_owned_by}

pub record RoomBookableSnapshot : Type 0 where
  pub room_id : ℕ
  pub property_id : ℕ
  pub owner_id : Option ℕ
  pub status : RoomStatus
  pub monthly_rent : Text
  pub deposit_amount : Text
  pub currency : Text

pub record RoomContractSnapshot : Type 0 where
  pub bookable : RoomBookableSnapshot
  pub property_address : Address

pub record RoomBillingSnapshot : Type 0 where
  pub room_id : ℕ
  pub property_id : ℕ
  pub owner_id : Option ℕ
  pub room_code : Text

pub record ViewingRoomSnapshot : Type 0 where
  pub room_id : ℕ
  pub property_id : ℕ
  pub owner_id : Option ℕ
  pub property_status : PropertyStatus
  pub room_status : RoomStatus
  pub property_deleted : Bool
  pub room_deleted : Bool
  pub bookable : Bool

pub record ViewingRoomsSnapshot : Type 0 where
  pub property_id : ℕ
  pub owner_id : Option ℕ
  pub rooms : List ViewingRoomSnapshot
  pub renter_is_owner : Bool

abbrev pub bookable_snapshot : RoomRecord → RoomBookableSnapshot
bookable_snapshot room = record {
  room_id = room.row.id;
  property_id = room.row.property_id;
  owner_id = room.owner_id;
  status = room.row.status;
  monthly_rent = room.row.monthly_rent;
  deposit_amount = room.row.deposit_amount;
  currency = room.row.currency;
}

abbrev pub snapshot_unless_deleted : Option RoomRecord → Option RoomBookableSnapshot
snapshot_unless_deleted none = none
snapshot_unless_deleted (some room) =
    if is_some room.row.deleted_at then none else some (bookable_snapshot room)

unfoldable pub get_room_bookable_snapshot : ℕ → PropertyStore → Option RoomBookableSnapshot
get_room_bookable_snapshot id store = snapshot_unless_deleted (find_room id store)

abbrev pub with_address : RoomRecord → Option PropertyRecord → Option RoomContractSnapshot
with_address room none = none
with_address room (some p) =
    if is_some p.deleted_at
    then none
    else some (record { bookable = bookable_snapshot room; property_address = p.address })

abbrev pub contract_snapshot : Option RoomRecord → PropertyStore → Option RoomContractSnapshot
contract_snapshot none store = none
contract_snapshot (some room) store =
    if is_some room.row.deleted_at
    then none
    else with_address room (find_property room.row.property_id store)

unfoldable pub get_room_contract_snapshot : ℕ → PropertyStore → Option RoomContractSnapshot
get_room_contract_snapshot id store = contract_snapshot (find_room id store) store

abbrev pub billing_snapshot : Option RoomRecord → Option RoomBillingSnapshot
billing_snapshot none = none
billing_snapshot (some room) =
    if is_some room.row.deleted_at
    then none
    else some (record {
      room_id = room.row.id;
      property_id = room.row.property_id;
      owner_id = room.owner_id;
      room_code = room.row.code;
    })

unfoldable pub get_room_billing_snapshot : ℕ → PropertyStore → Option RoomBillingSnapshot
get_room_billing_snapshot id store = billing_snapshot (find_room id store)

-- `repository.findRooms`, in the order of the table
unfoldable pub find_rooms : List ℕ → PropertyStore → List RoomRecord
find_rooms ids store = rooms_query (λ r p. exists_where (nat_eq r.id) ids) store

-- `new Set(ids).size === ids.length`
unfoldable pub are_distinct : List ℕ → Bool
are_distinct [] = true
are_distinct (id ∷ ids) = not (exists_where (nat_eq id) ids) && are_distinct ids

abbrev pub is_valid_batch : List ℕ → Bool
is_valid_batch ids = not (ltb (length ids) 1 || ltb 10 (length ids) || not (are_distinct ids))

abbrev pub same_owner : Option ℕ → Option ℕ → Bool
same_owner none none = true
same_owner (some a) (some b) = a == b
same_owner _ _ = false

abbrev pub is_foreign : RoomRecord → RoomRecord → Bool
is_foreign head room =
    not (room.row.property_id == head.row.property_id)
    || not (same_owner room.owner_id head.owner_id)

abbrev pub viewing_room : RoomRecord → PropertyRecord → RoomRecord → ViewingRoomSnapshot
viewing_room head p room = record {
  room_id = room.row.id;
  property_id = head.row.property_id;
  owner_id = head.owner_id;
  property_status = p.status;
  room_status = room.row.status;
  property_deleted = is_some p.deleted_at;
  room_deleted = is_some room.row.deleted_at;
  bookable =
      is_none p.deleted_at
      && is_none room.row.deleted_at
      && p.status == active
      && room.row.status == available;
}

-- The snapshot of the rooms that were found; without one, reading `rooms[0]` would fail.
abbrev pub viewing_rooms : List RoomRecord → ℕ → Exec PropertyStore ViewingRoomsSnapshot
viewing_rooms [] renter_id = throw failure
viewing_rooms (head ∷ rest) renter_id = do
  require (not (exists_where (is_foreign head) (head ∷ rest))) (bad_request mixed_room_batch)
  property ← require_property head.row.property_id
  pure (record {
    property_id = head.row.property_id;
    owner_id = head.owner_id;
    rooms = map (viewing_room head property) (head ∷ rest);
    renter_is_owner = is_owned_by renter_id head.owner_id;
  })

unfoldable pub get_viewing_rooms_snapshot : List ℕ → ℕ → Exec PropertyStore ViewingRoomsSnapshot
get_viewing_rooms_snapshot ids renter_id = do
  require (is_valid_batch ids) (bad_request invalid_room_batch)
  rooms ← gets (find_rooms ids)
  require (length rooms == length ids) (not_found room_not_found)
  viewing_rooms rooms renter_id
