-- ===== src/Property.antt =====
-- libs/property/src/public/property.contracts.ts and the rows and statements of
-- libs/property/src/postgres-property.repository.ts that find and save properties and rooms.
pub mod Service
pub mod Insertion
pub mod Writes
pub mod Bookable
pub mod Status
pub mod Snapshots
pub mod Owner
use smart_platform_services.Common.{
  ℕ, ◌≡◌, ◌↔◌, Bool, true, false, not, ◌&&◌, text_Eq, leb, Option, none, some, List, [], ◌∷◌, Text,
  if◌then◌else◌, ◌==◌, nat_Eq, arith, Eq, is_none, find_where, exists_where, update_where,
}
use smart_platform_services.Contract.{ContractRow, is_active}
use smart_platform_services.Identity.Contracts.{
  failure, unique_violation, properties_pkey, rooms_pkey, uq_rooms_property_code,
}
use smart_platform_services.Identity.Exec.{Exec, ok, err, pure, throw, modify, ◌>>=◌, ◌>>◌}

pub data PropertyStatus : Type 0 where
  draft active inactive suspended : PropertyStatus

-- `room_inactive` is the status 'inactive' of a room.
pub data RoomStatus : Type 0 where
  available reserved occupied maintenance room_inactive : RoomStatus

abbrev pub same_property_status : PropertyStatus → PropertyStatus → Bool
same_property_status draft draft = true
same_property_status active active = true
same_property_status inactive inactive = true
same_property_status suspended suspended = true
same_property_status _ _ = false

pub same_property_status_iff : (a b : PropertyStatus) → (same_property_status a b ≡ true) ↔ (a ≡ b)
same_property_status_iff a b = ground arith

instance abbrev pub property_status_Eq : Eq PropertyStatus
property_status_Eq = record { test = same_property_status; decides = same_property_status_iff }

abbrev pub same_room_status : RoomStatus → RoomStatus → Bool
same_room_status available available = true
same_room_status reserved reserved = true
same_room_status occupied occupied = true
same_room_status maintenance maintenance = true
same_room_status room_inactive room_inactive = true
same_room_status _ _ = false

pub same_room_status_iff : (a b : RoomStatus) → (same_room_status a b ≡ true) ↔ (a ≡ b)
same_room_status_iff a b = ground arith

instance abbrev pub room_status_Eq : Eq RoomStatus
room_status_Eq = record { test = same_room_status; decides = same_room_status_iff }

-- A value of the JSON object that an address is.
pub data AddressValue : Type 0 where
  string_value : Text → AddressValue
  other_value : AddressValue

-- The keys of an address with their values.
abbrev pub Address : Type 0
Address = List (Text × AddressValue)

-- A property, as it is stored and, but for `created_at`, as it is answered.
pub record PropertyRecord : Type 0 where
  pub id : ℕ
  pub created_at : ℕ
  pub owner_id : ℕ
  pub name : Text
  pub description : Option Text
  pub address : Address
  pub status : PropertyStatus
  pub deleted_at : Option ℕ

-- A row of the table of rooms, which has no owner.
pub record RoomRow : Type 0 where
  pub id : ℕ
  pub property_id : ℕ
  pub code : Text
  pub name : Text
  pub description : Option Text
  pub monthly_rent : Text
  pub deposit_amount : Text
  pub currency : Text
  pub status : RoomStatus
  pub deleted_at : Option ℕ

-- A room as it is answered: the owner is undefined where the statement does not read it.
pub record RoomRecord : Type 0 where
  pub row : RoomRow
  pub owner_id : Option ℕ

-- What the service publishes.
pub data PropertyEvent : Type 0 where
  property_status_changed : ℕ → ℕ → PropertyStatus → PropertyStatus → PropertyEvent
  room_status_changed : ℕ → ℕ → ℕ → RoomStatus → RoomStatus → PropertyEvent
  property_deleted : ℕ → ℕ → PropertyStatus → PropertyEvent
  room_deleted : ℕ → ℕ → ℕ → RoomStatus → PropertyEvent

-- The tables, and the events that were published, the last one first.
pub record PropertyStore : Type 0 where
  pub properties : List PropertyRecord
  pub rooms : List RoomRow
  pub contracts : List ContractRow
  pub events : List PropertyEvent

abbrev pub is_property : ℕ → PropertyRecord → Bool
is_property id p = p.id == id

abbrev pub is_room : ℕ → RoomRow → Bool
is_room id r = r.id == id

-- `property` of the row that a room refers to, if the row is there and `test` holds of both.
abbrev pub joined :
    (RoomRow → PropertyRecord → Bool)
    → RoomRow
    → Option PropertyRecord
    → List RoomRecord
    → List RoomRecord
joined test r none rest = rest
joined test r (some p) rest =
    if test r p then record { row = r; owner_id = some p.owner_id } ∷ rest else rest

-- `rooms r JOIN properties p ON p.id = r.property_id WHERE test`; the id is the key of properties.
unfoldable pub join :
    (RoomRow → PropertyRecord → Bool) → List PropertyRecord → List RoomRow → List RoomRecord
join test ps [] = []
join test ps (r ∷ rs) =
    let rest = join test ps rs in joined test r (find_where (is_property r.property_id) ps) rest

unfoldable pub rooms_query : (RoomRow → PropertyRecord → Bool) → PropertyStore → List RoomRecord
rooms_query test store = join test store.properties store.rooms

abbrev pub is_public : RoomRow → PropertyRecord → Bool
is_public r p =
    p.status == active && is_none p.deleted_at && r.status == available && is_none r.deleted_at

unfoldable pub list_public_rooms : PropertyStore → List RoomRecord
list_public_rooms store = rooms_query is_public store

unfoldable pub find_property : ℕ → PropertyStore → Option PropertyRecord
find_property id store = find_where (is_property id) store.properties

abbrev pub first : List RoomRecord → Option RoomRecord
first [] = none
first (room ∷ rooms) = some room

unfoldable pub find_room : ℕ → PropertyStore → Option RoomRecord
find_room id store = first (rooms_query (λ r p. is_room id r) store)

unfoldable pub list_rooms_by_property : ℕ → PropertyStore → List RoomRecord
list_rooms_by_property id store =
    rooms_query (λ r p. r.property_id == id && is_none r.deleted_at) store

unfoldable pub has_active_contract : ℕ → PropertyStore → Bool
has_active_contract id store =
    exists_where (λ c. c.room_id == id && is_active c.status) store.contracts

-- The row after `saveProperty`: the owner stays.
abbrev pub saved_property : PropertyRecord → PropertyRecord → PropertyRecord
saved_property property p = record property {
  id = p.id;
  owner_id = p.owner_id;
  created_at = p.created_at;
}

abbrev pub property_or_failure : Option PropertyRecord → Exec PropertyStore PropertyRecord
property_or_failure none = throw failure
property_or_failure (some p) = pure p

unfoldable pub save_property : PropertyRecord → Exec PropertyStore PropertyRecord
save_property property = do
  modify λ store. record store {
    properties = update_where (is_property property.id) (saved_property property) store.properties;
  }
  λ store. property_or_failure (find_property property.id store) store

-- The row after `saveRoom`: the room stays in its property.
abbrev pub saved_room : RoomRow → RoomRow → RoomRow
saved_room room r = record room { id = r.id; property_id = r.property_id }

-- The statement returns no `owner_id`.
abbrev pub room_or_failure : Option RoomRow → Exec PropertyStore RoomRecord
room_or_failure none = throw failure
room_or_failure (some r) = pure (record { row = r; owner_id = none })

-- `uq_rooms_property_code`: another room of the property has the code, a deleted one included.
abbrev pub meets_code : RoomRow → RoomRow → Bool
meets_code room r = r.property_id == room.property_id && r.code == room.code

abbrev pub takes_code : RoomRow → RoomRow → Bool
takes_code room r = not (is_room room.id r) && meets_code room r

-- The statement fails where another room has the code.
abbrev pub check_code : RoomRow → Exec PropertyStore Unit
check_code room store =
    if exists_where (takes_code room) store.rooms
    then (err (unique_violation uq_rooms_property_code), store)
    else (ok tt, store)

unfoldable pub save_room : RoomRow → Exec PropertyStore RoomRecord
save_room room = do
  check_code room
  modify
      λ store. record store { rooms = update_where (is_room room.id) (saved_room room) store.rooms }
  λ store. room_or_failure (find_where (is_room room.id) store.rooms) store
