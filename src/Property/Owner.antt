-- ===== src/Property/Owner.antt =====
-- What owners do with their properties and rooms: the rest of libs/property/src/property.service.ts, the
-- bodies of libs/property/src/http/property.dto.ts, and apps/owner-api/src/property.controller.ts.
pub mod Requests
pub mod Writing
pub mod Operations
pub mod Isolation
pub mod History
pub mod Patch
use smart_platform_services.Common.{
  ℕ, Bool, true, false, ◌&&◌, Option, none, some, List, Text, text, if◌then◌else◌, ◌==◌, nat_Eq,
  is_none,
}
use smart_platform_services.Identity.Contracts.{failure, not_found, room_not_found}
use smart_platform_services.Identity.Exec.{Exec, pure, throw, gets, ◌>>=◌, ◌>>◌}
use smart_platform_services.Property.{
  Address, PropertyStatus, draft, RoomStatus, available, PropertyRecord, RoomRow, RoomRecord,
  PropertyStore, list_rooms_by_property, save_property, save_room,
}
use smart_platform_services.Property.Insertion.{
  list_properties_by_owner, insert_property, insert_room,
}
use smart_platform_services.Property.Service.{
  require_room, owned_property, assert_owner_owns_room, set_property_status, set_room_status,
  delete_property, delete_room,
}

-- A key of an object: it is absent, or it has a value, which may be undefined or null.
pub data Field {ℓ} (A : Type ℓ) : Type ℓ where
  absent : Field A
  given : Option A → Field A

-- A key of `{ ...old, ...input }`.
abbrev pub spread {ℓ} : {A : Type ℓ} → Field A → Option A → Option A
spread absent old = old
spread (given new) old = new

pub record CreatePropertyInput : Type 0 where
  pub name : Text
  pub description : Option Text
  pub address : Address

pub record UpdatePropertyInput : Type 0 where
  pub name : Field Text
  pub description : Field Text
  pub address : Field Address

pub record CreateRoomInput : Type 0 where
  pub code : Text
  pub name : Text
  pub description : Option Text
  pub monthly_rent : Text
  pub deposit_amount : Option Text
  pub currency : Option Text

pub record UpdateRoomInput : Type 0 where
  pub code : Field Text
  pub name : Field Text
  pub description : Field Text
  pub monthly_rent : Field Text
  pub deposit_amount : Field Text
  pub currency : Field Text

-- `id` and `now` are what the database draws.
unfoldable pub create_property : ℕ → ℕ → ℕ → CreatePropertyInput → Exec PropertyStore PropertyRecord
create_property id now owner_id input = insert_property (record {
  id = id;
  created_at = now;
  owner_id = owner_id;
  name = input.name;
  description = input.description;
  address = input.address;
  status = draft;
  deleted_at = none;
})

unfoldable pub list_properties : ℕ → Exec PropertyStore (List PropertyRecord)
list_properties owner_id = gets (list_properties_by_owner owner_id)

unfoldable pub get_property : ℕ → ℕ → Exec PropertyStore PropertyRecord
get_property owner_id property_id = owned_property owner_id property_id

-- The columns that are NOT NULL want a value.
abbrev pub merged_property :
    PropertyRecord → Option Text → Option Text → Option Address → Option PropertyRecord
merged_property p (some name) description (some address) =
    some (record p { name = name; description = description; address = address })
merged_property p _ _ _ = none

-- `{ ...property, ...input }`
abbrev pub updated_property : PropertyRecord → UpdatePropertyInput → Option PropertyRecord
updated_property p input =
    merged_property p (spread input.name (some p.name)) (spread input.description p.description)
      (spread input.address (some p.address))

-- The statement fails at a NULL for a column that is NOT NULL.
abbrev pub save_merged_property : Option PropertyRecord → Exec PropertyStore PropertyRecord
save_merged_property none = throw failure
save_merged_property (some p) = save_property p

unfoldable pub update_property : ℕ → ℕ → UpdatePropertyInput → Exec PropertyStore PropertyRecord
update_property owner_id property_id input = do
  property ← owned_property owner_id property_id
  save_merged_property (updated_property property input)

-- `value ?? fallback`
abbrev pub or_default {ℓ} : {A : Type ℓ} → Option A → A → A
or_default none fallback = fallback
or_default (some value) fallback = value

unfoldable pub create_room : ℕ → ℕ → ℕ → CreateRoomInput → Exec PropertyStore RoomRecord
create_room id owner_id property_id input = do
  owned_property owner_id property_id
  insert_room (record {
    id = id;
    property_id = property_id;
    code = input.code;
    name = input.name;
    description = input.description;
    monthly_rent = input.monthly_rent;
    deposit_amount = or_default input.deposit_amount (text "0");
    currency = or_default input.currency (text "VND");
    status = available;
    deleted_at = none;
  })

unfoldable pub list_rooms : ℕ → ℕ → Exec PropertyStore (List RoomRecord)
list_rooms owner_id property_id = do
  owned_property owner_id property_id
  gets (list_rooms_by_property property_id)

unfoldable pub get_room : ℕ → ℕ → Exec PropertyStore RoomRecord
get_room owner_id room_id = do
  room ← require_room room_id
  assert_owner_owns_room owner_id room_id
  pure room

abbrev pub merged_room :
    RoomRow
    → Option Text
    → Option Text
    → Option Text
    → Option Text
    → Option Text
    → Option Text
    → Option RoomRow
merged_room r (some code) (some name) description (some rent) (some deposit) (some currency) =
    some (record r {
      code = code;
      name = name;
      description = description;
      monthly_rent = rent;
      deposit_amount = deposit;
      currency = currency;
    })
merged_room r _ _ _ _ _ _ = none

-- `{ ...room, ...input }`
abbrev pub updated_room : RoomRow → UpdateRoomInput → Option RoomRow
updated_room r input =
    merged_room r (spread input.code (some r.code)) (spread input.name (some r.name))
      (spread input.description r.description) (spread input.monthly_rent (some r.monthly_rent))
      (spread input.deposit_amount (some r.deposit_amount))
      (spread input.currency (some r.currency))

abbrev pub save_merged_room : Option RoomRow → Exec PropertyStore RoomRecord
save_merged_room none = throw failure
save_merged_room (some r) = save_room r

unfoldable pub update_room : ℕ → ℕ → UpdateRoomInput → Exec PropertyStore RoomRecord
update_room owner_id room_id input = do
  room ← get_room owner_id room_id
  save_merged_room (updated_room room.row input)
