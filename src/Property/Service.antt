-- ===== src/Property/Service.antt =====
-- libs/property/src/property.service.ts: who may change a property or a room, and which rooms may be
-- booked.
use smart_platform_services.Common.{
  ℕ, Bool, true, false, not, ◌&&◌, ◌||◌, Option, none, some, ◌==◌, nat_Eq, ◌∷◌, is_some, is_none,
}
use smart_platform_services.Identity.Contracts.{
  bad_request, forbidden, not_found, property_not_found, room_not_found, room_not_bookable,
  room_active_contract, property_status_owner_forbidden, room_status_owner_forbidden,
}
use smart_platform_services.Identity.Exec.{Exec, pure, throw, gets, modify, require, ◌>>=◌, ◌>>◌}
use smart_platform_services.Property.{
  PropertyStatus, active, suspended, RoomStatus, available, reserved, occupied, property_status_Eq,
  room_status_Eq, PropertyRecord, RoomRow, RoomRecord, PropertyEvent, property_status_changed,
  room_status_changed, property_deleted, room_deleted, PropertyStore, find_property, find_room,
  has_active_contract, save_property, save_room,
}

abbrev pub property_or_missing : Option PropertyRecord → Exec PropertyStore PropertyRecord
property_or_missing none = throw (not_found property_not_found)
property_or_missing (some p) = pure p

unfoldable pub require_property : ℕ → Exec PropertyStore PropertyRecord
require_property id = do row ← gets (find_property id); property_or_missing row

abbrev pub room_or_missing : Option RoomRecord → Exec PropertyStore RoomRecord
room_or_missing none = throw (not_found room_not_found)
room_or_missing (some room) = pure room

unfoldable pub require_room : ℕ → Exec PropertyStore RoomRecord
require_room id = do row ← gets (find_room id); room_or_missing row

unfoldable pub owned_property : ℕ → ℕ → Exec PropertyStore PropertyRecord
owned_property owner_id id = do
  row ← require_property id
  require (row.owner_id == owner_id && is_none row.deleted_at) (not_found property_not_found)
  pure row

-- `room.ownerId === ownerId`
abbrev pub is_owned_by : ℕ → Option ℕ → Bool
is_owned_by owner_id none = false
is_owned_by owner_id (some id) = id == owner_id

unfoldable pub assert_owner_owns_room : ℕ → ℕ → Exec PropertyStore Unit
assert_owner_owns_room owner_id room_id = do
  room ← require_room room_id
  require (is_owned_by owner_id room.owner_id && is_none room.row.deleted_at)
      (not_found room_not_found)

abbrev pub is_bookable : RoomRow → PropertyRecord → Bool
is_bookable r p = not (
    is_some r.deleted_at
    || is_some p.deleted_at
    || not (r.status == available)
    || not (p.status == active))

unfoldable pub assert_room_bookable : ℕ → Exec PropertyStore Unit
assert_room_bookable room_id = do
  room ← require_room room_id
  property ← require_property room.row.property_id
  require (is_bookable room.row property) (forbidden room_not_bookable)

unfoldable pub assert_room_assignable_to_contract : ℕ → Exec PropertyStore Unit
assert_room_assignable_to_contract room_id = assert_room_bookable room_id

abbrev pub publish : PropertyEvent → Exec PropertyStore Unit
publish event = modify λ store. record store { events = event ∷ store.events }

-- `['draft', 'active', 'inactive'].includes(status)`
abbrev pub is_owner_property_status : PropertyStatus → Bool
is_owner_property_status suspended = false
is_owner_property_status _ = true

unfoldable pub set_property_status : ℕ → ℕ → PropertyStatus → Exec PropertyStore PropertyRecord
set_property_status owner_id property_id status = do
  require (is_owner_property_status status) (forbidden property_status_owner_forbidden)
  property ← owned_property owner_id property_id
  saved ← save_property (record property { status = status })
  publish (property_status_changed property_id owner_id property.status status)
  pure saved

-- `['available', 'maintenance', 'inactive'].includes(status)`
abbrev pub is_owner_room_status : RoomStatus → Bool
is_owner_room_status reserved = false
is_owner_room_status occupied = false
is_owner_room_status _ = true

unfoldable pub set_room_status : ℕ → ℕ → RoomStatus → Exec PropertyStore RoomRecord
set_room_status owner_id room_id status = do
  require (is_owner_room_status status) (forbidden room_status_owner_forbidden)
  room ← require_room room_id
  assert_owner_owns_room owner_id room_id
  held ← gets (has_active_contract room_id)
  require (not (status == available && held)) (bad_request room_active_contract)
  saved ← save_room (record room.row { status = status })
  publish (room_status_changed room_id room.row.property_id owner_id room.row.status status)
  pure saved

-- `at` is `new Date()`.
unfoldable pub delete_property : ℕ → ℕ → ℕ → Exec PropertyStore Unit
delete_property owner_id property_id at = do
  property ← owned_property owner_id property_id
  save_property (record property { deleted_at = some at })
  publish (property_deleted property_id owner_id property.status)

unfoldable pub delete_room : ℕ → ℕ → ℕ → Exec PropertyStore Unit
delete_room owner_id room_id at = do
  room ← require_room room_id
  assert_owner_owns_room owner_id room_id
  save_room (record room.row { deleted_at = some at })
  publish (room_deleted room_id room.row.property_id owner_id room.row.status)
