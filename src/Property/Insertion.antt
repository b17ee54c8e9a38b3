-- ===== src/Property/Insertion.antt =====
-- New rows, and the list of an owner's properties: createProperty, createRoom and listPropertiesByOwner of
-- libs/property/src/postgres-property.repository.ts.
use smart_platform_services.Common.{
  ℕ, ◌&&◌, Option, none, some, List, [], ◌∷◌, if◌then◌else◌, ◌==◌, nat_Eq, leb, is_none,
  exists_where,
}
use smart_platform_services.Identity.Contracts.{
  unique_violation, properties_pkey, rooms_pkey, uq_rooms_property_code,
}
use smart_platform_services.Identity.Exec.{Exec, ok, err}
use smart_platform_services.Property.{
  PropertyRecord, RoomRow, RoomRecord, PropertyStore, is_property, is_room, meets_code,
  find_property,
}

-- `ORDER BY created_at DESC`
unfoldable pub insert_newest : PropertyRecord → List PropertyRecord → List PropertyRecord
insert_newest p [] = p ∷ []
insert_newest p (q ∷ qs) =
    let rest = insert_newest p qs in if leb q.created_at p.created_at then p ∷ q ∷ qs else q ∷ rest

unfoldable pub owned_newest : ℕ → List PropertyRecord → List PropertyRecord
owned_newest owner_id [] = []
owned_newest owner_id (p ∷ ps) =
    let rest = owned_newest owner_id ps in
    if p.owner_id == owner_id && is_none p.deleted_at then insert_newest p rest else rest

unfoldable pub list_properties_by_owner : ℕ → PropertyStore → List PropertyRecord
list_properties_by_owner owner_id store = owned_newest owner_id store.properties

-- `INSERT INTO properties`; the database draws the id and `created_at`.
unfoldable pub insert_property : PropertyRecord → Exec PropertyStore PropertyRecord
insert_property property store =
    if exists_where (is_property property.id) store.properties
    then (err (unique_violation properties_pkey), store)
    else (ok property, record store { properties = property ∷ store.properties })

-- The owner of a property, as the statement of `createRoom` reads it.
abbrev pub owner_of : Option PropertyRecord → Option ℕ
owner_of none = none
owner_of (some p) = some p.owner_id

-- `INSERT INTO rooms`; the property is there, since a foreign key refers to it.
unfoldable pub insert_room : RoomRow → Exec PropertyStore RoomRecord
insert_room room store =
    if exists_where (is_room room.id) store.rooms
    then (err (unique_violation rooms_pkey), store)
    else if exists_where (meets_code room) store.rooms
    then (err (unique_violation uq_rooms_property_code), store)
    else (
      ok (record { row = room; owner_id = owner_of (find_property room.property_id store) }),
      record store { rooms = room ∷ store.rooms },
    )
