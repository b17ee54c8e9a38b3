-- ===== src/Property/Writes.antt =====
-- What the statements that write properties and rooms leave in the tables.
use smart_platform_services.Common.{
  ◌≡◌, refl, ◌⊎◌, inl, inr, true, false, ◌∷◌, nat_Eq, find_where, exists_where, update_where,
  Bool-cases, Option-cases,
}
use smart_platform_services.Identity.Exec.{ok}
use smart_platform_services.Property.{
  PropertyRecord, RoomRow, RoomRecord, PropertyStore, is_property, is_room, saved_property,
  saved_room, find_property, takes_code, meets_code, save_property, save_room,
}
use smart_platform_services.Property.Insertion.{insert_property, insert_room}

module _ (room : RoomRow) (store : PropertyStore) where
  -- A room is written where no other room has its code.
  pub save_room-cases :
      ((exists_where (takes_code room) store.rooms ≡ true) × ((save_room room store).1 ≡ store))
      ⊎ ((exists_where (takes_code room) store.rooms ≡ false)
          × ((save_room room store).1 ≡ record store {
            rooms = update_where (is_room room.id) (saved_room room) store.rooms;
          }))
  unfolding save_room
  save_room-cases = elim (Bool-cases (exists_where (takes_code room) store.rooms)) [
    | inl t ↦ inl (t, rw t refl)
    | inr t ↦
        elim (Option-cases (
          find_where (is_room room.id)
            (update_where (is_room room.id) (saved_room room) store.rooms))) [
              | inl n ↦ inr (t, rw (t, n) refl)
              | inr (r, n) ↦ inr (t, rw (t, n) refl)
            ]
  ]

  pub save_room-ok :
      (saved : RoomRecord)
      → (save_room room store).0 ≡ ok saved
      → (save_room room store).1
        ≡ record store { rooms = update_where (is_room room.id) (saved_room room) store.rooms }
  unfolding save_room
  save_room-ok saved e = elim (Bool-cases (exists_where (takes_code room) store.rooms)) [
    | inl t ↦ absurd (cc (rw t at e))
    | inr t ↦ elim save_room-cases [ inl (u, w) ↦ absurd (cc) | inr (u, w) ↦ w ]
  ]

  pub insert_room-cases :
      ((insert_room room store).1 ≡ store)
      ⊎ ((exists_where (is_room room.id) store.rooms ≡ false)
          × ((insert_room room store).1 ≡ record store { rooms = room ∷ store.rooms }))
  unfolding insert_room
  insert_room-cases = elim (Bool-cases (exists_where (is_room room.id) store.rooms)) [
    | inl t ↦ inl (rw t refl)
    | inr t ↦ elim (Bool-cases (exists_where (meets_code room) store.rooms)) [
      | inl u ↦ inl (rw (t, u) refl)
      | inr u ↦ inr (t, rw (t, u) refl)
    ]
  ]

module _ (property : PropertyRecord) (store : PropertyStore) where
  pub save_property_written : (save_property property store).1 ≡ record store {
    properties = update_where (is_property property.id) (saved_property property) store.properties;
  }
  unfolding save_property find_property
  save_property_written =
      elim (Option-cases (
        find_where (is_property property.id)
          (update_where (is_property property.id) (saved_property property) store.properties))) [
            | inl n ↦ rw n refl
            | inr (p, n) ↦ rw n refl
          ]

  pub insert_property-cases :
      ((insert_property property store).1 ≡ store)
      ⊎ ((exists_where (is_property property.id) store.properties ≡ false)
          × ((insert_property property store).1
              ≡ record store { properties = property ∷ store.properties }))
  unfolding insert_property
  insert_property-cases =
      elim (Bool-cases (exists_where (is_property property.id) store.properties)) [
        | inl t ↦ inl (rw t refl)
        | inr t ↦ inr (t, rw t refl)
      ]
