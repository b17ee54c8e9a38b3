-- ===== src/Property/Owner/History.antt =====
-- Histories of requests: what one owner's requests leave alone.
use smart_platform_services.Common.{ℕ, ◌≡◌, refl, false, some, List, [], ◌∷◌, ◌==◌, nat_Eq, All}
use smart_platform_services.Property.{
  PropertyRecord, RoomRecord, PropertyStore, find_property, find_room,
}
use smart_platform_services.Property.Service.{
  owned_property, set_property_status, set_room_status, delete_property, delete_room,
}
use smart_platform_services.Property.Owner.Requests.{
  OwnerRequest, post_property, get_properties, get_one_property, patch_property,
  patch_property_status, remove_property, post_room, get_rooms, get_one_room, patch_room,
  patch_room_status, remove_room, OwnerDraws, handle, property_body, room_body,
}
use smart_platform_services.Property.Owner.{
  create_property, update_property, list_properties, get_property, create_room, list_rooms,
  get_room, update_room,
}
use smart_platform_services.Property.Owner.Writing.{
  Writes, kept, owned_property_keeps, get_room_keeps,
}
use smart_platform_services.Property.Owner.Operations.{
  continue-Writes, create_property-Writes, update_property-Writes, set_property_status-Writes,
  delete_property-Writes, create_room-Writes, update_room-Writes, set_room_status-Writes,
  delete_room-Writes,
}
use smart_platform_services.Property.Owner.Isolation.{
  Referenced, Writes-property, Writes-room, Writes-Referenced,
}

-- Every request of an owner writes so.
pub handle-Writes :
    (actor : ℕ) (d : OwnerDraws) (request : OwnerRequest) (s : PropertyStore)
    → Writes actor s (handle actor d request s).1
unfolding handle list_properties get_property list_rooms
handle-Writes actor d (post_property x) s =
    continue-Writes actor s (create_property d.id d.now actor x s) _ (λ p t. (refl, refl))
      (create_property-Writes actor s d.id d.now x)
handle-Writes actor d get_properties s = kept refl refl
handle-Writes actor d (get_one_property id) s =
    continue-Writes actor s (owned_property actor id s) _ (λ p t. (refl, refl))
      (rw (owned_property_keeps actor id s) (kept refl refl))
handle-Writes actor d (patch_property id x) s =
    continue-Writes actor s (update_property actor id (property_body x) s) _ (λ p t. (refl, refl))
      (update_property-Writes actor s id (property_body x))
handle-Writes actor d (patch_property_status id status) s =
    continue-Writes actor s (set_property_status actor id status s) _ (λ p t. (refl, refl))
      (set_property_status-Writes actor s id status)
handle-Writes actor d (remove_property id) s =
    continue-Writes actor s (delete_property actor id d.now s) _ (λ p t. (refl, refl))
      (delete_property-Writes actor s id d.now)
handle-Writes actor d (post_room id x) s =
    continue-Writes actor s (create_room d.id actor id x s) _ (λ p t. (refl, refl))
      (create_room-Writes actor s d.id id x)
handle-Writes actor d (get_rooms id) s =
    continue-Writes actor s (list_rooms actor id s) _ (λ rs t. (refl, refl))
      (continue-Writes actor s (owned_property actor id s) _ (λ p t. (refl, refl))
        (rw (owned_property_keeps actor id s) (kept refl refl)))
handle-Writes actor d (get_one_room id) s =
    continue-Writes actor s (get_room actor id s) _ (λ r t. (refl, refl))
      (rw (get_room_keeps actor id s) (kept refl refl))
handle-Writes actor d (patch_room id x) s =
    continue-Writes actor s (update_room actor id (room_body x) s) _ (λ p t. (refl, refl))
      (update_room-Writes actor s id (room_body x))
handle-Writes actor d (patch_room_status id status) s =
    continue-Writes actor s (set_room_status actor id status s) _ (λ p t. (refl, refl))
      (set_room_status-Writes actor s id status)
handle-Writes actor d (remove_room id) s =
    continue-Writes actor s (delete_room actor id d.now s) _ (λ p t. (refl, refl))
      (delete_room-Writes actor s id d.now)

-- A request with its actor and what was drawn for it.
pub record OwnerCall : Type 0 where
  pub actor : ℕ
  pub draws : OwnerDraws
  pub request : OwnerRequest

-- The store after some requests, in their order, whether they succeed or not.
unfoldable pub run : List OwnerCall → PropertyStore → PropertyStore
run [] s = s
run (c ∷ calls) s = run calls (handle c.actor c.draws c.request s).1

-- Requests of others than `owner`.
abbrev pub FromOthers : ℕ → List OwnerCall → Type 0
FromOthers owner calls = All (λ c. (owner == c.actor) ≡ false) calls

pub run-Referenced :
    (calls : List OwnerCall) (s : PropertyStore) → Referenced s → Referenced (run calls s)
unfolding run
run-Referenced [] s h = h
run-Referenced (c ∷ calls) s h =
    let t = (handle c.actor c.draws c.request s).1 in
    run-Referenced calls t
      (Writes-Referenced c.actor s t (handle-Writes c.actor c.draws c.request s) h)

-- Whatever other owners request, in whatever order and with whatever outcome, an owner's property and
-- an owner's room are found as they were, in tables whose rooms all belong to a stored property.
pub run_isolated :
    (owner id room_id : ℕ) (calls : List OwnerCall) (s : PropertyStore) (p : PropertyRecord)
    (room : RoomRecord)
    → Referenced s
    → FromOthers owner calls
    → find_property id s ≡ some p
    → p.owner_id ≡ owner
    → find_room room_id s ≡ some room
    → room.owner_id ≡ some owner
    → (find_property id (run calls s) ≡ some p) × (find_room room_id (run calls s) ≡ some room)
unfolding run
run_isolated owner id room_id [] s p room h others f own g room_own = (f, g)
run_isolated owner id room_id (c ∷ calls) s p room h others f own g room_own =
    let t = (handle c.actor c.draws c.request s).1 in
    let w = handle-Writes c.actor c.draws c.request s in
    run_isolated owner id room_id calls t p room (Writes-Referenced c.actor s t w h) others.1
      (Writes-property c.actor id s t p w f (rw own others.0)) own
      (Writes-room c.actor room_id s t room w h g (rw room_own others.0)) room_own
