-- ===== src/Property/Owner/Requests.antt =====
-- The requests of apps/owner-api/src/property.controller.ts, with the bodies of
-- libs/property/src/http/property.dto.ts. The guards have established the actor.
use smart_platform_services.Common.{ℕ, Option, List, Text}
use smart_platform_services.Identity.Exec.{Exec, pure, ◌>>=◌, ◌>>◌}
use smart_platform_services.Property.{
  Address, PropertyStatus, RoomStatus, PropertyRecord, RoomRecord, PropertyStore,
}
use smart_platform_services.Property.Service.{
  set_property_status, set_room_status, delete_property, delete_room,
}
use smart_platform_services.Property.Owner.{
  given, CreatePropertyInput, UpdatePropertyInput, CreateRoomInput, UpdateRoomInput,
  create_property, list_properties, get_property, update_property, create_room, list_rooms,
  get_room, update_room,
}

pub record UpdatePropertyDto : Type 0 where
  pub name : Option Text
  pub description : Option Text
  pub address : Option Address

pub record UpdateRoomDto : Type 0 where
  pub code : Option Text
  pub name : Option Text
  pub description : Option Text
  pub monthly_rent : Option Text
  pub deposit_amount : Option Text
  pub currency : Option Text

-- A body is an instance of its class. The compiler's target is ES2023, so that each field of the class
-- is a key of the instance, undefined where the body leaves it out.
abbrev pub property_body : UpdatePropertyDto → UpdatePropertyInput
property_body x = record {
  name = given x.name;
  description = given x.description;
  address = given x.address;
}

abbrev pub room_body : UpdateRoomDto → UpdateRoomInput
room_body x = record {
  code = given x.code;
  name = given x.name;
  description = given x.description;
  monthly_rent = given x.monthly_rent;
  deposit_amount = given x.deposit_amount;
  currency = given x.currency;
}

pub data OwnerRequest : Type 0 where
  post_property : CreatePropertyInput → OwnerRequest
  get_properties : OwnerRequest
  get_one_property : ℕ → OwnerRequest
  patch_property : ℕ → UpdatePropertyDto → OwnerRequest
  patch_property_status : ℕ → PropertyStatus → OwnerRequest
  remove_property : ℕ → OwnerRequest
  post_room : ℕ → CreateRoomInput → OwnerRequest
  get_rooms : ℕ → OwnerRequest
  get_one_room : ℕ → OwnerRequest
  patch_room : ℕ → UpdateRoomDto → OwnerRequest
  patch_room_status : ℕ → RoomStatus → OwnerRequest
  remove_room : ℕ → OwnerRequest

pub data OwnerAnswer : Type 0 where
  one_property : PropertyRecord → OwnerAnswer
  many_properties : List PropertyRecord → OwnerAnswer
  one_room : RoomRecord → OwnerAnswer
  many_rooms : List RoomRecord → OwnerAnswer
  no_content : OwnerAnswer

-- What the platform draws for a request: the id of a new row, and the time.
pub record OwnerDraws : Type 0 where
  pub id : ℕ
  pub now : ℕ

unfoldable pub handle : ℕ → OwnerDraws → OwnerRequest → Exec PropertyStore OwnerAnswer
handle actor d (post_property x) = do p ← create_property d.id d.now actor x; pure (one_property p)
handle actor d get_properties = do ps ← list_properties actor; pure (many_properties ps)
handle actor d (get_one_property id) = do p ← get_property actor id; pure (one_property p)
handle actor d (patch_property id x) = do
  p ← update_property actor id (property_body x)
  pure (one_property p)
handle actor d (patch_property_status id status) = do
  p ← set_property_status actor id status
  pure (one_property p)
handle actor d (remove_property id) = do delete_property actor id d.now; pure no_content
handle actor d (post_room id x) = do r ← create_room d.id actor id x; pure (one_room r)
handle actor d (get_rooms id) = do rs ← list_rooms actor id; pure (many_rooms rs)
handle actor d (get_one_room id) = do r ← get_room actor id; pure (one_room r)
handle actor d (patch_room id x) = do r ← update_room actor id (room_body x); pure (one_room r)
handle actor d (patch_room_status id status) = do
  r ← set_room_status actor id status
  pure (one_room r)
handle actor d (remove_room id) = do delete_room actor id d.now; pure no_content
