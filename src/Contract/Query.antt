-- ===== src/Contract/Query.antt =====
-- libs/contract/src/postgres-contract.repository.ts and libs/contract/src/contract-query.service.ts: the
-- rentals of a renter's active contracts. What the service logs is not kept.
use smart_platform_services.Common.{
  ℕ, Bool, false, not, ◌&&◌, ◌||◌, Option, none, some, List, [], ◌∷◌, Text, ltb, leb, if◌then◌else◌,
  ◌==◌, nat_Eq, is_some, find_where, exists_where, trim, length, is_truthy,
}
use smart_platform_services.Identity.Contracts.{service_unavailable, profile_unavailable}
use smart_platform_services.Identity.Exec.{Result, ok, err}
use smart_platform_services.Contract.{ContractRow, is_active}
use smart_platform_services.Property.{
  AddressValue, string_value, other_value, Address, PropertyRecord, RoomRow, PropertyStore,
  is_property, is_room,
}

pub record ActiveRenterContractRecord : Type 0 where
  pub contract_id : ℕ
  pub room : Option Text
  pub property : Option Text
  pub property_address : Option Address
  pub expires_at : Option Text
  pub owner_signed_at : Option ℕ
  pub renter_signed_at : Option ℕ
  pub activated_at : Option ℕ

-- `WHERE c.renter_id = $1 AND c.status = 'active' AND …`
abbrev pub is_listed : ℕ → ContractRow → Bool
is_listed renter_id c =
    c.renter_id == renter_id
    && is_active c.status
    && is_some c.owner_signed_at
    && is_some c.renter_signed_at
    && is_some c.activated_at
    && is_some c.ends_on

-- `LEFT JOIN rooms … LEFT JOIN properties …`: the ids are the keys of both.
abbrev pub room_of : ContractRow → PropertyStore → Option RoomRow
room_of c store = find_where (is_room c.room_id) store.rooms

abbrev pub property_of : Option RoomRow → PropertyStore → Option PropertyRecord
property_of none store = none
property_of (some r) store = find_where (is_property r.property_id) store.properties

abbrev pub mapped {ℓ} : {A B : Type ℓ} → (A → B) → Option A → Option B
mapped f none = none
mapped f (some a) = some (f a)

abbrev pub contract_record : ContractRow → PropertyStore → ActiveRenterContractRecord
contract_record c store =
    let r = room_of c store in
    let p = property_of r store in
    record {
      contract_id = c.id;
      room = mapped (λ (x : RoomRow). x.name) r;
      property = mapped (λ (x : PropertyRecord). x.name) p;
      property_address = mapped (λ (x : PropertyRecord). x.address) p;
      expires_at = c.ends_on;
      owner_signed_at = c.owner_signed_at;
      renter_signed_at = c.renter_signed_at;
      activated_at = c.activated_at;
    }

unfoldable pub contract_records :
    ℕ → PropertyStore → List ContractRow → List ActiveRenterContractRecord
contract_records renter_id store [] = []
contract_records renter_id store (c ∷ cs) =
    let rest = contract_records renter_id store cs in
    if is_listed renter_id c then contract_record c store ∷ rest else rest

unfoldable pub list_active_renter_contracts : ℕ → PropertyStore → List ActiveRenterContractRecord
list_active_renter_contracts renter_id store = contract_records renter_id store store.contracts

pub record ActiveRentalSummary : Type 0 where
  pub contract_id : ℕ
  pub room : Text
  pub property : Text
  pub property_address : Address
  pub expires_at : Option Text
  pub signed_at : ℕ

abbrev pub has_text : AddressValue → Bool
has_text (string_value value) = ltb 0 (length (trim value))
has_text other_value = false

-- `Object.values(address).some(…)`; an address that is there is an object, which is truthy.
abbrev pub is_readable : Option Address → Bool
is_readable none = false
is_readable (some address) = exists_where (λ entry. has_text entry.1) address

unfoldable pub has_displayable_rental : ActiveRenterContractRecord → Bool
has_displayable_rental record_ =
    is_truthy record_.room && is_truthy record_.property && is_readable record_.property_address

-- A date is an object; the text of a date is empty only if it is missing.
unfoldable pub has_lifecycle : ActiveRenterContractRecord → Bool
has_lifecycle r =
    is_some r.owner_signed_at
    && is_some r.renter_signed_at
    && is_some r.activated_at
    && is_some r.expires_at

-- The summary of a record that is displayable and has its lifecycle.
abbrev pub summary_with :
    ℕ
    → Option Text
    → Option Text
    → Option Text
    → Option Address
    → Option ℕ
    → Option ActiveRentalSummary
summary_with id expires (some room) (some property) (some address) (some signed) = some (record {
  contract_id = id;
  room = room;
  property = property;
  property_address = address;
  expires_at = expires;
  signed_at = signed;
})
summary_with id expires _ _ _ _ = none

abbrev pub summary_of : ActiveRenterContractRecord → Option ActiveRentalSummary
summary_of r =
    if has_displayable_rental r && has_lifecycle r
    then summary_with r.contract_id r.expires_at r.room r.property r.property_address
        r.renter_signed_at
    else none

-- The order of `sort`: ISO texts of dates, and texts of uuids, compare as what they spell.
abbrev pub precedes : ActiveRentalSummary → ActiveRentalSummary → Bool
precedes left right =
    ltb left.signed_at right.signed_at
    || (left.signed_at == right.signed_at && leb left.contract_id right.contract_id)

unfoldable pub insert_rental :
    ActiveRentalSummary → List ActiveRentalSummary → List ActiveRentalSummary
insert_rental rental [] = rental ∷ []
insert_rental rental (next ∷ rentals) =
    let rest = insert_rental rental rentals in
    if precedes rental next then rental ∷ next ∷ rentals else next ∷ rest

abbrev pub insert_if :
    Option ActiveRentalSummary → List ActiveRentalSummary → List ActiveRentalSummary
insert_if none rentals = rentals
insert_if (some rental) rentals = insert_rental rental rentals

unfoldable pub sorted_rentals : List ActiveRenterContractRecord → List ActiveRentalSummary
sorted_rentals [] = []
sorted_rentals (r ∷ rs) = let rest = sorted_rentals rs in insert_if (summary_of r) rest

-- `DefaultContractQueryService.listActiveRentalsForRenter` on the records of the repository.
unfoldable pub rentals_of : List ActiveRenterContractRecord → Result (List ActiveRentalSummary)
rentals_of records =
    if exists_where (λ r. not (has_displayable_rental r)) records
    then err (service_unavailable profile_unavailable)
    else ok (sorted_rentals records)

unfoldable pub list_active_rentals_for_renter :
    ℕ → PropertyStore → Result (List ActiveRentalSummary)
list_active_rentals_for_renter renter_id store =
    rentals_of (list_active_renter_contracts renter_id store)
