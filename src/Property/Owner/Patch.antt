-- ===== src/Property/Owner/Patch.antt =====
-- PATCH /properties/:propertyId in apps/owner-api/src/property.controller.ts with a body that leaves columns
-- out.
use smart_platform_services.Common.{
  ℕ, ◌≡◌, refl, true, none, some, ◌||◌, is_none, ◌==◌, nat_Eq, ◌&&◌, Option-cases, inl, inr,
  eq_self,
}
use smart_platform_services.Identity.Contracts.{failure}
use smart_platform_services.Identity.Exec.{err}
use smart_platform_services.Property.{PropertyRecord, PropertyStore, find_property}
use smart_platform_services.Property.Service.{owned_property, require_property}
use smart_platform_services.Property.Owner.{update_property, save_merged_property, merged_property}
use smart_platform_services.Property.Owner.Requests.{UpdatePropertyDto, property_body}

save_merged-incomplete :
    (x : UpdatePropertyDto) (p : PropertyRecord) (s : PropertyStore)
    → (is_none x.name || is_none x.address) ≡ true
    → save_merged_property (merged_property p x.name x.description x.address) s ≡ (err failure, s)
save_merged-incomplete x p s h = elim (Option-cases x.name) [
  | inl n ↦ rw n refl
  | inr (name, n) ↦ elim (Option-cases x.address) [
    | inl a ↦ rw (n, a) refl
    | inr (address, a) ↦ absurd (cc (rw (n, a) at h))
  ]
]

-- When the body of PATCH /properties/:propertyId leaves the name or the address out, the service fails with
-- an error of the database (a NULL for a column that is NOT NULL), for the owner of a property that is not
-- deleted, and nothing is written. The key that is left out does not keep its column.
pub patch_property_incomplete :
    (actor id : ℕ) (x : UpdatePropertyDto) (s : PropertyStore) (p : PropertyRecord)
    → find_property id s ≡ some p
    → p.owner_id ≡ actor
    → p.deleted_at ≡ none
    → (is_none x.name || is_none x.address) ≡ true
    → update_property actor id (property_body x) s ≡ (err failure, s)
unfolding update_property owned_property require_property
patch_property_incomplete actor id x s p f own live h =
    let allowed : (p.owner_id == actor && is_none p.deleted_at) ≡ true =
      rw (own, live, eq_self actor) refl in
    rw (f, allowed) (save_merged-incomplete x p s h)
