-- ===== src/Property/Owner/Writing.antt =====
-- What a request of an owner may write.
use smart_platform_services.Common.{
  ℕ, ◌≡◌, refl, ◌∙◌, ap, inl, inr, true, false, ◌&&◌, some, ◌∷◌, ◌==◌, nat_Eq, arith, is_none,
  exists_where, update_where, Bool-cases, Option-cases, subst,
}
use smart_platform_services.Identity.Exec.{ok}
use smart_platform_services.Property.{
  PropertyRecord, RoomRow, RoomRecord, PropertyStore, is_property, is_room, saved_property,
  saved_room, find_property, find_room,
}
use smart_platform_services.Property.Service.{
  require_property, require_room, owned_property, is_owned_by, assert_owner_owns_room,
}
use smart_platform_services.Property.Owner.{get_room}

-- From the tables of `s` to those of `t`: at most one row is written, and it is the actor's, or new.
pub data Writes (actor : ℕ) (s t : PropertyStore) : Type 0 where
  kept : t.properties ≡ s.properties → t.rooms ≡ s.rooms → Writes actor s t
  property_saved :
      (p new : PropertyRecord)
      → find_property p.id s ≡ some p
      → (p.owner_id == actor) ≡ true
      → t.properties ≡ update_where (is_property p.id) (saved_property new) s.properties
      → t.rooms ≡ s.rooms
      → Writes actor s t
  property_inserted :
      (new : PropertyRecord)
      → exists_where (is_property new.id) s.properties ≡ false
      → t.properties ≡ new ∷ s.properties
      → t.rooms ≡ s.rooms
      → Writes actor s t
  room_saved :
      (room : RoomRecord) (new : RoomRow)
      → find_room room.row.id s ≡ some room
      → is_owned_by actor room.owner_id ≡ true
      → t.properties ≡ s.properties
      → t.rooms ≡ update_where (is_room room.row.id) (saved_room new) s.rooms
      → Writes actor s t
  room_inserted :
      (new : RoomRow)
      → exists_where (is_room new.id) s.rooms ≡ false
      → exists_where (is_property new.property_id) s.properties ≡ true
      → t.properties ≡ s.properties
      → t.rooms ≡ new ∷ s.rooms
      → Writes actor s t

module _ (actor id : ℕ) (s : PropertyStore) where
  pub owned_property_keeps : (owned_property actor id s).1 ≡ s
  unfolding owned_property require_property
  owned_property_keeps = elim (Option-cases (find_property id s)) [
    | inl n ↦ rw n refl
    | inr (p, f) ↦ elim (Bool-cases (p.owner_id == actor && is_none p.deleted_at)) [
      | inl o ↦ rw (f, o) refl
      | inr o ↦ rw (f, o) refl
    ]
  ]

  pub owned_property-ok :
      (p : PropertyRecord)
      → (owned_property actor id s).0 ≡ ok p
      → (find_property id s ≡ some p)
        × ((p.owner_id == actor) ≡ true)
        × (is_none p.deleted_at ≡ true)
  unfolding owned_property require_property
  owned_property-ok p e = elim (Option-cases (find_property id s)) [
    | inl n ↦ absurd (cc (rw n at e))
    | inr (q, f) ↦ elim (Bool-cases (q.owner_id == actor && is_none q.deleted_at)) [
      | inr o ↦ absurd (cc (rw (f, o) at e))
      | inl o ↦
          let same : q ≡ p = ok_inj (rw (f, o) at e) in
          (
            f ∙ ap some same,
            subst (λ x. (x.owner_id == actor) ≡ true) same (ground arith),
            subst (λ x. is_none x.deleted_at ≡ true) same (ground arith),
          )
    ]
  ]
    where
      ok_inj : {a b : PropertyRecord} → ok a ≡ ok b → a ≡ b
      ok_inj q = cc

  pub get_room_keeps : (get_room actor id s).1 ≡ s
  unfolding get_room require_room assert_owner_owns_room
  get_room_keeps = elim (Option-cases (find_room id s)) [
    | inl n ↦ rw n refl
    | inr (room, f) ↦
        elim (Bool-cases (is_owned_by actor room.owner_id && is_none room.row.deleted_at)) [
          | inl o ↦ rw (f, f, o) refl
          | inr o ↦ rw (f, f, o) refl
        ]
  ]

  pub get_room-ok :
      (room : RoomRecord)
      → (get_room actor id s).0 ≡ ok room
      → (find_room id s ≡ some room)
        × (is_owned_by actor room.owner_id ≡ true)
        × (is_none room.row.deleted_at ≡ true)
  unfolding get_room require_room assert_owner_owns_room
  get_room-ok room e = elim (Option-cases (find_room id s)) [
    | inl n ↦ absurd (cc (rw n at e))
    | inr (q, f) ↦ elim (Bool-cases (is_owned_by actor q.owner_id && is_none q.row.deleted_at)) [
      | inr o ↦ absurd (cc (rw (f, f, o) at e))
      | inl o ↦
          let same : q ≡ room = ok_inj (rw (f, f, o) at e) in
          (
            f ∙ ap some same,
            subst (λ x. is_owned_by actor x.owner_id ≡ true) same (ground arith),
            subst (λ x. is_none x.row.deleted_at ≡ true) same (ground arith),
          )
    ]
  ]
    where
      ok_inj : {a b : RoomRecord} → ok a ≡ ok b → a ≡ b
      ok_inj q = cc
