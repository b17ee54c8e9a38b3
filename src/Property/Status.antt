-- ===== src/Property/Status.antt =====
-- What a change of the status of a room does: setRoomStatus of libs/property/src/property.service.ts.
use smart_platform_services.Common.{
  ℕ, ◌≡◌, refl, sym, ap, ◌∙◌, subst, inl, inr, true, false, ◌&&◌, Option, none, some, List, [], ◌∷◌,
  ◌==◌, nat_Eq, arith, if◌then◌else◌, is_none, find_where, update_where, Bool-cases, Option-cases,
}
use smart_platform_services.Identity.Exec.{Result-cases, ok}
use smart_platform_services.Property.{
  RoomStatus, available, property_status_Eq, room_status_Eq, PropertyRecord, RoomRow, RoomRecord,
  PropertyStore, is_property, is_room, join, first, rooms_query, find_room, saved_room, save_room,
  has_active_contract,
}
use smart_platform_services.Property.Writes.{save_room-ok}
use smart_platform_services.Property.Service.{
  require_room, is_owned_by, assert_owner_owns_room, is_owner_room_status, set_room_status,
}

-- The answer after the row of room `id` was saved as `new`.
abbrev pub resaved : ℕ → RoomRow → RoomRecord → RoomRecord
resaved id new room =
    if is_room id room.row then record room { row = saved_room new room.row } else room

abbrev pub map_room : (RoomRecord → RoomRecord) → Option RoomRecord → Option RoomRecord
map_room f none = none
map_room f (some room) = some (f room)

pub join-update_where :
    (id other : ℕ) (new : RoomRow) (ps : List PropertyRecord) (rs : List RoomRow)
    → first (join (λ r p. is_room other r) ps (update_where (is_room id) (saved_room new) rs))
      ≡ map_room (resaved id new) (first (join (λ r p. is_room other r) ps rs))
unfolding join update_where
join-update_where id other new ps [] = refl
join-update_where id other new ps (r ∷ rs) =
    elim (Option-cases (find_where (is_property r.property_id) ps)) [
      | inl n ↦ elim (Bool-cases (r.id == id)) [
        | inl s ↦ rw (s, n) (join-update_where id other new ps rs)
        | inr s ↦ rw (s, n) (join-update_where id other new ps rs)
      ]
      | inr (p, f) ↦ elim (Bool-cases (r.id == other)) [
        | inl d ↦ elim (Bool-cases (r.id == id)) [
          | inl s ↦ rw (s, f, d, s) refl
          | inr s ↦ rw (s, f, d, s) refl
        ]
        | inr d ↦ elim (Bool-cases (r.id == id)) [
          | inl s ↦ rw (s, f, d) (join-update_where id other new ps rs)
          | inr s ↦ rw (s, f, d) (join-update_where id other new ps rs)
        ]
      ]
    ]

join-is_room :
    (id : ℕ) (ps : List PropertyRecord) (rs : List RoomRow) (room : RoomRecord)
    → first (join (λ r p. is_room id r) ps rs) ≡ some room
    → is_room id room.row ≡ true
unfolding join
join-is_room id ps [] room e = absurd (cc)
join-is_room id ps (r ∷ rs) room e =
    elim (Option-cases (find_where (is_property r.property_id) ps)) [
      | inl n ↦ join-is_room id ps rs room (rw n at e)
      | inr (p, f) ↦ elim (Bool-cases (r.id == id)) [
        | inl s ↦ subst (λ x. is_room id x ≡ true) (row_inj (rw (f, s) at e)) s
        | inr s ↦ join-is_room id ps rs room (rw (f, s) at e)
      ]
    ]
  where
    row_of : Option RoomRecord → RoomRow
    row_of none = r
    row_of (some x) = x.row

    row_inj : {x : RoomRecord} → some x ≡ some room → x.row ≡ room.row
    row_inj q = ap row_of q

-- The room is there, the owner's and not deleted, and is not made available while it is let.
abbrev pub MaySet : ℕ → ℕ → RoomStatus → PropertyStore → RoomRecord → Type 0
MaySet owner_id id status store room =
    (find_room id store ≡ some room)
    × (is_owner_room_status status ≡ true)
    × (is_owned_by owner_id room.owner_id ≡ true)
    × (is_none room.row.deleted_at ≡ true)
    × ((status == available && has_active_contract id store) ≡ false)

set_room_status-MaySet :
    (owner_id id : ℕ) (status : RoomStatus) (store : PropertyStore) (saved : RoomRecord)
    → (set_room_status owner_id id status store).0 ≡ ok saved
    → (room : RoomRecord) × MaySet owner_id id status store room
unfolding set_room_status require_room assert_owner_owns_room
set_room_status-MaySet owner_id id status store saved e =
    elim (Bool-cases (is_owner_room_status status)) [
      | inr a ↦ absurd (cc (rw a at e))
      | inl a ↦ elim (Option-cases (find_room id store)) [
        | inl n ↦ absurd (cc (rw (a, n) at e))
        | inr (room, f) ↦
            elim (Bool-cases (is_owned_by owner_id room.owner_id && is_none room.row.deleted_at)) [
              | inr o ↦ absurd (cc (rw (a, f, f, o) at e))
              | inl o ↦ elim (Bool-cases (status == available && has_active_contract id store)) [
                | inl c ↦ absurd (cc (rw (a, f, f, o, c) at e))
                | inr c ↦ (room, (f, a, ground arith, ground arith, c))
              ]
            ]
      ]
    ]

-- The tables after a change that succeeded.
set_room_status-tables :
    (owner_id id : ℕ) (status : RoomStatus) (store : PropertyStore) (room saved : RoomRecord)
    → MaySet owner_id id status store room
    → (set_room_status owner_id id status store).0 ≡ ok saved
    → ((set_room_status owner_id id status store).1.properties ≡ store.properties)
      × ((set_room_status owner_id id status store).1.rooms
          ≡ update_where
              (is_room room.row.id)
              (saved_room (record room.row { status = status }))
              store.rooms)
unfolding set_room_status require_room assert_owner_owns_room
set_room_status-tables owner_id id status store room saved (f, a, o, d, c) e =
    let row : RoomRow = record room.row { status = status } in
    elim (Result-cases (save_room row store).0) [
      | inr (x, n) ↦ absurd (cc (rw (a, f, f, o, d, c, n) at e))
      | inl (x, n) ↦ rw (a, f, f, o, d, c, n, save_room-ok row store x n) (refl, refl)
    ]

abbrev pub with_status : RoomStatus → RoomRecord → RoomRecord
with_status status room = record room { row = record room.row { status = status } }

pub find_room-id :
    (id : ℕ) (store : PropertyStore) (room : RoomRecord)
    → find_room id store ≡ some room
    → room.row.id ≡ id
unfolding find_room rooms_query
find_room-id id store room f = ground (arith, join-is_room id store.properties store.rooms room f)

same_id : (a b : ℕ) → (a == b) ≡ true → a ≡ b
same_id a b e = ground arith

test_same : (a b : ℕ) → a ≡ b → (a == b) ≡ true
test_same a b e = ground arith

test_other : (a b c d : ℕ) → a ≡ c → b ≡ d → (c == d) ≡ false → (a == b) ≡ false
test_other a b c d e k h = ground arith

find_room-resaved :
    (id other : ℕ) (status : RoomStatus) (store : PropertyStore) (room : RoomRecord)
    → find_room id store ≡ some room
    → map_room (resaved room.row.id (record room.row { status = status })) (find_room other store)
      ≡ (if other == id then some (with_status status room) else find_room other store)
find_room-resaved id other status store room f = elim (Bool-cases (other == id)) [
  | inl s ↦
      rw
        (
          s,
          subst (λ x. find_room x store ≡ some room) (sym (same_id other id s)) f,
          test_same room.row.id room.row.id refl,
        )
        refl
  | inr s ↦ elim (Option-cases (find_room other store)) [
    | inl n ↦ rw (s, n) refl
    | inr (found, n) ↦
        rw
          (
            s,
            n,
            test_other found.row.id room.row.id other id (find_room-id other store found n)
                (find_room-id id store room f) s,
          )
          refl
  ]
]

-- A change of the status of a room succeeds only for its owner, to a status that owners may set, while the
-- room is not deleted, and not to `available` while a contract of the room is active. It then changes
-- the status of that room, and no other room.
pub set_room_status_lem :
    (owner_id id other : ℕ) (status : RoomStatus) (store : PropertyStore) (saved : RoomRecord)
    → (set_room_status owner_id id status store).0 ≡ ok saved
    → (room : RoomRecord) × MaySet owner_id id status store room
      × (find_room other (set_room_status owner_id id status store).1
          ≡ (if other == id then some (with_status status room) else find_room other store))
unfolding find_room rooms_query
set_room_status_lem owner_id id other status store saved e =
    let (room, may) = set_room_status-MaySet owner_id id status store saved e in
    let tables = set_room_status-tables owner_id id status store room saved may e in
    (
      room,
      may,
      rw (tables.0, tables.1)
          (join-update_where room.row.id other (record room.row { status = status })
              store.properties store.rooms
            ∙ find_room-resaved id other status store room may.0),
    )
