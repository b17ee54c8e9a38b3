-- ===== src/Property/Bookable.antt =====
-- Which rooms can be booked, and which are listed for the public.
use smart_platform_services.Common.{
  ℕ, ◌≡◌, refl, sym, subst, ◌↔◌, inl, inr, Bool, true, false, Option, none, some, List, [], ◌∷◌,
  ◌==◌, nat_Eq, arith, find_where, exists_where, Bool-cases, Option-cases,
}
use smart_platform_services.Identity.Exec.{ok}
use smart_platform_services.Property.{
  property_status_Eq, room_status_Eq, PropertyRecord, RoomRow, RoomRecord, PropertyStore,
  is_property, is_room, join, is_public, first, rooms_query, list_public_rooms, find_property,
  find_room,
}
use smart_platform_services.Property.Service.{
  require_property, require_room, is_bookable, assert_room_bookable,
}

-- The id is the key of the table of rooms.
unfoldable pub DistinctIds : List RoomRow → Type 0
DistinctIds [] = Unit
DistinctIds (r ∷ rs) = (exists_where (is_room r.id) rs ≡ false) × DistinctIds rs

-- The answer is the room with this id.
abbrev pub is_answer : ℕ → RoomRecord → Bool
is_answer id room = is_room id room.row

abbrev could_book_in : Option PropertyRecord → RoomRow → Bool
could_book_in none r = false
could_book_in (some p) r = is_bookable r p

abbrev could_book : List PropertyRecord → Option RoomRecord → Bool
could_book ps none = false
could_book ps (some room) =
    could_book_in (find_where (is_property room.row.property_id) ps) room.row

is_public-is_bookable : (r : RoomRow) (p : PropertyRecord) → is_public r p ≡ is_bookable r p
is_public-is_bookable r p = ground arith

is_room-eq : (r : RoomRow) (id : ℕ) → is_room id r ≡ true → r.id ≡ id
is_room-eq r id e = ground arith

-- A room that is not stored is in no answer.
exists_where-join :
    (id : ℕ) (test : RoomRow → PropertyRecord → Bool) (ps : List PropertyRecord) (rs : List RoomRow)
    → exists_where (is_room id) rs ≡ false
    → exists_where (is_answer id) (join test ps rs) ≡ false
unfolding join exists_where
exists_where-join id test ps [] e = refl
exists_where-join id test ps (r ∷ rs) e =
    elim (Option-cases (find_where (is_property r.property_id) ps)) [
      | inl n ↦ rw n (ground (arith, exists_where-join id test ps rs))
      | inr (p, f) ↦ rw f (ground (arith, exists_where-join id test ps rs))
    ]

exists_where-public :
    (id : ℕ) (ps : List PropertyRecord) (rs : List RoomRow)
    → DistinctIds rs
    → exists_where (is_answer id) (join is_public ps rs)
      ≡ could_book ps (first (join (λ r p. is_room id r) ps rs))
unfolding join exists_where DistinctIds
exists_where-public id ps [] h = refl
exists_where-public id ps (r ∷ rs) h =
    elim (Option-cases (find_where (is_property r.property_id) ps)) [
      | inl n ↦ rw n (exists_where-public id ps rs h.1)
      | inr (p, f) ↦ elim (Bool-cases (r.id == id)) [
        | inr d ↦ elim (Bool-cases (is_public r p)) [
          | inl q ↦ rw (f, q, d) (exists_where-public id ps rs h.1)
          | inr q ↦ rw (f, q, d) (exists_where-public id ps rs h.1)
        ]
        | inl s ↦ elim (Bool-cases (is_public r p)) [
          | inl q ↦ rw (f, q, s, f, sym (is_public-is_bookable r p), q) refl
          | inr q ↦
              rw (f, q, s, f, sym (is_public-is_bookable r p), q)
                (exists_where-join id is_public ps rs
                  (subst (λ z. exists_where (is_room z) rs ≡ false) (is_room-eq r id s) h.0))
        ]
      ]
    ]

assert_room_bookable-could_book :
    (id : ℕ) (store : PropertyStore)
    → ((assert_room_bookable id store).0 ≡ ok tt)
      ↔ (could_book store.properties (find_room id store) ≡ true)
unfolding assert_room_bookable require_room require_property find_property
assert_room_bookable-could_book id store = elim (Option-cases (find_room id store)) [
  | inl n ↦ rw n (λ e. absurd (cc), λ e. absurd (cc))
  | inr (room, f) ↦
      elim (Option-cases (find_where (is_property room.row.property_id) store.properties)) [
        | inl n ↦ rw (f, n) (λ e. absurd (cc), λ e. absurd (cc))
        | inr (p, g) ↦ elim (Bool-cases (is_bookable room.row p)) [
          | inl q ↦ rw (f, g, q) (λ e. refl, λ e. refl)
          | inr q ↦ rw (f, g, q) (λ e. absurd (cc), λ e. absurd (cc))
        ]
      ]
]

-- A room can be booked exactly when it is among the rooms that are listed for the public, where no two
-- rooms have the same id.
pub assert_room_bookable_iff :
    (id : ℕ) (store : PropertyStore)
    → DistinctIds store.rooms
    → ((assert_room_bookable id store).0 ≡ ok tt)
      ↔ (exists_where (is_answer id) (list_public_rooms store) ≡ true)
unfolding find_room list_public_rooms rooms_query
assert_room_bookable_iff id store h =
    rw (exists_where-public id store.properties store.rooms h)
      (assert_room_bookable-could_book id store)
