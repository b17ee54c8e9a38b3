-- ===== src/Property/Owner/Isolation.antt =====
-- What a write of one owner leaves alone.
use smart_platform_services.Common.{
  ℕ, ◌≡◌, refl, ◌∙◌, sym, ap, subst, inl, inr, Bool, true, false, Option, none, some, List, [], ◌∷◌,
  ◌==◌, nat_Eq, nat_eq_iff, find_where, exists_where, update_where, All, Bool-cases, Option-cases,
  find_where-update_where, All-map, exists_where-update_where, All-update_where,
}
use smart_platform_services.Property.{
  PropertyRecord, RoomRow, RoomRecord, PropertyStore, is_property, is_room, join, first,
  rooms_query, saved_property, saved_room, find_property, find_room,
}
use smart_platform_services.Property.Service.{is_owned_by}
use smart_platform_services.Property.Status.{join-update_where, find_room-id}
use smart_platform_services.Property.Owner.Writing.{
  Writes, kept, property_saved, property_inserted, room_saved, room_inserted,
}
use smart_platform_services.Property.Owner.Operations.{find_property-id, find_property-exists}

-- The foreign key of rooms: each room's property is there.
abbrev pub Referenced : PropertyStore → Type 0
Referenced s = All (λ r. exists_where (is_property r.property_id) s.properties ≡ true) s.rooms

abbrev Refs : List PropertyRecord → List RoomRow → Type 0
Refs ps rs = All (λ r. exists_where (is_property r.property_id) ps ≡ true) rs

join-saved :
    (id k : ℕ) (new : PropertyRecord) (ps : List PropertyRecord) (rs : List RoomRow)
    → join (λ r p. is_room id r) (update_where (is_property k) (saved_property new) ps) rs
      ≡ join (λ r p. is_room id r) ps rs
unfolding join
join-saved id k new ps [] = refl
join-saved id k new ps (r ∷ rs) =
    rw
      (
        join-saved id k new ps rs,
        find_where-update_where (is_property r.property_id) (is_property k) (saved_property new) ps
            (λ p e. refl),
      )
      (elim (Option-cases (find_where (is_property r.property_id) ps)) [
        | inl n ↦ rw n refl
        | inr (p, f) ↦ elim (Bool-cases (p.id == k)) [
          | inl s ↦ rw (f, s) refl
          | inr s ↦ rw (f, s) refl
        ]
      ])

join-inserted :
    (id : ℕ) (new : PropertyRecord) (ps : List PropertyRecord) (rs : List RoomRow)
    → exists_where (is_property new.id) ps ≡ false
    → Refs ps rs
    → join (λ r p. is_room id r) (new ∷ ps) rs ≡ join (λ r p. is_room id r) ps rs
unfolding join find_where
join-inserted id new ps [] n h = refl
join-inserted id new ps (r ∷ rs) n h = elim (Bool-cases (new.id == r.property_id)) [
  | inl s ↦ absurd (
      cc (
        subst (λ k. exists_where (is_property k) ps ≡ false) ((nat_eq_iff new.id r.property_id).0 s)
          n))
  | inr s ↦ rw (s, join-inserted id new ps rs n h.1) refl
]

-- An answer has a row.
exists_where-first :
    (id : ℕ) (ps : List PropertyRecord) (rs : List RoomRow) (room : RoomRecord)
    → first (join (λ r p. is_room id r) ps rs) ≡ some room
    → exists_where (is_room id) rs ≡ true
unfolding join exists_where
exists_where-first id ps [] room f = absurd (cc)
exists_where-first id ps (r ∷ rs) room f = elim (Bool-cases (r.id == id)) [
  | inl s ↦ rw s refl
  | inr s ↦ elim (Option-cases (find_where (is_property r.property_id) ps)) [
    | inl n ↦ rw s (exists_where-first id ps rs room (rw n at f))
    | inr (p, n) ↦ rw s (exists_where-first id ps rs room (rw (n, s) at f))
  ]
]

same_property :
    (id : ℕ) (s : PropertyStore) (p q : PropertyRecord)
    → find_property id s ≡ some p
    → find_property q.id s ≡ some q
    → (p.id == q.id) ≡ true
    → some p ≡ some q
same_property id s p q f g e =
    let k : id ≡ q.id = sym (find_property-id id s p f) ∙ (nat_eq_iff p.id q.id).0 e in
    sym f ∙ ap (λ i. find_property i s) k ∙ g

same_room :
    (id : ℕ) (s : PropertyStore) (room other : RoomRecord)
    → find_room id s ≡ some room
    → find_room other.row.id s ≡ some other
    → is_room other.row.id room.row ≡ true
    → some room ≡ some other
same_room id s room other f g e =
    let k : id ≡ other.row.id =
      sym (find_room-id id s room f) ∙ (nat_eq_iff room.row.id other.row.id).0 e in
    sym f ∙ ap (λ i. find_room i s) k ∙ g

abbrev is_owner : ℕ → Option PropertyRecord → Bool
is_owner actor none = false
is_owner actor (some p) = p.owner_id == actor

abbrev is_room_owner : ℕ → Option RoomRecord → Bool
is_room_owner actor none = false
is_room_owner actor (some room) = is_owned_by actor room.owner_id

-- A write of another owner leaves a property as it was.
pub Writes-property :
    (actor id : ℕ) (s t : PropertyStore) (p : PropertyRecord)
    → Writes actor s t
    → find_property id s ≡ some p
    → (p.owner_id == actor) ≡ false
    → find_property id t ≡ some p
unfolding find_property find_where
Writes-property actor id s t p (kept a b) f o = rw a f
Writes-property actor id s t p (property_saved q new g own a b) f o =
    rw
      (
        a,
        find_where-update_where (is_property id) (is_property q.id) (saved_property new)
            s.properties (λ x e. refl),
        f,
      )
      (elim (Bool-cases (p.id == q.id)) [
        | inr d ↦ rw d refl
        | inl d ↦ absurd (cc (sym o ∙ ap (is_owner actor) (same_property id s p q f g d) ∙ own))
      ])
Writes-property actor id s t p (property_inserted new n a b) f o =
    elim (Bool-cases (new.id == id)) [
      | inr d ↦ rw (a, d) f
      | inl d ↦ absurd (
          cc (
            subst (λ k. exists_where (is_property k) s.properties ≡ false)
                ((nat_eq_iff new.id id).0 d) n,
            find_property-exists id s p f,
          ))
    ]
Writes-property actor id s t p (room_saved room new g own a b) f o = rw a f
Writes-property actor id s t p (room_inserted new n x a b) f o = rw a f

-- A write of another owner leaves a room as it was.
pub Writes-room :
    (actor id : ℕ) (s t : PropertyStore) (room : RoomRecord)
    → Writes actor s t
    → Referenced s
    → find_room id s ≡ some room
    → is_owned_by actor room.owner_id ≡ false
    → find_room id t ≡ some room
unfolding find_room rooms_query join
Writes-room actor id s t room (kept a b) h f o = rw (a, b) f
Writes-room actor id s t room (property_saved q new g own a b) h f o =
    rw (a, b, join-saved id q.id new s.properties s.rooms) f
Writes-room actor id s t room (property_inserted new n a b) h f o =
    rw (a, b, join-inserted id new s.properties s.rooms n h) f
Writes-room actor id s t room (room_saved other new g own a b) h f o =
    rw (a, b, join-update_where other.row.id id new s.properties s.rooms, f)
      (elim (Bool-cases (is_room other.row.id room.row)) [
        | inr d ↦ rw d refl
        | inl d ↦
            absurd (cc (sym o ∙ ap (is_room_owner actor) (same_room id s room other f g d) ∙ own))
      ])
Writes-room actor id s t room (room_inserted new n x a b) h f o =
    rw (a, b)
      (elim (Option-cases (find_where (is_property new.property_id) s.properties)) [
        | inl m ↦ rw m f
        | inr (p, m) ↦ elim (Bool-cases (new.id == id)) [
          | inr d ↦ rw (m, d) f
          | inl d ↦ absurd (
              cc (
                subst (λ k. exists_where (is_room k) s.rooms ≡ false) ((nat_eq_iff new.id id).0 d)
                    n,
                exists_where-first id s.properties s.rooms room f,
              ))
        ]
      ])

-- Foreign keys stay whole.
pub Writes-Referenced :
    (actor : ℕ) (s t : PropertyStore) → Writes actor s t → Referenced s → Referenced t
unfolding exists_where
Writes-Referenced actor s t (kept a b) h = rw (a, b) h
Writes-Referenced actor s t (property_saved q new g own a b) h =
    rw (a, b)
      (All-map (λ (r : RoomRow). exists_where (is_property r.property_id) s.properties ≡ true)
        (λ (r : RoomRow).
          exists_where (is_property r.property_id)
            (update_where (is_property q.id) (saved_property new) s.properties)
          ≡ true)
        s.rooms
        (λ r e.
          exists_where-update_where (is_property r.property_id) (is_property q.id)
            (saved_property new) s.properties (λ x k. refl)
          ∙ e)
        h)
Writes-Referenced actor s t (property_inserted new n a b) h =
    rw (a, b)
      (All-map (λ (r : RoomRow). exists_where (is_property r.property_id) s.properties ≡ true)
        (λ (r : RoomRow). exists_where (is_property r.property_id) (new ∷ s.properties) ≡ true)
        s.rooms
        (λ r e. elim (Bool-cases (new.id == r.property_id)) [ inl d ↦ rw d refl | inr d ↦ rw d e ])
        h)
Writes-Referenced actor s t (room_saved other new g own a b) h =
    rw (a, b)
      (All-update_where
        (λ (r : RoomRow). exists_where (is_property r.property_id) s.properties ≡ true)
        (is_room other.row.id) (saved_room new) s.rooms (λ r k e. e) h)
Writes-Referenced actor s t (room_inserted new n x a b) h = rw (a, b) (x, h)
