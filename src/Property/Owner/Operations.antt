-- ===== src/Property/Owner/Operations.antt =====
-- Every operation of an owner writes at most one row, which is the owner's or new.
use smart_platform_services.Common.{
  Text, ℕ, ◌≡◌, refl, ◌∙◌, sym, ap, inl, inr, true, ◌&&◌, Option, some, ◌==◌, nat_Eq, arith,
  find_where_sound, find_where-exists_where, is_some, is_none, exists_where, update_where,
  Bool-cases, Option-cases, subst, nat_eq_iff,
}
use smart_platform_services.Identity.Exec.{Exec, Result, continue, Result-cases, ok, err}
use smart_platform_services.Property.{
  Address, PropertyStatus, RoomStatus, available, room_status_Eq, PropertyRecord, RoomRow,
  RoomRecord, PropertyStore, is_property, is_room, saved_property, saved_room, find_property,
  find_room, save_property, save_room, has_active_contract,
}
use smart_platform_services.Property.Insertion.{insert_property, insert_room}
use smart_platform_services.Property.Writes.{
  save_room-cases, insert_room-cases, save_property_written, insert_property-cases,
}
use smart_platform_services.Property.Service.{
  require_room, owned_property, is_owned_by, assert_owner_owns_room, is_owner_property_status,
  is_owner_room_status, set_property_status, set_room_status, delete_property, delete_room,
}
use smart_platform_services.Property.Status.{find_room-id}
use smart_platform_services.Property.Owner.{
  CreatePropertyInput, UpdatePropertyInput, CreateRoomInput, UpdateRoomInput, merged_property,
  merged_room, updated_property, updated_room, create_property, update_property, create_room,
  get_room, update_room,
}
use smart_platform_services.Property.Owner.Writing.{
  Writes, kept, property_saved, property_inserted, room_saved, room_inserted, owned_property_keeps,
  owned_property-ok, get_room_keeps, get_room-ok,
}

pub find_property-id :
    (id : ℕ) (s : PropertyStore) (p : PropertyRecord) → find_property id s ≡ some p → p.id ≡ id
unfolding find_property
find_property-id id s p f =
    (nat_eq_iff p.id id).0 (find_where_sound (is_property id) s.properties p f)

merged_property-id :
    (p q : PropertyRecord) (name description : Option Text) (address : Option Address)
    → merged_property p name description address ≡ some q
    → q.id ≡ p.id
merged_property-id p q name description address e = ground arith

merged_room-id :
    (r q : RoomRow) (code name description rent deposit currency : Option Text)
    → merged_room r code name description rent deposit currency ≡ some q
    → q.id ≡ r.id
merged_room-id r q code name description rent deposit currency e = ground arith

pub find_property-exists :
    (id : ℕ) (s : PropertyStore) (p : PropertyRecord)
    → find_property id s ≡ some p
    → exists_where (is_property id) s.properties ≡ true
unfolding find_property
find_property-exists id s p f = find_where-exists_where (is_property id) s.properties ∙ ap is_some f

-- What leaves the tables as they are.
abbrev Quiet : {A B : Type 0} → (A → Exec PropertyStore B) → Type 0
Quiet {A} k =
    (a : A) (t : PropertyStore)
    → ((k a t).1.properties ≡ t.properties) × ((k a t).1.rooms ≡ t.rooms)

Writes-after :
    (actor : ℕ) (s t u : PropertyStore)
    → (u.properties ≡ t.properties) × (u.rooms ≡ t.rooms)
    → Writes actor s t
    → Writes actor s u
Writes-after actor s t u (a, b) (kept c d) = kept (a ∙ c) (b ∙ d)
Writes-after actor s t u (a, b) (property_saved p new f o c d) =
    property_saved p new f o (a ∙ c) (b ∙ d)
Writes-after actor s t u (a, b) (property_inserted new n c d) =
    property_inserted new n (a ∙ c) (b ∙ d)
Writes-after actor s t u (a, b) (room_saved room new f o c d) =
    room_saved room new f o (a ∙ c) (b ∙ d)
Writes-after actor s t u (a, b) (room_inserted new n x c d) = room_inserted new n x (a ∙ c) (b ∙ d)

module _ (actor : ℕ) (s : PropertyStore) where
  pub continue-Writes :
      {A B : Type 0} (r : Result A × PropertyStore) (k : A → Exec PropertyStore B)
      → Quiet k
      → Writes actor s r.1
      → Writes actor s (continue r k).1
  continue-Writes (ok a, t) k q w = Writes-after actor s t (k a t).1 (q a t) w
  continue-Writes (err e, t) k q w = w

  kept_all : {t : PropertyStore} → t ≡ s → Writes actor s t
  kept_all e = kept (ap (λ x. x.properties) e) (ap (λ x. x.rooms) e)

  pub insert_property-Writes : (new : PropertyRecord) → Writes actor s (insert_property new s).1
  insert_property-Writes new = elim (insert_property-cases new s) [
    | inl e ↦ kept_all e
    | inr (n, e) ↦ property_inserted new n (ap (λ x. x.properties) e) (ap (λ x. x.rooms) e)
  ]

  pub insert_room-Writes :
      (new : RoomRow)
      → exists_where (is_property new.property_id) s.properties ≡ true
      → Writes actor s (insert_room new s).1
  insert_room-Writes new x = elim (insert_room-cases new s) [
    | inl e ↦ kept_all e
    | inr (n, e) ↦ room_inserted new n x (ap (λ x. x.properties) e) (ap (λ x. x.rooms) e)
  ]

  -- A row that the actor owns, saved with other values.
  pub save_property-Writes :
      (id : ℕ) (p new : PropertyRecord)
      → find_property id s ≡ some p
      → (p.owner_id == actor) ≡ true
      → new.id ≡ p.id
      → Writes actor s (save_property new s).1
  save_property-Writes id p new f o same =
      let e = save_property_written new s in
      property_saved p new
        (subst (λ k. find_property k s ≡ some p) (sym (find_property-id id s p f)) f) o
        (ap (λ x. x.properties) e
          ∙ ap (λ k. update_where (is_property k) (saved_property new) s.properties) same)
        (ap (λ x. x.rooms) e)

  pub save_room-Writes :
      (id : ℕ) (room : RoomRecord) (new : RoomRow)
      → find_room id s ≡ some room
      → is_owned_by actor room.owner_id ≡ true
      → new.id ≡ room.row.id
      → Writes actor s (save_room new s).1
  save_room-Writes id room new f o same = elim (save_room-cases new s) [
    | inl (t, e) ↦ kept_all e
    | inr (t, e) ↦
        room_saved room new
          (subst (λ k. find_room k s ≡ some room) (sym (find_room-id id s room f)) f) o
          (ap (λ x. x.properties) e)
          (ap (λ x. x.rooms) e ∙ ap (λ k. update_where (is_room k) (saved_room new) s.rooms) same)
  ]

  pub create_property-Writes :
      (id now : ℕ) (input : CreatePropertyInput)
      → Writes actor s (create_property id now actor input s).1
  unfolding create_property
  create_property-Writes id now input = insert_property-Writes _

  pub update_property-Writes :
      (id : ℕ) (input : UpdatePropertyInput) → Writes actor s (update_property actor id input s).1
  unfolding update_property
  update_property-Writes id input = elim (Result-cases (owned_property actor id s).0) [
    | inr (x, n) ↦ rw (n, owned_property_keeps actor id s) (kept refl refl)
    | inl (p, n) ↦
        let (f, o, _) = owned_property-ok actor id s p n in
        rw (n, owned_property_keeps actor id s)
          (elim (Option-cases (updated_property p input)) [
            | inl m ↦ rw m (kept refl refl)
            | inr (q, m) ↦ rw m (save_property-Writes id p q f o (merged_property-id p q _ _ _ m))
          ])
  ]

  pub set_property_status-Writes :
      (id : ℕ) (status : PropertyStatus) → Writes actor s (set_property_status actor id status s).1
  unfolding set_property_status
  set_property_status-Writes id status = elim (Bool-cases (is_owner_property_status status)) [
    | inr a ↦ rw a (kept refl refl)
    | inl a ↦ elim (Result-cases (owned_property actor id s).0) [
      | inr (x, n) ↦ rw (a, n, owned_property_keeps actor id s) (kept refl refl)
      | inl (p, n) ↦
          let (f, o, _) = owned_property-ok actor id s p n in
          rw (a, n, owned_property_keeps actor id s)
            (continue-Writes (save_property (record p { status = status }) s) _
              (λ x t. (refl, refl))
              (save_property-Writes id p (record p { status = status }) f o refl))
    ]
  ]

  pub delete_property-Writes : (id at : ℕ) → Writes actor s (delete_property actor id at s).1
  unfolding delete_property
  delete_property-Writes id at = elim (Result-cases (owned_property actor id s).0) [
    | inr (x, n) ↦ rw (n, owned_property_keeps actor id s) (kept refl refl)
    | inl (p, n) ↦
        let (f, o, _) = owned_property-ok actor id s p n in
        rw (n, owned_property_keeps actor id s)
          (continue-Writes (save_property (record p { deleted_at = some at }) s) _
            (λ x t. (refl, refl))
            (save_property-Writes id p (record p { deleted_at = some at }) f o refl))
  ]

  pub create_room-Writes :
      (new id : ℕ) (input : CreateRoomInput) → Writes actor s (create_room new actor id input s).1
  unfolding create_room
  create_room-Writes new id input = elim (Result-cases (owned_property actor id s).0) [
    | inr (x, n) ↦ rw (n, owned_property_keeps actor id s) (kept refl refl)
    | inl (p, n) ↦
        rw (n, owned_property_keeps actor id s)
          (insert_room-Writes _ (find_property-exists id s p (owned_property-ok actor id s p n).0))
  ]

  pub update_room-Writes :
      (id : ℕ) (input : UpdateRoomInput) → Writes actor s (update_room actor id input s).1
  unfolding update_room
  update_room-Writes id input = elim (Result-cases (get_room actor id s).0) [
    | inr (x, n) ↦ rw (n, get_room_keeps actor id s) (kept refl refl)
    | inl (room, n) ↦
        let (f, o, _) = get_room-ok actor id s room n in
        rw (n, get_room_keeps actor id s)
          (elim (Option-cases (updated_room room.row input)) [
            | inl m ↦ rw m (kept refl refl)
            | inr (q, m) ↦
                rw m (save_room-Writes id room q f o (merged_room-id room.row q _ _ _ _ _ _ m))
          ])
  ]

  pub set_room_status-Writes :
      (id : ℕ) (status : RoomStatus) → Writes actor s (set_room_status actor id status s).1
  unfolding set_room_status require_room assert_owner_owns_room
  set_room_status-Writes id status = elim (Bool-cases (is_owner_room_status status)) [
    | inr a ↦ rw a (kept refl refl)
    | inl a ↦ elim (Option-cases (find_room id s)) [
      | inl n ↦ rw (a, n) (kept refl refl)
      | inr (room, f) ↦
          elim (Bool-cases (is_owned_by actor room.owner_id && is_none room.row.deleted_at)) [
            | inr o ↦ rw (a, f, f, o) (kept refl refl)
            | inl o ↦ elim (Bool-cases (status == available && has_active_contract id s)) [
              | inl c ↦ rw (a, f, f, o, c) (kept refl refl)
              | inr c ↦
                  rw (a, f, f, o, c)
                    (continue-Writes (save_room (record room.row { status = status }) s) _
                      (λ x t. (refl, refl))
                      (save_room-Writes id room (record room.row { status = status }) f
                        (ground arith) refl))
            ]
          ]
    ]
  ]

  pub delete_room-Writes : (id at : ℕ) → Writes actor s (delete_room actor id at s).1
  unfolding delete_room require_room assert_owner_owns_room
  delete_room-Writes id at = elim (Option-cases (find_room id s)) [
    | inl n ↦ rw n (kept refl refl)
    | inr (room, f) ↦
        elim (Bool-cases (is_owned_by actor room.owner_id && is_none room.row.deleted_at)) [
          | inr o ↦ rw (f, f, o) (kept refl refl)
          | inl o ↦
              rw (f, f, o)
                (continue-Writes (save_room (record room.row { deleted_at = some at }) s) _
                  (λ x t. (refl, refl))
                  (save_room-Writes id room (record room.row { deleted_at = some at }) f
                    (ground arith) refl))
        ]
  ]
