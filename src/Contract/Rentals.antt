-- ===== src/Contract/Rentals.antt =====
-- What a renter's list of rentals holds, and its order.
use smart_platform_services.Common.{
  ℕ, ◌≡◌, refl, sym, ◌∙◌, ◌⊎◌, inl, inr, Bool, true, false, not, ◌&&◌, Option, none, some, List, [],
  ◌∷◌, Text, ◌==◌, nat_Eq, arith, is_some, is_truthy, exists_where, count_where, Bool-cases,
  Option-cases,
}
use smart_platform_services.Identity.Contracts.{service_unavailable, profile_unavailable}
use smart_platform_services.Identity.Exec.{ok, err}
use smart_platform_services.Contract.{ContractRow}
use smart_platform_services.Property.{PropertyStore, Address}
use smart_platform_services.Contract.Query.{
  ActiveRenterContractRecord, ActiveRentalSummary, is_listed, contract_record, contract_records,
  list_active_renter_contracts, is_readable, has_displayable_rental, has_lifecycle, summary_with,
  summary_of, precedes, insert_rental, sorted_rentals, rentals_of, list_active_rentals_for_renter,
}

-- Earlier signatures first, and of one time the smaller id.
abbrev pub IsSorted : List ActiveRentalSummary → Type 0
IsSorted [] = Unit
IsSorted (x ∷ []) = Unit
IsSorted (x ∷ y ∷ rest) = (precedes x y ≡ true) × IsSorted (y ∷ rest)

precedes_total : (x y : ActiveRentalSummary) → precedes x y ≡ false → precedes y x ≡ true
precedes_total x y h = ground arith

insert_rental-IsSorted :
    (x : ActiveRentalSummary) (rentals : List ActiveRentalSummary)
    → IsSorted rentals
    → IsSorted (insert_rental x rentals)
unfolding insert_rental
insert_rental-IsSorted x [] h = tt
insert_rental-IsSorted x (y ∷ []) h = elim (Bool-cases (precedes x y)) [
  | inl e ↦ rw e (e, tt)
  | inr e ↦ rw e (precedes_total x y e, tt)
]
insert_rental-IsSorted x (y ∷ z ∷ rest) h = elim (Bool-cases (precedes x y)) [
  | inl e ↦ rw e (e, h)
  | inr e ↦ elim (Bool-cases (precedes x z)) [
    | inl k ↦ rw (e, k) (precedes_total x y e, (k, h.1))
    | inr k ↦
        let rest_sorted : IsSorted (z ∷ insert_rental x rest) =
          rw k at (insert_rental-IsSorted x (z ∷ rest) h.1) in
        rw (e, k) (h.0, rest_sorted)
  ]
]

count_where-insert_rental :
    (p : ActiveRentalSummary → Bool) (x : ActiveRentalSummary) (rentals : List ActiveRentalSummary)
    → count_where p (insert_rental x rentals) ≡ count_where p (x ∷ rentals)
unfolding insert_rental count_where
count_where-insert_rental p x [] = refl
count_where-insert_rental p x (y ∷ rentals) = ground (arith, count_where-insert_rental p x rentals)

summary_with-some :
    (id : ℕ) (expires room property : Option Text) (address : Option Address) (signed : Option ℕ)
    → is_truthy room ≡ true
    → is_truthy property ≡ true
    → is_readable address ≡ true
    → is_some signed ≡ true
    → (q : ActiveRentalSummary) × (summary_with id expires room property address signed ≡ some q)
      × (q.contract_id ≡ id)
summary_with-some id expires none property address signed a b c d = absurd (cc)
summary_with-some id expires (some room) none address signed a b c d = absurd (cc)
summary_with-some id expires (some room) (some property) none signed a b c d = absurd (cc)
summary_with-some id expires (some room) (some property) (some address) none a b c d = absurd (cc)
summary_with-some id expires (some room) (some property) (some address) (some signed) a b c d =
    (_, refl, refl)

displays :
    (r : ActiveRenterContractRecord)
    → has_displayable_rental r ≡ true
    → (is_truthy r.room ≡ true)
      × (is_truthy r.property ≡ true)
      × (is_readable r.property_address ≡ true)
unfolding has_displayable_rental
displays r d = (ground arith, ground arith, ground arith)

signed :
    (r : ActiveRenterContractRecord) → has_lifecycle r ≡ true → is_some r.renter_signed_at ≡ true
unfolding has_lifecycle
signed r l = ground arith

summary_of-summary_with :
    (r : ActiveRenterContractRecord)
    → has_displayable_rental r ≡ true
    → has_lifecycle r ≡ true
    → summary_of r
      ≡ summary_with r.contract_id r.expires_at r.room r.property r.property_address
          r.renter_signed_at
summary_of-summary_with r d l = rw (d, l) refl

-- A displayable record of a listed contract has a summary.
summary_of-listed :
    (r : ActiveRenterContractRecord)
    → has_displayable_rental r ≡ true
    → has_lifecycle r ≡ true
    → (q : ActiveRentalSummary) × (summary_of r ≡ some q) × (q.contract_id ≡ r.contract_id)
summary_of-listed r d l =
    let (q, e, i) =
      summary_with-some r.contract_id r.expires_at r.room r.property r.property_address
        r.renter_signed_at (displays r d).0 (displays r d).1 (displays r d).2 (signed r l) in
    (q, summary_of-summary_with r d l ∙ e, i)

listed-has_lifecycle :
    (renter_id : ℕ) (c : ContractRow) (store : PropertyStore)
    → is_listed renter_id c ≡ true
    → has_lifecycle (contract_record c store) ≡ true
unfolding has_lifecycle
listed-has_lifecycle renter_id c store l = ground arith

sorted_rentals-IsSorted :
    (records : List ActiveRenterContractRecord) → IsSorted (sorted_rentals records)
unfolding sorted_rentals
sorted_rentals-IsSorted [] = tt
sorted_rentals-IsSorted (r ∷ rs) = elim (Option-cases (summary_of r)) [
  | inl n ↦ rw n (sorted_rentals-IsSorted rs)
  | inr (q, n) ↦ rw n (insert_rental-IsSorted q (sorted_rentals rs) (sorted_rentals-IsSorted rs))
]

unreadable-contract_records :
    (renter_id : ℕ) (store : PropertyStore) (cs : List ContractRow)
    → exists_where (λ r. not (has_displayable_rental r)) (contract_records renter_id store cs)
      ≡ exists_where
          (λ c. is_listed renter_id c && not (has_displayable_rental (contract_record c store)))
          cs
unfolding contract_records exists_where
unreadable-contract_records renter_id store [] = refl
unreadable-contract_records renter_id store (c ∷ cs) = elim (Bool-cases (is_listed renter_id c)) [
  | inl l ↦ rw (l, unreadable-contract_records renter_id store cs) refl
  | inr l ↦ rw (l, unreadable-contract_records renter_id store cs) refl
]

count_where-sorted_rentals :
    (renter_id id : ℕ) (store : PropertyStore) (cs : List ContractRow)
    → exists_where
        (λ c. is_listed renter_id c && not (has_displayable_rental (contract_record c store)))
        cs
      ≡ false
    → count_where (λ r. r.contract_id == id) (sorted_rentals (contract_records renter_id store cs))
      ≡ count_where (λ c. is_listed renter_id c && c.id == id) cs
unfolding contract_records sorted_rentals exists_where count_where
count_where-sorted_rentals renter_id id store [] h = refl
count_where-sorted_rentals renter_id id store (c ∷ cs) h =
    elim (Bool-cases (is_listed renter_id c)) [
      | inr l ↦ rw l (count_where-sorted_rentals renter_id id store cs (rw l at h))
      | inl l ↦ elim (Bool-cases (has_displayable_rental (contract_record c store))) [
        | inr d ↦ absurd (cc (rw (l, d) at h))
        | inl d ↦
            let (q, e, i) =
              summary_of-listed (contract_record c store) d
                (listed-has_lifecycle renter_id c store l) in
            let rest = sorted_rentals (contract_records renter_id store cs) in
            rw
              (
                l,
                e,
                count_where-insert_rental (λ r. r.contract_id == id) q rest,
                i,
                count_where-sorted_rentals renter_id id store cs (rw (l, d) at h),
              )
              refl
      ]
    ]

-- A renter's rentals are unavailable when an active contract of the renter, signed, activated and
-- dated, has no room, property or address to show. Otherwise there is one rental for each such contract,
-- and no other, in the order of the renter's signatures and then of the ids.
pub list_active_rentals_lem :
    (renter_id : ℕ) (store : PropertyStore)
    → let unreadable =
        exists_where
          (λ c. is_listed renter_id c && not (has_displayable_rental (contract_record c store)))
          store.contracts in
      ((unreadable ≡ true)
        × (list_active_rentals_for_renter renter_id store
            ≡ err (service_unavailable profile_unavailable)))
      ⊎ ((rentals : List ActiveRentalSummary) × (list_active_rentals_for_renter renter_id store
            ≡ ok rentals)
          × (unreadable ≡ false)
          × IsSorted rentals
          × ((id : ℕ)
              → count_where (λ r. r.contract_id == id) rentals
                ≡ count_where (λ c. is_listed renter_id c && c.id == id) store.contracts))
unfolding list_active_rentals_for_renter list_active_renter_contracts rentals_of
list_active_rentals_lem renter_id store =
    let e = unreadable-contract_records renter_id store store.contracts in
    elim (Bool-cases (
      exists_where (λ r. not (has_displayable_rental r))
        (contract_records renter_id store store.contracts))) [
          | inl u ↦ inl (sym e ∙ u, rw u refl)
          | inr u ↦ inr (
            sorted_rentals (contract_records renter_id store store.contracts),
            rw u refl,
            sym e ∙ u,
            sorted_rentals-IsSorted (contract_records renter_id store store.contracts),
            λ id. count_where-sorted_rentals renter_id id store store.contracts (sym e ∙ u),
          )
        ]
