-- ===== src/Identity/Users/Create/Unique.antt =====
-- No two accounts share an id, and no two that are not deleted share an address: what each statement that
-- writes accounts does to that.
use smart_platform_services.Common.{
  not, is_none, find_where, ℕ, ◌≡◌, refl, ◌∙◌, inl, inr, Bool, false, ◌&&◌, Option, none, some,
  List, [], ◌∷◌, Text, arith, ◌==◌, nat_Eq, text_Eq, exists_where, update_where, Bool-cases,
  Option-cases, exists_where-update_where, exists_where-anti,
}
use smart_platform_services.Identity.Contracts.{
  provider_Eq, Error, bad_request, unauthorized, forbidden, not_found, conflict,
  service_unavailable, too_many_requests, unique_violation, failure, Code, phone_already_registered,
  signup_unavailable, social_identity_conflict,
}
use smart_platform_services.Identity.Exec.{
  Exec, ◌>>=◌, transaction, catching, transaction_keeps, catching_keeps, bind_keeps,
}
use smart_platform_services.Identity.Store.{Store, IdentityUser, SocialIdentity}
use smart_platform_services.Identity.Users.{
  find_by_id, is_user, is_current, meets_email, meets_phone, insert_user, update_users, renamed,
  check_renamed, is_active_renter, update_renter_profile,
}
use smart_platform_services.Identity.Users.Create.{
  or_conflict, load_user, phone_user, email_user, can_complete, consume_challenge,
  signup_transaction, load_created, social_user, insert_social_identity, social_transaction,
  NewPhoneUser, create_phone_user, CompleteEmailSignup, complete_email_signup, NewSocialUser,
  create_social_user,
}

-- The index on the addresses of accounts that are not deleted.
abbrev pub same_address : IdentityUser → IdentityUser → Bool
same_address u v = is_current u && meets_email u v

abbrev pub AreDistinct : List IdentityUser → Type 0
AreDistinct [] = Unit
AreDistinct (u ∷ us) =
    (exists_where (is_user u.id) us ≡ false)
    × (exists_where (same_address u) us ≡ false)
    × AreDistinct us

insert-AreDistinct :
    (new : IdentityUser) (store : Store)
    → AreDistinct store.users
    → AreDistinct (insert_user new store).1.users
unfolding insert_user
insert-AreDistinct new store h = elim (Bool-cases (exists_where (is_user new.id) store.users)) [
  | inl a ↦ rw a h
  | inr a ↦ elim (Bool-cases (exists_where (meets_email new) store.users)) [
    | inl b ↦ rw (a, b) h
    | inr b ↦ elim (Bool-cases (exists_where (meets_phone new) store.users)) [
      | inl c ↦ rw (a, b, c) h
      | inr c ↦
          rw (a, b, c)
            (
              a,
              exists_where-anti (same_address new) (meets_email new) store.users
                  (λ v e. ground arith) b,
              h,
            )
    ]
  ]
]

-- An update of other columns.
module _ (f : IdentityUser → IdentityUser) (same_id : (u : IdentityUser) → (f u).id ≡ u.id)
    (same_email : (u : IdentityUser) → (f u).email ≡ u.email)
    (same_deleted : (u : IdentityUser) → (f u).deleted_at ≡ u.deleted_at) where
  pub update-AreDistinct :
      (p : IdentityUser → Bool) (us : List IdentityUser)
      → AreDistinct us
      → AreDistinct (update_where p f us)
  unfolding update_where
  update-AreDistinct p [] h = tt
  update-AreDistinct p (u ∷ us) (a, b, h) = elim (Bool-cases (p u)) [
    | inl t ↦ rw t (
      rw (same_id u)
          (exists_where-update_where (is_user u.id) p f us (λ v e. rw (same_id v) refl) ∙ a),
      rw (same_email u, same_deleted u)
          (exists_where-update_where (same_address u) p f us
              (λ v e. rw (same_email v, same_deleted v) refl)
            ∙ b),
      update-AreDistinct p us h,
    )
    | inr t ↦ rw t (
      exists_where-update_where (is_user u.id) p f us (λ v e. rw (same_id v) refl) ∙ a,
      exists_where-update_where (same_address u) p f us
            (λ v e. rw (same_email v, same_deleted v) refl)
          ∙ b,
      update-AreDistinct p us h,
    )
  ]

abbrev pub Accounts : Store → Type 0
Accounts store = AreDistinct store.users

-- A lookup writes nothing, and neither does a throw.
load_user-Accounts : (id : ℕ) (store : Store) → Accounts store → Accounts (load_user id store).1
unfolding load_user
load_user-Accounts id store h = elim (Option-cases (find_by_id id store)) [
  | inl n ↦ rw n h
  | inr (u, f) ↦ rw f h
]

pub or_conflict_keeps :
    (A : Type 0) (code : Code) (e : Error) (store : Store)
    → (or_conflict {A = A} code e store).1 ≡ store
or_conflict_keeps A code (unique_violation c) store = refl
or_conflict_keeps A code failure store = refl
or_conflict_keeps A code (bad_request c) store = refl
or_conflict_keeps A code (unauthorized c) store = refl
or_conflict_keeps A code (forbidden c) store = refl
or_conflict_keeps A code (not_found c) store = refl
or_conflict_keeps A code (conflict c) store = refl
or_conflict_keeps A code (service_unavailable c) store = refl
or_conflict_keeps A code (too_many_requests n) store = refl

caught-Accounts :
    (A : Type 0) (m : Exec Store A) (code : Code) (store : Store)
    → Accounts (m store).1
    → Accounts (catching m (or_conflict code) store).1
caught-Accounts A m code store h =
    catching_keeps Accounts m (or_conflict code) store h
      (λ e t k. rw (or_conflict_keeps A code e t) k)

pub create_phone_user-Accounts :
    (id : ℕ) (input : NewPhoneUser) (store : Store)
    → Accounts store
    → Accounts (create_phone_user id input store).1
unfolding create_phone_user
create_phone_user-Accounts id input store h =
    let new = phone_user id input in
    caught-Accounts IdentityUser (transaction (insert_user new) >>= λ _. load_user id)
      phone_already_registered store
      (bind_keeps Accounts (transaction (insert_user new)) (λ _. load_user id) store
        (transaction_keeps Accounts (insert_user new) store h (insert-AreDistinct new store h))
        (λ a t k. load_user-Accounts id t k))

signup_transaction-Accounts :
    (id : ℕ) (input : CompleteEmailSignup) (store : Store)
    → Accounts store
    → Accounts (signup_transaction id input store).1
unfolding signup_transaction consume_challenge
signup_transaction-Accounts id input store h =
    elim (Bool-cases (exists_where (can_complete input) store.challenges)) [
      | inr c ↦ rw c h
      | inl c ↦ rw c (
          bind_keeps Accounts (insert_user (email_user id input)) _ store
            (insert-AreDistinct (email_user id input) store h) (λ a t k. k))
    ]

load_created-Accounts :
    (created : Option ℕ) (store : Store) → Accounts store → Accounts (load_created created store).1
unfolding load_created
load_created-Accounts none store h = h
load_created-Accounts (some id) store h =
    bind_keeps Accounts (load_user id) _ store (load_user-Accounts id store h) (λ a t k. k)

pub complete_email_signup-Accounts :
    (id : ℕ) (input : CompleteEmailSignup) (store : Store)
    → Accounts store
    → Accounts (complete_email_signup id input store).1
unfolding complete_email_signup
complete_email_signup-Accounts id input store h =
    caught-Accounts (Option IdentityUser)
      (transaction (signup_transaction id input) >>= load_created) signup_unavailable store
      (bind_keeps Accounts (transaction (signup_transaction id input)) load_created store
        (transaction_keeps Accounts (signup_transaction id input) store h
          (signup_transaction-Accounts id input store h))
        load_created-Accounts)

insert_social_identity-Accounts :
    (si : SocialIdentity) (store : Store)
    → Accounts store
    → Accounts (insert_social_identity si store).1
unfolding insert_social_identity
insert_social_identity-Accounts si store h =
    elim (Bool-cases (
      exists_where
        (λ (x : SocialIdentity).
          x.provider == si.provider && x.provider_subject == si.provider_subject)
        store.social_identities)) [ inl e ↦ rw e h | inr e ↦ rw e h ]

pub create_social_user-Accounts :
    (id : ℕ) (input : NewSocialUser) (store : Store)
    → Accounts store
    → Accounts (create_social_user id input store).1
unfolding create_social_user social_transaction
create_social_user-Accounts id input store h =
    let new = social_user id input store.clock in
    caught-Accounts IdentityUser (transaction (social_transaction id input) >>= λ _. load_user id)
      social_identity_conflict store
      (bind_keeps Accounts (transaction (social_transaction id input)) (λ _. load_user id) store
        (transaction_keeps Accounts (social_transaction id input) store h (
          bind_keeps Accounts (insert_user new) _ store (insert-AreDistinct new store h)
            (λ a t k. insert_social_identity-Accounts _ t k)))
        (λ a t k. load_user-Accounts id t k))

check_renamed_keeps :
    (name : Text) (phone : Option Text) (found : Option IdentityUser) (store : Store)
    → (check_renamed name phone found store).1 ≡ store
check_renamed_keeps name phone none store = refl
check_renamed_keeps name phone (some u) store =
    elim (Bool-cases (
      exists_where (λ v. not (is_user u.id v) && meets_phone (renamed name phone u) v)
        store.users)) [
          | inl e ↦ rw e refl
          | inr e ↦ elim (Bool-cases (is_none u.email && is_none phone)) [
            | inl k ↦ rw (e, k) refl
            | inr k ↦ rw (e, k) refl
          ]
        ]

pub update_renter_profile-Accounts :
    (id : ℕ) (name : Text) (phone : Option Text) (store : Store)
    → Accounts store
    → Accounts (update_renter_profile id name phone store).1
unfolding update_renter_profile update_users
update_renter_profile-Accounts id name phone store h =
    let found = find_where (is_active_renter id) store.users in
    bind_keeps Accounts (check_renamed name phone found) _ store
      (rw (check_renamed_keeps name phone found store) h)
      (λ a t k.
        update-AreDistinct (renamed name phone) (λ u. refl) (λ u. refl) (λ u. refl)
          (is_active_renter id) t.users k)
