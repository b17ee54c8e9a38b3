-- ===== src/Identity/Otp/Exchanges.antt =====
-- The exchange of a code for a reset token, and the signup that completes with one: what they keep
-- of the challenges table.
use smart_platform_services.Common.{
  ℕ, ◌≡◌, refl, Bool, true, Option, none, some, List, nat_Eq, text_Eq, update_where, exists_where,
  Bool-cases, Option-cases, inl, inr, ◌∷◌, ◌⊎◌, ◌∙◌, ◌==◌, subst, sym,
}
use smart_platform_services.Identity.Contracts.{
  Constraint, unique_violation, users_pkey, uq_users_email_normalized, uq_users_legacy_phone_login,
  purpose_Eq, signup_unavailable, status_Eq,
}
use smart_platform_services.Identity.Exec.{
  Result, ok, err, catch_result, continue, ◌>>=◌, transaction, transaction_keeps, bind_keeps,
  catching_keeps,
}
use smart_platform_services.Identity.Store.{Store, IdentityUser, PasswordResetToken, OtpChallenge}
use smart_platform_services.Identity.Otp.{consume}
use smart_platform_services.Identity.Reset.{
  IssueToken, can_issue, token_row, is_token_of, is_reset_token, insert_token, close_challenge,
  issue_transaction, issue_password_reset_token, record_recovery_audit,
}
use smart_platform_services.Identity.Users.{
  insert_user, is_user, find_by_id, meets_email as taken_email, meets_phone as taken_phone,
}
use smart_platform_services.Identity.Users.Create.{
  or_conflict, CompleteEmailSignup, can_complete, email_user, consume_challenge, signup_transaction,
  load_created, load_user, complete_email_signup,
}
use smart_platform_services.Identity.Users.Create.Unique.{or_conflict_keeps}
use smart_platform_services.Identity.Otp.Statements.{is_completed}
use smart_platform_services.Identity.Otp.Invariant.{Moves}

-- Accounts are inserted and looked up beside the challenges.
pub insert_user-challenges :
    (new : IdentityUser) (store : Store) → store.challenges ≡ (insert_user new store).1.challenges
unfolding insert_user
insert_user-challenges new store = elim (Bool-cases (exists_where (is_user new.id) store.users)) [
  | inl a ↦ rw a refl
  | inr a ↦ elim (Bool-cases (exists_where (taken_email new) store.users)) [
    | inl b ↦ rw (a, b) refl
    | inr b ↦ elim (Bool-cases (exists_where (taken_phone new) store.users)) [
      | inl c ↦ rw (a, b, c) refl
      | inr c ↦ rw (a, b, c) refl
    ]
  ]
]

pub load_created_keeps :
    (created : Option ℕ) (store : Store) → store ≡ (load_created created store).1
unfolding load_created load_user
load_created_keeps none store = refl
load_created_keeps (some id) store = elim (Option-cases (find_by_id id store)) [
  | inl n ↦ rw n refl
  | inr (u, f) ↦ rw f refl
]

caught_keeps :
    (r : Result (Option IdentityUser) × Store)
    → (catch_result r (or_conflict signup_unavailable)).1 ≡ r.1
caught_keeps (ok a, t) = refl
caught_keeps (err e, t) = or_conflict_keeps (Option IdentityUser) signup_unavailable e t

abbrev signed : ℕ → CompleteEmailSignup → Store → Store
signed user input store =
    consume_challenge input.challenge_id input.completed_at
      (record store { users = email_user user input ∷ store.users })

signup-signed :
    (user : ℕ) (input : CompleteEmailSignup) (store : Store)
    → (signup_transaction user input store ≡ (ok none, store))
      ⊎ ((e : Constraint) × (signup_transaction user input store
            ≡ (err (unique_violation e), store)))
      ⊎ ((exists_where (can_complete input) store.challenges ≡ true)
          × (signup_transaction user input store ≡ (ok (some user), signed user input store)))
unfolding signup_transaction insert_user
signup-signed user input store =
    let new = email_user user input in
    elim (Bool-cases (exists_where (can_complete input) store.challenges)) [
      | inr a ↦ inl (rw a refl)
      | inl a ↦ elim (Bool-cases (exists_where (is_user user) store.users)) [
        | inl b ↦ inr (inl (users_pkey, rw (a, b) refl))
        | inr b ↦ elim (Bool-cases (exists_where (taken_email new) store.users)) [
          | inl c ↦ inr (inl (uq_users_email_normalized, rw (a, b, c) refl))
          | inr c ↦ elim (Bool-cases (exists_where (taken_phone new) store.users)) [
            | inl d ↦ inr (inl (uq_users_legacy_phone_login, rw (a, b, c, d) refl))
            | inr d ↦ inr (inr (a, rw (a, b, c, d) refl))
          ]
        ]
      ]
    ]

-- A signup that completes has found its challenge, and consumes it.
pub complete-eq :
    (user : ℕ) (input : CompleteEmailSignup) (store : Store)
    → is_completed (complete_email_signup user input store).0 ≡ true
    → (exists_where (can_complete input) store.challenges ≡ true)
      × ((complete_email_signup user input store).1 ≡ signed user input store)
unfolding complete_email_signup
complete-eq user input store e = elim (signup-signed user input store) [
  | inl n ↦ absurd (unfold load_created in cc (rw n at e))
  | inr (inl (c, f)) ↦ absurd (cc (rw f at e))
  | inr (inr (a, f)) ↦ (
    a,
    caught_keeps (continue (transaction (signup_transaction user input) store) load_created)
        ∙ rw f (sym (load_created_keeps (some user) (signed user input store))),
  )
]

-- A property of the table that holds on after any update that moves no keys.
module _ (P : List OtpChallenge → Type 0)
    (updated : (q : OtpChallenge → Bool) (f : OtpChallenge → OtpChallenge) (cs : List OtpChallenge)
      → ((c : OtpChallenge) → q c ≡ true → Moves c (f c))
      → P cs
      → P (update_where q f cs)) where
  abbrev Kept : Store → Type 0
  Kept store = P store.challenges

  insert_token-Kept :
      (row : PasswordResetToken) (store : Store) → Kept store → Kept (insert_token row store).1
  unfolding insert_token
  insert_token-Kept row store v =
      elim (Bool-cases (exists_where (is_token_of row.challenge_id) store.reset_tokens)) [
        | inl a ↦ rw a v
        | inr a ↦
            elim (Bool-cases (exists_where (is_reset_token row.token_hash) store.reset_tokens)) [
              | inl b ↦ rw (a, b) v
              | inr b ↦ rw (a, b) v
            ]
      ]

  close_challenge-Kept :
      (id at : ℕ) (store : Store) → Kept store → Kept (close_challenge id at store)
  unfolding close_challenge
  close_challenge-Kept id at store v =
      updated (λ c. c.id == id) (λ c. record c { verified_at = some at; consumed_at = some at })
        store.challenges (λ c h. (refl, refl, refl, refl, (λ e. absurd (cc)), (λ o e. absurd (cc))))
        v

  issue_transaction-Kept :
      (input : IssueToken) (store : Store) → Kept store → Kept (issue_transaction input store).1
  unfolding issue_transaction record_recovery_audit
  issue_transaction-Kept input store v =
      elim (Bool-cases (exists_where (can_issue input store.users) store.challenges)) [
        | inr c ↦ rw c v
        | inl c ↦ rw c (
            bind_keeps Kept (insert_token (token_row input)) _
              (close_challenge input.challenge_id input.issued_at store)
              (insert_token-Kept (token_row input)
                (close_challenge input.challenge_id input.issued_at store)
                (close_challenge-Kept input.challenge_id input.issued_at store v))
              (λ a t k. k))
      ]

  pub issue-Kept :
      (input : IssueToken) (store : Store)
      → Kept store
      → Kept (issue_password_reset_token input store).1
  unfolding issue_password_reset_token
  issue-Kept input store v =
      transaction_keeps Kept (issue_transaction input) store v
        (issue_transaction-Kept input store v)

  signup_transaction-Kept :
      (user : ℕ) (input : CompleteEmailSignup) (store : Store)
      → Kept store
      → Kept (signup_transaction user input store).1
  unfolding signup_transaction consume_challenge
  signup_transaction-Kept user input store v =
      elim (Bool-cases (exists_where (can_complete input) store.challenges)) [
        | inr c ↦ rw c v
        | inl c ↦ rw c (
            bind_keeps Kept (insert_user (email_user user input)) _ store
              (subst P (insert_user-challenges (email_user user input) store) v)
              (λ a t k.
                updated (λ c. c.id == input.challenge_id) (consume input.completed_at) t.challenges
                  (λ c h. (refl, refl, refl, refl, (λ e. absurd (cc)), (λ o e. absurd (cc)))) k))
      ]

  pub complete-Kept :
      (user : ℕ) (input : CompleteEmailSignup) (store : Store)
      → Kept store
      → Kept (complete_email_signup user input store).1
  unfolding complete_email_signup
  complete-Kept user input store v =
      catching_keeps Kept (transaction (signup_transaction user input) >>= load_created) _ store
        (bind_keeps Kept (transaction (signup_transaction user input)) load_created store
          (transaction_keeps Kept (signup_transaction user input) store v
            (signup_transaction-Kept user input store v))
          (λ created t k. subst Kept (load_created_keeps created t) k))
        (λ e t k.
          subst Kept (sym (or_conflict_keeps (Option IdentityUser) signup_unavailable e t)) k)
