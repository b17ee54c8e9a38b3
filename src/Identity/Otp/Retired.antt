-- ===== src/Identity/Otp/Retired.antt =====
-- A consumed challenge stays consumed, and no statement accepts its code.
use smart_platform_services.Common.{
  ℕ, subst, nat_eq_iff, ◌<◌, ◌≡◌, refl, ◌∙◌, Bool, true, false, ◌&&◌, List, ◌∷◌, arith, nat_Eq,
  exists_where, update_where, count_where, All, All-update_where, count_where-All_none,
  exists_where_of_zero, Bool-cases, inl, inr, none, ◌==◌, text_Eq, exists_where-update_where,
}
use smart_platform_services.Identity.Store.{Store, OtpChallenge}
use smart_platform_services.Identity.Otp.{
  is_active, NewChallenge, challenge_row, has_id, meets_phone, meets_email, can_verify,
  mark_otp_verified, can_consume, consume_otp,
}
use smart_platform_services.Identity.Otp.History.{run-Kept}
use smart_platform_services.Identity.Otp.Statements.{
  Statement, replace, replace_recovery, replace_registration, fail, verify, redeem, cancel,
  exchange, complete, HasBudget, run, uses_up, accepts,
}
use smart_platform_services.Identity.Contracts.{purpose_Eq, status_Eq}
use smart_platform_services.Identity.Exec.{ok}
use smart_platform_services.Identity.Reset.{
  IssueToken, can_issue, issue_transaction, issue_password_reset_token,
}
use smart_platform_services.Identity.Users.Create.{
  CompleteEmailSignup, can_complete, signup_transaction, load_created, complete_email_signup,
}
use smart_platform_services.Identity.Otp.Invariant.{Moves}

abbrev pub Spent : ℕ → OtpChallenge → Type 0
Spent id c = has_id id c ≡ true → is_active c ≡ false

-- The challenge is there and consumed.
pub record Retired (id : ℕ) (cs : List OtpChallenge) : Type 0 where
  pub stored : exists_where (has_id id) cs ≡ true
  pub spent : All (Spent id) cs

module _ (id : ℕ) (store : Store) (h : Retired id store.challenges) where
  no_row :
      (p : OtpChallenge → Bool)
      → ((c : OtpChallenge) → p c ≡ true → has_id id c && is_active c ≡ true)
      → count_where p store.challenges ≡ 0
  no_row p k =
      count_where-All_none (Spent id) p store.challenges (λ c s. ground (arith, s, k c)) h.spent

  unredeemed : (at : ℕ) → (consume_otp id at store).0 ≡ false
  unfolding consume_otp
  unredeemed at = rw (no_row (can_consume id at) (λ c k. ground (arith, k))) refl

  unverified : (at : ℕ) → (mark_otp_verified id at store).0 ≡ false
  unfolding mark_otp_verified
  unverified at = rw (no_row (can_verify id at) (λ c k. ground (arith, k))) refl

  unexchanged :
      (input : IssueToken)
      → input.challenge_id ≡ id
      → (issue_password_reset_token input store).0 ≡ ok false
  unfolding issue_password_reset_token issue_transaction
  unexchanged input e =
      rw
        (exists_where_of_zero (can_issue input store.users) store.challenges
          (no_row (can_issue input store.users) (λ c k. ground (arith, e, k))))
        refl

  uncompleted :
      (user : ℕ) (input : CompleteEmailSignup)
      → input.challenge_id ≡ id
      → (complete_email_signup user input store).0 ≡ ok none
  unfolding complete_email_signup signup_transaction load_created
  uncompleted user input e =
      rw
        (exists_where_of_zero (can_complete input) store.challenges
          (no_row (can_complete input) (λ c k. ground (arith, e, k))))
        refl

  -- The code of a retired challenge is accepted by no statement.
  pub Retired-refused : (again : Statement) → accepts id again store ≡ false
  unfolding accepts uses_up
  Retired-refused (verify i at) = elim (Bool-cases (i == id)) [
    | inl e ↦ rw ((nat_eq_iff i id).0 e, unverified at) (ground arith)
    | inr e ↦ rw e refl
  ]
  Retired-refused (redeem i at) = elim (Bool-cases (i == id)) [
    | inl e ↦ rw ((nat_eq_iff i id).0 e, unredeemed at) (ground arith)
    | inr e ↦ rw e refl
  ]
  Retired-refused (exchange input) = elim (Bool-cases (input.challenge_id == id)) [
    | inl e ↦ rw (unexchanged input ((nat_eq_iff input.challenge_id id).0 e)) (ground arith)
    | inr e ↦ rw e refl
  ]
  Retired-refused (complete user input) = elim (Bool-cases (input.challenge_id == id)) [
    | inl e ↦ rw (uncompleted user input ((nat_eq_iff input.challenge_id id).0 e)) (ground arith)
    | inr e ↦ rw e refl
  ]
  Retired-refused (replace input) = refl
  Retired-refused (replace_recovery input outbox) = refl
  Retired-refused (replace_registration input superseded outbox) = refl
  Retired-refused (fail i) = refl
  Retired-refused (cancel i at) = refl

update_where-Retired :
    (id : ℕ) (q : OtpChallenge → Bool) (f : OtpChallenge → OtpChallenge) (cs : List OtpChallenge)
    → ((c : OtpChallenge) → q c ≡ true → Moves c (f c))
    → Retired id cs
    → Retired id (update_where q f cs)
update_where-Retired id q f cs m h = record {
  stored =
      exists_where-update_where (has_id id) q f cs (λ c e. ground (arith, (m c e).0)) ∙ h.stored;
  spent =
      All-update_where (Spent id) q f cs (λ c e k i. ground (arith, (m c e).0, (m c e).4, k))
        h.spent;
}

challenge_row-Retired :
    (id : ℕ) (input : NewChallenge) (cs : List OtpChallenge) (now : ℕ)
    → 0 < input.max_attempts
    → exists_where (has_id input.id) cs ≡ false
    → exists_where (meets_phone input) cs ≡ false
    → exists_where (meets_email input) cs ≡ false
    → Retired id cs
    → Retired id (challenge_row input now ∷ cs)
unfolding exists_where
challenge_row-Retired id input cs now m a b c h = record {
  stored = ground (arith, h.stored);
  spent = (λ e. absurd (ground (arith, nat_eq_iff input.id id, h.stored, same_id)), h.spent);
}
  where
    same_id : input.id ≡ id → exists_where (has_id id) cs ≡ false
    same_id e = subst (λ i. exists_where (has_id i) cs ≡ false) e a

-- Once a challenge is retired, no later history of statements makes it good again.
pub run-Retired :
    (id : ℕ) (history : List (ℕ × Statement)) (store : Store)
    → All HasBudget history
    → Retired id store.challenges
    → Retired id (run history store).challenges
run-Retired id = run-Kept (Retired id) (update_where-Retired id) (challenge_row-Retired id)
