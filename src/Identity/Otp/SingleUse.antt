-- ===== src/Identity/Otp/SingleUse.antt =====
-- A code is good for one use and for `max_attempts` wrong guesses, whatever happens afterwards.
use smart_platform_services.Common.{
  ℕ, zero, suc, subst, nat_eq_iff, ◌+◌, ◌≤◌, ◌≡◌, refl, ◌∙◌, Bool, true, false, ◌&&◌, List, [], ◌∷◌,
  arith, nat_Eq, exists_where, update_where, count_where, All, All-map, All-update_where_to,
  All-count_where, exists_where_of_count, All-update_where_any, some, text_Eq, exists_where_mono,
  exists_where-update_where,
}
use smart_platform_services.Identity.Store.{Store, OtpChallenge}
use smart_platform_services.Identity.Otp.{
  is_active, has_id, consume, consume_where, fail_once, record_otp_failure, can_consume,
  consume_otp,
}
use smart_platform_services.Identity.Otp.Statements.{
  Statement, replace, replace_recovery, replace_registration, fail, verify, redeem, cancel,
  exchange, complete, execute_at, HasBudget, run, uses_up, accepts, is_exchanged, is_completed,
}
use smart_platform_services.Identity.Otp.Exchanges.{complete-eq}
use smart_platform_services.Identity.Contracts.{purpose_Eq, status_Eq}
use smart_platform_services.Identity.Exec.{Result, ok, err}
use smart_platform_services.Identity.Reset.{
  IssueToken, can_issue, close_challenge, record_recovery_audit, issue_password_reset_token,
}
use smart_platform_services.Identity.Reset.Issue.{issue-eq}
use smart_platform_services.Identity.Users.Create.{
  CompleteEmailSignup, can_complete, consume_challenge, complete_email_signup,
}
use smart_platform_services.Identity.Otp.Invariant.{IsOpen, IsValid}
use smart_platform_services.Identity.Otp.Retired.{Spent, Retired, Retired-refused, run-Retired}

consumed_row : (id at : ℕ) (c : OtpChallenge) → can_consume id at c ≡ true → Spent id (consume at c)
consumed_row id at c e i = refl

-- A successful use retires the challenge.
consume_otp-Retired :
    (id at : ℕ) (store : Store)
    → IsValid store.challenges
    → (consume_otp id at store).0 ≡ true
    → Retired id (consume_otp id at store).1.challenges
unfolding consume_otp consume_where
consume_otp-Retired id at store v e =
    let one : count_where (can_consume id at) store.challenges ≡ 1 =
      (nat_eq_iff (count_where (can_consume id at) store.challenges) 1).0 e in
    let usable : (c : OtpChallenge) → can_consume id at c ≡ true → has_id id c ≡ true =
      λ c k. ground (arith, k) in
    record {
      stored =
          exists_where-update_where (has_id id) (can_consume id at) (consume at) store.challenges
            (λ c k. refl)
          ∙ exists_where_mono (can_consume id at) (has_id id) store.challenges usable
              (exists_where_of_count (can_consume id at) store.challenges (omega (arith, one)));
      spent =
          All-update_where_to (λ c. has_id id c ≡ true → can_consume id at c ≡ true) (Spent id)
            (can_consume id at) (consume at) store.challenges (λ c k a i. refl)
            (λ c k a i. absurd (cc (a i)))
            (All-count_where (can_consume id at) (has_id id) store.challenges usable
              (omega (arith, one, v.ids id)));
    }

-- A write that closes the row of the id.
closed-Retired :
    (id : ℕ) (f : OtpChallenge → OtpChallenge) (cs : List OtpChallenge)
    → ((c : OtpChallenge) → has_id id c ≡ true → has_id id (f c) ≡ true)
    → ((c : OtpChallenge) → is_active (f c) ≡ false)
    → exists_where (has_id id) cs ≡ true
    → Retired id (update_where (has_id id) f cs)
closed-Retired id f cs same closed s = record {
  stored = exists_where-update_where (has_id id) (has_id id) f cs (λ c k. cc (k, same c k)) ∙ s;
  spent =
      All-update_where_any (Spent id) (has_id id) f cs (λ c k i. closed c)
        (λ c k i. absurd (cc (k, i)));
}

exchange-Retired :
    (input : IssueToken) (store : Store)
    → is_exchanged (issue_password_reset_token input store).0 ≡ true
    → Retired input.challenge_id (issue_password_reset_token input store).1.challenges
unfolding close_challenge record_recovery_audit
exchange-Retired input store e =
    let m = issue-eq input store (exchanged-ok (issue_password_reset_token input store).0 e) in
    rw m.1 (
      closed-Retired input.challenge_id
        (λ c. record c { verified_at = some input.issued_at; consumed_at = some input.issued_at })
        store.challenges (λ c k. k) (λ c. refl)
        (exists_where_mono (can_issue input store.users) (has_id input.challenge_id)
          store.challenges (λ c k. ground (arith, k)) m.0))
  where
    exchanged-ok : (r : Result Bool) → is_exchanged r ≡ true → r ≡ ok true
    exchanged-ok (ok a) e = rw e refl
    exchanged-ok (err x) e = absurd (cc)

complete-Retired :
    (user : ℕ) (input : CompleteEmailSignup) (store : Store)
    → is_completed (complete_email_signup user input store).0 ≡ true
    → Retired input.challenge_id (complete_email_signup user input store).1.challenges
unfolding consume_challenge
complete-Retired user input store e =
    let m = complete-eq user input store e in
    rw m.1 (
      closed-Retired input.challenge_id (consume input.completed_at) store.challenges (λ c k. k)
        (λ c. refl)
        (exists_where_mono (can_complete input) (has_id input.challenge_id) store.challenges
          (λ c k. ground (arith, k)) m.0))

-- Whatever uses up a code retires the challenge.
uses_up-Retired :
    (id : ℕ) (used : Statement) (store : Store)
    → IsValid store.challenges
    → uses_up id used store ≡ true
    → Retired id (execute_at used store).challenges
unfolding uses_up execute_at
uses_up-Retired id (redeem i at) store v e =
    subst (λ j. Retired j (consume_otp i at store).1.challenges)
      ((nat_eq_iff i id).0 (ground (arith, e)))
      (consume_otp-Retired i at store v (ground (arith, e)))
uses_up-Retired id (exchange input) store v e =
    subst (λ j. Retired j (issue_password_reset_token input store).1.challenges)
      ((nat_eq_iff input.challenge_id id).0 (ground (arith, e)))
      (exchange-Retired input store (ground (arith, e)))
uses_up-Retired id (complete user input) store v e =
    subst (λ j. Retired j (complete_email_signup user input store).1.challenges)
      ((nat_eq_iff input.challenge_id id).0 (ground (arith, e)))
      (complete-Retired user input store (ground (arith, e)))
uses_up-Retired id (verify i at) store v e = absurd (cc)
uses_up-Retired id (replace input) store v e = absurd (cc)
uses_up-Retired id (replace_recovery input outbox) store v e = absurd (cc)
uses_up-Retired id (replace_registration input superseded outbox) store v e = absurd (cc)
uses_up-Retired id (fail i) store v e = absurd (cc)
uses_up-Retired id (cancel i at) store v e = absurd (cc)

-- In a valid table, a code that has been used up, by `consumeOtp`, in exchange for a reset token or
-- for a completed signup, is accepted by no statement again, not even to mark it verified: at any time
-- and after any statements that write one-time codes, those that replace a code giving the new one an
-- attempt at least.
pub used_up_refused :
    (id : ℕ) (used : Statement) (store : Store) (history : List (ℕ × Statement)) (again : Statement)
    → IsValid store.challenges
    → uses_up id used store ≡ true
    → All HasBudget history
    → accepts id again (run history (execute_at used store)) ≡ false
used_up_refused id used store history again v e m =
    Retired-refused id (run history (execute_at used store))
      (run-Retired id history (execute_at used store) m (uses_up-Retired id used store v e)) again

-- `n` wrong guesses.
pub fail_times : ℕ → ℕ → Store → Store
fail_times zero id store = store
fail_times (suc n) id store = fail_times n id (record_otp_failure id store)

-- A row of the id has at most `n` attempts left.
abbrev pub AtMost : ℕ → ℕ → OtpChallenge → Type 0
AtMost n id c = has_id id c ≡ true → c.max_attempts ≤ c.attempt_count + n

abbrev Left : ℕ → ℕ → OtpChallenge → Type 0
Left n id c =
    IsOpen c × (has_id id c ≡ true → is_active c ≡ true → c.max_attempts ≤ c.attempt_count + n)

Left-zero : (id : ℕ) (c : OtpChallenge) → Left 0 id c → Spent id c
Left-zero id c h e = ground (arith, h.0, h.1 e)

fail_once-Left :
    (n id now : ℕ) (c : OtpChallenge)
    → (has_id id c && is_active c) ≡ true
    → Left (suc n) id c
    → Left n id (fail_once now c)
fail_once-Left n id now c e h = ((λ k. ground arith), λ i k. ground (arith, h.1 i))

missed-Left :
    (n id : ℕ) (c : OtpChallenge)
    → (has_id id c && is_active c) ≡ false
    → Left (suc n) id c
    → Left n id c
missed-Left n id c e h = (h.0, λ i k. absurd (ground (arith, i, k)))

fail_times-Retired :
    (n id : ℕ) (store : Store)
    → exists_where (has_id id) store.challenges ≡ true
    → All (Left n id) store.challenges
    → Retired id (fail_times n id store).challenges
unfolding fail_times record_otp_failure
fail_times-Retired zero id store s h = record {
  stored = s;
  spent = All-map (Left 0 id) (Spent id) store.challenges (Left-zero id) h;
}
fail_times-Retired (suc n) id store s h =
    fail_times-Retired n id (record_otp_failure id store)
      (exists_where-update_where (has_id id) (λ c. has_id id c && is_active c)
          (fail_once store.clock) store.challenges (λ c e. refl)
        ∙ s)
      (All-update_where_to (Left (suc n) id) (Left n id) (λ c. has_id id c && is_active c)
        (fail_once store.clock) store.challenges (fail_once-Left n id store.clock)
        (missed-Left n id) h)

with_budget :
    (n id : ℕ) (cs : List OtpChallenge) → All IsOpen cs → All (AtMost n id) cs → All (Left n id) cs
with_budget n id [] o h = tt
with_budget n id (c ∷ cs) o h = ((o.0, λ i k. h.0 i), with_budget n id cs o.1 h.1)

-- In a valid table, as many wrong guesses as a stored challenge has attempts left cancel it: its code
-- is accepted by no statement again, neither by `consumeOtp` or `markOtpVerified` nor in exchange for a
-- reset token or for a completed signup, at any time and after any statements that write one-time
-- codes, those that replace a code giving the new one an attempt at least.
pub fail_times_cancels :
    (n id : ℕ) (store : Store) (history : List (ℕ × Statement)) (again : Statement)
    → IsValid store.challenges
    → exists_where (has_id id) store.challenges ≡ true
    → All (AtMost n id) store.challenges
    → All HasBudget history
    → accepts id again (run history (fail_times n id store)) ≡ false
fail_times_cancels n id store history again v s h m =
    Retired-refused id (run history (fail_times n id store))
      (run-Retired id history (fail_times n id store) m
        (fail_times-Retired n id store s (with_budget n id store.challenges v.budget h)))
      again
