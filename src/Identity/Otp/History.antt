-- ===== src/Identity/Otp/History.antt =====
-- Every statement keeps the challenges table valid, and so does any history of them.
use smart_platform_services.Common.{
  ℕ, ◌<◌, ◌≡◌, refl, Bool, true, false, ◌&&◌, Option, none, some, List, [], ◌∷◌, arith, nat_Eq,
  text_Eq, update_where, exists_where, Bool-cases, All, inl, inr,
}
use smart_platform_services.Identity.Contracts.{
  purpose_Eq, registration, password_reset, Error, unique_violation, uq_otp_challenges_active_email,
  status_Eq,
}
use smart_platform_services.Identity.Exec.{
  ◌>>◌, pure, transaction, transaction_keeps, bind_keeps, catching_keeps,
}
use smart_platform_services.Identity.Store.{
  Store, OtpChallenge, OutboxEventType, password_recovery_email, registration_email,
}
use smart_platform_services.Identity.Otp.{
  is_active, NewChallenge, has_id, challenge_row, meets_phone, meets_email, consume,
  insert_challenge, consume_and_insert, consume_where, fail_once, record_otp_failure, can_verify,
  mark_otp_verified, can_consume, consume_otp, cancel_otp,
}
use smart_platform_services.Identity.Otp.Replace.{
  active_for_email, recovery_transaction, registration_transaction, replaced_by,
  replace_otp_challenge, OutboxInput, insert_outbox, replace_password_recovery_challenge, supersede,
  replace_registration_challenge, insert_outbox_if, is_event, on_conflict,
}
use smart_platform_services.Identity.Otp.Statements.{
  Statement, replace, replace_recovery, replace_registration, fail, verify, redeem, cancel,
  exchange, complete, execute, run, HasBudget,
}
use smart_platform_services.Identity.Otp.Exchanges.{issue-Kept, complete-Kept}
use smart_platform_services.Identity.Otp.Invariant.{
  IsValid, Moves, update_where-IsValid, challenge_row-IsValid,
}

-- A property of the table that holds on after any update that moves no keys, and after an insertion
-- that the constraints permit.
module _ (P : List OtpChallenge → Type 0)
    (updated : (q : OtpChallenge → Bool) (f : OtpChallenge → OtpChallenge) (cs : List OtpChallenge)
      → ((c : OtpChallenge) → q c ≡ true → Moves c (f c))
      → P cs
      → P (update_where q f cs))
    (inserted : (input : NewChallenge) (cs : List OtpChallenge) (now : ℕ)
      → 0 < input.max_attempts
      → exists_where (has_id input.id) cs ≡ false
      → exists_where (meets_phone input) cs ≡ false
      → exists_where (meets_email input) cs ≡ false
      → P cs
      → P (challenge_row input now ∷ cs)) where
  abbrev Kept : Store → Type 0
  Kept store = P store.challenges

  consume_where-Kept :
      (q : OtpChallenge → Bool) (at : ℕ) (store : Store)
      → Kept store
      → Kept (consume_where q at store)
  unfolding consume_where
  consume_where-Kept q at store v =
      updated q (consume at) store.challenges
        (λ c h. (refl, refl, refl, refl, (λ e. absurd (cc)), (λ o e. absurd (cc)))) v

  insert_challenge-Kept :
      (input : NewChallenge) (store : Store)
      → 0 < input.max_attempts
      → Kept store
      → Kept (insert_challenge input store).1
  unfolding insert_challenge
  insert_challenge-Kept input store m v =
      elim (Bool-cases (exists_where (has_id input.id) store.challenges)) [
        | inl a ↦ rw a v
        | inr a ↦ elim (Bool-cases (exists_where (meets_phone input) store.challenges)) [
          | inl b ↦ rw (a, b) v
          | inr b ↦ elim (Bool-cases (exists_where (meets_email input) store.challenges)) [
            | inl c ↦ rw (a, b, c) v
            | inr c ↦ rw (a, b, c) (inserted input store.challenges store.clock m a b c v)
          ]
        ]
      ]

  consume_and_insert-Kept :
      (p : OtpChallenge → Bool) (input : NewChallenge) (store : Store)
      → 0 < input.max_attempts
      → Kept store
      → Kept (consume_and_insert p input store).1
  unfolding consume_and_insert
  consume_and_insert-Kept p input store m v =
      insert_challenge-Kept input (consume_where p store.clock store) m
        (consume_where-Kept p store.clock store v)

  replace_otp_challenge-Kept :
      (input : NewChallenge) (store : Store)
      → 0 < input.max_attempts
      → Kept store
      → Kept (replace_otp_challenge input store).1
  unfolding replace_otp_challenge
  replace_otp_challenge-Kept input store m v =
      transaction_keeps Kept (consume_and_insert (replaced_by input) input) store v
        (consume_and_insert-Kept (replaced_by input) input store m v)

  insert_outbox-Kept :
      (event_type : OutboxEventType) (input : OutboxInput) (store : Store)
      → Kept store
      → Kept (insert_outbox event_type input store).1
  unfolding insert_outbox
  insert_outbox-Kept event_type input store v =
      elim (Bool-cases (exists_where (is_event input.id) store.outbox)) [
        | inl e ↦ rw e v
        | inr e ↦ rw e v
      ]

  insert_outbox_if-Kept :
      (event_type : OutboxEventType) (outbox : Option OutboxInput) (store : Store)
      → Kept store
      → Kept (insert_outbox_if event_type outbox store).1
  insert_outbox_if-Kept event_type none store v = v
  insert_outbox_if-Kept event_type (some input) store v =
      insert_outbox-Kept event_type input store v

  recovery_transaction-Kept :
      (input : NewChallenge) (outbox : Option OutboxInput) (store : Store)
      → 0 < input.max_attempts
      → Kept store
      → Kept (recovery_transaction input outbox store).1
  unfolding recovery_transaction
  recovery_transaction-Kept input outbox store m v =
      bind_keeps Kept (consume_and_insert (active_for_email input password_reset) input)
        (λ _. insert_outbox_if password_recovery_email outbox) store
        (consume_and_insert-Kept (active_for_email input password_reset) input store m v)
        (λ a t k. insert_outbox_if-Kept password_recovery_email outbox t k)

  replace_recovery-Kept :
      (input : NewChallenge) (outbox : Option OutboxInput) (store : Store)
      → 0 < input.max_attempts
      → Kept store
      → Kept (replace_password_recovery_challenge input outbox store).1
  unfolding replace_password_recovery_challenge
  replace_recovery-Kept input outbox store m v =
      transaction_keeps Kept (recovery_transaction input outbox) store v
        (recovery_transaction-Kept input outbox store m v)

  supersede-Kept :
      (superseded : Option ℕ) (store : Store) → Kept store → Kept (supersede superseded store)
  unfolding supersede
  supersede-Kept none store v = v
  supersede-Kept (some id) store v =
      unfold consume_where in consume_where-Kept _ store.clock store v

  on_conflict-Kept : (e : Error) (store : Store) → Kept store → Kept (on_conflict e store).1
  on_conflict-Kept (unique_violation uq_otp_challenges_active_email) store v = v
  on_conflict-Kept _ store v = v

  registration_transaction-Kept :
      (input : NewChallenge) (superseded : Option ℕ) (outbox : OutboxInput) (store : Store)
      → 0 < input.max_attempts
      → Kept store
      → Kept (registration_transaction input superseded outbox store).1
  unfolding registration_transaction
  registration_transaction-Kept input superseded outbox store m v =
      bind_keeps Kept (consume_and_insert (active_for_email input registration) input)
        (λ _. insert_outbox registration_email outbox >> pure true) (supersede superseded store)
        (consume_and_insert-Kept (active_for_email input registration) input
          (supersede superseded store) m (supersede-Kept superseded store v))
        (λ a t k.
          bind_keeps Kept (insert_outbox registration_email outbox) (λ _. pure true) t
            (insert_outbox-Kept registration_email outbox t k) (λ b u l. l))

  replace_registration-Kept :
      (input : NewChallenge) (superseded : Option ℕ) (outbox : OutboxInput) (store : Store)
      → 0 < input.max_attempts
      → Kept store
      → Kept (replace_registration_challenge input superseded outbox store).1
  unfolding replace_registration_challenge
  replace_registration-Kept input superseded outbox store m v =
      catching_keeps Kept (transaction (registration_transaction input superseded outbox))
        on_conflict store
        (transaction_keeps Kept (registration_transaction input superseded outbox) store v
          (registration_transaction-Kept input superseded outbox store m v))
        on_conflict-Kept

  record_otp_failure-Kept :
      (id : ℕ) (store : Store) → Kept store → Kept (record_otp_failure id store)
  unfolding record_otp_failure
  record_otp_failure-Kept id store v =
      updated (λ c. has_id id c && is_active c) (fail_once store.clock) store.challenges
        (λ c h. (refl, refl, refl, refl, (λ e. ground arith), (λ o e. ground arith))) v

  mark_otp_verified-Kept :
      (id at : ℕ) (store : Store) → Kept store → Kept (mark_otp_verified id at store).1
  unfolding mark_otp_verified
  mark_otp_verified-Kept id at store v =
      updated (can_verify id at) (λ c. record c { verified_at = some at }) store.challenges
        (λ c h. (refl, refl, refl, refl, (λ e. e), (λ o e. o e))) v

  execute-Kept :
      (s : ℕ × Statement) (store : Store) → HasBudget s → Kept store → Kept (execute s store)
  unfolding execute
  execute-Kept (now, replace input) store m v =
      replace_otp_challenge-Kept input (record store { clock = now }) m v
  execute-Kept (now, replace_recovery input outbox) store m v =
      replace_recovery-Kept input outbox (record store { clock = now }) m v
  execute-Kept (now, replace_registration input superseded outbox) store m v =
      replace_registration-Kept input superseded outbox (record store { clock = now }) m v
  execute-Kept (now, fail id) store m v =
      record_otp_failure-Kept id (record store { clock = now }) v
  execute-Kept (now, verify id at) store m v =
      mark_otp_verified-Kept id at (record store { clock = now }) v
  execute-Kept (now, redeem id at) store m v =
      unfold consume_otp in
      consume_where-Kept (can_consume id at) at (record store { clock = now }) v
  execute-Kept (now, cancel id at) store m v =
      unfold cancel_otp in consume_where-Kept _ at (record store { clock = now }) v
  execute-Kept (now, exchange input) store m v =
      issue-Kept P updated input (record store { clock = now }) v
  execute-Kept (now, complete user input) store m v =
      complete-Kept P updated user input (record store { clock = now }) v

  pub run-Kept :
      (history : List (ℕ × Statement)) (store : Store)
      → All HasBudget history
      → Kept store
      → Kept (run history store)
  unfolding run
  run-Kept [] store m v = v
  run-Kept (s ∷ rest) store m v = run-Kept rest (execute s store) m.1 (execute-Kept s store m.0 v)

-- After any history of the statements that write one-time codes on a valid table, whether they threw
-- or not, when those that replace a code give the new one an attempt at least: ids are distinct, a
-- recipient has one unconsumed challenge for a purpose at most, and every unconsumed challenge has
-- an attempt left.
pub run-IsValid :
    (history : List (ℕ × Statement)) (store : Store)
    → All HasBudget history
    → IsValid store.challenges
    → IsValid (run history store).challenges
run-IsValid = run-Kept IsValid update_where-IsValid challenge_row-IsValid
