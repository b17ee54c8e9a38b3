-- ===== src/Identity/Otp/Replace.antt =====
-- The statements that put a new challenge in the place of an old one, with the mail that they queue
-- (replaceOtpChallenge, replacePasswordRecoveryChallenge, replaceRegistrationChallenge of
-- libs/identity/src/persistence/postgres-identity.repository.ts).
use smart_platform_services.Common.{
  ℕ, Bool, true, false, ◌&&◌, ◌||◌, Option, none, some, ◌∷◌, Text, if◌then◌else◌, ◌==◌, nat_Eq,
  text_Eq, is_none, exists_where, update_where,
}
use smart_platform_services.Identity.Contracts.{
  OtpPurpose, registration, password_reset, purpose_Eq, Error, unique_violation,
  uq_otp_challenges_active_email, outbox_events_pkey,
}
use smart_platform_services.Identity.Exec.{
  Exec, ok, err, pure, throw, modify, transaction, catching, ◌>>◌,
}
use smart_platform_services.Identity.Store.{
  Store, OtpChallenge, OutboxEvent, OutboxEventType, registration_email, password_recovery_email,
}
use smart_platform_services.Identity.Otp.{
  is_active, holds_parameter, NewChallenge, consume, consume_and_insert,
}

abbrev pub replaced_by : NewChallenge → OtpChallenge → Bool
replaced_by input c =
    (holds_parameter c.email input.email || holds_parameter c.phone input.phone)
    && c.purpose == input.purpose
    && is_active c

unfoldable pub replace_otp_challenge : NewChallenge → Exec Store Unit
replace_otp_challenge input = transaction (consume_and_insert (replaced_by input) input)

-- `PasswordRecoveryOutboxInput` and `RegistrationOutboxInput`
pub record OutboxInput : Type 0 where
  pub id : ℕ
  pub challenge_id : ℕ
  pub email : Text
  pub occurred_at : ℕ

abbrev pub is_event : ℕ → OutboxEvent → Bool
is_event id event = event.id == id

abbrev pub outbox_row : OutboxEventType → OutboxInput → ℕ → OutboxEvent
outbox_row event_type input now = record {
  id = input.id;
  aggregate_id = input.challenge_id;
  event_type = event_type;
  email = input.email;
  occurred_at = input.occurred_at;
  next_attempt_at = input.occurred_at;
  published_at = none;
  superseded_at = none;
  locked_at = none;
  lock_token = none;
  attempt_count = 0;
  created_at = now;
}

unfoldable pub insert_outbox : OutboxEventType → OutboxInput → Exec Store Unit
insert_outbox event_type input store =
    if exists_where (is_event input.id) store.outbox
    then (err (unique_violation outbox_events_pkey), store)
    else (ok tt, record store { outbox = outbox_row event_type input store.clock ∷ store.outbox })

abbrev pub insert_outbox_if : OutboxEventType → Option OutboxInput → Exec Store Unit
insert_outbox_if event_type none = pure tt
insert_outbox_if event_type (some input) = insert_outbox event_type input

abbrev pub active_for_email : NewChallenge → OtpPurpose → OtpChallenge → Bool
active_for_email input purpose c =
    holds_parameter c.email input.email && c.purpose == purpose && is_active c

unfoldable pub recovery_transaction : NewChallenge → Option OutboxInput → Exec Store Unit
recovery_transaction input outbox = do
  consume_and_insert (active_for_email input password_reset) input
  insert_outbox_if password_recovery_email outbox

-- The input's email is a string, its phone NULL, its purpose `password_reset`.
unfoldable pub replace_password_recovery_challenge :
    NewChallenge → Option OutboxInput → Exec Store Unit
replace_password_recovery_challenge input outbox = transaction (recovery_transaction input outbox)

abbrev is_registration_email : OutboxEventType → Bool
is_registration_email registration_email = true
is_registration_email password_recovery_email = false

abbrev pub is_superseded : ℕ → OutboxEvent → Bool
is_superseded challenge_id event =
    event.aggregate_id == challenge_id
    && is_registration_email event.event_type
    && is_none event.published_at
    && is_none event.superseded_at

unfoldable pub supersede : Option ℕ → Store → Store
supersede none store = store
supersede (some challenge_id) store = record store {
  challenges =
      update_where (λ c. c.id == challenge_id && c.purpose == registration && is_active c)
        (consume store.clock) store.challenges;
  outbox =
      update_where (is_superseded challenge_id)
        (λ event. record event {
          superseded_at = some store.clock;
          locked_at = none;
          lock_token = none;
        })
        store.outbox;
}

-- A competing request that committed the one permitted active challenge first is answered `false`.
abbrev pub on_conflict : Error → Exec Store Bool
on_conflict (unique_violation uq_otp_challenges_active_email) = pure false
on_conflict other = throw other

unfoldable pub registration_transaction : NewChallenge → Option ℕ → OutboxInput → Exec Store Bool
registration_transaction input superseded_challenge_id outbox = do
  modify (supersede superseded_challenge_id)
  consume_and_insert (active_for_email input registration) input
  insert_outbox registration_email outbox
  pure true

unfoldable pub replace_registration_challenge :
    NewChallenge → Option ℕ → OutboxInput → Exec Store Bool
replace_registration_challenge input superseded_challenge_id outbox =
    catching (transaction (registration_transaction input superseded_challenge_id outbox))
      on_conflict
