-- ===== src/Identity/Outbox.antt =====
-- libs/identity/src/services/password-recovery-outbox.service.ts: the worker that sends the mail of the
-- outbox. The payload of an event is what the repository has written: the challenge's id and the
-- address. `store.clock` is the database's now() of the statement that runs.
pub mod Claims
pub mod Draining
pub mod Delivery
use smart_platform_services.Common.{
  ℕ, zero, suc, ◌+◌, ◌*◌, ◌^◌, min, Bool, true, false, ◌&&◌, ◌||◌, Option, none, some, List, [],
  ◌∷◌, Text, ltb, leb, if◌then◌else◌, ◌==◌, nat_Eq, text_Eq, holds, is_none, exists_where,
  find_where, update_where,
}
use smart_platform_services.Identity.Contracts.{
  OtpPurpose, registration, password_reset, purpose_Eq,
}
use smart_platform_services.Identity.Exec.{Result, ok, err}
use smart_platform_services.Identity.Otp.{is_active}
use smart_platform_services.Identity.Store.{
  Store, OtpChallenge, OutboxEvent, OutboxEventType, registration_email, password_recovery_email,
}

abbrev pub purpose_of : OutboxEventType → OtpPurpose
purpose_of registration_email = registration
purpose_of password_recovery_email = password_reset

-- A lock lapses after two minutes.
abbrev pub is_unlocked : ℕ → Option ℕ → Bool
is_unlocked now none = true
is_unlocked now (some locked_at) = ltb (locked_at + 120000) now

abbrev pub is_due : ℕ → OutboxEvent → Bool
is_due now event =
    is_none event.published_at
    && is_none event.superseded_at
    && leb event.next_attempt_at now
    && is_unlocked now event.locked_at

unfoldable pub due_events : ℕ → List OutboxEvent → List OutboxEvent
due_events now [] = []
due_events now (event ∷ events) =
    let rest = due_events now events in if is_due now event then event ∷ rest else rest

-- `ORDER BY created_at`
unfoldable pub insert_by_age : OutboxEvent → List OutboxEvent → List OutboxEvent
insert_by_age event [] = event ∷ []
insert_by_age event (next ∷ events) =
    let rest = insert_by_age event events in
    if leb event.created_at next.created_at then event ∷ next ∷ events else next ∷ rest

unfoldable pub by_age : List OutboxEvent → List OutboxEvent
by_age [] = []
by_age (event ∷ events) = insert_by_age event (by_age events)

-- `LIMIT`
unfoldable pub limit : ℕ → List OutboxEvent → List OutboxEvent
limit zero events = []
limit (suc n) [] = []
limit (suc n) (event ∷ events) = event ∷ limit n events

abbrev pub has_event_id : ℕ → OutboxEvent → Bool
has_event_id id event = event.id == id

abbrev pub is_claimed : List OutboxEvent → OutboxEvent → Bool
is_claimed jobs event = exists_where (has_event_id event.id) jobs

-- The statement of `drain`: the oldest ten events that are due are locked with the token.
unfoldable pub claim : ℕ → Store → List OutboxEvent × Store
claim token store =
    let jobs = limit 10 (by_age (due_events store.clock store.outbox)) in
    (
      jobs,
      record store {
        outbox =
            update_where (is_claimed jobs)
              (λ event. record event { locked_at = some store.clock; lock_token = some token })
              store.outbox;
      },
    )

abbrev pub is_held : ℕ → ℕ → OutboxEvent → Bool
is_held id token event = event.id == id && holds event.lock_token token

unfoldable pub complete : ℕ → ℕ → Store → Store
complete id token store = record store {
  outbox =
      update_where (is_held id token)
        (λ event. record event {
          published_at = some store.clock;
          locked_at = none;
          lock_token = none;
        })
        store.outbox;
}

unfoldable pub delay_seconds : ℕ → ℕ
delay_seconds attempt_count = min 300 (2 ^ min (attempt_count + 1) 8)

unfoldable pub retry_later : OutboxEvent → ℕ → Store → Store
retry_later job token store = record store {
  outbox =
      update_where (is_held job.id token)
        (λ event. record event {
          attempt_count = suc event.attempt_count;
          next_attempt_at = store.clock + delay_seconds job.attempt_count * 1000;
          locked_at = none;
          lock_token = none;
        })
        store.outbox;
}

abbrev pub is_sendable : OutboxEvent → ℕ → OtpChallenge → Bool
is_sendable job now c =
    c.id == job.aggregate_id
    && holds c.email job.email
    && c.purpose == purpose_of job.event_type
    && is_active c
    && is_none c.verified_at
    && ltb now c.expires_at

abbrev pub delivered : Result {0} Unit → OutboxEvent → ℕ → Store → Store
delivered (ok _) job token = complete job.id token
delivered (err _) job token = retry_later job token

-- `process`: `send` is what the delivery does with the mail; nothing is sent for a stale code.
unfoldable pub process : Result {0} Unit → OutboxEvent → ℕ → Store → Store
process send job token store =
    if exists_where (is_sendable job store.clock) store.challenges
    then delivered send job token store
    else complete job.id token store

-- `drain`, with what the delivery does for each job, in the order of the jobs.
unfoldable pub process_all : (OutboxEvent → Result {0} Unit) → List OutboxEvent → ℕ → Store → Store
process_all send [] token store = store
process_all send (job ∷ jobs) token store =
    process_all send jobs token (process (send job) job token store)

unfoldable pub drain : (OutboxEvent → Result {0} Unit) → ℕ → Store → Store
drain send token store =
    let (jobs, locked) = claim token store in process_all send jobs token locked
