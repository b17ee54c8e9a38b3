-- ===== src/Identity/Otp.antt =====
-- The one-time-code statements of libs/identity/src/persistence/postgres-identity.repository.ts,
-- with the unique indexes of database/migrations/1700000001000-identity-auth-schema.ts and
-- 1700000002000-email-identity-auth.ts that they meet.
pub mod Invariant
pub mod History
pub mod SingleUse
pub mod Replacement
pub mod Replace
pub mod Statements
pub mod Retired
pub mod Exchanges
use smart_platform_services.Common.{
  ℕ, suc, ◌+◌, Bool, true, false, ◌&&◌, ◌||◌, not, Option, none, some, List, [], ◌∷◌, Text, ltb,
  leb, if◌then◌else◌, ◌==◌, Eq, nat_Eq, text_Eq, holds, is_none, exists_where, update_where,
  count_where,
}
use smart_platform_services.Identity.Contracts.{
  OtpPurpose, registration, password_reset, purpose_Eq, Error, unique_violation, Constraint,
  otp_challenges_pkey, uq_otp_challenges_active, uq_otp_challenges_active_email, outbox_events_pkey,
}
use smart_platform_services.Identity.Exec.{
  Exec, ok, err, pure, throw, require, modify, transaction, catching, ◌>>=◌, ◌>>◌,
}
use smart_platform_services.Identity.Store.{
  Store, OtpChallenge, OutboxEvent, OutboxEventType, registration_email, password_recovery_email,
}

pub data Recipient : Type 0 where
  by_email by_phone : Text → Recipient

abbrev pub is_active : OtpChallenge → Bool
is_active c = is_none c.consumed_at

-- `WHERE email = $1`, and with a parameter that may be NULL
abbrev pub sent_to : Recipient → OtpChallenge → Bool
sent_to (by_email e) c = holds c.email e
sent_to (by_phone p) c = holds c.phone p

abbrev pub holds_parameter : Option Text → Option Text → Bool
holds_parameter column none = false
holds_parameter column (some value) = holds column value

abbrev pub is_current : Recipient → OtpPurpose → OtpChallenge → Bool
is_current recipient purpose c = sent_to recipient c && c.purpose == purpose && is_active c

-- `ORDER BY created_at DESC LIMIT 1`
abbrev pub newer : OtpChallenge → Option OtpChallenge → Option OtpChallenge
newer c none = some c
newer c (some d) = if ltb c.created_at d.created_at then some d else some c

unfoldable pub latest_where : (OtpChallenge → Bool) → List OtpChallenge → Option OtpChallenge
latest_where p [] = none
latest_where p (c ∷ cs) = let rest = latest_where p cs in if p c then newer c rest else rest

unfoldable pub find_otp_challenge : Recipient → OtpPurpose → Store → Option OtpChallenge
find_otp_challenge recipient purpose store =
    latest_where (is_current recipient purpose) store.challenges

-- `INSERT INTO otp_challenges …`: `attempt_count` starts at 0 and `created_at` at `now()`.
pub record NewChallenge : Type 0 where
  pub id : ℕ
  pub email : Option Text
  pub phone : Option Text
  pub purpose : OtpPurpose
  pub code_hash : ℕ
  pub max_attempts : ℕ
  pub expires_at : ℕ

abbrev pub challenge_row : NewChallenge → ℕ → OtpChallenge
challenge_row input now = record {
  id = input.id;
  email = input.email;
  phone = input.phone;
  purpose = input.purpose;
  code_hash = input.code_hash;
  attempt_count = 0;
  max_attempts = input.max_attempts;
  expires_at = input.expires_at;
  consumed_at = none;
  created_at = now;
  verified_at = none;
}

abbrev pub has_id : ℕ → OtpChallenge → Bool
has_id id c = c.id == id

-- The rows of the partial unique indexes that a new row would meet.
abbrev pub meets_email : NewChallenge → OtpChallenge → Bool
meets_email input c =
    holds_parameter c.email input.email && c.purpose == input.purpose && is_active c

abbrev pub meets_phone : NewChallenge → OtpChallenge → Bool
meets_phone input c =
    holds_parameter c.phone input.phone && c.purpose == input.purpose && is_active c

pub insert_challenge : NewChallenge → Exec Store Unit
insert_challenge input store =
    if exists_where (has_id input.id) store.challenges
    then (err (unique_violation otp_challenges_pkey), store)
    else if exists_where (meets_phone input) store.challenges
    then (err (unique_violation uq_otp_challenges_active), store)
    else if exists_where (meets_email input) store.challenges
    then (err (unique_violation uq_otp_challenges_active_email), store)
    else (ok tt, record store { challenges = challenge_row input store.clock ∷ store.challenges })

-- `SET consumed_at = $2`
abbrev pub consume : ℕ → OtpChallenge → OtpChallenge
consume at c = record c { consumed_at = some at }

unfoldable pub consume_where : (OtpChallenge → Bool) → ℕ → Store → Store
consume_where p at store = record store {
  challenges = update_where p (consume at) store.challenges;
}

-- The UPDATE that consumes what `p` selects, and the INSERT.
pub consume_and_insert : (OtpChallenge → Bool) → NewChallenge → Exec Store Unit
consume_and_insert p input store = insert_challenge input (consume_where p store.clock store)

-- `attempt_count + 1`, and the challenge is cancelled when that reaches `max_attempts`.
abbrev pub fail_once : ℕ → OtpChallenge → OtpChallenge
fail_once now c = record c {
  attempt_count = suc c.attempt_count;
  consumed_at = if leb c.max_attempts (suc c.attempt_count) then some now else c.consumed_at;
}

pub record_otp_failure : ℕ → Store → Store
record_otp_failure id store = record store {
  challenges =
      update_where (λ c. has_id id c && is_active c) (fail_once store.clock) store.challenges;
}

-- `updatedExactlyOneRow`: the length of what `RETURNING id` gives.
abbrev pub updated_exactly_one_row : ℕ → Bool
updated_exactly_one_row rows = rows == 1

abbrev pub can_verify : ℕ → ℕ → OtpChallenge → Bool
can_verify id at c =
    has_id id c
    && is_active c
    && is_none c.verified_at
    && ltb at c.expires_at
    && ltb c.attempt_count c.max_attempts

unfoldable pub mark_otp_verified : ℕ → ℕ → Store → Bool × Store
mark_otp_verified id at store = (
  updated_exactly_one_row (count_where (can_verify id at) store.challenges),
  record store {
    challenges =
        update_where (can_verify id at) (λ c. record c { verified_at = some at }) store.challenges;
  },
)

abbrev pub can_consume : ℕ → ℕ → OtpChallenge → Bool
can_consume id at c =
    has_id id c && is_active c && ltb at c.expires_at && ltb c.attempt_count c.max_attempts

unfoldable pub consume_otp : ℕ → ℕ → Store → Bool × Store
consume_otp id at store = (
  updated_exactly_one_row (count_where (can_consume id at) store.challenges),
  consume_where (can_consume id at) at store,
)

unfoldable pub cancel_otp : ℕ → ℕ → Store → Store
cancel_otp id at store = consume_where (λ c. has_id id c && is_active c) at store
