-- ===== src/Identity/Otp/Statements.antt =====
-- The statements on one-time codes as data, and histories of them.
use smart_platform_services.Common.{
  ℕ, ◌<◌, Bool, true, false, ◌&&◌, Option, none, some, List, [], ◌∷◌, ◌==◌, nat_Eq, text_Eq,
}
use smart_platform_services.Identity.Contracts.{purpose_Eq}
use smart_platform_services.Identity.Exec.{Result, ok, err}
use smart_platform_services.Identity.Store.{Store, IdentityUser}
use smart_platform_services.Identity.Otp.{
  NewChallenge, record_otp_failure, mark_otp_verified, consume_otp, cancel_otp,
}
use smart_platform_services.Identity.Otp.Replace.{
  replace_otp_challenge, OutboxInput, replace_password_recovery_challenge,
  replace_registration_challenge,
}
use smart_platform_services.Identity.Reset.{IssueToken, issue_password_reset_token}
use smart_platform_services.Identity.Users.Create.{CompleteEmailSignup, complete_email_signup}

-- The statements that write one-time codes: `exchange` buys a reset token with the code of a
-- recovery, `complete` an account with the code of a registration.
pub data Statement : Type 0 where
  replace : NewChallenge → Statement
  replace_recovery : NewChallenge → Option OutboxInput → Statement
  replace_registration : NewChallenge → Option ℕ → OutboxInput → Statement
  fail : ℕ → Statement
  verify redeem cancel : ℕ → ℕ → Statement
  exchange : IssueToken → Statement
  complete : ℕ → CompleteEmailSignup → Statement

unfoldable pub execute_at : Statement → Store → Store
execute_at (replace input) db = (replace_otp_challenge input db).1
execute_at (replace_recovery input outbox) db =
    (replace_password_recovery_challenge input outbox db).1
execute_at (replace_registration input superseded outbox) db =
    (replace_registration_challenge input superseded outbox db).1
execute_at (fail id) db = record_otp_failure id db
execute_at (verify id at) db = (mark_otp_verified id at db).1
execute_at (redeem id at) db = (consume_otp id at db).1
execute_at (cancel id at) db = cancel_otp id at db
execute_at (exchange input) db = (issue_password_reset_token input db).1
execute_at (complete user input) db = (complete_email_signup user input db).1

-- What is written when the statement has run, whether it threw or not, at the database time `now`.
unfoldable pub execute : ℕ × Statement → Store → Store
unfolding execute_at
execute (now, s) store = execute_at s (record store { clock = now })

unfoldable pub run : List (ℕ × Statement) → Store → Store
run [] store = store
run (s ∷ rest) store = run rest (execute s store)

-- `chk_otp_challenges_attempts`: `max_attempts` is at least 1.
abbrev pub HasBudget : ℕ × Statement → Type 0
HasBudget (now, replace input) = 0 < input.max_attempts
HasBudget (now, replace_recovery input outbox) = 0 < input.max_attempts
HasBudget (now, replace_registration input superseded outbox) = 0 < input.max_attempts
HasBudget _ = Unit

abbrev pub is_exchanged : Result Bool → Bool
is_exchanged (ok accepted) = accepted
is_exchanged (err e) = false

abbrev pub is_completed : Result (Option IdentityUser) → Bool
is_completed (ok (some user)) = true
is_completed (ok none) = false
is_completed (err e) = false

-- The statement accepts the code of the challenge `id` and uses it up.
unfoldable pub uses_up : ℕ → Statement → Store → Bool
uses_up id (redeem challenge at) db = challenge == id && (consume_otp challenge at db).0
uses_up id (exchange input) db =
    input.challenge_id == id && is_exchanged (issue_password_reset_token input db).0
uses_up id (complete user input) db =
    input.challenge_id == id && is_completed (complete_email_signup user input db).0
uses_up id other db = false

-- The statement accepts the code of the challenge `id`, to use it up or to mark it verified.
unfoldable pub accepts : ℕ → Statement → Store → Bool
accepts id (verify challenge at) db = challenge == id && (mark_otp_verified challenge at db).0
accepts id other db = uses_up id other db
