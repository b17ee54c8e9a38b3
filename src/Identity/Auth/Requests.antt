-- ===== src/Identity/Auth/Requests.antt =====
-- Requests for a code are answered alike whether or not the address has an account.
use smart_platform_services.Common.{
  ℕ, ◌≡◌, refl, ap, ◌∙◌, Bool, true, false, Option, none, some, List, Text, nat_Eq, exists_where,
  Bool-cases, inl, inr,
}
use smart_platform_services.Identity.Contracts.{password_reset}
use smart_platform_services.Identity.Exec.{Result, ok, err}
use smart_platform_services.Identity.Otp.{by_email, challenge_row, has_id, find_otp_challenge}
use smart_platform_services.Identity.Otp.Replace.{is_event, replace_password_recovery_challenge}
use smart_platform_services.Identity.Otp.Replacement.{
  queued, IsNewEvent, replace_password_recovery_challenge_lem,
}
use smart_platform_services.Identity.Runtime.{
  Runtime, AuthConfig, SessionClientContext, ThrottleKey,
}
use smart_platform_services.Identity.Reset.{record_recovery_audit}
use smart_platform_services.Identity.Store.{
  Store, IdentityUser, OtpChallenge, password_recovery_email,
}
use smart_platform_services.Identity.Throttle.{record_failure}
use smart_platform_services.Identity.Throttle.Limiter.{longest_wait, assert_allowed_lem}
use smart_platform_services.Identity.Throttle.Frame.{record_failure-OnlyThrottles}
use smart_platform_services.Identity.Users.{find_one, find_by_email}
use smart_platform_services.Identity.Auth.{
  normalize_email, password_recovery_request_keys, is_eligible, audit_recovery,
}
use smart_platform_services.Identity.Auth.Signup.{
  SignupDraws, OtpAcceptedResponse, new_registration,
}
use smart_platform_services.Identity.Auth.Recovery.{
  RecoveryDraws, password_recovery_accepted, new_recovery, recovery_mail, audit_request,
  open_recovery, proceed_recovery, request_password_recovery,
}

module _ (r : Runtime) (a : AuthConfig) where
  -- The current code of an address after its request: only a free address has one.
  abbrev pub expected_code : Option IdentityUser → Text → SignupDraws → ℕ → Option OtpChallenge
  expected_code none email d now = some (challenge_row (new_registration r a email d) now)
  expected_code (some user) email d now = none

  failures-users :
      (keys : List ThrottleKey) (at : ℕ) (store : Store) (email : Text)
      → find_by_email email (record_failure r keys at store).1 ≡ find_by_email email store
  unfolding find_by_email find_one
  failures-users keys at store email =
      ap (λ (s : Store). find_by_email email s) (record_failure-OnlyThrottles r keys at store).1

  -- What `assertAvailable` lets through.
  abbrev pub when_available :
      Result {0} Unit → Result OtpAcceptedResponse → Result OtpAcceptedResponse
  when_available (ok u) answer = answer
  when_available (err e) answer = err e

  abbrev pub code_when_available : Result {0} Unit → Option OtpChallenge → Option OtpChallenge
  code_when_available (ok u) code = code
  code_when_available (err e) code = none

  audit_request-audits :
      (user : Option IdentityUser) (current : Option OtpChallenge) (email : Text)
      (context : SessionClientContext) (now : ℕ) (store : Store)
      → let after = audit_request r a user current email context now store in
        after ≡ record store { audits = after.audits }
  unfolding audit_request audit_recovery record_recovery_audit
  audit_request-audits user current email context now store = elim (Bool-cases (is_eligible user)) [
    | inl e ↦ rw e refl
    | inr e ↦ rw e refl
  ]

  recovery_mail-IsNewEvent :
      (eligible : Bool) (email : Text) (d : RecoveryDraws) (store : Store)
      → exists_where (is_event d.outbox_id) store.outbox ≡ false
      → IsNewEvent (recovery_mail r a eligible email d) store.outbox
  recovery_mail-IsNewEvent true email d store new = new
  recovery_mail-IsNewEvent false email d store new = tt

  -- A first request to recover a password that the limiter lets pass has one answer, and stores one
  -- challenge, whether or not the address has an account; mail is queued for an active account with a
  -- password, and for no other.
  pub request_password_recovery_neutral :
      (raw_email : Text) (context : SessionClientContext) (d : RecoveryDraws) (store : Store)
      → let email = normalize_email raw_email in
        longest_wait r store d.now (password_recovery_request_keys a email context) ≡ 0
        → find_otp_challenge (by_email email) password_reset store ≡ none
        → exists_where (has_id d.challenge_id) store.challenges ≡ false
        → exists_where (is_event d.outbox_id) store.outbox ≡ false
        → let (answer, after) = request_password_recovery r a raw_email context d store in
          let mail = recovery_mail r a (is_eligible (find_by_email email store)) email d in
          (answer
            ≡ ok (password_recovery_accepted r a d.challenge_id a.otp_resend_cooldown_seconds))
          × (find_otp_challenge (by_email email) password_reset after
              ≡ some (challenge_row (new_recovery r a email d) store.clock))
          × (after.outbox ≡ queued password_recovery_email mail store.clock store.outbox)
  unfolding request_password_recovery proceed_recovery open_recovery find_otp_challenge
  request_password_recovery_neutral raw_email context d store wait first fresh new =
      let email = normalize_email raw_email in
      let keys = password_recovery_request_keys a email context in
      let counted = record_failure-OnlyThrottles r keys d.now store in
      let t = (record_failure r keys d.now store).1 in
      let user = find_by_email email store in
      let mail = recovery_mail r a (is_eligible user) email d in
      let new_event : exists_where (is_event d.outbox_id) t.outbox ≡ false =
        ap (λ (s : Store). exists_where (is_event d.outbox_id) s.outbox) counted.1 ∙ new in
      let code : find_otp_challenge (by_email email) password_reset t ≡ none =
        ap (λ (s : Store). find_otp_challenge (by_email email) password_reset s) counted.1
        ∙ first in
      let stored =
        replace_password_recovery_challenge_lem email (new_recovery r a email d) mail t
          (record { email = refl; phone = refl; purpose_is = refl })
          (ap (λ (s : Store). exists_where (has_id d.challenge_id) s.challenges) counted.1 ∙ fresh)
          (recovery_mail-IsNewEvent (is_eligible user) email d t new_event) in
      let u = (replace_password_recovery_challenge (new_recovery r a email d) mail t).1 in
      let audited = audit_request-audits user none email context d.now u in
      rw
        (
          assert_allowed_lem r keys d.now store,
          wait,
          counted.0,
          failures-users keys d.now store email,
          code,
          stored.0,
        )
        (
          refl,
          ap (λ (s : Store). find_otp_challenge (by_email email) password_reset s) audited
              ∙ (stored.1
                  ∙ ap (λ (s : Store). some (challenge_row (new_recovery r a email d) s.clock))
                      counted.1),
          ap (λ (s : Store). s.outbox) audited
              ∙ (stored.2
                  ∙ ap (λ (s : Store). queued password_recovery_email mail s.clock s.outbox)
                      counted.1),
        )
