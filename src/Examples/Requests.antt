-- ===== src/Examples/Requests.antt =====
-- Requests for a code: the theorems at a store with one account.
use smart_platform_services.Common.{
  ◌≡◌, refl, false, none, some, [], Text, text, text_Eq, find_where, exists_where,
}
use smart_platform_services.Identity.Contracts.{password_reset}
use smart_platform_services.Identity.Exec.{ok}
use smart_platform_services.Identity.Otp.{
  by_email, challenge_row, has_id, find_otp_challenge, latest_where,
}
use smart_platform_services.Identity.Otp.Replace.{is_event}
use smart_platform_services.Identity.Otp.Replacement.{queued}
use smart_platform_services.Identity.Store.{password_recovery_email}
use smart_platform_services.Identity.Throttle.{bucket_of, find_throttle}
use smart_platform_services.Identity.Throttle.Limiter.{longest_wait}
use smart_platform_services.Identity.Users.{find_by_email}
use smart_platform_services.Identity.Auth.{
  normalize_email, password_recovery_request_keys, is_eligible,
}
use smart_platform_services.Identity.Auth.Signup.{SignupDraws}
use smart_platform_services.Identity.Auth.Recovery.{
  RecoveryDraws, password_recovery_accepted, new_recovery, recovery_mail, request_password_recovery,
}
use smart_platform_services.Identity.Auth.Requests.{request_password_recovery_neutral}
use smart_platform_services.Examples.{empty_store, runtime}
use smart_platform_services.Examples.Platform.{auth, client}

abbrev signup : SignupDraws
signup = record { now = 100000; attempt_id = 41; outbox_id = 42 }

abbrev bob : Text
bob = text "bob@site.vn"

no_id : exists_where (has_id 41) empty_store.challenges ≡ false
unfolding exists_where
no_id = refl

no_event : exists_where (is_event 42) empty_store.outbox ≡ false
unfolding exists_where
no_event = refl

abbrev recovery : RecoveryDraws
recovery = record { now = 100000; challenge_id = 41; outbox_id = 42 }

abbrev ann_address : Text
ann_address = text "ann@site.vn"

free_to_recover :
    longest_wait runtime empty_store 100000
      (password_recovery_request_keys auth (normalize_email ann_address) client)
    ≡ 0
unfolding password_recovery_request_keys bucket_of find_throttle find_where
free_to_recover = refl

no_recovery :
    find_otp_challenge (by_email (normalize_email ann_address)) password_reset empty_store ≡ none
unfolding find_otp_challenge latest_where
no_recovery = refl

request_password_recovery_neutral_example :
    let (answer, after) =
      request_password_recovery runtime auth ann_address client recovery empty_store in
    let email = normalize_email ann_address in
    let mail =
      recovery_mail runtime auth (is_eligible (find_by_email email empty_store)) email recovery in
    (answer ≡ ok (password_recovery_accepted runtime auth 41 60))
    × (find_otp_challenge (by_email email) password_reset after
        ≡ some (challenge_row (new_recovery runtime auth email recovery) 100))
    × (after.outbox ≡ queued password_recovery_email mail 100 [])
request_password_recovery_neutral_example =
    request_password_recovery_neutral runtime auth ann_address client recovery empty_store
      free_to_recover no_recovery no_id no_event
