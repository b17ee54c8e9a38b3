-- ===== src/Examples/Throttles.antt =====
-- The rate limiter: tests, and the theorems at a store with no bucket.
use smart_platform_services.Common.{
  ℕ, ◌≡◌, refl, none, [], ◌∷◌, text, arith, nat_Eq, text_Eq, find_where, List,
}
use smart_platform_services.Identity.Contracts.{too_many_requests}
use smart_platform_services.Identity.Exec.{err}
use smart_platform_services.Identity.Runtime.{ThrottlePolicy, ThrottleKey}
use smart_platform_services.Identity.Throttle.{
  throttle_hash, bucket_of, find_throttle, assert_allowed,
}
use smart_platform_services.Identity.Throttle.Lockout.{fail_at, Within}
use smart_platform_services.Identity.Throttle.Limiter.{fail_at_lockout}
use smart_platform_services.Identity.Throttle.Refinement.{
  LimiterCall, ask, fail, forgive, buckets, run, replay, run_refines,
}
use smart_platform_services.Examples.{runtime, empty_store}

abbrev policy : ThrottlePolicy
policy = record { limit = 3; window_ms = 1000; block_ms = 5000 }

abbrev email_key : ThrottleKey
email_key = record { scope = text "login_email"; value = text "a@b.vn"; policy = policy }

abbrev device_key : ThrottleKey
device_key = record { scope = text "login_device"; value = text "d"; policy = policy }

abbrev hash : ℕ
hash = throttle_hash runtime (text "login_email") (text "a@b.vn")

no_key_bucket : bucket_of runtime empty_store email_key ≡ none
unfolding bucket_of find_throttle find_where
no_key_bucket = refl

in_window : Within 200 policy (300 ∷ 400 ∷ [])
in_window = (omega arith, (omega arith, tt))

fail_at_lockout_example :
    let after = fail_at (text "login_email") hash policy (200 ∷ 300 ∷ 400 ∷ []) empty_store in
    (assert_allowed runtime (email_key ∷ []) 1000 after).0 ≡ err (too_many_requests 5)
fail_at_lockout_example =
    fail_at_lockout runtime email_key 200 (300 ∷ 400 ∷ []) 1000 empty_store no_key_bucket in_window

-- Three failures, a refusal, a success of another device, and a question again.
abbrev limiter_calls : List LimiterCall
limiter_calls =
    fail (email_key ∷ []) 200
    ∷ fail (email_key ∷ device_key ∷ []) 300
    ∷ fail (email_key ∷ []) 400
    ∷ ask (email_key ∷ []) 500
    ∷ forgive (email_key ∷ [])
    ∷ ask (email_key ∷ device_key ∷ []) 600
    ∷ []

run_refines_example :
    run runtime limiter_calls empty_store ≡ replay runtime limiter_calls (buckets empty_store)
run_refines_example = run_refines runtime limiter_calls empty_store
