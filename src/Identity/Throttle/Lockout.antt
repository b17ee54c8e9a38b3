-- ===== src/Identity/Throttle/Lockout.antt =====
-- A run of failures of one key: when it is blocked, and until when.
use native.Mathlib.Nat.{add-zero}
use smart_platform_services.Common.{
  length, All, ap, ◌<◌, ℕ, suc, ◌+◌, ◌≡◌, refl, ◌∙◌, none, some, List, [], ◌∷◌, Text, leb, arith,
  if◌then◌else◌, nat_Eq, text_Eq,
}
use smart_platform_services.Identity.Store.{Store, ThrottleBucket}
use smart_platform_services.Identity.Runtime.{ThrottlePolicy}
use smart_platform_services.Identity.Throttle.{find_throttle, record_throttle_failure}
use smart_platform_services.Identity.Throttle.Window.{record_throttle_failure_lem}

-- A run of failures of one key, at the times of the list.
pub fail_at : Text → ℕ → ThrottlePolicy → List ℕ → Store → Store
fail_at scope key_hash policy [] store = store
fail_at scope key_hash policy (t ∷ ts) store =
    fail_at scope key_hash policy ts (record_throttle_failure scope key_hash policy t store).1

abbrev pub last : ℕ → List ℕ → ℕ
last t [] = t
last t (u ∷ us) = last u us

-- The times are inside the window that opened at `start`.
abbrev pub Within : ℕ → ThrottlePolicy → List ℕ → Type 0
Within start policy ts = All (λ t. t < start + policy.window_ms) ts

-- `n` failures counted, the last one at `at`.
abbrev pub counted_to : Text → ℕ → ThrottlePolicy → ℕ → ℕ → ℕ → ThrottleBucket
counted_to scope key_hash policy start n at = record {
  scope = scope;
  key_hash = key_hash;
  window_started_at = start;
  attempt_count = n;
  blocked_until = if leb policy.limit n then some (at + policy.block_ms) else none;
}

fail_at_open :
    (scope : Text) (key_hash : ℕ) (policy : ThrottlePolicy) (start n at : ℕ) (ts : List ℕ)
    (store : Store)
    → find_throttle scope key_hash store ≡ some (counted_to scope key_hash policy start n at)
    → Within start policy ts
    → find_throttle scope key_hash (fail_at scope key_hash policy ts store)
      ≡ some (counted_to scope key_hash policy start (n + length ts) (last at ts))
unfolding fail_at
fail_at_open scope key_hash policy start n at [] store e w = rw add-zero e
fail_at_open scope key_hash policy start n at (t ∷ ts) store e w =
    let step = record_throttle_failure_lem scope key_hash policy t store in
    fail_at_open scope key_hash policy start (suc n) t ts
      (record_throttle_failure scope key_hash policy t store).1 (step.1 ∙ rw e (ground arith)) w.1
    ∙ ap (λ k. some (counted_to scope key_hash policy start k (last t ts))) (omega arith)

-- Failures that fall in one window are all counted, and the key is blocked from the failure that
-- brings the count to the limit on, `block_ms` from the last one.
pub fail_at_lem :
    (scope : Text) (key_hash : ℕ) (policy : ThrottlePolicy) (t : ℕ) (ts : List ℕ) (store : Store)
    → find_throttle scope key_hash store ≡ none
    → Within t policy ts
    → find_throttle scope key_hash (fail_at scope key_hash policy (t ∷ ts) store)
      ≡ some (counted_to scope key_hash policy t (length (t ∷ ts)) (last t ts))
unfolding fail_at
fail_at_lem scope key_hash policy t ts store e w =
    let step = record_throttle_failure_lem scope key_hash policy t store in
    fail_at_open scope key_hash policy t 1 t ts
      (record_throttle_failure scope key_hash policy t store).1 (step.1 ∙ rw e refl) w
    ∙ ap (λ k. some (counted_to scope key_hash policy t k (last t ts))) (omega arith)
