-- ===== src/Identity/Throttle/Frame.antt =====
-- What the rate limiter leaves alone: every table but its own.
use smart_platform_services.Common.{
  ℕ, ◌≡◌, refl, ap, ◌∙◌, List, [], ◌∷◌, Text, exists_where, Bool-cases, inl, inr,
}
use smart_platform_services.Identity.Exec.{ok}
use smart_platform_services.Identity.Runtime.{Runtime, ThrottlePolicy, ThrottleKey}
use smart_platform_services.Identity.Store.{Store}
use smart_platform_services.Identity.Throttle.{
  clear, clear_throttle, throttle_hash, is_bucket, find_throttle, insert_bucket,
  record_throttle_failure, record_failure,
}
use smart_platform_services.Identity.Throttle.Window.{
  record_throttle_failure-eq, record_throttle_failure_lem, written, after_failure,
}

-- `after` is `store` but for the buckets.
abbrev pub OnlyThrottles : Store → Store → Type 0
OnlyThrottles store after = after ≡ record store { throttles = after.throttles }

insert_bucket-OnlyThrottles :
    (scope : Text) (key_hash at : ℕ) (store : Store)
    → OnlyThrottles store (insert_bucket scope key_hash at store)
unfolding insert_bucket
insert_bucket-OnlyThrottles scope key_hash at store =
    elim (Bool-cases (exists_where (is_bucket scope key_hash) store.throttles)) [
      | inl e ↦ rw e refl
      | inr e ↦ rw e refl
    ]

record_throttle_failure-OnlyThrottles :
    (scope : Text) (key_hash : ℕ) (policy : ThrottlePolicy) (at : ℕ) (store : Store)
    → OnlyThrottles store (record_throttle_failure scope key_hash policy at store).1
record_throttle_failure-OnlyThrottles scope key_hash policy at store =
    let bucket = after_failure (find_throttle scope key_hash store) scope key_hash policy at in
    let rows = (written scope key_hash bucket at store).throttles in
    rw (record_throttle_failure-eq scope key_hash policy at store) (
      ap (λ (s : Store). record s { throttles = rows })
        (insert_bucket-OnlyThrottles scope key_hash at store))

OnlyThrottles-trans : (s t u : Store) → OnlyThrottles s t → OnlyThrottles t u → OnlyThrottles s u
OnlyThrottles-trans s t u h k = k ∙ ap (λ (x : Store). record x { throttles = u.throttles }) h

-- Recording failures never throws, whatever the keys, and writes no other table.
pub record_failure-OnlyThrottles :
    (r : Runtime) (keys : List ThrottleKey) (at : ℕ) (store : Store)
    → ((record_failure r keys at store).0 ≡ ok tt)
      × OnlyThrottles store (record_failure r keys at store).1
unfolding record_failure
record_failure-OnlyThrottles r [] at store = (refl, refl)
record_failure-OnlyThrottles r (key ∷ keys) at store =
    let hash = throttle_hash r key.scope key.value in
    let next = (record_throttle_failure key.scope hash key.policy at store).1 in
    let rest = record_failure-OnlyThrottles r keys at next in
    rw (record_throttle_failure_lem key.scope hash key.policy at store).0 (
      rest.0,
      OnlyThrottles-trans store next (record_failure r keys at next).1
          (record_throttle_failure-OnlyThrottles key.scope hash key.policy at store) rest.1,
    )

pub clear-users :
    (r : Runtime) (keys : List ThrottleKey) (store : Store)
    → (clear r keys store).users ≡ store.users
unfolding clear clear_throttle
clear-users r [] store = refl
clear-users r (key ∷ keys) store =
    clear-users r keys (clear_throttle key.scope (throttle_hash r key.scope key.value) store)
