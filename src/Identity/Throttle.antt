-- ===== src/Identity/Throttle.antt =====
-- libs/identity/src/security/rate-limiter.service.ts, and the throttle statements of
-- libs/identity/src/persistence/postgres-identity.repository.ts.
pub mod Window
pub mod Lockout
pub mod Limiter
pub mod Keys
pub mod Frame
pub mod Refinement
use mathlib.Core.List.{head?}
use smart_platform_services.Common.{
  ℕ, suc, ◌+◌, ◌-◌, ◌/◌, max, Bool, ◌&&◌, Option, none, some, List, [], ◌∷◌, ◌++◌, Text, text, ltb,
  leb, if◌then◌else◌, ◌==◌, nat_Eq, text_Eq, find_where, exists_where, update_where, delete_where,
}
use smart_platform_services.Identity.Contracts.{failure, too_many_requests}
use smart_platform_services.Identity.Exec.{
  Exec, ok, err, pure, throw, gets, modify, transaction, ◌>>=◌, ◌>>◌,
}
use smart_platform_services.Identity.Runtime.{Runtime, ThrottlePolicy, ThrottleKey}
use smart_platform_services.Identity.Store.{Store, ThrottleBucket}

-- `WHERE scope = $1 AND key_hash = $2`
abbrev pub is_bucket : Text → ℕ → ThrottleBucket → Bool
is_bucket scope key_hash row = row.scope == scope && row.key_hash == key_hash

unfoldable pub find_throttle : Text → ℕ → Store → Option ThrottleBucket
find_throttle scope key_hash store = find_where (is_bucket scope key_hash) store.throttles

-- `INSERT … ON CONFLICT (scope, key_hash) DO NOTHING`
pub insert_bucket : Text → ℕ → ℕ → Store → Store
insert_bucket scope key_hash at store =
    if exists_where (is_bucket scope key_hash) store.throttles
    then store
    else record store { throttles = row ∷ store.throttles }
  where
    row : ThrottleBucket
    row = record {
      scope = scope;
      key_hash = key_hash;
      window_started_at = at;
      attempt_count = 0;
      blocked_until = none;
    }

-- The new values of the row: a window that is over starts again at one.
next_bucket : ThrottlePolicy → ℕ → ThrottleBucket → ThrottleBucket
next_bucket policy at current =
    let window_expired = leb (current.window_started_at + policy.window_ms) at in
    let next_count = if window_expired then 1 else suc current.attempt_count in
    record current {
      window_started_at = if window_expired then at else current.window_started_at;
      attempt_count = next_count;
      blocked_until = if leb policy.limit next_count then some (at + policy.block_ms) else none;
    }

abbrev or_fail {ℓ} : {A : Type ℓ} {S : Type ℓ} → Option A → Exec S A
or_fail none s = (err failure, s)
or_fail (some a) s = (ok a, s)

pub record_throttle_failure : Text → ℕ → ThrottlePolicy → ℕ → Exec Store ThrottleBucket
record_throttle_failure scope key_hash policy at = transaction (do
  modify (insert_bucket scope key_hash at)
  found ← gets (find_throttle scope key_hash)
  current ← or_fail found
  modify λ store. record store {
    throttles =
        update_where (is_bucket scope key_hash) (λ _. next_bucket policy at current)
          store.throttles;
  }
  updated ← gets (find_throttle scope key_hash)
  or_fail updated)

unfoldable pub clear_throttle : Text → ℕ → Store → Store
clear_throttle scope key_hash store = record store {
  throttles = delete_where (is_bucket scope key_hash) store.throttles;
}

-- `left` before `right` when it is later: the comparator of `sort`.
insert_descending : ℕ → List ℕ → List ℕ
insert_descending a [] = a ∷ []
insert_descending a (b ∷ bs) = if leb b a then a ∷ b ∷ bs else b ∷ insert_descending a bs

sort_descending : List ℕ → List ℕ
sort_descending [] = []
sort_descending (a ∷ rest) = insert_descending a (sort_descending rest)

-- `bucket?.blockedUntil` of each key, and of those the dates after `at`.
still_blocked : ℕ → Option ThrottleBucket → Option ℕ
still_blocked at none = none
still_blocked at (some bucket) = elim bucket.blocked_until [
  | none ↦ none
  | some until ↦ if ltb at until then some until else none
]

retry_after_seconds : ℕ → ℕ → ℕ
retry_after_seconds blocked at = max 1 ((blocked - at + 999) / 1000)

reject_blocked : ℕ → Option ℕ → Exec Store Unit
reject_blocked at none = pure tt
reject_blocked at (some blocked) = throw (too_many_requests (retry_after_seconds blocked at))

module _ (r : Runtime) where
  pub throttle_hash : Text → Text → ℕ
  throttle_hash scope value = r.hmac (scope ++ (text ":" ++ value))

  unfoldable pub bucket_of : Store → ThrottleKey → Option ThrottleBucket
  bucket_of store key = find_throttle key.scope (throttle_hash key.scope key.value) store

  blocked_dates : Store → ℕ → List ThrottleKey → List ℕ
  blocked_dates store at [] = []
  blocked_dates store at (key ∷ keys) =
      let rest = blocked_dates store at keys in
      elim (still_blocked at (bucket_of store key)) [ none ↦ rest | some until ↦ until ∷ rest ]

  pub assert_allowed : List ThrottleKey → ℕ → Exec Store Unit
  assert_allowed keys at store =
      reject_blocked at (head? (sort_descending (blocked_dates store at keys))) store

  pub record_failure : List ThrottleKey → ℕ → Exec Store Unit
  record_failure [] at = pure tt
  record_failure (key ∷ keys) at = do
    record_throttle_failure key.scope (throttle_hash key.scope key.value) key.policy at
    record_failure keys at

  unfoldable pub clear : List ThrottleKey → Store → Store
  clear [] store = store
  clear (key ∷ keys) store =
      clear keys (clear_throttle key.scope (throttle_hash key.scope key.value) store)
