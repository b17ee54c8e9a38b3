-- ===== src/Identity/Throttle/Limiter.antt =====
-- The limiter over several keys: who is turned away, for how long, and when a lock ends.
use mathlib.Core.List.{head?}
use smart_platform_services.Common.{
  ℕ, ◌+◌, ◌-◌, ◌/◌, ◌<◌, ◌≡◌, refl, max, Option, none, some, List, [], ◌∷◌, arith, ltb, leb,
  if◌then◌else◌, nat_Eq, text_Eq, nat_eq, All, length, ◌&&◌, find_where-delete_where_self,
  find_where-delete_where-none, Option-cases, Bool-cases, inl, inr,
}
use smart_platform_services.Identity.Contracts.{too_many_requests}
use smart_platform_services.Identity.Exec.{ok, err}
use smart_platform_services.Identity.Store.{Store, ThrottleBucket}
use smart_platform_services.Identity.Runtime.{Runtime, ThrottleKey}
use smart_platform_services.Identity.Throttle.Lockout.{Within, last, fail_at, fail_at_lem}
use smart_platform_services.Identity.Throttle.{
  throttle_hash, is_bucket, find_throttle, clear_throttle, bucket_of, still_blocked, blocked_dates,
  insert_descending, sort_descending, retry_after_seconds, reject_blocked, assert_allowed, clear,
}

-- How long a bucket is still blocked at `at`, and the longest of the keys' waits.
abbrev pub wait_of : ℕ → Option ThrottleBucket → ℕ
wait_of at none = 0
wait_of at (some bucket) = elim bucket.blocked_until [ none ↦ 0 | some until ↦ until - at ]

abbrev pub longest_wait : Runtime → Store → ℕ → List ThrottleKey → ℕ
longest_wait r store at [] = 0
longest_wait r store at (key ∷ keys) =
    max (wait_of at (bucket_of r store key)) (longest_wait r store at keys)

-- The greatest date of a list, as a wait from `at`.
abbrev greatest : ℕ → ℕ → Option ℕ
greatest at wait = if nat_eq wait 0 then none else some (at + wait)

head-insert_descending :
    (at a : ℕ) (bs : List ℕ) (wait : ℕ)
    → at < a
    → head? bs ≡ greatest at wait
    → head? (insert_descending a bs) ≡ greatest at (max (a - at) wait)
unfolding insert_descending
head-insert_descending at a [] wait h e = ground arith
head-insert_descending at a (b ∷ bs) wait h e = ground arith

abbrev with_date : Option ℕ → List ℕ → List ℕ
with_date none dates = dates
with_date (some until) dates = until ∷ dates

head-with_date :
    (at : ℕ) (bucket : Option ThrottleBucket) (dates : List ℕ) (wait : ℕ)
    → head? (sort_descending dates) ≡ greatest at wait
    → head? (sort_descending (with_date (still_blocked at bucket) dates))
      ≡ greatest at (max (wait_of at bucket) wait)
unfolding sort_descending still_blocked
head-with_date at none dates wait e = ground arith
head-with_date at (some bucket) dates wait e = elim (Option-cases bucket.blocked_until) [
  | inl n ↦ rw n (ground arith)
  | inr (until, u) ↦ elim (Bool-cases (ltb at until)) [
    | inl l ↦
        rw (u, l) (head-insert_descending at until (sort_descending dates) wait (ground arith) e)
    | inr l ↦ rw (u, l) (ground arith)
  ]
]

head-sort_descending :
    (r : Runtime) (store : Store) (at : ℕ) (keys : List ThrottleKey)
    → head? (sort_descending (blocked_dates r store at keys))
      ≡ greatest at (longest_wait r store at keys)
unfolding blocked_dates
head-sort_descending r store at [] = unfold sort_descending in refl
head-sort_descending r store at (key ∷ keys) = ground (
  arith,
  head-with_date at (bucket_of r store key) (blocked_dates r store at keys)
      (longest_wait r store at keys) (head-sort_descending r store at keys),
)

-- The limiter lets a request pass exactly when no key of it is blocked, and otherwise asks for the
-- longest wait of its keys, in whole seconds rounded up; it changes nothing.
pub assert_allowed_lem :
    (r : Runtime) (keys : List ThrottleKey) (at : ℕ) (store : Store)
    → let wait = longest_wait r store at keys in
      assert_allowed r keys at store
      ≡ ((if nat_eq wait 0 then ok tt else err (too_many_requests ((wait + 999) / 1000))), store)
unfolding assert_allowed reject_blocked retry_after_seconds
assert_allowed_lem r keys at store = rw (head-sort_descending r store at keys) (ground arith)

-- A run of failures of one key in one window: the limiter turns the key away exactly when the run
-- has reached the limit and the lock from the last failure still runs, and says how much is left.
pub fail_at_lockout :
    (r : Runtime) (key : ThrottleKey) (t : ℕ) (ts : List ℕ) (now : ℕ) (store : Store)
    → bucket_of r store key ≡ none
    → Within t key.policy ts
    → let after =
        fail_at key.scope (throttle_hash r key.scope key.value) key.policy (t ∷ ts) store in
      let until = last t ts + key.policy.block_ms in
      (assert_allowed r (key ∷ []) now after).0 ≡ (
        if leb key.policy.limit (length (t ∷ ts)) && ltb now until
        then err (too_many_requests ((until - now + 999) / 1000))
        else ok tt)
unfolding bucket_of
fail_at_lockout r key t ts now store e w =
    let hash = throttle_hash r key.scope key.value in
    rw (assert_allowed_lem r (key ∷ []) now (fail_at key.scope hash key.policy (t ∷ ts) store))
      (rw (fail_at_lem key.scope hash key.policy t ts store e w) (ground arith))

clear-none :
    (r : Runtime) (key : ThrottleKey) (keys : List ThrottleKey) (store : Store)
    → bucket_of r store key ≡ none
    → bucket_of r (clear r keys store) key ≡ none
unfolding bucket_of clear clear_throttle find_throttle
clear-none r key [] store e = e
clear-none r key (k ∷ keys) store e =
    clear-none r key keys (clear_throttle k.scope (throttle_hash r k.scope k.value) store) (
      find_where-delete_where-none (is_bucket key.scope (throttle_hash r key.scope key.value))
        (is_bucket k.scope (throttle_hash r k.scope k.value)) store.throttles e)

clear_self :
    (r : Runtime) (key : ThrottleKey) (store : Store)
    → bucket_of r (clear_throttle key.scope (throttle_hash r key.scope key.value) store) key ≡ none
unfolding bucket_of clear_throttle find_throttle
clear_self r key store =
    find_where-delete_where_self (is_bucket key.scope (throttle_hash r key.scope key.value))
      store.throttles

-- The keys of the list are all free of a bucket.
abbrev pub Unbucketed : Runtime → Store → List ThrottleKey → Type 0
Unbucketed r store keys = All (λ key. bucket_of r store key ≡ none) keys

clear-Unbucketed :
    (r : Runtime) (keys : List ThrottleKey) (store : Store) → Unbucketed r (clear r keys store) keys
unfolding clear
clear-Unbucketed r [] store = tt
clear-Unbucketed r (key ∷ keys) store =
    let after = clear_throttle key.scope (throttle_hash r key.scope key.value) store in
    (clear-none r key keys after (clear_self r key store), clear-Unbucketed r keys after)

longest_wait-Unbucketed :
    (r : Runtime) (keys : List ThrottleKey) (at : ℕ) (store : Store)
    → Unbucketed r store keys
    → longest_wait r store at keys ≡ 0
longest_wait-Unbucketed r [] at store h = refl
longest_wait-Unbucketed r (key ∷ keys) at store h =
    rw (h.0, longest_wait-Unbucketed r keys at store h.1) refl

-- After a success has cleared its keys, the limiter lets them pass at any time.
pub assert_allowed-clear :
    (r : Runtime) (keys : List ThrottleKey) (at : ℕ) (store : Store)
    → assert_allowed r keys at (clear r keys store) ≡ (ok tt, clear r keys store)
assert_allowed-clear r keys at store =
    rw
      (
        assert_allowed_lem r keys at (clear r keys store),
        longest_wait-Unbucketed r keys at (clear r keys store) (clear-Unbucketed r keys store),
      )
      refl
