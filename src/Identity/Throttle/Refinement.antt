-- ===== src/Identity/Throttle/Refinement.antt =====
-- The limiter as a client sees it: any calls on the table of buckets are answered as the same calls on a
-- function from keys to buckets.
use mathlib.Core.Path.{fun_ext}
use smart_platform_services.Common.{
  ℕ, ◌+◌, ◌/◌, ◌≡◌, refl, ◌∙◌, ap, inl, inr, max, true, ◌&&◌, Option, none, some, List, [], ◌∷◌,
  Text, arith, if◌then◌else◌, ◌==◌, nat_Eq, text_Eq, nat_eq, nat_eq_iff, Bool-cases,
  find_where-delete_where_self, find_where-delete_where_other,
}
use smart_platform_services.Identity.Contracts.{too_many_requests}
use smart_platform_services.Identity.Exec.{Result, ok, err}
use smart_platform_services.Identity.Store.{Store, ThrottleBucket}
use smart_platform_services.Identity.Runtime.{Runtime, ThrottlePolicy, ThrottleKey}
use smart_platform_services.Identity.Throttle.{
  is_bucket, find_throttle, record_throttle_failure, clear_throttle, bucket_of, throttle_hash,
  assert_allowed, record_failure, clear,
}
use smart_platform_services.Identity.Throttle.Window.{
  after_failure, is_bucket_other, record_throttle_failure_lem,
}
use smart_platform_services.Identity.Throttle.Limiter.{wait_of, longest_wait, assert_allowed_lem}

-- The abstract state: the bucket of each scope and digest.
abbrev pub Buckets : Type 0
Buckets = Text → ℕ → Option ThrottleBucket

abbrev pub buckets : Store → Buckets
buckets store scope hash = find_throttle scope hash store

-- A function, changed at one key.
abbrev pub update : Buckets → Text → ℕ → Option ThrottleBucket → Buckets
update f scope hash bucket other h = if other == scope && h == hash then bucket else f other h

same_key :
    (other scope : Text) (h hash : ℕ)
    → (other == scope && h == hash) ≡ true
    → (other ≡ scope) × (h ≡ hash)
same_key other scope h hash e =
    ((text_Eq.decides other scope).0 (ground arith), (nat_eq_iff h hash).0 (ground arith))

find_throttle-clear_throttle :
    (scope : Text) (hash : ℕ) (store : Store) (other : Text) (h : ℕ)
    → find_throttle other h (clear_throttle scope hash store)
      ≡ update (buckets store) scope hash none other h
unfolding find_throttle clear_throttle
find_throttle-clear_throttle scope hash store other h =
    elim (Bool-cases (other == scope && h == hash)) [
      | inl e ↦
          let (s, k) = same_key other scope h hash e in
          rw (e, s, k) (find_where-delete_where_self (is_bucket scope hash) store.throttles)
      | inr e ↦ rw e (
          find_where-delete_where_other (is_bucket other h) (is_bucket scope hash) store.throttles
            (λ x k. is_bucket_other other h scope hash x e k))
    ]

buckets-clear_throttle :
    (scope : Text) (hash : ℕ) (store : Store)
    → buckets (clear_throttle scope hash store) ≡ update (buckets store) scope hash none
buckets-clear_throttle scope hash store =
    fun_ext λ other. fun_ext λ h. find_throttle-clear_throttle scope hash store other h

find_throttle-record_throttle_failure :
    (scope : Text) (hash : ℕ) (policy : ThrottlePolicy) (at : ℕ) (store : Store) (other : Text)
    (h : ℕ)
    → find_throttle other h (record_throttle_failure scope hash policy at store).1
      ≡ update
          (buckets store)
          scope
          hash
          (some (after_failure (find_throttle scope hash store) scope hash policy at))
          other
          h
find_throttle-record_throttle_failure scope hash policy at store other h =
    let step = record_throttle_failure_lem scope hash policy at store in
    elim (Bool-cases (other == scope && h == hash)) [
      | inl e ↦ let (s, k) = same_key other scope h hash e in rw (e, s, k) step.1
      | inr e ↦ rw e (step.2 other h e)
    ]

-- What the limiter answers to a request whose keys ask for a wait.
abbrev pub verdict : ℕ → Result {0} Unit
verdict wait = if nat_eq wait 0 then ok tt else err (too_many_requests ((wait + 999) / 1000))

pub data LimiterCall : Type 0 where
  ask : List ThrottleKey → ℕ → LimiterCall
  fail : List ThrottleKey → ℕ → LimiterCall
  forgive : List ThrottleKey → LimiterCall

module _ (r : Runtime) where
  abbrev pub hash_of : ThrottleKey → ℕ
  hash_of key = throttle_hash r key.scope key.value

  -- The limiter's calls on the abstract state.
  unfoldable pub fail_keys : List ThrottleKey → ℕ → Buckets → Buckets
  fail_keys [] at f = f
  fail_keys (key ∷ keys) at f = fail_keys keys at (
      update f key.scope (hash_of key)
        (some (after_failure (f key.scope (hash_of key)) key.scope (hash_of key) key.policy at)))

  unfoldable pub clear_keys : List ThrottleKey → Buckets → Buckets
  clear_keys [] f = f
  clear_keys (key ∷ keys) f = clear_keys keys (update f key.scope (hash_of key) none)

  abbrev pub wait_for : Buckets → ℕ → List ThrottleKey → ℕ
  wait_for f at [] = 0
  wait_for f at (key ∷ keys) = max (wait_of at (f key.scope (hash_of key))) (wait_for f at keys)

  -- The answers of some calls, on the table.
  unfoldable pub run : List LimiterCall → Store → List (Result {0} Unit)
  run [] store = []
  run (ask keys at ∷ calls) store =
      let (answer, after) = assert_allowed r keys at store in answer ∷ run calls after
  run (fail keys at ∷ calls) store =
      let (answer, after) = record_failure r keys at store in answer ∷ run calls after
  run (forgive keys ∷ calls) store = ok tt ∷ run calls (clear r keys store)

  -- The answers of the same calls, on the function.
  unfoldable pub replay : List LimiterCall → Buckets → List (Result {0} Unit)
  replay [] f = []
  replay (ask keys at ∷ calls) f = verdict (wait_for f at keys) ∷ replay calls f
  replay (fail keys at ∷ calls) f = ok tt ∷ replay calls (fail_keys keys at f)
  replay (forgive keys ∷ calls) f = ok tt ∷ replay calls (clear_keys keys f)

  buckets-record_failure :
      (keys : List ThrottleKey) (at : ℕ) (store : Store)
      → ((record_failure r keys at store).0 ≡ ok tt)
        × (buckets (record_failure r keys at store).1 ≡ fail_keys keys at (buckets store))
  unfolding record_failure fail_keys
  buckets-record_failure [] at store = (refl, refl)
  buckets-record_failure (key ∷ keys) at store =
      let after = (record_throttle_failure key.scope (hash_of key) key.policy at store).1 in
      let e : buckets after
          ≡ update (buckets store) key.scope (hash_of key) (
              some (
                after_failure (find_throttle key.scope (hash_of key) store) key.scope (hash_of key)
                  key.policy at)) =
        fun_ext λ other. fun_ext λ h.
          find_throttle-record_throttle_failure key.scope (hash_of key) key.policy at store other
            h in
      let rest = buckets-record_failure keys at after in
      let answered = (record_throttle_failure_lem key.scope (hash_of key) key.policy at store).0 in
      (rw answered rest.0, rw answered (rest.1 ∙ ap (fail_keys keys at) e))

  buckets-clear :
      (keys : List ThrottleKey) (store : Store)
      → buckets (clear r keys store) ≡ clear_keys keys (buckets store)
  unfolding clear clear_keys
  buckets-clear [] store = refl
  buckets-clear (key ∷ keys) store =
      buckets-clear keys (clear_throttle key.scope (hash_of key) store)
      ∙ ap (clear_keys keys) (buckets-clear_throttle key.scope (hash_of key) store)

  longest_wait-buckets :
      (store : Store) (at : ℕ) (keys : List ThrottleKey)
      → longest_wait r store at keys ≡ wait_for (buckets store) at keys
  unfolding bucket_of
  longest_wait-buckets store at [] = refl
  longest_wait-buckets store at (key ∷ keys) =
      ap (max (wait_of at (find_throttle key.scope (hash_of key) store)))
        (longest_wait-buckets store at keys)

  -- The limiter's answers to any calls, in any order and at any times, are those of a function from keys to
  -- buckets, which each failure and each success changes at its keys alone.
  pub run_refines :
      (calls : List LimiterCall) (store : Store) → run calls store ≡ replay calls (buckets store)
  unfolding run replay
  run_refines [] store = refl
  run_refines (ask keys at ∷ calls) store =
      rw
        (
          assert_allowed_lem r keys at store,
          longest_wait-buckets store at keys,
          run_refines calls store,
        )
        refl
  run_refines (fail keys at ∷ calls) store =
      let step = buckets-record_failure keys at store in
      rw (step.0, run_refines calls (record_failure r keys at store).1, step.1) refl
  run_refines (forgive keys ∷ calls) store =
      rw (run_refines calls (clear r keys store), buckets-clear keys store) refl
