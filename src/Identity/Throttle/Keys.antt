-- ===== src/Identity/Throttle/Keys.antt =====
-- A failure of several keys: each key is counted once in its own bucket.
use smart_platform_services.Common.{
  ℕ, ◌≡◌, refl, Option, some, List, [], ◌∷◌, Text, arith, nat_Eq, text_Eq, ◌∙◌, sym, subst, ap,
  same_text_iff, All,
}
use smart_platform_services.Identity.Exec.{ok, Result}
use smart_platform_services.Identity.Store.{Store, ThrottleBucket}
use smart_platform_services.Identity.Runtime.{Runtime, ThrottleKey}
use smart_platform_services.Identity.Throttle.Window.{
  OtherKey, after_failure, record_throttle_failure_lem,
}
use smart_platform_services.Identity.Throttle.{
  throttle_hash, record_throttle_failure, bucket_of, record_failure,
}

-- No key of the list is kept in the bucket of `key`: another scope, or another digest.
abbrev pub Apart : Runtime → ThrottleKey → List ThrottleKey → Type 0
Apart r key keys =
    All
      (λ k.
        OtherKey key.scope (throttle_hash r key.scope key.value) k.scope
          (throttle_hash r k.scope k.value))
      keys

OtherKey-sym : (a : Text) (i : ℕ) (b : Text) (j : ℕ) → OtherKey a i b j → OtherKey b j a i
OtherKey-sym a i b j h = ground (arith, same_text_iff a b, same_text_iff b a)

abbrev pub PairwiseApart : Runtime → List ThrottleKey → Type 0
PairwiseApart r [] = Unit
PairwiseApart r (key ∷ keys) = Apart r key keys × PairwiseApart r keys

record_failure-Apart :
    (r : Runtime) (key : ThrottleKey) (keys : List ThrottleKey) (at : ℕ) (store : Store)
    → Apart r key keys
    → bucket_of r (record_failure r keys at store).1 key ≡ bucket_of r store key
unfolding record_failure bucket_of
record_failure-Apart r key [] at store h = refl
record_failure-Apart r key (k ∷ keys) at store h =
    let hash = throttle_hash r k.scope k.value in
    let step = record_throttle_failure_lem k.scope hash k.policy at store in
    let after = (record_throttle_failure k.scope hash k.policy at store).1 in
    let rest = record_failure-Apart r key keys at after h.1 in
    ground (arith, step.0, step.2 key.scope (throttle_hash r key.scope key.value) h.0, rest)

-- The keys' buckets are those of `before`.
abbrev AreAt : Runtime → Store → (ThrottleKey → Option ThrottleBucket) → List ThrottleKey → Type 0
AreAt r store before keys = All (λ key. bucket_of r store key ≡ before key) keys

-- Each key's bucket counts one failure more than `before`.
abbrev pub CountedOnce :
    Runtime → (ThrottleKey → Option ThrottleBucket) → ℕ → Store → List ThrottleKey → Type 0
CountedOnce r before at after keys =
    All
      (λ key.
        bucket_of r after key
        ≡ some (
            after_failure (before key) key.scope (throttle_hash r key.scope key.value) key.policy
              at))
      keys

AreAt-self :
    (r : Runtime) (store : Store) (keys : List ThrottleKey) → AreAt r store (bucket_of r store) keys
AreAt-self r store [] = tt
AreAt-self r store (key ∷ keys) = (refl, AreAt-self r store keys)

record_throttle_failure-AreAt :
    (r : Runtime) (key : ThrottleKey) (at : ℕ) (store : Store)
    (before : ThrottleKey → Option ThrottleBucket) (keys : List ThrottleKey)
    → Apart r key keys
    → AreAt r store before keys
    → AreAt r
        (record_throttle_failure key.scope
          (throttle_hash r key.scope key.value)
          key.policy
          at
          store).1
        before
        keys
unfolding bucket_of
record_throttle_failure-AreAt r key at store before [] h e = tt
record_throttle_failure-AreAt r key at store before (k ∷ keys) h e =
    let hash = throttle_hash r key.scope key.value in
    let step = record_throttle_failure_lem key.scope hash key.policy at store in
    let apart = OtherKey-sym key.scope hash k.scope (throttle_hash r k.scope k.value) h.0 in
    (
      step.2 k.scope (throttle_hash r k.scope k.value) apart ∙ e.0,
      record_throttle_failure-AreAt r key at store before keys h.1 e.1,
    )

record_failure-cons :
    (r : Runtime) (key : ThrottleKey) (keys : List ThrottleKey) (at : ℕ) (store : Store)
    → record_failure r (key ∷ keys) at store
      ≡ record_failure r keys at
          (record_throttle_failure key.scope
            (throttle_hash r key.scope key.value)
            key.policy
            at
            store).1
unfolding record_failure
record_failure-cons r key keys at store = ground (
  arith,
  (record_throttle_failure_lem key.scope (throttle_hash r key.scope key.value) key.policy at
      store).0,
)

record_failure_from :
    (r : Runtime) (keys : List ThrottleKey) (at : ℕ) (store : Store)
    (before : ThrottleKey → Option ThrottleBucket)
    → PairwiseApart r keys
    → AreAt r store before keys
    → ((record_failure r keys at store).0 ≡ ok tt)
      × CountedOnce r before at (record_failure r keys at store).1 keys
unfolding record_failure
record_failure_from r [] at store before h e = (refl, tt)
record_failure_from r (key ∷ keys) at store before h e =
    let hash = throttle_hash r key.scope key.value in
    let step = record_throttle_failure_lem key.scope hash key.policy at store in
    let after = (record_throttle_failure key.scope hash key.policy at store).1 in
    let kept = record_throttle_failure-AreAt r key at store before keys h.0 e.1 in
    let rest = record_failure_from r keys at after before h.1 kept in
    let own : bucket_of r after key
        ≡ some (after_failure (before key) key.scope hash key.policy at) =
      unfold bucket_of in
      (step.1 ∙ ap (λ b. some (after_failure b key.scope hash key.policy at)) e.0) in
    subst (λ (s : Result Unit × Store). (s.0 ≡ ok tt) × CountedOnce r before at s.1 (key ∷ keys))
      (sym (record_failure-cons r key keys at store))
      (rest.0, (record_failure-Apart r key keys at after h.0 ∙ own, rest.1))

-- A failure is counted once in the bucket of each key, when the keys are kept in distinct buckets;
-- it never throws.
pub record_failure_lem :
    (r : Runtime) (keys : List ThrottleKey) (at : ℕ) (store : Store)
    → PairwiseApart r keys
    → ((record_failure r keys at store).0 ≡ ok tt)
      × CountedOnce r (bucket_of r store) at (record_failure r keys at store).1 keys
record_failure_lem r keys at store h =
    record_failure_from r keys at store (bucket_of r store) h (AreAt-self r store keys)
