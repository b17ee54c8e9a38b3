-- ===== src/Identity/Throttle/Window.antt =====
-- One throttle bucket: what recording and clearing a failure do to it and to the others.
use smart_platform_services.Common.{
  ℕ, suc, ◌+◌, ◌≡◌, refl, true, false, ◌∙◌, sym, Option, none, some, Text, leb, arith,
  if◌then◌else◌, ◌==◌, ◌&&◌, nat_Eq, text_Eq, same_text_iff, find_where_sound,
  find_where-update_where, find_where-exists_where, find_where-update_where_other, find_where,
  update_where,
}
use smart_platform_services.Identity.Exec.{ok}
use smart_platform_services.Identity.Store.{Store, ThrottleBucket}
use smart_platform_services.Identity.Runtime.{ThrottlePolicy}
use smart_platform_services.Identity.Throttle.{
  is_bucket, find_throttle, insert_bucket, next_bucket, record_throttle_failure,
}

-- The bucket after a failure, from what the table held: a window that is over, or that was never
-- opened, starts at `at` with one failure; an open one counts one more. The bucket is blocked for
-- `block_ms` from the failure that brings the count to the limit.
abbrev pub counted : Option ThrottleBucket → ThrottlePolicy → ℕ → ℕ
counted none policy at = 1
counted (some b) policy at =
    if leb (b.window_started_at + policy.window_ms) at then 1 else suc b.attempt_count

abbrev pub opened : Option ThrottleBucket → ThrottlePolicy → ℕ → ℕ
opened none policy at = at
opened (some b) policy at =
    if leb (b.window_started_at + policy.window_ms) at then at else b.window_started_at

abbrev pub after_failure : Option ThrottleBucket → Text → ℕ → ThrottlePolicy → ℕ → ThrottleBucket
after_failure before scope key_hash policy at = record {
  scope = scope;
  key_hash = key_hash;
  window_started_at = opened before policy at;
  attempt_count = counted before policy at;
  blocked_until =
      if leb policy.limit (counted before policy at) then some (at + policy.block_ms) else none;
}

is_bucket_self :
    (scope : Text) (key_hash : ℕ) (b : ThrottleBucket)
    → b.scope ≡ scope
    → b.key_hash ≡ key_hash
    → is_bucket scope key_hash b ≡ true
is_bucket_self scope key_hash b e f = ground (arith, same_text_iff b.scope scope)

is_bucket_fields :
    (scope : Text) (key_hash : ℕ) (b : ThrottleBucket)
    → is_bucket scope key_hash b ≡ true
    → (b.scope ≡ scope) × (b.key_hash ≡ key_hash)
is_bucket_fields scope key_hash b e = ground (arith, same_text_iff b.scope scope)

-- What the SELECT of the transaction reads.
abbrev current : Option ThrottleBucket → Text → ℕ → ℕ → ThrottleBucket
current none scope key_hash at = record {
  scope = scope;
  key_hash = key_hash;
  window_started_at = at;
  attempt_count = 0;
  blocked_until = none;
}
current (some b) scope key_hash at = b

find_throttle-insert_bucket :
    (scope : Text) (key_hash at : ℕ) (store : Store)
    → find_throttle scope key_hash (insert_bucket scope key_hash at store)
      ≡ some (current (find_throttle scope key_hash store) scope key_hash at)
unfolding find_throttle insert_bucket find_where
find_throttle-insert_bucket scope key_hash at store = ground (
  arith,
  find_where-exists_where (is_bucket scope key_hash) store.throttles,
  same_text_iff scope scope,
)

next_bucket-current :
    (before : Option ThrottleBucket) (scope : Text) (key_hash : ℕ) (policy : ThrottlePolicy)
    (at : ℕ)
    → ((b : ThrottleBucket) → before ≡ some b → (b.scope ≡ scope) × (b.key_hash ≡ key_hash))
    → next_bucket policy at (current before scope key_hash at)
      ≡ after_failure before scope key_hash policy at
unfolding next_bucket
next_bucket-current none scope key_hash policy at h = ground arith
next_bucket-current (some b) scope key_hash policy at h = ground (arith, h b refl)

-- The table after the UPDATE.
abbrev pub written : Text → ℕ → ThrottleBucket → ℕ → Store → Store
written scope key_hash bucket at store =
    let inserted = insert_bucket scope key_hash at store in
    record inserted {
      throttles = update_where (is_bucket scope key_hash) (λ _. bucket) inserted.throttles;
    }

find_throttle-written :
    (scope : Text) (key_hash at : ℕ) (bucket : ThrottleBucket) (store : Store)
    → is_bucket scope key_hash bucket ≡ true
    → find_throttle scope key_hash (written scope key_hash bucket at store) ≡ some bucket
unfolding find_throttle
find_throttle-written scope key_hash at bucket store h =
    let inserted = insert_bucket scope key_hash at store in
    ground (
      arith,
      find_where-update_where (is_bucket scope key_hash) (is_bucket scope key_hash) (λ _. bucket)
          inserted.throttles (λ x e. h ∙ sym e),
      find_where_sound (is_bucket scope key_hash) inserted.throttles
          (current (find_throttle scope key_hash store) scope key_hash at),
      find_throttle-insert_bucket scope key_hash at store,
    )

find_throttle_sound :
    (scope : Text) (key_hash : ℕ) (store : Store) (b : ThrottleBucket)
    → find_throttle scope key_hash store ≡ some b
    → is_bucket scope key_hash b ≡ true
unfolding find_throttle
find_throttle_sound scope key_hash store b e =
    find_where_sound (is_bucket scope key_hash) store.throttles b e

-- Another key.
abbrev pub OtherKey : Text → ℕ → Text → ℕ → Type 0
OtherKey other hash scope key_hash = (other == scope && hash == key_hash) ≡ false

pub is_bucket_other :
    (other : Text) (hash : ℕ) (scope : Text) (key_hash : ℕ) (b : ThrottleBucket)
    → OtherKey other hash scope key_hash
    → is_bucket scope key_hash b ≡ true
    → is_bucket other hash b ≡ false
is_bucket_other other hash scope key_hash b h e = ground (
  arith,
  same_text_iff b.scope scope,
  same_text_iff b.scope other,
  same_text_iff other scope,
  same_text_iff scope scope,
)

find_throttle-written_other :
    (other : Text) (hash : ℕ) (scope : Text) (key_hash at : ℕ) (bucket : ThrottleBucket)
    (store : Store)
    → OtherKey other hash scope key_hash
    → is_bucket scope key_hash bucket ≡ true
    → find_throttle other hash (written scope key_hash bucket at store)
      ≡ find_throttle other hash store
unfolding find_throttle insert_bucket find_where
find_throttle-written_other other hash scope key_hash at bucket store h e =
    let inserted = insert_bucket scope key_hash at store in
    ground (
      arith,
      find_where-update_where_other (is_bucket other hash) (is_bucket scope key_hash) (λ _. bucket)
          inserted.throttles (λ x k. is_bucket_other other hash scope key_hash x h k)
          (λ x k. is_bucket_other other hash scope key_hash bucket h e),
      same_text_iff scope other,
      same_text_iff other scope,
    )

pub record_throttle_failure-eq :
    (scope : Text) (key_hash : ℕ) (policy : ThrottlePolicy) (at : ℕ) (store : Store)
    → let bucket = after_failure (find_throttle scope key_hash store) scope key_hash policy at in
      record_throttle_failure scope key_hash policy at store
      ≡ (ok bucket, written scope key_hash bucket at store)
unfolding record_throttle_failure
record_throttle_failure-eq scope key_hash policy at store =
    let before = find_throttle scope key_hash store in
    let bucket = after_failure before scope key_hash policy at in
    rw
      (
        find_throttle-insert_bucket scope key_hash at store,
        next_bucket-current before scope key_hash policy at (λ b e.
            is_bucket_fields scope key_hash b (find_throttle_sound scope key_hash store b e)),
        find_throttle-written scope key_hash at bucket store
            (is_bucket_self scope key_hash bucket refl refl),
      )
      refl

-- Recording a failure answers with the new bucket, stores it under its key, and leaves every other
-- key's bucket as it was; it never throws.
pub record_throttle_failure_lem :
    (scope : Text) (key_hash : ℕ) (policy : ThrottlePolicy) (at : ℕ) (store : Store)
    → let bucket = after_failure (find_throttle scope key_hash store) scope key_hash policy at in
      let after = (record_throttle_failure scope key_hash policy at store).1 in
      ((record_throttle_failure scope key_hash policy at store).0 ≡ ok bucket)
      × (find_throttle scope key_hash after ≡ some bucket)
      × ((other : Text) (hash : ℕ)
          → (other == scope && hash == key_hash) ≡ false
          → find_throttle other hash after ≡ find_throttle other hash store)
record_throttle_failure_lem scope key_hash policy at store =
    let bucket = after_failure (find_throttle scope key_hash store) scope key_hash policy at in
    let hit = is_bucket_self scope key_hash bucket refl refl in
    rw (record_throttle_failure-eq scope key_hash policy at store) (
      refl,
      find_throttle-written scope key_hash at bucket store hit,
      λ other hash h. find_throttle-written_other other hash scope key_hash at bucket store h hit,
    )
