-- ===== src/Identity/Outbox/Claims.antt =====
-- Two workers: what one has claimed the other does not, and what one has lost it does not touch.
use native.Mathlib.Nat.{one-le-pow, pow-le-pow_right}
use smart_platform_services.Common.{
  text_Eq, ◌*◌, ℕ, zero, suc, ◌+◌, ◌^◌, ◌≤◌, ◌≡◌, refl, ◌∙◌, min, Bool, true, false, ◌&&◌, ◌||◌,
  none, some, List, [], ◌∷◌, arith, nat_Eq, exists_where, update_where_none,
}
use smart_platform_services.Identity.Store.{Store, OutboxEvent}
use smart_platform_services.Identity.Contracts.{purpose_Eq}
use smart_platform_services.Identity.Outbox.{
  is_due, due_events, insert_by_age, by_age, limit, has_event_id, is_held, complete, delay_seconds,
  retry_later,
}

exists-insert_by_age :
    (p : OutboxEvent → Bool) (e : OutboxEvent) (events : List OutboxEvent)
    → exists_where p (insert_by_age e events) ≡ (p e || exists_where p events)
unfolding insert_by_age exists_where
exists-insert_by_age p e [] = ground arith
exists-insert_by_age p e (x ∷ events) = ground (arith, exists-insert_by_age p e events)

pub exists-by_age :
    (p : OutboxEvent → Bool) (events : List OutboxEvent)
    → exists_where p (by_age events) ≡ exists_where p events
unfolding by_age exists_where
exists-by_age p [] = refl
exists-by_age p (e ∷ events) =
    exists-insert_by_age p e (by_age events) ∙ ground (arith, exists-by_age p events)

pub exists-limit :
    (p : OutboxEvent → Bool) (n : ℕ) (events : List OutboxEvent)
    → exists_where p events ≡ false
    → exists_where p (limit n events) ≡ false
unfolding limit exists_where
exists-limit p zero events h = refl
exists-limit p (suc n) [] h = refl
exists-limit p (suc n) (e ∷ events) h = ground (arith, exists-limit p n events)

pub exists-due_events :
    (p : OutboxEvent → Bool) (now : ℕ) (events : List OutboxEvent)
    → exists_where (λ e. p e && is_due now e) events ≡ false
    → exists_where p (due_events now events) ≡ false
unfolding due_events exists_where
exists-due_events p now [] h = refl
exists-due_events p now (e ∷ events) h = ground (arith, exists-due_events p now events)

-- The event was locked at the time.
abbrev Locked : ℕ → ℕ → OutboxEvent → Type 0
Locked id at e = has_event_id id e ≡ true → e.locked_at ≡ some at

-- A worker that holds no lock on an event, because another has claimed it since, neither completes it
-- nor puts it off.
pub lost_lock :
    (job : OutboxEvent) (token : ℕ) (store : Store)
    → exists_where (is_held job.id token) store.outbox ≡ false
    → (complete job.id token store ≡ store) × (retry_later job token store ≡ store)
unfolding complete retry_later
lost_lock job token store lost = (
  rw
      (update_where_none (is_held job.id token)
        (λ event. record event {
          published_at = some store.clock;
          locked_at = none;
          lock_token = none;
        })
        store.outbox lost)
      refl,
  rw
      (update_where_none (is_held job.id token)
        (λ event. record event {
          attempt_count = suc event.attempt_count;
          next_attempt_at = store.clock + delay_seconds job.attempt_count * 1000;
          locked_at = none;
          lock_token = none;
        })
        store.outbox lost)
      refl,
)

-- The delay after a failed delivery is between one second and 256 seconds: the bound of 300 is never
-- reached.
pub delay_seconds_bounds :
    (attempt_count : ℕ) → (1 ≤ delay_seconds attempt_count) × (delay_seconds attempt_count ≤ 256)
unfolding delay_seconds
delay_seconds_bounds attempt_count =
    let exponent = min (attempt_count + 1) 8 in
    let low : 1 ≤ 2 ^ exponent = one-le-pow exponent 2 (omega arith) in
    let high : 2 ^ exponent ≤ 2 ^ 8 =
      pow-le-pow_right {n = 2} (omega arith) {i = exponent} {j = 8} (omega arith) in
    (omega (arith, low), omega (arith, high))
