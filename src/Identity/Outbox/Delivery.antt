-- ===== src/Identity/Outbox/Delivery.antt =====
-- Every event that is due is sent in the end.
use smart_platform_services.Common.{
  ℕ, suc, ◌≤◌, ◌≡◌, refl, ◌∙◌, ap, inl, inr, Bool, true, false, ◌&&◌, ◌||◌, none, List, [], ◌∷◌,
  arith, length, nat_Eq, leb, exists_where, update_where, count_where, All, All-update_where,
  Bool-cases, count_where-update_where-lt, count_where-update_where-le, exists_where_of_zero,
  exists_where-none, exists_where-anti, count_where_none, update_where_none,
}
use smart_platform_services.Identity.Store.{Store, OutboxEvent}
use smart_platform_services.Identity.Outbox.{
  is_due, due_events, insert_by_age, by_age, limit, is_claimed, drain,
}
use smart_platform_services.Identity.Outbox.Claims.{exists-by_age, exists-limit, exists-due_events}
use smart_platform_services.Identity.Outbox.Draining.{published, sent, NoLocks, drain-sent}

abbrev AllDue : ℕ → List OutboxEvent → Type 0
AllDue now events = All (λ e. is_due now e ≡ true) events

due_events-AllDue : (now : ℕ) (events : List OutboxEvent) → AllDue now (due_events now events)
unfolding due_events
due_events-AllDue now [] = tt
due_events-AllDue now (e ∷ events) = elim (Bool-cases (is_due now e)) [
  | inl d ↦ rw d (d, due_events-AllDue now events)
  | inr d ↦ rw d (due_events-AllDue now events)
]

insert_by_age-AllDue :
    (now : ℕ) (e : OutboxEvent) (events : List OutboxEvent)
    → is_due now e ≡ true
    → AllDue now events
    → AllDue now (insert_by_age e events)
unfolding insert_by_age
insert_by_age-AllDue now e [] d h = (d, tt)
insert_by_age-AllDue now e (x ∷ events) d h = elim (Bool-cases (leb e.created_at x.created_at)) [
  | inl k ↦ rw k (d, h)
  | inr k ↦ rw k (h.0, insert_by_age-AllDue now e events d h.1)
]

by_age-AllDue :
    (now : ℕ) (events : List OutboxEvent) → AllDue now events → AllDue now (by_age events)
unfolding by_age
by_age-AllDue now [] h = tt
by_age-AllDue now (e ∷ events) h =
    insert_by_age-AllDue now e (by_age events) h.0 (by_age-AllDue now events h.1)

exists-due_events_due :
    (now : ℕ) (events : List OutboxEvent)
    → exists_where (is_due now) events ≡ true
    → exists_where (is_due now) (due_events now events) ≡ true
unfolding due_events exists_where
exists-due_events_due now [] h = h
exists-due_events_due now (e ∷ events) h = elim (Bool-cases (is_due now e)) [
  | inl d ↦ rw (d, d) refl
  | inr d ↦ rw d (exists-due_events_due now events (rw d at h))
]

-- The first of some due events is claimed.
first_claimed :
    (now : ℕ) (events : List OutboxEvent)
    → AllDue now events
    → exists_where (is_due now) events ≡ true
    → exists_where (λ e. is_claimed (limit 10 events) e && is_due now e) (limit 10 events) ≡ true
unfolding limit exists_where
first_claimed now [] h e = absurd (cc)
first_claimed now (x ∷ events) h e = rw ((nat_Eq.decides x.id x.id).1 refl, h.0) refl

-- A drain claims an event that is due, if there is any.
due_claimed :
    (now : ℕ) (events : List OutboxEvent)
    → exists_where (is_due now) events ≡ true
    → exists_where
        (λ e. is_claimed (limit 10 (by_age (due_events now events))) e && is_due now e)
        events
      ≡ true
due_claimed now events h =
    let due = due_events now events in
    let jobs = limit 10 (by_age due) in
    let p : OutboxEvent → Bool = λ e. is_claimed jobs e && is_due now e in
    let claimed : exists_where p jobs ≡ true =
      first_claimed now (by_age due) (by_age-AllDue now due (due_events-AllDue now events))
        (exists-by_age (is_due now) due ∙ exists-due_events_due now events h) in
    elim (Bool-cases (exists_where p events)) [
      | inl k ↦ k
      | inr k ↦
          let none_due : exists_where (λ e. p e && is_due now e) events ≡ false =
            exists_where-anti (λ e. p e && is_due now e) p events (λ e a. ground arith) k in
          let none_listed : exists_where p (by_age due) ≡ false =
            exists-by_age p due ∙ exists-due_events p now events none_due in
          absurd (cc (claimed, exists-limit p 10 (by_age due) none_listed))
    ]

-- Events published in two steps are published in one.
published_twice :
    (at : ℕ) (q k : OutboxEvent → Bool) (events : List OutboxEvent)
    → update_where k (published at) (update_where q (published at) events)
      ≡ update_where (λ e. q e || k e) (published at) events
unfolding update_where
published_twice at q k [] = refl
published_twice at q k (e ∷ events) = elim (Bool-cases (q e)) [
  | inl a ↦ elim (Bool-cases (k (published at e))) [
    | inl b ↦ rw (a, b, published_twice at q k events) refl
    | inr b ↦ rw (a, b, published_twice at q k events) refl
  ]
  | inr a ↦ elim (Bool-cases (k e)) [
    | inl b ↦ rw (a, b, published_twice at q k events) refl
    | inr b ↦ rw (a, b, published_twice at q k events) refl
  ]
]

published-NoLocks :
    (at : ℕ) (q : OutboxEvent → Bool) (events : List OutboxEvent)
    → NoLocks events
    → NoLocks (update_where q (published at) events)
published-NoLocks at q events h =
    All-update_where (λ (e : OutboxEvent). (e.locked_at ≡ none) × (e.lock_token ≡ none)) q
      (published at) events (λ e k u. (refl, refl)) h

-- A drain leaves fewer events due, unless none was.
fewer_due :
    (at bound : ℕ) (events : List OutboxEvent)
    → count_where (is_due at) events ≤ suc bound
    → count_where
        (is_due at)
        (update_where (is_claimed (limit 10 (by_age (due_events at events)))) (published at) events)
      ≤ bound
fewer_due at bound events h =
    let claimed = is_claimed (limit 10 (by_age (due_events at events))) in
    elim (Bool-cases (exists_where (is_due at) events)) [
      | inl d ↦
          let less =
            count_where-update_where-lt (is_due at) claimed (published at) events (λ e c. refl)
              (due_claimed at events d) in
          omega (arith, less)
      | inr d ↦
          let zero_due = count_where_none (is_due at) events d in
          let no_more =
            count_where-update_where-le (is_due at) claimed (published at) events (λ e c x. cc) in
          omega (arith, zero_due, no_more)
    ]

-- Drains of one worker, each with a token of its own.
unfoldable pub drains : List ℕ → Store → Store
drains [] store = store
drains (token ∷ tokens) store = drains tokens (drain sent token store)

-- As many drains as there are events due publish every one of them, when no other worker holds an event and
-- every delivery works; what is not published stays as it was.
pub drains_publish :
    (tokens : List ℕ) (store : Store)
    → NoLocks store.outbox
    → count_where (is_due store.clock) store.outbox ≤ length tokens
    → (done : OutboxEvent → Bool) × (drains tokens store
        ≡ record store { outbox = update_where done (published store.clock) store.outbox })
      × (exists_where (is_due store.clock) (drains tokens store).outbox ≡ false)
unfolding drains
drains_publish [] store free few = (
  λ e. false,
  rw
      (update_where_none (λ e. false) (published store.clock) store.outbox
        (exists_where-none (λ e. false) store.outbox (λ e. refl)))
      refl,
  exists_where_of_zero (is_due store.clock) store.outbox (omega arith),
)
drains_publish (token ∷ tokens) store free few =
    let claimed = is_claimed (limit 10 (by_age (due_events store.clock store.outbox))) in
    let after : Store = record store {
      outbox = update_where claimed (published store.clock) store.outbox;
    } in
    let step : drain sent token store ≡ after = drain-sent token store free in
    let (done, e, none_due) =
      drains_publish tokens after (published-NoLocks store.clock claimed store.outbox free)
        (fewer_due store.clock (length tokens) store.outbox few) in
    (
      λ x. claimed x || done x,
      rw step (e ∙ rw (published_twice store.clock claimed done store.outbox) refl),
      ap (λ (t : Store). exists_where (is_due store.clock) (drains tokens t).outbox) step
          ∙ none_due,
    )
