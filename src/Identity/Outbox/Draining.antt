-- ===== src/Identity/Outbox/Draining.antt =====
-- A worker alone, with a delivery that works: what its drains leave.
use smart_platform_services.Common.{
  ℕ, ◌≡◌, refl, inl, inr, Bool, true, false, none, some, List, [], ◌∷◌, arith, if◌then◌else◌,
  nat_Eq, holds, exists_where, update_where, All, Bool-cases,
}
use smart_platform_services.Identity.Exec.{Result, ok}
use smart_platform_services.Identity.Store.{Store, OutboxEvent}
use smart_platform_services.Identity.Outbox.{
  due_events, by_age, limit, has_event_id, is_claimed, claim, is_held, is_sendable, complete,
  process, process_all, drain,
}

-- The row of an event that has been sent, or need not be sent.
abbrev pub published : ℕ → OutboxEvent → OutboxEvent
published at event = record event { published_at = some at; locked_at = none; lock_token = none }

abbrev locked : ℕ → ℕ → OutboxEvent → OutboxEvent
locked at token event = record event { locked_at = some at; lock_token = some token }

-- A delivery that works.
abbrev pub sent : OutboxEvent → Result {0} Unit
sent job = ok tt

-- No worker holds an event.
abbrev pub NoLocks : List OutboxEvent → Type 0
NoLocks events = All (λ (e : OutboxEvent). (e.locked_at ≡ none) × (e.lock_token ≡ none)) events

complete_row : List OutboxEvent → ℕ → ℕ → OutboxEvent → OutboxEvent
complete_row [] token at event = event
complete_row (job ∷ jobs) token at event =
    complete_row jobs token at (if is_held job.id token event then published at event else event)

map_rows : (OutboxEvent → OutboxEvent) → List OutboxEvent → List OutboxEvent
map_rows f [] = []
map_rows f (e ∷ events) = f e ∷ map_rows f events

-- Sent or not worth sending, a job is completed.
process-complete :
    (job : OutboxEvent) (token : ℕ) (store : Store)
    → process (sent job) job token store ≡ complete job.id token store
unfolding process
process-complete job token store =
    elim (Bool-cases (exists_where (is_sendable job store.clock) store.challenges)) [
      | inl e ↦ rw e refl
      | inr e ↦ rw e refl
    ]

map_rows-update_where :
    (f g : OutboxEvent → OutboxEvent) (p : OutboxEvent → Bool) (events : List OutboxEvent)
    → map_rows f (update_where p g events) ≡ map_rows (λ e. f (if p e then g e else e)) events
unfolding map_rows update_where
map_rows-update_where f g p [] = refl
map_rows-update_where f g p (e ∷ events) = rw (map_rows-update_where f g p events) refl

map_rows_same : (events : List OutboxEvent) → map_rows (λ e. e) events ≡ events
unfolding map_rows
map_rows_same [] = refl
map_rows_same (e ∷ events) = rw (map_rows_same events) refl

process_all-rows :
    (jobs : List OutboxEvent) (token : ℕ) (store : Store)
    → process_all sent jobs token store
      ≡ record store { outbox = map_rows (complete_row jobs token store.clock) store.outbox }
unfolding process_all complete complete_row
process_all-rows [] token store = rw (map_rows_same store.outbox) refl
process_all-rows (job ∷ jobs) token store =
    rw
      (
        process-complete job token store,
        process_all-rows jobs token (complete job.id token store),
        map_rows-update_where (complete_row jobs token store.clock) (published store.clock)
            (is_held job.id token) store.outbox,
      )
      refl

-- A row that the token does not hold stays.
complete_row_free :
    (jobs : List OutboxEvent) (token at : ℕ) (event : OutboxEvent)
    → holds event.lock_token token ≡ false
    → complete_row jobs token at event ≡ event
unfolding complete_row
complete_row_free [] token at event h = refl
complete_row_free (job ∷ jobs) token at event h =
    let off : is_held job.id token event ≡ false = ground arith in
    rw off (complete_row_free jobs token at event h)

-- A row that the token holds is completed by a job with its id.
complete_row_held :
    (jobs : List OutboxEvent) (token at : ℕ) (event : OutboxEvent)
    → holds event.lock_token token ≡ true
    → exists_where (has_event_id event.id) jobs ≡ true
    → complete_row jobs token at event ≡ published at event
unfolding complete_row exists_where
complete_row_held [] token at event h e = absurd (cc)
complete_row_held (job ∷ jobs) token at event h e = elim (Bool-cases (is_held job.id token event)) [
  | inl k ↦ rw k (complete_row_free jobs token at (published at event) refl)
  | inr k ↦ rw k (complete_row_held jobs token at event h (ground arith))
]

module _ (jobs : List OutboxEvent) (token at : ℕ) where
  abbrev lock_and_complete : OutboxEvent → OutboxEvent
  lock_and_complete e =
      complete_row jobs token at (if is_claimed jobs e then locked at token e else e)

  drained_rows :
      (events : List OutboxEvent)
      → NoLocks events
      → map_rows (λ e. lock_and_complete e) events
        ≡ update_where (is_claimed jobs) (published at) events
  unfolding map_rows update_where
  drained_rows [] h = refl
  drained_rows (e ∷ events) h = elim (Bool-cases (is_claimed jobs e)) [
    | inl c ↦
        rw
          (
            c,
            complete_row_held jobs token at (locked at token e)
                ((nat_Eq.decides token token).1 refl) c,
            drained_rows events h.1,
          )
          refl
    | inr c ↦
        rw (c, complete_row_free jobs token at e (rw h.0.1 refl), drained_rows events h.1) refl
  ]

-- A drain publishes the events that it claims, and changes no other.
pub drain-sent :
    (token : ℕ) (store : Store)
    → NoLocks store.outbox
    → drain sent token store ≡ record store {
      outbox =
          update_where
            (is_claimed (limit 10 (by_age (due_events store.clock store.outbox))))
            (published store.clock)
            store.outbox;
    }
unfolding drain claim
drain-sent token store free =
    let jobs = limit 10 (by_age (due_events store.clock store.outbox)) in
    let after = update_where (is_claimed jobs) (locked store.clock token) store.outbox in
    rw
      (
        process_all-rows jobs token (record store { outbox = after }),
        map_rows-update_where (complete_row jobs token store.clock) (locked store.clock token)
            (is_claimed jobs) store.outbox,
        drained_rows jobs token store.clock store.outbox free,
      )
      refl
