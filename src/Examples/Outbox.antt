-- ===== src/Examples/Outbox.antt =====
-- The outbox worker: tests, and the theorems at a store with one event.
use smart_platform_services.Common.{
  ◌≤◌, ◌≡◌, refl, false, none, some, [], ◌∷◌, text, arith, exists_where, update_where, same_text,
  Bool, count_where,
}
use smart_platform_services.Identity.Exec.{ok, err}
use smart_platform_services.Identity.Contracts.{failure}
use smart_platform_services.Identity.Store.{Store, OutboxEvent, password_recovery_email}
use smart_platform_services.Identity.Outbox.{
  due_events, insert_by_age, by_age, limit, claim, complete, delay_seconds, retry_later, process,
  process_all, drain,
}
use smart_platform_services.Identity.Outbox.{is_due}
use smart_platform_services.Identity.Outbox.Draining.{published, NoLocks}
use smart_platform_services.Identity.Outbox.Delivery.{drains, drains_publish}
use smart_platform_services.Examples.{coded_store}

abbrev mail : OutboxEvent
mail = record {
  id = 70;
  aggregate_id = 10;
  event_type = password_recovery_email;
  email = text "ann@site.vn";
  occurred_at = 50;
  next_attempt_at = 50;
  published_at = none;
  superseded_at = none;
  locked_at = none;
  lock_token = none;
  attempt_count = 0;
  created_at = 50;
}

abbrev mail_store : Store
mail_store = record coded_store { outbox = mail ∷ [] }

-- Tests: a mail that is sent is published, and one that fails is put off.
drain_test :
    (drain (λ _. ok tt) 900 mail_store).outbox ≡ record mail { published_at = some 100 } ∷ []
unfolding drain claim process_all process complete due_events by_age insert_by_age limit
    exists_where update_where same_text
drain_test = refl

failure_test :
    (drain (λ _. err failure) 900 mail_store).outbox
    ≡ record mail { attempt_count = 1; next_attempt_at = 2100 } ∷ []
unfolding drain claim process_all process retry_later delay_seconds due_events by_age insert_by_age
    limit exists_where update_where same_text
failure_test = refl

abbrev two_mails : Store
two_mails = record mail_store {
  outbox = mail ∷ record mail { id = 71; next_attempt_at = 9000 } ∷ [];
}

two_mails-NoLocks : NoLocks two_mails.outbox
two_mails-NoLocks = ((refl, refl), ((refl, refl), tt))

one_due : count_where (is_due 100) two_mails.outbox ≤ 1
unfolding count_where
one_due = omega arith

drains_publish_example :
    (done : OutboxEvent → Bool) × (drains (900 ∷ []) two_mails
      ≡ record two_mails { outbox = update_where done (published 100) two_mails.outbox })
    × (exists_where (is_due 100) (drains (900 ∷ []) two_mails).outbox ≡ false)
drains_publish_example = drains_publish (900 ∷ []) two_mails two_mails-NoLocks one_due
