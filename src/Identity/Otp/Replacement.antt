-- ===== src/Identity/Otp/Replacement.antt =====
-- A new challenge takes the place of the recipient's old one.
use smart_platform_services.Common.{
  ℕ, ap, ◌≡◌, refl, ◌∙◌, Bool, true, false, ◌&&◌, Option, none, some, List, [], ◌∷◌, Text, arith,
  ◌==◌, nat_Eq, text_Eq, eq_self, exists_where, update_where, exists_where-update_where,
  exists_where-none, exists_where-update_where_none, same_text_iff,
}
use smart_platform_services.Identity.Contracts.{
  OtpPurpose, purpose_Eq, same_purpose_iff, registration, password_reset,
}
use smart_platform_services.Identity.Exec.{ok}
use smart_platform_services.Identity.Store.{
  Store, OtpChallenge, OutboxEvent, OutboxEventType, password_recovery_email,
}
use smart_platform_services.Identity.Otp.{
  by_email, is_active, is_current, latest_where, find_otp_challenge, NewChallenge, challenge_row,
  has_id, meets_email, meets_phone, insert_challenge, consume, consume_where, consume_and_insert,
}
use smart_platform_services.Identity.Otp.Replace.{
  active_for_email, OutboxInput, is_event, outbox_row, is_superseded, insert_outbox,
  insert_outbox_if, recovery_transaction, replace_password_recovery_challenge, supersede,
  registration_transaction, replace_registration_challenge,
}

latest_where-none :
    (p : OtpChallenge → Bool) (cs : List OtpChallenge)
    → exists_where p cs ≡ false
    → latest_where p cs ≡ none
unfolding latest_where exists_where
latest_where-none p [] e = refl
latest_where-none p (c ∷ cs) e = ground (arith, latest_where-none p cs)

-- A challenge for the address `e`.
pub record IsFor (e : Text) (purpose : OtpPurpose) (input : NewChallenge) : Type 0 where
  pub email : input.email ≡ some e
  pub phone : input.phone ≡ none
  pub purpose_is : input.purpose ≡ purpose

-- The rows after the UPDATE.
abbrev consumed : NewChallenge → OtpPurpose → ℕ → List OtpChallenge → List OtpChallenge
consumed input purpose now cs = update_where (active_for_email input purpose) (consume now) cs

module _ (e : Text) (purpose : OtpPurpose) (input : NewChallenge) (f : IsFor e purpose input)
    (now : ℕ) (cs : List OtpChallenge) where
  no_more_current :
      exists_where (is_current (by_email e) purpose) (consumed input purpose now cs) ≡ false
  no_more_current =
      exists_where-update_where_none (is_current (by_email e) purpose)
        (active_for_email input purpose) (consume now) cs (λ c k. ground (arith, f.email, k))
        (λ c k. ground arith)

  no_conflict : exists_where (meets_email input) (consumed input purpose now cs) ≡ false
  no_conflict =
      exists_where-update_where_none (meets_email input) (active_for_email input purpose)
        (consume now) cs (λ c k. ground (arith, f.purpose_is, k)) (λ c k. ground arith)

  no_phone_conflict : exists_where (meets_phone input) (consumed input purpose now cs) ≡ false
  no_phone_conflict =
      exists_where-none (meets_phone input) (consumed input purpose now cs)
        (λ c. ground (arith, f.phone))

  latest_is_new :
      latest_where
        (is_current (by_email e) purpose)
        (challenge_row input now ∷ consumed input purpose now cs)
      ≡ some (challenge_row input now)
  unfolding latest_where
  latest_is_new = ground (
    arith,
    f.email,
    f.purpose_is,
    same_text_iff e e,
    same_purpose_iff purpose purpose,
    latest_where-none (is_current (by_email e) purpose) (consumed input purpose now cs)
        no_more_current,
  )

-- The UPDATE makes room, so the INSERT meets no constraint but the primary key.
consume_and_insert_lem :
    (e : Text) (purpose : OtpPurpose) (input : NewChallenge) (store : Store)
    → IsFor e purpose input
    → exists_where (has_id input.id) store.challenges ≡ false
    → let rows = consumed input purpose store.clock store.challenges in
      consume_and_insert (active_for_email input purpose) input store
      ≡ (ok tt, record store { challenges = challenge_row input store.clock ∷ rows })
unfolding consume_and_insert insert_challenge consume_where
consume_and_insert_lem e purpose input store f fresh =
    let cs = store.challenges in
    let id_kept =
      exists_where-update_where (has_id input.id) (active_for_email input purpose)
        (consume store.clock) cs (λ c k. refl) in
    rw
      (
        id_kept ∙ fresh,
        no_phone_conflict e purpose input f store.clock cs,
        no_conflict e purpose input f store.clock cs,
      )
      refl

-- The outbox with the mail that is queued, if any, and the event's id being new.
abbrev pub queued : OutboxEventType → Option OutboxInput → ℕ → List OutboxEvent → List OutboxEvent
queued event_type none now events = events
queued event_type (some input) now events = outbox_row event_type input now ∷ events

abbrev pub IsNewEvent : Option OutboxInput → List OutboxEvent → Type 0
IsNewEvent none events = Unit
IsNewEvent (some input) events = exists_where (is_event input.id) events ≡ false

insert_outbox_if_lem :
    (event_type : OutboxEventType) (outbox : Option OutboxInput) (store : Store)
    → IsNewEvent outbox store.outbox
    → insert_outbox_if event_type outbox store
      ≡ (ok tt, record store { outbox = queued event_type outbox store.clock store.outbox })
unfolding insert_outbox
insert_outbox_if_lem event_type none store new = refl
insert_outbox_if_lem event_type (some input) store new = rw new refl

-- A recovery request stores its challenge, queues its mail if it has one, and from then on the
-- address's current challenge is the new one.
pub replace_password_recovery_challenge_lem :
    (e : Text) (input : NewChallenge) (outbox : Option OutboxInput) (store : Store)
    → IsFor e password_reset input
    → exists_where (has_id input.id) store.challenges ≡ false
    → IsNewEvent outbox store.outbox
    → let (answer, after) = replace_password_recovery_challenge input outbox store in
      (answer ≡ ok tt)
      × (find_otp_challenge (by_email e) password_reset after
          ≡ some (challenge_row input store.clock))
      × (after.outbox ≡ queued password_recovery_email outbox store.clock store.outbox)
unfolding replace_password_recovery_challenge recovery_transaction find_otp_challenge
replace_password_recovery_challenge_lem e input outbox store f fresh new =
    let rows = consumed input password_reset store.clock store.challenges in
    rw
      (
        consume_and_insert_lem e password_reset input store f fresh,
        insert_outbox_if_lem password_recovery_email outbox
            (record store { challenges = challenge_row input store.clock ∷ rows }) new,
      )
      (refl, latest_is_new e password_reset input f store.clock store.challenges, refl)

-- What superseding an older challenge leaves as it was.
abbrev Supersedes : Store → Store → Type 0
Supersedes store start =
    ((id : ℕ)
      → exists_where (has_id id) start.challenges ≡ exists_where (has_id id) store.challenges)
    × ((id : ℕ) → exists_where (is_event id) start.outbox ≡ exists_where (is_event id) store.outbox)
    × (start.clock ≡ store.clock)

supersede_lem :
    (superseded : Option ℕ) (store : Store) → Supersedes store (supersede superseded store)
unfolding supersede
supersede_lem none store = (λ id. refl, λ id. refl, refl)
supersede_lem (some old) store = (
  λ id.
      exists_where-update_where (has_id id)
        (λ c. c.id == old && c.purpose == registration && is_active c) (consume store.clock)
        store.challenges (λ c k. refl),
  λ id.
      exists_where-update_where (is_event id) (is_superseded old)
        (λ event. record event {
          superseded_at = some store.clock;
          locked_at = none;
          lock_token = none;
        })
        store.outbox (λ event k. refl),
  refl,
)

-- A sign-up request stores its challenge and queues its mail, and from then on the address's
-- current challenge is the new one; it is not answered `false` when no other request interferes.
pub replace_registration_challenge_lem :
    (e : Text) (input : NewChallenge) (superseded : Option ℕ) (outbox : OutboxInput) (store : Store)
    → IsFor e registration input
    → exists_where (has_id input.id) store.challenges ≡ false
    → exists_where (is_event outbox.id) store.outbox ≡ false
    → let (answer, after) = replace_registration_challenge input superseded outbox store in
      (answer ≡ ok true)
      × (find_otp_challenge (by_email e) registration after
          ≡ some (challenge_row input store.clock))
      × (exists_where (is_event outbox.id) after.outbox ≡ true)
unfolding replace_registration_challenge registration_transaction find_otp_challenge insert_outbox
    exists_where
replace_registration_challenge_lem e input superseded outbox store f fresh new =
    let start = supersede superseded store in
    let (ids, events, now) = supersede_lem superseded store in
    let step = consume_and_insert_lem e registration input start f (ids input.id ∙ fresh) in
    rw (step, events outbox.id ∙ new)
      (
        refl,
        latest_is_new e registration input f start.clock start.challenges
            ∙ ap (λ t. some (challenge_row input t)) now,
        rw (eq_self outbox.id) refl,
      )
