-- ===== src/Identity/Session/Family.antt =====
-- A family never has two live sessions.
use native.Mathlib.Nat.{le_trans}
use smart_platform_services.Common.{
  ℕ, ◌≤◌, ◌≡◌, refl, Bool, true, false, ◌&&◌, Option, none, some, List, ◌∷◌, arith, ◌==◌, nat_Eq,
  find_where, exists_where, update_where, count_where, count_where-update_where-le,
  count_where-update_where-lt, Bool-cases, inl, inr, exists_where-anti, exists_where_of_find,
  count_where_none,
}
use smart_platform_services.Identity.Exec.{transaction_keeps}
use smart_platform_services.Identity.Store.{Store, AuthSession, RevokeReason, expired}
use smart_platform_services.Identity.Session.{
  NewSession, session_row, is_session, is_token, in_family, is_live, create_session, RotationInput,
  is_presented, revoke_reused, revoke, retire, update_sessions, rotate_current, rotate_found,
  rotate_session, revoke_session_by_token_hash, live_of, revoke_sessions_for_user,
}

abbrev pub live_in : ℕ → AuthSession → Bool
live_in family s = in_family family s && is_live s

-- One live session in a family at most.
abbrev pub OneLive : List AuthSession → Type 0
OneLive sessions = (family : ℕ) → count_where (live_in family) sessions ≤ 1

-- A statement that moves no session to another family and brings none back.
abbrev Ends : (AuthSession → AuthSession) → Type 0
Ends f =
    (s : AuthSession) → ((f s).family_id ≡ s.family_id) × (is_live (f s) ≡ true → is_live s ≡ true)

update_sessions-OneLive :
    (p : AuthSession → Bool) (f : AuthSession → AuthSession) (store : Store)
    → Ends f
    → OneLive store.sessions
    → OneLive (update_sessions p f store).sessions
unfolding update_sessions
update_sessions-OneLive p f store e h family =
    le_trans
      (count_where-update_where-le (live_in family) p f store.sessions
        (λ s k l. ground (arith, (e s).0, (e s).1)))
      (h family)

Ends-revoke : (at : ℕ) (reason : RevokeReason) → Ends (revoke at reason)
Ends-revoke at reason s = (refl, λ e. absurd (cc))

Ends-revoke_reused : (at : ℕ) → Ends (revoke_reused at)
Ends-revoke_reused at s = (refl, λ e. ground arith)

create_session-OneLive :
    (s : NewSession) (store : Store)
    → exists_where (in_family s.family_id) store.sessions ≡ false
    → OneLive store.sessions
    → OneLive (create_session s store).1.sessions
unfolding create_session count_where
create_session-OneLive s store new h family = elim (Bool-cases (s.family_id == family)) [
  | inl e ↦ ground (
    arith,
    e,
    h family,
    count_where_none (live_in family) store.sessions (
        exists_where-anti (live_in family) (in_family s.family_id) store.sessions
          (λ x k. ground (arith, e, k)) new),
  )
  | inr e ↦ ground (arith, e, h family)
]

-- The rows of a rotation: the replacement comes in and the presented session goes out.
rotated-OneLive :
    (input : RotationInput) (current : AuthSession) (store : Store)
    → find_where (is_presented input.current_session_id input.current_token_hash) store.sessions
      ≡ some current
    → is_live current ≡ true
    → (input.replacement.family_id == current.family_id) ≡ true
    → OneLive store.sessions
    → OneLive (
        update_where
          (is_session current.id)
          (retire input.used_at input.replacement.id)
          (session_row input.replacement ∷ store.sessions))
unfolding count_where exists_where
rotated-OneLive input current store found live same h family =
    let row = session_row input.replacement in
    let rows = row ∷ store.sessions in
    let ends = retire input.used_at input.replacement.id in
    elim (Bool-cases (current.family_id == family)) [
      | inl e ↦
          let own : exists_where (λ x. is_session current.id x && live_in family x) store.sessions
              ≡ true =
            exists_where_of_find (is_presented input.current_session_id input.current_token_hash)
              (λ x. is_session current.id x && live_in family x) store.sessions current found
              (ground (arith, e, live)) in
          let fewer =
            count_where-update_where-lt (live_in family) (is_session current.id) ends rows
              (λ x k. ground arith) (ground (arith, own)) in
          ground (arith, fewer, h family)
      | inr e ↦
          le_trans
            (count_where-update_where-le (live_in family) (is_session current.id) ends rows
              (λ x k l. absurd (ground (arith, l))))
            (ground (arith, e, same, h family))
    ]

-- What rotates, expires or revokes keeps `OneLive`, on each branch of the transaction.
rotate_found-OneLive :
    (input : RotationInput) (store : Store) (o : Option AuthSession)
    → find_where (is_presented input.current_session_id input.current_token_hash) store.sessions ≡ o
    → OneLive store.sessions
    → OneLive (rotate_found input o store).1.sessions
unfolding rotate_found rotate_current create_session update_sessions
rotate_found-OneLive input store none f h family = h family
rotate_found-OneLive input store (some current) f h family = ground (
  arith,
  h family,
  update_sessions-OneLive (in_family current.family_id) (revoke_reused input.used_at) store
      (Ends-revoke_reused input.used_at) h family,
  update_sessions-OneLive (is_session current.id) (revoke input.used_at expired) store
      (Ends-revoke input.used_at expired) h family,
  λ (l : is_live current ≡ true) (same : (input.replacement.family_id == current.family_id) ≡ true).
      rotated-OneLive input current store f l same h family,
)

rotate_session-OneLive :
    (input : RotationInput) (store : Store)
    → OneLive store.sessions
    → OneLive (rotate_session input store).1.sessions
unfolding rotate_session
rotate_session-OneLive input store h =
    let o =
      find_where (is_presented input.current_session_id input.current_token_hash) store.sessions in
    transaction_keeps (λ (s : Store). OneLive s.sessions) (rotate_found input o) store h
      (rotate_found-OneLive input store o refl h)

-- What the services do to the sessions. A sign-in opens a family that is new.
pub data Step : Store → Store → Type 0 where
  sign_in :
      (s : NewSession) (store : Store)
      → exists_where (in_family s.family_id) store.sessions ≡ false
      → Step store (create_session s store).1
  refresh : (input : RotationInput) (store : Store) → Step store (rotate_session input store).1
  log_out :
      (hash at : ℕ) (reason : RevokeReason) (store : Store)
      → Step store (revoke_session_by_token_hash hash at reason store)
  log_out_all :
      (user at : ℕ) (reason : RevokeReason) (store : Store)
      → Step store (revoke_sessions_for_user user at reason store)

pub data Reach (start : Store) : Store → Type 0 where
  here : Reach start start
  next : {s t : Store} → Reach start s → Step s t → Reach start t

Step-OneLive : {s t : Store} → Step s t → OneLive s.sessions → OneLive t.sessions
Step-OneLive (sign_in input store new) h = create_session-OneLive input store new h
Step-OneLive (refresh input store) h = rotate_session-OneLive input store h
Step-OneLive (log_out hash at reason store) h =
    unfold revoke_session_by_token_hash in
    update_sessions-OneLive (λ s. is_token hash s && is_live s) (revoke at reason) store
      (Ends-revoke at reason) h
Step-OneLive (log_out_all user at reason store) h =
    unfold revoke_sessions_for_user in
    update_sessions-OneLive (live_of user) (revoke at reason) store (Ends-revoke at reason) h

-- In every state that sign-ins, refreshes and log-outs reach, whatever their order and outcome, a
-- token family has one live session at most.
pub Reach-OneLive : {s t : Store} → OneLive s.sessions → Reach s t → OneLive t.sessions
Reach-OneLive h here = h
Reach-OneLive h (next r st) = Step-OneLive st (Reach-OneLive h r)
