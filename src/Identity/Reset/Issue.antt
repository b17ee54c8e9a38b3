-- ===== src/Identity/Reset/Issue.antt =====
-- Issuing a reset token: one code buys one token.
use smart_platform_services.Common.{
  ◌≡◌, refl, true, false, some, ◌∷◌, arith, ◌==◌, nat_Eq, text_Eq, eq_self, find_where,
  exists_where, exists_where-update_where_none, Bool-cases, inl, inr,
}
use smart_platform_services.Identity.Contracts.{purpose_Eq, status_Eq}
use smart_platform_services.Identity.Exec.{ok}
use smart_platform_services.Identity.Store.{Store, recovery_verified}
use smart_platform_services.Identity.Reset.{
  record_recovery_audit, IssueToken, can_issue, token_row, insert_token, close_challenge,
  is_token_of, is_reset_token, issue_transaction, issue_password_reset_token,
  find_password_reset_token,
}

-- The writes of an issue.
abbrev pub issued : IssueToken → Store → Store
issued input store =
    let closed = close_challenge input.challenge_id input.issued_at store in
    record_recovery_audit
      (record (input.audit) { user_id = some input.user_id; event_type = recovery_verified })
      (record closed { reset_tokens = token_row input ∷ closed.reset_tokens })

pub issue-eq :
    (input : IssueToken) (store : Store)
    → (issue_password_reset_token input store).0 ≡ ok true
    → (exists_where (can_issue input store.users) store.challenges ≡ true)
      × ((issue_password_reset_token input store).1 ≡ issued input store)
unfolding issue_password_reset_token issue_transaction insert_token
issue-eq input store e =
    elim (Bool-cases (exists_where (can_issue input store.users) store.challenges)) [
      | inl a ↦
          let closed = close_challenge input.challenge_id input.issued_at store in
          elim (Bool-cases (exists_where (is_token_of input.challenge_id) closed.reset_tokens)) [
            | inl b ↦ absurd (cc (rw (a, b) at e))
            | inr b ↦
                elim (Bool-cases
                  (exists_where (is_reset_token input.token_hash) closed.reset_tokens)) [
                    | inl c ↦ absurd (cc (rw (a, b, c) at e))
                    | inr c ↦ rw (a, b, c) (refl, refl)
                  ]
          ]
      | inr a ↦ absurd (cc (rw a at e))
    ]

no_second :
    (input second : IssueToken) (store : Store)
    → second.challenge_id ≡ input.challenge_id
    → exists_where (can_issue second (issued input store).users) (issued input store).challenges
      ≡ false
unfolding close_challenge record_recovery_audit
no_second input second store same =
    exists_where-update_where_none (can_issue second store.users) (λ c. c.id == input.challenge_id)
      (λ c. record c { verified_at = some input.issued_at; consumed_at = some input.issued_at })
      store.challenges (λ c k. ground (arith, same, k)) (λ c k. ground arith)

-- When a code is exchanged for a reset token, the token is found by its digest from then on, and
-- the challenge is closed: a second exchange of it, by any token, account, code and time, is refused
-- and writes nothing.
pub issue_password_reset_token_lem :
    (input second : IssueToken) (store : Store)
    → (issue_password_reset_token input store).0 ≡ ok true
    → second.challenge_id ≡ input.challenge_id
    → let after = (issue_password_reset_token input store).1 in
      (find_password_reset_token input.token_hash after ≡ some (token_row input))
      × (issue_password_reset_token second after ≡ (ok false, after))
unfolding issue_password_reset_token issue_transaction find_password_reset_token find_where
    record_recovery_audit
issue_password_reset_token_lem input second store e same =
    rw (issue-eq input store e).1
      (rw (eq_self input.token_hash) refl, rw (no_second input second store same) refl)
