-- ===== src/Identity/Access/Guards.antt =====
-- Whom the guards and the access checks let pass.
use smart_platform_services.Common.{
  ℕ, ◌≡◌, ◌∙◌, ap, subst, refl, ◌↔◌, ◌⊎◌, inl, inr, true, Option, some, List, ◌∷◌, Text, ◌==◌,
  Bool-cases, Option-cases,
}
use smart_platform_services.Identity.Contracts.{
  ActorRole, renter, owner, active, status_Eq, AuthenticatedActor,
}
use smart_platform_services.Identity.Exec.{Result, Result-cases, ok, err}
use smart_platform_services.Identity.Jwt.{Codec}
use smart_platform_services.Identity.Runtime.{AuthConfig}
use smart_platform_services.Identity.Store.{Store}
use smart_platform_services.Identity.Tokens.{authenticate_access}
use smart_platform_services.Identity.Tokens.Authenticate.{Grants, authenticate_access_sound}
use smart_platform_services.Identity.Users.{includes}
use smart_platform_services.Identity.Access.{
  get_actor_snapshot, require_active, assert_role, assert_renter, assert_owner, assert_payer,
  bearer_token, parts_of, has_a_role, roles_guard, jwt_auth_guard, guarded,
}

-- An account may pay exactly when it passes the check for renters or the one for owners.
pub assert_payer_iff :
    (id : ℕ) (store : Store)
    → ((assert_payer id store).0 ≡ ok tt)
      ↔ (((assert_renter id store).0 ≡ ok tt) ⊎ ((assert_owner id store).0 ≡ ok tt))
unfolding assert_payer assert_renter assert_owner assert_role require_active
assert_payer_iff id store = elim (Option-cases (get_actor_snapshot id store)) [
  | inl n ↦ rw n (λ e. absurd (cc), λ e. elim e [ inl x ↦ absurd (cc) | inr x ↦ absurd (cc) ])
  | inr (actor, f) ↦ elim (Bool-cases (actor.status == active)) [
    | inr s ↦
        rw (f, s) (λ e. absurd (cc), λ e. elim e [ inl x ↦ absurd (cc) | inr x ↦ absurd (cc) ])
    | inl s ↦ elim (Bool-cases (includes renter actor.roles)) [
      | inl p ↦ rw (f, s, p) (λ e. inl refl, λ e. refl)
      | inr p ↦ elim (Bool-cases (includes owner actor.roles)) [
        | inl q ↦ rw (f, s, p, q) (λ e. inr refl, λ e. refl)
        | inr q ↦
            rw (f, s, p, q)
              (λ e. absurd (cc), λ e. elim e [ inl x ↦ absurd (cc) | inr x ↦ absurd (cc) ])
      ]
    ]
  ]
]

abbrev answer_or : AuthenticatedActor → Result AuthenticatedActor → AuthenticatedActor
answer_or other (ok actor) = actor
answer_or other (err e) = other

module _ (a : AuthConfig) (k : Codec) where
  -- A request that both guards let pass carries a bearer token that grants access to its actor, and the
  -- actor has one of the roles that are required, if any is.
  pub guarded_sound :
      (role : ActorRole) (roles : List ActorRole) (authorization : Option Text) (at now : ℕ)
      (store : Store) (actor : AuthenticatedActor)
      → (guarded a k (role ∷ roles) authorization at now store).0 ≡ ok actor
      → (token : Text) × (bearer_token (parts_of authorization) ≡ some token)
        × Grants a k token at now store actor
        × (has_a_role (role ∷ roles) actor.roles ≡ true)
  unfolding guarded jwt_auth_guard roles_guard
  guarded_sound role roles authorization at now store actor e =
      elim (Option-cases (bearer_token (parts_of authorization))) [
        | inl n ↦ absurd (cc (rw n at e))
        | inr (token, f) ↦ elim (Result-cases (authenticate_access a k token at now store).0) [
          | inr (x, v) ↦ absurd (cc (rw (f, v) at e))
          | inl (who, v) ↦ elim (Bool-cases (has_a_role (role ∷ roles) who.roles)) [
            | inr q ↦ absurd (cc (rw (f, v, q) at e))
            | inl q ↦
                let same : ok who ≡ ok actor = rw (f, v, q) at e in
                (
                  token,
                  f,
                  authenticate_access_sound a k token at now store actor (v ∙ same),
                  subst (λ x. has_a_role (role ∷ roles) x.roles ≡ true) (ap (answer_or who) same) q,
                )
          ]
        ]
      ]
