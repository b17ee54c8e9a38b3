-- ===== src/Identity/Tokens/Lasting.antt =====
-- What the time of its check changes for a token: only whether it is accepted.
use smart_platform_services.Common.{
  ℕ, ◌≡◌, refl, not, ◌&&◌, ◌⊎◌, inl, inr, Option, none, some, List, [], ◌∷◌, ◌++◌, Text, split,
  Bool-cases, text_Eq,
}
use smart_platform_services.Identity.Contracts.{unauthorized, invalid_session}
use smart_platform_services.Identity.Exec.{Result, Result-cases, ok, err}
use smart_platform_services.Identity.Runtime.{AuthConfig}
use smart_platform_services.Identity.Jwt.{
  Codec, Claims, RefreshIds, JwtHeader, verify, verify_parts, check_parsed, same_header,
  fresh_claims, has_content, same_bytes, seconds, dot, refresh_ids, verify_refresh,
}

-- One result is the other, or a refusal.
abbrev Later {ℓ} : {A : Type ℓ} → Result A → Result A → Type ℓ
Later x y = (y ≡ err (unauthorized invalid_session)) ⊎ (y ≡ x)

module _ (a : AuthConfig) (k : Codec) where
  parsed-Later :
      (at later : ℕ) (h : Option JwtHeader) (o : Option Claims) (c : Claims)
      → check_parsed a k at h o ≡ ok c
      → Later (check_parsed a k at h o) (check_parsed a k later h o)
  unfolding check_parsed
  parsed-Later at later none o c e = absurd (cc)
  parsed-Later at later (some h) none c e = absurd (cc)
  parsed-Later at later (some h) (some x) c e =
      elim (Bool-cases (same_header h && fresh_claims a k at x)) [
        | inr n ↦ absurd (cc (rw n at e))
        | inl n ↦ elim (Bool-cases (same_header h && fresh_claims a k later x)) [
          | inl m ↦ rw (n, m) (inr refl)
          | inr m ↦ rw (n, m) (inl refl)
        ]
      ]

  verify_parts-Later :
      (at later : ℕ) (parts : List Text) (secret : Text) (c : Claims)
      → verify_parts a k parts secret at ≡ ok c
      → Later (verify_parts a k parts secret at) (verify_parts a k parts secret later)
  unfolding verify_parts
  verify_parts-Later at later [] secret c e = absurd (cc)
  verify_parts-Later at later (h ∷ []) secret c e = absurd (cc)
  verify_parts-Later at later (h ∷ p ∷ []) secret c e = absurd (cc)
  verify_parts-Later at later (h ∷ p ∷ s ∷ x ∷ rest) secret c e = absurd (cc)
  verify_parts-Later at later (h ∷ p ∷ s ∷ []) secret c e =
      elim (Bool-cases (not (has_content h && has_content p && has_content s))) [
        | inl n ↦ absurd (cc (rw n at e))
        | inr n ↦
            elim (Bool-cases
              (not (same_bytes (k.from_base64url s) (k.mac secret (h ++ (dot ∷ p)))))) [
                | inl m ↦ absurd (cc (rw (n, m) at e))
                | inr m ↦
                    let header = k.parse_header (k.from_base64url h) in
                    let claims = k.parse_claims (k.from_base64url p) in
                    rw (n, m)
                      (parsed-Later (seconds at) (seconds later) header claims c (rw (n, m) at e))
              ]
      ]

-- A refresh token that is accepted at one time is accepted at another for the same session, or
-- refused.
pub verify_refresh-later :
    (a : AuthConfig) (k : Codec) (token : Text) (at later : ℕ) (ids : RefreshIds)
    → verify_refresh a k token at ≡ ok ids
    → (verify_refresh a k token later ≡ err (unauthorized invalid_session))
      ⊎ (verify_refresh a k token later ≡ ok ids)
unfolding verify_refresh verify refresh_ids
verify_refresh-later a k token at later ids e =
    let parts = split dot token in
    let secret = a.jwt_refresh_secret in
    elim (Result-cases (verify_parts a k parts secret at)) [
      | inr (x, f) ↦ absurd (cc (rw f at e))
      | inl (c, f) ↦ elim (verify_parts-Later a k at later parts secret c f) [
        | inl n ↦ inl (rw n refl)
        | inr n ↦ inr (rw n e)
      ]
    ]
