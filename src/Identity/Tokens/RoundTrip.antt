-- ===== src/Identity/Tokens/RoundTrip.antt =====
-- A token that the service signs is one that it verifies, and only such a token passes.
use mathlib.Core.List.{append_assoc}
use smart_platform_services.Common.{
  ℕ, ◌≡◌, refl, true, some, [], ◌∷◌, ◌++◌, Text, if◌then◌else◌, nat_Eq, text_Eq, eq_self, split,
  split-append, split-Lacks, Lacks, same_text,
}
use smart_platform_services.Identity.Contracts.{unauthorized, invalid_session}
use smart_platform_services.Identity.Exec.{ok, err}
use smart_platform_services.Identity.Runtime.{AuthConfig}
use smart_platform_services.Identity.Jwt.{
  Claims, Codec, jwt_header, dot, seconds, has_content, sign, fresh_claims, check_parsed,
  verify_parts, verify,
}

-- What base64url, JSON and HMAC promise: base64url is read back, has no dot and is empty for the empty
-- text only; what is signed is read back, and no digest is empty.
pub record IsCodecFor (k : Codec) (secret : Text) (claims : Claims) : Type 0 where
  pub read_back : (s : Text) → k.from_base64url (k.base64url s) ≡ s
  pub no_dot : (s : Text) → Lacks dot (k.base64url s)
  pub not_empty : (s : Text) → has_content s ≡ true → has_content (k.base64url s) ≡ true
  pub header_parses : k.parse_header (k.header_json jwt_header) ≡ some jwt_header
  pub header_content : has_content (k.header_json jwt_header) ≡ true
  pub claims_parse : k.parse_claims (k.claims_json claims) ≡ some claims
  pub claims_content : has_content (k.claims_json claims) ≡ true
  pub mac_content : (s : Text) → has_content (k.mac secret s) ≡ true

module _ (a : AuthConfig) (k : Codec) (secret : Text) (claims : Claims)
    (h : IsCodecFor k secret claims) where
  split-sign :
      let head = k.base64url (k.header_json jwt_header) in
      let body = k.base64url (k.claims_json claims) in
      split dot (sign a k claims secret)
      ≡ head ∷ body ∷ k.base64url (k.mac secret (head ++ (dot ∷ body))) ∷ []
  unfolding sign
  split-sign =
      let head = k.base64url (k.header_json jwt_header) in
      let body = k.base64url (k.claims_json claims) in
      let signature = k.base64url (k.mac secret (head ++ (dot ∷ body))) in
      rw
        (
          append_assoc head (dot ∷ body) (dot ∷ signature),
          split-append dot head (body ++ (dot ∷ signature)) (h.no_dot (k.header_json jwt_header)),
          split-append dot body signature (h.no_dot (k.claims_json claims)),
          split-Lacks dot signature (h.no_dot (k.mac secret (head ++ (dot ∷ body)))),
        )
        refl

  -- A signed token is verified with the secret it was signed with exactly when its issuer is the
  -- configured one, it has not expired and it was not issued more than 30 seconds ahead; the claims
  -- are then those that were signed.
  pub verify-sign :
      (at : ℕ)
      → verify a k (sign a k claims secret) secret at ≡ (
          if fresh_claims a k (seconds at) claims
          then ok claims
          else err (unauthorized invalid_session))
  unfolding verify verify_parts check_parsed
  verify-sign at =
      let head = k.base64url (k.header_json jwt_header) in
      let body = k.base64url (k.claims_json claims) in
      rw
        (
          split-sign,
          h.not_empty (k.header_json jwt_header) h.header_content,
          h.not_empty (k.claims_json claims) h.claims_content,
          h.not_empty (k.mac secret (head ++ (dot ∷ body))) (h.mac_content (head ++ (dot ∷ body))),
          h.read_back (k.mac secret (head ++ (dot ∷ body))),
          eq_self (k.mac secret (head ++ (dot ∷ body))),
          h.read_back (k.header_json jwt_header),
          h.read_back (k.claims_json claims),
          h.header_parses,
          h.claims_parse,
        )
        (unfold same_text in refl)
