-- ===== src/Identity/Jwt.antt =====
-- `sign` and the three `verify…` methods of libs/identity/src/security/jwt-session.service.ts. JSON,
-- base64url and the HMAC are those of Node.js and are a parameter, Codec. A claim that is a uuid is a
-- number; a field of the claims is none when the JSON has it not, or with another type.
use smart_platform_services.Common.{
  ℕ, ◌+◌, ◌/◌, Bool, true, false, not, ◌&&◌, Option, none, some, List, [], ◌∷◌, ◌++◌, Text, text,
  ltb, leb, if◌then◌else◌, ◌==◌, nat_Eq, text_Eq, holds, split,
}
use smart_platform_services.Identity.Contracts.{status_Eq, unauthorized, invalid_session}
use smart_platform_services.Identity.Exec.{Result, ok, err}
use smart_platform_services.Identity.Runtime.{AuthConfig}

pub record JwtHeader : Type 0 where
  pub alg : Option Text
  pub typ : Option Text

-- `AccessClaims` and `RefreshClaims`, and what `JSON.parse` may give in their place.
pub record Claims : Type 0 where
  pub iss : Option Text
  pub aud : Option Text
  pub sub : Option ℕ
  pub sid : Option ℕ
  pub fid : Option ℕ
  pub typ : Option Text
  pub iat : Option ℕ
  pub exp : Option ℕ
  pub jti : Option ℕ

-- `JSON.stringify` and `JSON.parse` of the two objects, base64url of a Buffer, and
-- `createHmac('sha256', secret).update(text).digest()`.
pub record Codec : Type 0 where
  pub header_json : JwtHeader → Text
  pub parse_header : Text → Option JwtHeader
  pub claims_json : Claims → Text
  pub parse_claims : Text → Option Claims
  pub base64url : Text → Text
  pub from_base64url : Text → Text
  pub mac : Text → Text → Text

-- What `verifyAccess` and `verifyRefresh` have checked to be there.
pub record AccessIds : Type 0 where
  pub user_id : ℕ
  pub session_id : ℕ

pub record RefreshIds : Type 0 where
  pub user_id : ℕ
  pub session_id : ℕ
  pub family_id : ℕ

abbrev pub jwt_header : JwtHeader
jwt_header = record { alg = some (text "HS256"); typ = some (text "JWT") }

abbrev pub dot : ℕ
dot = b'.'

abbrev pub seconds : ℕ → ℕ
seconds at = at / 1000

-- Two buffers are equal: their lengths, and `timingSafeEqual`.
abbrev pub same_bytes : Text → Text → Bool
same_bytes actual expected = actual == expected

abbrev pub has_content : Text → Bool
has_content [] = false
has_content (c ∷ s) = true

abbrev pub same_header : JwtHeader → Bool
same_header h = holds h.alg (text "HS256") && holds h.typ (text "JWT")

abbrev after_now : ℕ → Option ℕ → Bool
after_now now none = false
after_now now (some exp) = ltb now exp

abbrev issued_by : ℕ → Option ℕ → Bool
issued_by now none = false
issued_by now (some iat) = leb iat (now + 30)

module _ (a : AuthConfig) (k : Codec) where
  unfoldable pub sign : Claims → Text → Text
  sign claims secret =
      let unsigned =
        k.base64url (k.header_json jwt_header) ++ (dot ∷ k.base64url (k.claims_json claims)) in
      unsigned ++ (dot ∷ k.base64url (k.mac secret unsigned))

  abbrev pub fresh_claims : ℕ → Claims → Bool
  fresh_claims now c = holds c.iss a.jwt_issuer && after_now now c.exp && issued_by now c.iat

  unfoldable pub check_parsed : ℕ → Option JwtHeader → Option Claims → Result Claims
  check_parsed now (some header) (some claims) =
      if same_header header && fresh_claims now claims
      then ok claims
      else err (unauthorized invalid_session)
  check_parsed now _ _ = err (unauthorized invalid_session)

  unfoldable pub verify_parts : List Text → Text → ℕ → Result Claims
  verify_parts (header_part ∷ payload_part ∷ signature_part ∷ []) secret at =
      if not (has_content header_part && has_content payload_part && has_content signature_part)
      then err (unauthorized invalid_session)
      else if not (
          same_bytes (k.from_base64url signature_part)
            (k.mac secret (header_part ++ (dot ∷ payload_part))))
      then err (unauthorized invalid_session)
      else check_parsed (seconds at) (k.parse_header (k.from_base64url header_part))
          (k.parse_claims (k.from_base64url payload_part))
  verify_parts _ secret at = err (unauthorized invalid_session)

  -- `verify`, at the time of its `Date.now()`
  unfoldable pub verify : Text → Text → ℕ → Result Claims
  verify token secret at = verify_parts (split dot token) secret at

  unfoldable pub access_ids : Result Claims → Result AccessIds
  access_ids (err e) = err e
  access_ids (ok c) = elim c.sub [
    | none ↦ err (unauthorized invalid_session)
    | some sub ↦ elim c.sid [
      | none ↦ err (unauthorized invalid_session)
      | some sid ↦
          if holds c.typ (text "access") && holds c.aud (text "smart-platform-api")
          then ok (record { user_id = sub; session_id = sid })
          else err (unauthorized invalid_session)
    ]
  ]

  unfoldable pub refresh_ids : Result Claims → Result RefreshIds
  refresh_ids (err e) = err e
  refresh_ids (ok c) = elim c.sub [
    | none ↦ err (unauthorized invalid_session)
    | some sub ↦ elim c.sid [
      | none ↦ err (unauthorized invalid_session)
      | some sid ↦ elim c.fid [
        | none ↦ err (unauthorized invalid_session)
        | some fid ↦
            if holds c.typ (text "refresh") && holds c.aud (text "smart-platform-auth")
            then ok (record { user_id = sub; session_id = sid; family_id = fid })
            else err (unauthorized invalid_session)
      ]
    ]
  ]

  unfoldable pub verify_access : Text → ℕ → Result AccessIds
  verify_access token at = access_ids (verify token a.jwt_access_secret at)

  unfoldable pub verify_refresh : Text → ℕ → Result RefreshIds
  verify_refresh token at = refresh_ids (verify token a.jwt_refresh_secret at)
