-- ===== src/Examples/Platform.antt =====
-- A concrete codec and a concrete configuration.
use smart_platform_services.Common.{
  ℕ, zero, suc, ◌+◌, ◌-◌, false, Option, none, some, [], ◌∷◌, ◌++◌, Text, text, length,
}
use smart_platform_services.Identity.Runtime.{AuthConfig, SessionClientContext}
use smart_platform_services.Identity.Tokens.{Draws}
use smart_platform_services.Identity.Jwt.{JwtHeader, Claims, Codec}
use smart_platform_services.Examples.{digest}

abbrev put_number : Option ℕ → Text
put_number none = 0 ∷ []
put_number (some n) = 1 ∷ n ∷ []

abbrev get_number : Text → Option ℕ × Text
get_number [] = (none, [])
get_number (zero ∷ s) = (none, s)
get_number (suc _ ∷ []) = (none, [])
get_number (suc _ ∷ n ∷ s) = (some n, s)

abbrev put_text : Option Text → Text
put_text none = 0 ∷ []
put_text (some t) = suc (length t) ∷ t

abbrev drop : ℕ → Text → Text
drop zero s = s
drop (suc n) [] = []
drop (suc n) (c ∷ s) = drop n s

abbrev take : ℕ → Text → Text
take zero s = []
take (suc n) [] = []
take (suc n) (c ∷ s) = c ∷ take n s

abbrev get_text : Text → Option Text × Text
get_text [] = (none, [])
get_text (zero ∷ s) = (none, s)
get_text (suc n ∷ s) = (some (take n s), drop n s)

abbrev write_claims : Claims → Text
write_claims c =
    put_text c.iss
    ++ (put_text c.aud
        ++ (put_number c.sub
            ++ (put_number c.sid
                ++ (put_number c.fid
                    ++ (put_text c.typ
                        ++ (put_number c.iat ++ (put_number c.exp ++ put_number c.jti)))))))

abbrev read_claims : Text → Claims
read_claims s₀ =
    let (a_issuer, s₁) = get_text s₀ in
    let (an_audience, s₂) = get_text s₁ in
    let (a_subject, s₃) = get_number s₂ in
    let (a_session, s₄) = get_number s₃ in
    let (a_family, s₅) = get_number s₄ in
    let (a_type, s₆) = get_text s₅ in
    let (issued, s₇) = get_number s₆ in
    let (expires, s₈) = get_number s₇ in
    record {
      iss = a_issuer;
      aud = an_audience;
      sub = a_subject;
      sid = a_session;
      fid = a_family;
      typ = a_type;
      iat = issued;
      exp = expires;
      jti = (get_number s₈).0;
    }

abbrev read_header : Text → JwtHeader
read_header s =
    let (algorithm, rest) = get_text s in record { alg = algorithm; typ = (get_text rest).0 }

abbrev shift : Text → Text
shift [] = []
shift (c ∷ s) = (c + 1000) ∷ shift s

abbrev unshift : Text → Text
unshift [] = []
unshift (c ∷ s) = (c - 1000) ∷ unshift s

abbrev pub codec : Codec
codec = record {
  header_json = λ h. put_text h.alg ++ put_text h.typ;
  parse_header = λ s. some (read_header s);
  claims_json = write_claims;
  parse_claims = λ s. some (read_claims s);
  base64url = shift;
  from_base64url = unshift;
  mac = λ secret s. digest (secret ++ s) ∷ [];
}

abbrev pub auth : AuthConfig
auth = record {
  jwt_access_secret = text "access";
  jwt_refresh_secret = text "refresh";
  jwt_issuer = text "smart";
  access_ttl_seconds = 900;
  refresh_ttl_seconds = 3600;
  otp_hash_secret = text "otp";
  otp_ttl_seconds = 300;
  otp_max_attempts = 5;
  otp_resend_cooldown_seconds = 60;
  otp_request_limit_per_hour = 5;
  otp_ip_limit_per_hour = 20;
  otp_device_limit_per_hour = 10;
  login_failure_limit = 5;
  login_abuse_limit = 20;
  login_window_seconds = 900;
  login_lock_seconds = 900;
  password_recovery_email_limit = 3;
  password_recovery_email_window_seconds = 900;
  password_recovery_ip_limit = 20;
  password_recovery_ip_window_seconds = 3600;
  password_recovery_device_limit = 10;
  reset_token_ttl_seconds = 600;
  legacy_phone_flows_enabled = false;
}

abbrev pub client : SessionClientContext
client = record {
  ip_address = some (text "10.0.0.1");
  user_agent = none;
  device_id = some (text "d1");
}

abbrev pub draws : Draws
draws = record { now = 100000; session_id = 21; family_id = 22; access_jti = 23; refresh_jti = 24 }

abbrev pub later_draws : Draws
later_draws = record {
  now = 200000;
  session_id = 31;
  family_id = 32;
  access_jti = 33;
  refresh_jti = 34;
}
