-- ===== src/Configuration/Bounds.antt =====
-- What a validated environment says of the numbers and the secrets of the configuration.
use smart_platform_services.Common.{
  ℕ, suc, zero, ◌≤◌, ◌≡◌, refl, Bool, true, ◌&&◌, Option, none, some, List, [], ◌∷◌, Text, text,
  leb, length, arith, Option-cases, Bool-cases, inl, inr, is_truthy,
}
use smart_platform_services.Identity.Runtime.{AuthConfig}
use smart_platform_services.Configuration.{
  Environment, Reading, Variable, numeric, secret, all_of, satisfies, is_valid, environment_schema,
  validate_environment,
}
use smart_platform_services.Configuration.Sections.{number_or, auth_section}

abbrev pub IsBetween : ℕ → ℕ → ℕ → Type 0
IsBetween least most n = (least ≤ n) × (n ≤ most)

-- `Number` reads what Joi reads as a number.
abbrev pub Agree : Reading → Type 0
Agree r = (t : Text) (n : ℕ) → r.joi_number t ≡ some n → r.number t ≡ some n

-- The bounds of the schema on the numbers and the secrets of the auth section.
abbrev pub IsBounded : AuthConfig → Type 0
IsBounded c =
    (32 ≤ length c.jwt_access_secret)
    × (32 ≤ length c.jwt_refresh_secret)
    × (32 ≤ length c.otp_hash_secret)
    × IsBetween 60 3600 c.access_ttl_seconds
    × IsBetween 3600 7776000 c.refresh_ttl_seconds
    × IsBetween 60 900 c.otp_ttl_seconds
    × IsBetween 1 10 c.otp_max_attempts
    × IsBetween 1 3600 c.otp_resend_cooldown_seconds
    × IsBetween 1 100 c.otp_request_limit_per_hour
    × IsBetween 1 1000 c.otp_ip_limit_per_hour
    × IsBetween 1 1000 c.otp_device_limit_per_hour
    × IsBetween 1 20 c.login_failure_limit
    × IsBetween 1 1000 c.login_abuse_limit
    × IsBetween 60 86400 c.login_window_seconds
    × IsBetween 60 86400 c.login_lock_seconds
    × IsBetween 1 100 c.password_recovery_email_limit
    × IsBetween 60 86400 c.password_recovery_email_window_seconds
    × IsBetween 1 1000 c.password_recovery_ip_limit
    × IsBetween 60 86400 c.password_recovery_ip_window_seconds
    × IsBetween 1 1000 c.password_recovery_device_limit
    × IsBetween 60 900 c.reset_token_ttl_seconds

-- There is a value, and it has the property.
abbrev pub Succeeds : {A : Type 0} → (A → Type 0) → Option A → Type 0
Succeeds {A} P o = (a : A) × (o ≡ some a) × P a

abbrev pub nth {ℓ} : {A : Type ℓ} → ℕ → List A → Option A
nth n [] = none
nth zero (a ∷ xs) = some a
nth (suc n) (a ∷ xs) = nth n xs

pub all_of-nth {ℓ} :
    {A : Type ℓ} (p : A → Bool) (xs : List A) (n : ℕ) (a : A)
    → all_of p xs ≡ true
    → nth n xs ≡ some a
    → p a ≡ true
all_of-nth p [] n a all found = absurd (cc (found))
all_of-nth p (b ∷ xs) zero a all found = elim (Bool-cases (p b)) [
  | inl t ↦ cc
  | inr t ↦ absurd (cc (rw t at all))
]
all_of-nth p (b ∷ xs) (suc n) a all found = elim (Bool-cases (p b)) [
  | inl t ↦ all_of-nth p xs n a (rw t at all) found
  | inr t ↦ absurd (cc (rw t at all))
]

between : {least most n : ℕ} → (leb least n && leb n most) ≡ true → (least ≤ n) × (n ≤ most)
between h = ground arith

long_enough :
    (least : ℕ) (t : Text) → (is_truthy (some t) && leb least (length t)) ≡ true → least ≤ length t
long_enough least t h = ground arith

module _ (r : Reading) (env : Environment) (valid : validate_environment r env ≡ true) where
  pub valid-nth :
      (n : ℕ) (v : Variable) → nth n environment_schema ≡ some v → is_valid r env v ≡ true
  unfolding validate_environment
  valid-nth n v found = all_of-nth (is_valid r env) environment_schema n v valid found

module _ (r : Reading) (env : Environment) (agree : Agree r) where
  number_or-IsBetween :
      (key : Text) (least most fallback : ℕ)
      → is_valid r env (numeric key least most) ≡ true
      → leb least fallback ≡ true
      → leb fallback most ≡ true
      → Succeeds (IsBetween least most) (number_or r env key fallback)
  unfolding is_valid satisfies number_or
  number_or-IsBetween key least most fallback h low high = elim (Option-cases (env key)) [
    | inl e ↦ (fallback, rw (number_or, e) refl, (ground arith, ground arith))
    | inr (t, e) ↦ elim (Option-cases (r.joi_number t)) [
      | inl k ↦ absurd (cc (rw (e, k) at h))
      | inr (n, k) ↦ (n, rw (number_or, e) (agree t n k), between (rw (e, k) at h))
    ]
  ]

  module _ (valid : validate_environment r env ≡ true) where
    number-nth :
        (n : ℕ) (key : Text) (least most fallback : ℕ)
        → nth n environment_schema ≡ some (numeric key least most)
        → leb least fallback ≡ true
        → leb fallback most ≡ true
        → Succeeds (IsBetween least most) (number_or r env key fallback)
    number-nth n key least most fallback found low high =
        number_or-IsBetween key least most fallback
          (valid-nth r env valid n (numeric key least most) found) low high

    secret-nth :
        (n : ℕ) (key : Text) (least : ℕ)
        → nth n environment_schema ≡ some (secret key least)
        → Succeeds (λ t. least ≤ length t) (env key)
    unfolding is_valid satisfies
    secret-nth n key least found =
        let h = valid-nth r env valid n (secret key least) found in
        elim (Option-cases (env key)) [
          | inl e ↦ absurd (cc (rw e at h))
          | inr (t, e) ↦ (t, e, long_enough least t (rw e at h))
        ]

    -- When the environment is valid, and Number reads what Joi takes for a number as that number, the auth
    -- section of the configuration has its three secrets (of the access tokens, the refresh tokens and the
    -- one-time codes) with at least 32 characters each, and every number of it within the bounds of the
    -- schema.
    pub auth_section-IsBounded : Succeeds IsBounded (auth_section r env)
    unfolding auth_section environment_schema
    auth_section-IsBounded =
        let (_, e0, b0) = secret-nth 17 (text "JWT_ACCESS_SECRET") 32 refl in
        let (_, e1, b1) = secret-nth 18 (text "JWT_REFRESH_SECRET") 32 refl in
        let (_, e2, b2) = secret-nth 22 (text "OTP_HASH_SECRET") 32 refl in
        let (_, f0, g0) =
          number-nth 20 (text "JWT_ACCESS_TTL_SECONDS") 60 3600 900 refl refl refl in
        let (_, f1, g1) =
          number-nth 21 (text "JWT_REFRESH_TTL_SECONDS") 3600 7776000 2592000 refl refl refl in
        let (_, f2, g2) = number-nth 23 (text "OTP_TTL_SECONDS") 60 900 600 refl refl refl in
        let (_, f3, g3) = number-nth 24 (text "OTP_MAX_ATTEMPTS") 1 10 5 refl refl refl in
        let (_, f4, g4) =
          number-nth 25 (text "OTP_RESEND_COOLDOWN_SECONDS") 1 3600 60 refl refl refl in
        let (_, f5, g5) =
          number-nth 26 (text "OTP_REQUEST_LIMIT_PER_HOUR") 1 100 5 refl refl refl in
        let (_, f6, g6) = number-nth 27 (text "OTP_IP_LIMIT_PER_HOUR") 1 1000 20 refl refl refl in
        let (_, f7, g7) =
          number-nth 28 (text "OTP_DEVICE_LIMIT_PER_HOUR") 1 1000 20 refl refl refl in
        let (_, f8, g8) = number-nth 35 (text "LOGIN_FAILURE_LIMIT") 1 20 5 refl refl refl in
        let (_, f9, g9) = number-nth 36 (text "LOGIN_ABUSE_LIMIT") 1 1000 20 refl refl refl in
        let (_, f10, g10) =
          number-nth 37 (text "LOGIN_WINDOW_SECONDS") 60 86400 900 refl refl refl in
        let (_, f11, g11) = number-nth 38 (text "LOGIN_LOCK_SECONDS") 60 86400 900 refl refl refl in
        let (_, f12, g12) =
          number-nth 29 (text "PASSWORD_RECOVERY_EMAIL_LIMIT") 1 100 5 refl refl refl in
        let (_, f13, g13) =
          number-nth 30 (text "PASSWORD_RECOVERY_EMAIL_WINDOW_SECONDS") 60 86400 900 refl refl
            refl in
        let (_, f14, g14) =
          number-nth 31 (text "PASSWORD_RECOVERY_IP_LIMIT") 1 1000 20 refl refl refl in
        let (_, f15, g15) =
          number-nth 32 (text "PASSWORD_RECOVERY_IP_WINDOW_SECONDS") 60 86400 3600 refl refl refl in
        let (_, f16, g16) =
          number-nth 33 (text "PASSWORD_RECOVERY_DEVICE_LIMIT") 1 1000 20 refl refl refl in
        let (_, f17, g17) =
          number-nth 34 (text "RESET_TOKEN_TTL_SECONDS") 60 900 600 refl refl refl in
        rw
          (
            e0, e1, e2, f0, f1, f2, f3, f4, f5, f6, f7, f8, f9, f10, f11, f12, f13, f14, f15, f16,
            f17,
          )
          (
            _,
            refl,
            (
              b0, b1, b2, g0, g1, g2, g3, g4, g5, g6, g7, g8, g9, g10, g11, g12, g13, g14, g15, g16,
              g17,
            ),
          )
