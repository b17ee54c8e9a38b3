-- ===== src/Identity/Auth/Refusal.antt =====
-- What an answer gives away: a sign-in that is refused, and requests for a code, look the same whether
-- or not the address has an account.
use smart_platform_services.Common.{
  ℕ, ◌+◌, ◌/◌, ◌≡◌, refl, Bool, true, false, not, Option, none, some, List, Text, arith,
  if◌then◌else◌, nat_eq, nat_Eq, Bool-cases, inl, inr,
}
use smart_platform_services.Identity.Contracts.{
  unauthorized, too_many_requests, invalid_credentials,
}
use smart_platform_services.Identity.Exec.{err}
use smart_platform_services.Identity.Runtime.{
  Runtime, AuthConfig, SessionClientContext, ThrottleKey,
}
use smart_platform_services.Identity.Store.{Store, IdentityUser}
use smart_platform_services.Identity.Throttle.{record_failure}
use smart_platform_services.Identity.Throttle.Limiter.{longest_wait, assert_allowed_lem}
use smart_platform_services.Identity.Throttle.Frame.{record_failure-OnlyThrottles}
use smart_platform_services.Identity.Tokens.{Draws}
use smart_platform_services.Identity.Jwt.{Codec}
use smart_platform_services.Identity.Users.{find_by_email}
use smart_platform_services.Identity.Auth.{normalize_email, login_keys}
use smart_platform_services.Identity.Auth.SignIn.{
  LoginInput, verifies, refuse_login, login_as, login,
}

-- The credentials are wrong: no account, an account without a password, or another password.
abbrev pub wrong_for : Runtime → AuthConfig → Codec → Text → Option IdentityUser → Bool
wrong_for r a k password none = true
wrong_for r a k password (some user) = not (verifies r a k password user)

login_as-wrong :
    (r : Runtime) (a : AuthConfig) (k : Codec) (o : Option IdentityUser) (input : LoginInput)
    (keys : List ThrottleKey) (context : SessionClientContext) (now : ℕ) (d : Draws) (store : Store)
    → wrong_for r a k input.password o ≡ true
    → login_as r a k o input keys context now d store
      ≡ (err (unauthorized invalid_credentials), (record_failure r keys now store).1)
unfolding login_as refuse_login
login_as-wrong r a k none input keys context now d store w =
    rw (record_failure-OnlyThrottles r keys now store).0 refl
login_as-wrong r a k (some user) input keys context now d store w =
    let refused : verifies r a k input.password user ≡ false = ground arith in
    rw (refused, (record_failure-OnlyThrottles r keys now store).0) refl

-- A sign-in with wrong credentials has one answer and one effect, whether the address is unknown, the
-- account has no password or the password is another: while a key of the request is blocked it is told
-- for how long, and otherwise the credentials are refused and a failure of each key is recorded.
pub login_refused :
    (r : Runtime) (a : AuthConfig) (k : Codec) (input : LoginInput) (context : SessionClientContext)
    (now : ℕ) (d : Draws) (store : Store)
    → let email = normalize_email input.email in
      let keys = login_keys a email context in
      let wait = longest_wait r store now keys in
      wrong_for r a k input.password (find_by_email email store) ≡ true
      → login r a k input context now d store ≡ (
          if nat_eq wait 0
          then (err (unauthorized invalid_credentials), (record_failure r keys now store).1)
          else (err (too_many_requests ((wait + 999) / 1000)), store))
unfolding login
login_refused r a k input context now d store w =
    let email = normalize_email input.email in
    let keys = login_keys a email context in
    let limiter = assert_allowed_lem r keys now store in
    elim (Bool-cases (nat_eq (longest_wait r store now keys) 0)) [
      | inl z ↦
          rw (limiter, z)
            (login_as-wrong r a k (find_by_email email store) input keys context now d store w)
      | inr z ↦ rw (limiter, z) refl
    ]
