-- ===== src/Examples.antt =====
-- Tests of the definitions, and the theorems at concrete inputs: the data that they share.
pub mod Codes
pub mod Platform
pub mod Tokens
pub mod Flows
pub mod Access
pub mod Outbox
pub mod Requests
pub mod Sessions
pub mod Throttles
pub mod Resets
pub mod Properties
pub mod Owners
pub mod Rentals
pub mod Profiles
pub mod Https
pub mod Accounts
pub mod Passwords
pub mod Settings
pub mod Assets
pub mod SignOut
use smart_platform_services.Common.{
  ℕ, ◌+◌, ◌*◌, true, false, none, some, [], ◌∷◌, Text, text, nat_eq,
}
use smart_platform_services.Identity.Contracts.{renter, active, registration, password_reset}
use smart_platform_services.Identity.Store.{
  Store, IdentityUser, OtpChallenge, AuthSession, RecoveryAudit, recovery_reset, no_outcome,
}
use smart_platform_services.Identity.Otp.{NewChallenge, challenge_row}
use smart_platform_services.Identity.Runtime.{Runtime}

-- A stand-in for the digests: distinct for distinct texts.
abbrev pub digest : Text → ℕ
digest [] = 7
digest (c ∷ s) = let rest = digest s in c + 2097152 * rest

abbrev pub runtime : Runtime
runtime = record {
  hmac = digest;
  sha256 = digest;
  hmac_word = digest;
  uuid_text = λ id. id ∷ [];
  scrypt_hash = λ salt password. password;
  scrypt_verify = λ password hash. nat_eq (digest password) (digest hash);
}

abbrev pub ann : IdentityUser
ann = record {
  id = 1;
  email = some (text "ann@site.vn");
  phone = none;
  password_hash = some (text "old-hash");
  display_name = some (text "Ann");
  status = active;
  roles = renter ∷ [];
  phone_login_enabled = false;
  deleted_at = none;
  last_login_at = none;
  email_verified_at = some 10;
  phone_verified_at = none;
}

abbrev pub empty_store : Store
empty_store = record {
  clock = 100;
  users = ann ∷ [];
  social_identities = [];
  challenges = [];
  reset_tokens = [];
  sessions = [];
  throttles = [];
  outbox = [];
  audits = [];
}

-- A recovery code for Ann.
abbrev pub recovery_code : NewChallenge
recovery_code = record {
  id = 10;
  email = some (text "ann@site.vn");
  phone = none;
  purpose = password_reset;
  code_hash = 555;
  max_attempts = 3;
  expires_at = 1000;
}

abbrev pub coded_store : Store
coded_store = record empty_store { challenges = challenge_row recovery_code 100 ∷ [] }

abbrev pub audit : RecoveryAudit
audit = record {
  event_type = recovery_reset;
  user_id = some 1;
  masked_email = text "an*@site.vn";
  occurred_at = 200;
  ip_address = none;
  user_agent = none;
  outcome = no_outcome;
}
