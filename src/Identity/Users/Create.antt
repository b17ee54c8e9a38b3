-- ===== src/Identity/Users/Create.antt =====
-- The statements that create an account (createPhoneUser, completeEmailSignup, createSocialUser of
-- libs/identity/src/persistence/postgres-identity.repository.ts).
pub mod Unique
pub mod Histories
use smart_platform_services.Common.{
  ℕ, Bool, true, false, ◌&&◌, Option, none, some, [], ◌∷◌, Text, ltb, if◌then◌else◌, ◌==◌, nat_Eq,
  text_Eq, holds, is_none, is_some, exists_where, update_where, to_lower_case,
}
use smart_platform_services.Identity.Contracts.{
  ActorRole, renter, role_Eq, pending, active, status_Eq, SocialProvider, provider_Eq, registration,
  purpose_Eq, Error, conflict, failure, unique_violation, uq_social_identities_subject, Code,
  phone_already_registered, signup_unavailable, social_identity_conflict,
}
use smart_platform_services.Identity.Exec.{
  Exec, ok, err, pure, throw, gets, modify, transaction, catching, ◌>>=◌, ◌>>◌,
}
use smart_platform_services.Identity.Store.{Store, IdentityUser, SocialIdentity, OtpChallenge}
use smart_platform_services.Identity.Users.{find_by_id, insert_user}

abbrev pub or_conflict {ℓ} : {A : Type ℓ} {S : Type ℓ} → Code → Error → Exec S A
or_conflict code (unique_violation c) = throw (conflict code)
or_conflict code other = throw other

abbrev or_fail {ℓ} : {A : Type ℓ} {S : Type ℓ} → Option A → Exec S A
or_fail none s = (err failure, s)
or_fail (some a) s = (ok a, s)

-- The account with the id must be there after the transaction.
unfoldable pub load_user : ℕ → Exec Store IdentityUser
load_user id = do found ← gets (find_by_id id); or_fail found

pub record NewPhoneUser : Type 0 where
  pub phone : Text
  pub password_hash : Text
  pub display_name : Text
  pub role : ActorRole

abbrev pub phone_user : ℕ → NewPhoneUser → IdentityUser
phone_user id input = record {
  id = id;
  email = none;
  phone = some input.phone;
  password_hash = some input.password_hash;
  display_name = some input.display_name;
  status = pending;
  roles = input.role ∷ [];
  phone_login_enabled = true;
  deleted_at = none;
  last_login_at = none;
  email_verified_at = none;
  phone_verified_at = none;
}

pub create_phone_user : ℕ → NewPhoneUser → Exec Store IdentityUser
create_phone_user id input =
    catching (do transaction (insert_user (phone_user id input)); load_user id)
      (or_conflict phone_already_registered)

pub record CompleteEmailSignup : Type 0 where
  pub challenge_id : ℕ
  pub email : Text
  pub phone : Option Text
  pub password_hash : Text
  pub display_name : Text
  pub code_hash : ℕ
  pub completed_at : ℕ

abbrev pub can_complete : CompleteEmailSignup → OtpChallenge → Bool
can_complete input c =
    c.id == input.challenge_id
    && holds c.email input.email
    && c.purpose == registration
    && c.code_hash == input.code_hash
    && is_some c.verified_at
    && is_none c.consumed_at
    && ltb input.completed_at c.expires_at

abbrev pub email_user : ℕ → CompleteEmailSignup → IdentityUser
email_user id input = record {
  id = id;
  email = some input.email;
  phone = input.phone;
  password_hash = some input.password_hash;
  display_name = some input.display_name;
  status = active;
  roles = renter ∷ [];
  phone_login_enabled = false;
  deleted_at = none;
  last_login_at = none;
  email_verified_at = some input.completed_at;
  phone_verified_at = none;
}

-- `UPDATE otp_challenges SET consumed_at = $2 WHERE id = $1`
unfoldable pub consume_challenge : ℕ → ℕ → Store → Store
consume_challenge id at store = record store {
  challenges =
      update_where (λ c. c.id == id) (λ c. record c { consumed_at = some at }) store.challenges;
}

unfoldable pub signup_transaction : ℕ → CompleteEmailSignup → Exec Store (Option ℕ)
signup_transaction id input store =
    if exists_where (can_complete input) store.challenges
    then (do
      insert_user (email_user id input)
      modify (consume_challenge input.challenge_id input.completed_at)
      pure (some id))
        store
    else (ok none, store)

unfoldable pub load_created : Option ℕ → Exec Store (Option IdentityUser)
load_created none = pure none
load_created (some id) = do user ← load_user id; pure (some user)

unfoldable pub complete_email_signup : ℕ → CompleteEmailSignup → Exec Store (Option IdentityUser)
complete_email_signup id input =
    catching (do created ← transaction (signup_transaction id input); load_created created)
      (or_conflict signup_unavailable)

pub record NewSocialUser : Type 0 where
  pub email : Text
  pub display_name : Text
  pub role : ActorRole
  pub provider : SocialProvider
  pub provider_subject : Text

abbrev pub social_user : ℕ → NewSocialUser → ℕ → IdentityUser
social_user id input now = record {
  id = id;
  email = some (to_lower_case input.email);
  phone = none;
  password_hash = none;
  display_name = some input.display_name;
  status = active;
  roles = input.role ∷ [];
  phone_login_enabled = false;
  deleted_at = none;
  last_login_at = none;
  email_verified_at = some now;
  phone_verified_at = none;
}

insert_social_identity : SocialIdentity → Exec Store Unit
insert_social_identity si store =
    if exists_where
      (λ (x : SocialIdentity).
        x.provider == si.provider && x.provider_subject == si.provider_subject)
      store.social_identities
    then (err (unique_violation uq_social_identities_subject), store)
    else (ok tt, record store { social_identities = si ∷ store.social_identities })

social_transaction : ℕ → NewSocialUser → Exec Store Unit
social_transaction id input = do
  now ← gets (λ store. store.clock)
  insert_user (social_user id input now)
  insert_social_identity (record {
    user_id = id;
    provider = input.provider;
    provider_subject = input.provider_subject;
  })

pub create_social_user : ℕ → NewSocialUser → Exec Store IdentityUser
create_social_user id input =
    catching (do transaction (social_transaction id input); load_user id)
      (or_conflict social_identity_conflict)
