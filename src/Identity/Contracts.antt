-- ===== src/Identity/Contracts.antt =====
-- libs/identity/src/public/identity.contracts.ts: roles, statuses, providers and what the services
-- answer; the purposes of libs/identity/src/persistence/identity.repository.ts; the exceptions.
use smart_platform_services.Common.{ℕ, ◌≡◌, ◌↔◌, Bool, true, false, List, arith, Eq}

pub data ActorRole : Type 0 where
  renter owner admin : ActorRole

pub data ActorStatus : Type 0 where
  pending active suspended disabled : ActorStatus

pub data SocialProvider : Type 0 where
  google facebook apple : SocialProvider

pub data OtpPurpose : Type 0 where
  registration login password_reset : OtpPurpose

abbrev pub same_role : ActorRole → ActorRole → Bool
same_role renter renter = true
same_role owner owner = true
same_role admin admin = true
same_role _ _ = false

pub same_role_iff : (a b : ActorRole) → (same_role a b ≡ true) ↔ (a ≡ b)
same_role_iff a b = ground arith

instance abbrev pub role_Eq : Eq ActorRole
role_Eq = record { test = same_role; decides = same_role_iff }

abbrev pub same_status : ActorStatus → ActorStatus → Bool
same_status pending pending = true
same_status active active = true
same_status suspended suspended = true
same_status disabled disabled = true
same_status _ _ = false

pub same_status_iff : (a b : ActorStatus) → (same_status a b ≡ true) ↔ (a ≡ b)
same_status_iff a b = ground arith

instance abbrev pub status_Eq : Eq ActorStatus
status_Eq = record { test = same_status; decides = same_status_iff }

abbrev pub same_provider : SocialProvider → SocialProvider → Bool
same_provider google google = true
same_provider facebook facebook = true
same_provider apple apple = true
same_provider _ _ = false

pub same_provider_iff : (a b : SocialProvider) → (same_provider a b ≡ true) ↔ (a ≡ b)
same_provider_iff a b = ground arith

instance abbrev pub provider_Eq : Eq SocialProvider
provider_Eq = record { test = same_provider; decides = same_provider_iff }

abbrev pub same_purpose : OtpPurpose → OtpPurpose → Bool
same_purpose registration registration = true
same_purpose login login = true
same_purpose password_reset password_reset = true
same_purpose _ _ = false

pub same_purpose_iff : (a b : OtpPurpose) → (same_purpose a b ≡ true) ↔ (a ≡ b)
same_purpose_iff a b = ground arith

instance abbrev pub purpose_Eq : Eq OtpPurpose
purpose_Eq = record { test = same_purpose; decides = same_purpose_iff }

pub record AuthenticatedActor : Type 0 where
  pub id : ℕ
  pub roles : List ActorRole
  pub status : ActorStatus
  pub session_id : ℕ

-- The `code` of an exception's body.
pub data Code : Type 0 where
  phone_already_registered signup_unavailable social_identity_conflict : Code
  account_unverified account_inactive invalid_credentials : Code
  invalid_otp password_recovery_otp_invalid password_reset_token_invalid : Code
  password_confirmation_mismatch password_unchanged : Code
  social_provider_unsupported social_signup_details_required : Code
  explicit_identity_link_required invalid_session : Code
  legacy_phone_auth_disabled otp_provider_unavailable : Code
  actor_not_found actor_inactive role_forbidden permission_policy_undefined : Code
  bearer_token_required profile_unavailable profile_incomplete : Code
  profile_update_unavailable : Code
  property_not_found room_not_found room_not_bookable room_active_contract : Code
  property_status_owner_forbidden room_status_owner_forbidden : Code
  invalid_room_batch mixed_room_batch : Code
  asset_not_ready asset_not_found : Code

-- The database's constraints that an insertion can violate.
pub data Constraint : Type 0 where
  users_pkey uq_users_email_normalized uq_users_legacy_phone_login : Constraint
  uq_social_identities_subject : Constraint
  otp_challenges_pkey uq_otp_challenges_active uq_otp_challenges_active_email : Constraint
  uq_password_reset_tokens_hash uq_password_reset_tokens_challenge : Constraint
  auth_sessions_pkey auth_sessions_refresh_token_hash_key outbox_events_pkey : Constraint
  properties_pkey rooms_pkey uq_rooms_property_code : Constraint

-- What a method throws: an `HttpException` of one of the classes below, the database's unique
-- violation, or any other error.
pub data Error : Type 0 where
  bad_request unauthorized forbidden not_found conflict service_unavailable : Code → Error
  too_many_requests : ℕ → Error
  unique_violation : Constraint → Error
  failure : Error
