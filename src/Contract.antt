-- ===== src/Contract.antt =====
-- The rows of the table of contracts (database/migrations): what libs/property and libs/contract read.
pub mod Query
pub mod Rentals
use smart_platform_services.Common.{ℕ, ◌≡◌, ◌↔◌, Bool, true, false, Option, Text, arith, Eq}

pub data ContractStatus : Type 0 where
  draft pending_signatures active terminated cancelled expired : ContractStatus

abbrev pub is_active : ContractStatus → Bool
is_active active = true
is_active _ = false

-- `ends_on` is the text of the date.
pub record ContractRow : Type 0 where
  pub id : ℕ
  pub room_id : ℕ
  pub renter_id : ℕ
  pub status : ContractStatus
  pub ends_on : Option Text
  pub owner_signed_at : Option ℕ
  pub renter_signed_at : Option ℕ
  pub activated_at : Option ℕ
