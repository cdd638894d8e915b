-- ===== src/Domain/Operation.antt =====
-- crates/lw-domain/src/op_model.rs and fiat_holdings.rs
use lend_worker_stellar.Base.{ℕ, ℤ, ◌-◌, Text, Option, none, List, Bool}
use lend_worker_stellar.Config.Types.{Uuid, Address, nil_uuid}

-- `saturating_sub` on u128: the subtraction of ℕ stops at 0 too.
unfoldable pub net_funded_shares : ℕ → ℕ → ℕ
net_funded_shares invested_shares refunded_shares = invested_shares - refunded_shares

pub data FundingStatus : Type 0 where
  open_status finished paused predeposit upcoming canceled redemption closed : FundingStatus

pub record SupportedChains : Type 0 where
  pub op_token : Address
  pub chain_id : ℤ
  pub lz_endpoint_id : ℤ
  pub primary : Bool

pub record Operation : Type 0 where
  pub id : Uuid
  pub funding_status : FundingStatus
  pub funding_goal : Option Text
  pub shares_sold : Option Text
  pub stellar_shares_sold : Option Text
  pub funding_participants : Option ℤ
  pub total_shares : Option Text
  pub stellar_shares : Option Text
  pub supported_chains : List SupportedChains
  pub factory_op_id : Option ℤ

-- Seconds since the epoch, for `DateTime<Utc>`.
abbrev pub Time : Type 0
Time = ℤ

pub record FiatHolding : Type 0 where
  pub id : Uuid
  pub user_address : Address
  pub value : Text
  pub factory_op_id : ℤ
  pub withdrew_at : Option Time
  pub created_at : Time

-- `FiatHolding::new`; `now` is `Utc::now()`
unfoldable pub new_fiat_holding : Time → ℤ → Address → Text → FiatHolding
new_fiat_holding now factory_op_id user_address value = record {
  id = nil_uuid;
  user_address = user_address;
  value = value;
  factory_op_id = factory_op_id;
  withdrew_at = none;
  created_at = now;
}

unfoldable pub set_created_at : FiatHolding → Time → FiatHolding
set_created_at h new_date = record h { created_at = new_date }
