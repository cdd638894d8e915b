-- ===== src/Config/Types.antt =====
-- crates/lw-config/src/types.rs. An i32 or i128 is an integer, a u32 a natural number, a `Uuid` the
-- number that its 128 bits are; ranges are stated where they matter.
use lend_worker_stellar.Base.{ℕ, ℤ, Text, Option, List, HashMap}

abbrev pub Uuid : Type 0
Uuid = ℕ

-- `Uuid::default()`
abbrev pub nil_uuid : Uuid
nil_uuid = 0

abbrev pub Address : Type 0
Address = Text

-- operation id, then the amounts in the order of the source's fields
pub data ContractEvent : Type 0 where
  op_created : Address → ℕ → ℤ → ContractEvent
  op_started op_canceled op_paused op_resumed : ℕ → ContractEvent
  op_finished funding_withdrawn : ℕ → ℤ → ContractEvent
  op_predeposits_open op_predeposits_closed : ℕ → ContractEvent
  invested : Address → ℕ → ℤ → ℤ → ContractEvent
  invested_fiat : Address → Address → ℕ → ℤ → ContractEvent
  claimed_tokens : Address → ℕ → ℤ → ContractEvent
  refunded : Address → ℕ → ℤ → ℤ → ContractEvent
  op_lend_transfered : Address → Address → ℤ → ContractEvent
  claimed_rewards : ℕ → Address → ℤ → ContractEvent
  rewards_distributed : ℕ → ℕ → ℤ → ContractEvent

pub data ContractType : Type 0 where
  factory op_lend rewards : ContractType

pub record ObservableContract : Type 0 where
  pub contract_type : ContractType
  pub op_id : Option Uuid
  pub fop_id : Option ℤ
  pub address : Address
  pub latest_block : ℤ

abbrev pub OpMapping : Type 0
OpMapping = HashMap ℤ Uuid

pub data IndexerCommand : Type 0 where
  update_contracts : List ObservableContract → OpMapping → IndexerCommand
