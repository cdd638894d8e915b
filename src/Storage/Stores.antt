-- ===== src/Storage/Stores.antt =====
-- The traits `ActivityStore`, `OperationStore` and `FiatHoldingStore` of crates/lw-storage/src as records
-- of operations on a state, and the Postgres stores. A statement that fails leaves the state as it was.
use lend_worker_stellar.Base.{ℤ, Json, HashMap, List, Result}
use lend_worker_stellar.Config.Types.{Uuid}
use lend_worker_stellar.Domain.Operation.{Operation, FiatHolding}
use lend_worker_stellar.Domain.Activity.{Activity, ActivityEventType}
use lend_worker_stellar.Storage.Tables.{Db}
use lend_worker_stellar.Storage.Activities
use lend_worker_stellar.Storage.Latest
use lend_worker_stellar.Storage.Activities.{InvestedTotals, RefundedTotals}
use lend_worker_stellar.Storage.Operations
use lend_worker_stellar.Storage.Operations.{OperationProgressUpdate}

pub record ActivityStore (S : Type 0) : Type 0 where
  pub insert_many : List Activity → S → Result S
  pub get_oplend_latest_blocks : Uuid → S → Result ℤ
  pub get_rewards_latest_blocks : S → Result ℤ
  pub get_factory_latest_block : S → Result ℤ
  pub get_total_invested_amounts : List ℤ → S → Result (HashMap ℤ InvestedTotals)
  pub get_total_refunded_amounts : List ℤ → S → Result (HashMap ℤ RefundedTotals)
  pub get_total_stellar_invested_amounts : List ℤ → S → Result (HashMap ℤ InvestedTotals)
  pub get_total_stellar_refunded_amounts : List ℤ → S → Result (HashMap ℤ RefundedTotals)
  pub get_operation_participants : List ℤ → S → Result (HashMap ℤ ℤ)
  pub get_operation_status_history : List ℤ → S → Result (HashMap ℤ ActivityEventType)

pub record OperationStore (S : Type 0) : Type 0 where
  pub get_all : S → Result (List Operation)
  pub get_op_id_from_fop_id : ℤ → S → Result Uuid
  pub get_ongoing_operations : S → Result (List ℤ)
  pub get_unfinished_operations : S → Result (List ℤ)
  pub update_operation_progress : HashMap ℤ OperationProgressUpdate → S → Result S
  pub update_operation_status : HashMap ℤ ActivityEventType → S → Result S
  pub add_first_chain : ℤ → Json → S → Result S
  pub add_supported_chain : ℤ → Json → S → Result S

pub record FiatHoldingStore (S : Type 0) : Type 0 where
  pub insert_holding : FiatHolding → S → Result S

-- the three that a `Handler` holds
pub record Stores (S : Type 0) : Type 0 where
  pub activity : ActivityStore S
  pub operations : OperationStore S
  pub fiat_holdings : FiatHoldingStore S

abbrev pub pg_activity_store : ActivityStore Db
pg_activity_store = record {
  insert_many = Activities.insert_many;
  get_oplend_latest_blocks = Latest.get_oplend_latest_blocks;
  get_rewards_latest_blocks = Latest.get_rewards_latest_blocks;
  get_factory_latest_block = Latest.get_factory_latest_block;
  get_total_invested_amounts = Activities.get_total_invested_amounts;
  get_total_refunded_amounts = Activities.get_total_refunded_amounts;
  get_total_stellar_invested_amounts = Activities.get_total_stellar_invested_amounts;
  get_total_stellar_refunded_amounts = Activities.get_total_stellar_refunded_amounts;
  get_operation_participants = Activities.get_operation_participants;
  get_operation_status_history = Activities.get_operation_status_history;
}

abbrev pub pg_operation_store : OperationStore Db
pg_operation_store = record {
  get_all = Operations.get_all;
  get_op_id_from_fop_id = Operations.get_op_id_from_fop_id;
  get_ongoing_operations = Operations.get_ongoing_operations;
  get_unfinished_operations = Operations.get_unfinished_operations;
  update_operation_progress = Operations.update_operation_progress;
  update_operation_status = Operations.update_operation_status;
  add_first_chain = Operations.add_first_chain;
  add_supported_chain = Operations.add_supported_chain;
}

abbrev pub pg_fiat_holding_store : FiatHoldingStore Db
pg_fiat_holding_store = record { insert_holding = Operations.insert_holding }

abbrev pub pg_stores : Stores Db
pg_stores = record {
  activity = pg_activity_store;
  operations = pg_operation_store;
  fiat_holdings = pg_fiat_holding_store;
}
