-- ===== src/Storage/Operations/Frame.antt =====
-- The statements on the operations leave the fiat holdings alone.
use lend_worker_stellar.Base.{
  ℤ, Json, HashMap, [], ◌∷◌, ok, Result-cases, collect_all, ◌≡◌, sym, ap, inl, inr, arith,
}
use lend_worker_stellar.Domain.Operation.{FundingStatus}
use lend_worker_stellar.Domain.Activity.{ActivityEventType}
use lend_worker_stellar.Storage.Tables.{Db}
use lend_worker_stellar.Storage.Operations
use lend_worker_stellar.Storage.Operations.{
  OperationProgressUpdate, set_progress, set_status, update_for, update_operation_progress,
  update_operation_status, valid_updates, op_created_data, add_first_chain,
}

pub update_operation_progress-holdings :
    (updates : HashMap ℤ OperationProgressUpdate) (db db' : Db)
    → update_operation_progress updates db ≡ ok db'
    → db'.fiat_holdings ≡ db.fiat_holdings
unfolding update_operation_progress
update_operation_progress-holdings updates db db' h =
    elim (Result-cases (collect_all (λ r. set_progress (update_for updates r) r) db.operations)) [
      | inr (m, e) ↦ cc (rw e at h)
      | inl (rows, e) ↦ let h' = rw e at h in ground arith
    ]

write_statuses-unheld :
    (valid : HashMap ℤ FundingStatus) (db db' : Db)
    → Operations.write_statuses valid db ≡ ok db'
    → db'.fiat_holdings ≡ db.fiat_holdings
unfolding Operations.write_statuses
write_statuses-unheld [] db db' h =
    let same : db ≡ db' = cc in ap (λ (x : Db). x.fiat_holdings) (sym same)
write_statuses-unheld (u ∷ valid) db db' h =
    elim (Result-cases (collect_all (λ r. set_status (update_for (u ∷ valid) r) r) db.operations)) [
      | inr (m, e) ↦ cc (rw e at h)
      | inl (rows, e) ↦ let h' = rw e at h in ground arith
    ]

pub update_operation_status-holdings :
    (updates : HashMap ℤ ActivityEventType) (db db' : Db)
    → update_operation_status updates db ≡ ok db'
    → db'.fiat_holdings ≡ db.fiat_holdings
unfolding update_operation_status
update_operation_status-holdings updates db db' h =
    write_statuses-unheld (valid_updates updates) db db' h

pub add_first_chain-holdings :
    (op : ℤ) (d : Json) (db db' : Db)
    → add_first_chain op d db ≡ ok db'
    → db'.fiat_holdings ≡ db.fiat_holdings
unfolding add_first_chain
add_first_chain-holdings op d db db' h = elim (Result-cases (op_created_data d)) [
  | inr (m, e) ↦ cc (rw e at h)
  | inl (created, e) ↦ let h' = rw e at h in ground arith
]
