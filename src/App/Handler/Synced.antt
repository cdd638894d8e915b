-- ===== src/App/Handler/Synced.antt =====
-- The two syncs write the tables alone, and leave every operation's identity and chains as they are.
use lend_worker_stellar.Base.{
  ℤ, Bool, HashMap, keep, List, [], ◌∷◌, Result, ok, err, Result-cases, ◌≡◌, refl, inl, inr,
}
use lend_worker_stellar.Config.Env.{LocalEnv}
use lend_worker_stellar.Domain.Operation.{Time}
use lend_worker_stellar.Domain.Activity.{ActivityEventType}
use lend_worker_stellar.Storage.Tables.{Db, OperationRow}
use lend_worker_stellar.Storage.Activities.{get_operation_status_history}
use lend_worker_stellar.Storage.Operations.{get_ongoing_operations}
use lend_worker_stellar.Storage.Operations.Aligned.{
  Alike, Alike-refl, StillAs, Aligned, Aligned-refl, update_operation_progress-Aligned,
  update_operation_status-Aligned,
}
use lend_worker_stellar.Storage.Stores.{pg_stores}
use lend_worker_stellar.App.Discovery.{World}
use lend_worker_stellar.App.Handler.{
  write, query_progress, progress_updates, sync_op_progress, stellar_chain_is_primary,
  write_statuses, write_primary, sync_statuses,
}

-- The handler and the commands sent are the same, and the operations are aligned.
pub record Settles (R : OperationRow → OperationRow → Type 0) (w w' : World Db) : Type 0 where
  pub handler_eq : w'.handler ≡ w.handler
  pub sent_eq : w'.sent ≡ w.sent
  pub aligned : Aligned R w.store.operations w'.store.operations

Settles-refl :
    (R : OperationRow → OperationRow → Type 0) (w : World Db)
    → ((r : OperationRow) → R r r)
    → Settles R w w
Settles-refl R w same = record {
  handler_eq = refl;
  sent_eq = refl;
  aligned = Aligned-refl R w.store.operations same;
}

module _ (cfg : LocalEnv) (now : Time) (is_open : Bool) where
  write-Settles :
      (R : OperationRow → OperationRow → Type 0) (w : World Db) (r : Result Db)
      → ((r : OperationRow) → R r r)
      → ((db' : Db) → r ≡ ok db' → Aligned R w.store.operations db'.operations)
      → Settles R w (write cfg now pg_stores is_open w r)
  write-Settles R w (ok db') same h = record {
    handler_eq = refl;
    sent_eq = refl;
    aligned = h db' refl;
  }
  write-Settles R w (err e) same h = Settles-refl R w same

  still : (r : OperationRow) → StillAs r r
  still r = (Alike-refl r, refl)

  pub sync_op_progress-Settles :
      (w : World Db) → Settles StillAs w (sync_op_progress cfg now pg_stores is_open w)
  unfolding sync_op_progress
  sync_op_progress-Settles w = elim (Result-cases (get_ongoing_operations w.store)) [
    | inr (m, e) ↦ rw (sync_op_progress, e) (Settles-refl StillAs w still)
    | inl ([], e) ↦ rw (sync_op_progress, e) (Settles-refl StillAs w still)
    | inl (op ∷ ops, e) ↦
        elim (Result-cases (query_progress cfg now pg_stores is_open (op ∷ ops) w.store)) [
          | inr (m, q) ↦ rw (sync_op_progress, e, q) (Settles-refl StillAs w still)
          | inl (p, q) ↦
              rw (sync_op_progress, e, q)
                (write-Settles StillAs w _ still
                  (update_operation_progress-Aligned (progress_updates p (op ∷ ops)) w.store))
        ]
  ]

  write_statuses-Settles :
      (w : World Db) (mine : HashMap ℤ ActivityEventType)
      → Settles Alike w (write_statuses cfg now pg_stores is_open w mine)
  write_statuses-Settles w [] = Settles-refl Alike w Alike-refl
  write_statuses-Settles w (p ∷ mine) =
      write-Settles Alike w _ Alike-refl (update_operation_status-Aligned (p ∷ mine) w.store)

  pub sync_statuses-Settles :
      (ops : List ℤ) (w : World Db)
      → Settles Alike w (sync_statuses cfg now pg_stores is_open ops w)
  unfolding sync_statuses write_primary
  sync_statuses-Settles ops w = elim (Result-cases (get_operation_status_history ops w.store)) [
    | inr (m, e) ↦ rw (sync_statuses, e) (Settles-refl Alike w Alike-refl)
    | inl (statuses, e) ↦
        rw (sync_statuses, e)
          (write_statuses-Settles w
            (keep (λ p. stellar_chain_is_primary cfg now pg_stores is_open w.handler p.0) statuses))
  ]
