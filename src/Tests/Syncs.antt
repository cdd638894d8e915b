-- ===== src/Tests/Syncs.antt =====
-- The handler at concrete inputs.
use lend_worker_stellar.Base.{
  ℕ, zero, suc, sym, ◌∙◌, pos, Text, lit, text_eq, true, none, some, List, [], ◌∷◌, get_elem?, ◌≡◌,
  refl, inl,
}
use lend_worker_stellar.Config.Env.{Environ, new}
use lend_worker_stellar.Domain.Operation.{FundingStatus}
use lend_worker_stellar.Domain.Activity.{Activity, ActivityEventType}
use lend_worker_stellar.Storage.Tables.{Db, OperationRow}
use lend_worker_stellar.Storage.Operations.{get_unfinished_operations}
use lend_worker_stellar.Storage.Stores.{pg_stores}
use lend_worker_stellar.App.Discovery.{World}
use lend_worker_stellar.App.Handler.{process_events, sync_statuses}
use lend_worker_stellar.App.Handler.Failure.{process_events-duplicate}
use lend_worker_stellar.App.Handler.Final.{UniqueFops, sync_statuses-final}
use lend_worker_stellar.Tests.Store.{activity, operation, tables}

abbrev pub unset : Environ
unset name = none

abbrev pub world : Db → World Db
world db = record {
  handler = record { fopid_to_dbopid = []; op_data = []; contracts = []; has_sender = true };
  store = db;
  sent = [];
}

abbrev resumed : List Activity
resumed = activity ActivityEventType.op_resumed (lit "a") ∷ []

process_events-duplicate_example :
    process_events
      (new unset)
      (pos 9)
      pg_stores
      true
      resumed
      (world (tables resumed FundingStatus.paused))
    ≡ world (tables resumed FundingStatus.paused)
unfolding lit text_eq
process_events-duplicate_example =
    process_events-duplicate (new unset) (pos 9) true resumed
      (world (tables resumed FundingStatus.paused)) (inl refl)

only_row : (row r : OperationRow) (i : ℕ) → get_elem? (row ∷ []) i ≡ some r → row ≡ r
only_row row r zero h = cc
only_row row r (suc i) h = cc

one-UniqueFops : (row : OperationRow) → UniqueFops (row ∷ [])
one-UniqueFops row = record {
  same_row = λ i j r s fop e f g h. sym (only_row row r i e) ∙ only_row row s j f;
}

-- A paused operation, with a resumption stored.
sync_statuses-final_example :
    get_elem?
      (sync_statuses
        (new unset)
        (pos 9)
        pg_stores
        true
        []
        (world (tables resumed FundingStatus.paused))).store.operations
      0
    ≡ some (operation FundingStatus.paused)
unfolding get_unfinished_operations
sync_statuses-final_example =
    sync_statuses-final (new unset) (pos 9) true (world (tables resumed FundingStatus.paused)) [] 0
      (operation FundingStatus.paused) (pos 3) (one-UniqueFops (operation FundingStatus.paused))
      refl refl refl refl

abbrev pub token : Text
token = lit "CDLZFC3SYJYDZT7K67VZ75HPJVIEUVNIXF47ZG2FB2RMQQVU2HHGCYSC"
