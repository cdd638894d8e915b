-- ===== src/Tests/Restarts.antt =====
-- A process that is started on one stored transfer of an operation's token.
use lend_worker_stellar.Base.{pos, ◌<ℤ◌, lit, true, [], ◌∷◌, refl, inl, arith}
use lend_worker_stellar.Config.Env.{new}
use lend_worker_stellar.Domain.Operation.{FundingStatus, SupportedChains}
use lend_worker_stellar.Domain.Activity.{ActivityEventType}
use lend_worker_stellar.Storage.Tables.{Db, OperationRow}
use lend_worker_stellar.App.Discovery.{is_soroban_address}
use lend_worker_stellar.Chain.EventLoop.{drain}
use lend_worker_stellar.System.{run}
use lend_worker_stellar.System.Restart.{by_token, run-resumes}
use lend_worker_stellar.Tests.Store.{activity, operation, tables}
use lend_worker_stellar.Tests.Syncs.{unset, token}

abbrev chain : SupportedChains
chain = record { op_token = token; chain_id = pos 0; lz_endpoint_id = pos 0; primary = true }

abbrev listed : OperationRow
listed = record (operation FundingStatus.upcoming) {
  operation = record (operation FundingStatus.upcoming).operation { supported_chains = chain ∷ [] };
}

abbrev left : Db
left =
    record (tables (activity ActivityEventType.op_lend_transfered (lit "a") ∷ [])
      FundingStatus.upcoming) { operations = listed ∷ [] }

run-resumes_example :
    pos 120
    <ℤ (drain
        (new unset).start_ledger
        (run (new unset) left).loop
        (run (new unset) left).world.sent).cursor
unfolding is_soroban_address lit
run-resumes_example =
    run-resumes (new unset) left (activity ActivityEventType.op_lend_transfered (lit "a"))
      (omega arith, tt) (inl refl) refl
      (by_token 0 0 listed (pos 3) chain refl (tt, tt) refl refl refl refl refl refl)
