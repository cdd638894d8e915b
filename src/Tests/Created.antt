-- ===== src/Tests/Created.antt =====
-- A creation event at a concrete run.
use lend_worker_stellar.Base.{
  pos, lit, text_eq, string_member, obj, field, str, end, true, none, [], ◌∷◌, err, refl,
}
use lend_worker_stellar.Config.Env.{LocalEnv, new}
use lend_worker_stellar.Domain.Operation.{FundingStatus}
use lend_worker_stellar.Domain.Activity.{Activity, ActivityEventType}
use lend_worker_stellar.Storage.Tables.{Db, OperationRow}
use lend_worker_stellar.Storage.Activities.{insert_many}
use lend_worker_stellar.Storage.Operations.{op_created_data}
use lend_worker_stellar.Chain.EventLoop.Start.{initial}
use lend_worker_stellar.Chain.EventLoop.Observed.{IsObserved}
use lend_worker_stellar.App.Discovery.{is_soroban_address}
use lend_worker_stellar.System.{System, Around, take_turn, handle_next}
use lend_worker_stellar.System.Creation.{created-IsObserved}
use lend_worker_stellar.Tests.Store.{activity, operation, tables}
use lend_worker_stellar.Tests.Syncs.{unset, world, token}

abbrev cfg : LocalEnv
cfg = new unset

abbrev row : OperationRow
row = operation FundingStatus.upcoming

abbrev created : Activity
created = record (activity ActivityEventType.op_created (lit "tx#0#lend_op_created")) {
  payload = obj (
      field (lit "tx_hash") (str (lit "tx#0"))
        (field (lit "op_token") (str token) (field (lit "total_shares") (str (lit "100")) end)));
}

abbrev start : Db
start = tables [] FundingStatus.upcoming

abbrev waiting : System
waiting = record { loop = initial cfg; world = world start; events = (created ∷ []) ∷ [] }

-- No source answers in the turn.
abbrev silent : Around
silent = record {
  live = λ from ids. err (lit "timeout");
  backfill = none;
  lookup = λ fop. err (lit "timeout");
}

created-IsObserved_example :
    IsObserved token (take_turn cfg silent (handle_next cfg (pos 9) true waiting)).loop
unfolding insert_many op_created_data is_soroban_address lit text_eq string_member
created-IsObserved_example =
    created-IsObserved cfg (pos 9) silent waiting created []
      (record { tx_hash = lit "tx#0"; op_token = token; total_shares = lit "100" })
      (record start { activity = created ∷ [] }) 0 row refl refl refl refl refl refl
      (record { keyed = (tt, tt); at = refl; fop_eq = refl; published_eq = refl }) refl
