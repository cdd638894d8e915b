-- ===== src/Tests/Fiat.antt =====
-- A fiat investment at a concrete run.
use lend_worker_stellar.Base.{
  pos, Text, lit, text_eq, is_empty, string_member, obj, field, str, end, true, some, List, [], ◌∷◌,
  ◌++◌, length, ◌≡◌, ◌≢◌, ◌⊎◌, refl,
}
use lend_worker_stellar.Config.Env.{LocalEnv, new}
use lend_worker_stellar.Domain.Operation.{FundingStatus, FiatHolding}
use lend_worker_stellar.Domain.Activity.{Activity, ActivityEventType}
use lend_worker_stellar.Storage.Tables.{Db}
use lend_worker_stellar.Storage.Activities.{insert_many}
use lend_worker_stellar.Storage.Operations.Keyed.{unfinished}
use lend_worker_stellar.Storage.Stores.{pg_stores}
use lend_worker_stellar.App.Handler.{process_events}
use lend_worker_stellar.App.Handler.Holdings.{holdings}
use lend_worker_stellar.App.Handler.Holdings.Listed.{AreHoldings, process_events-holdings}
use lend_worker_stellar.Tests.Store.{activity, tables}
use lend_worker_stellar.Tests.Syncs.{unset, world}

abbrev cfg : LocalEnv
cfg = record (new unset) { oplend_wallet = lit "CLEND" }

-- one fiat investment to Lend's wallet, and one to another
abbrev fiat : Text → Text → Activity
fiat hash holder = record (activity ActivityEventType.invested_fiat hash) {
  user_address = some (lit "GUSER");
  payload = obj (
      field (lit "tx_hash") (str (lit "tx")) (
        field (lit "op_lend_holder") (str holder)
          (field (lit "shares_bought") (str (lit "5")) end)));
}

abbrev batch : List Activity
batch = fiat (lit "a") (lit "CLEND") ∷ fiat (lit "b") (lit "COTHER") ∷ []

abbrev start : Db
start = tables [] FundingStatus.open_status

one_holding : length (holdings cfg (pos 9) true batch) ≡ 1
unfolding holdings lit text_eq string_member is_empty new
one_holding = refl

process_events-holdings_example :
    (hs : List FiatHolding) × ((process_events cfg
        (pos 9)
        pg_stores
        true
        batch
        (world start)).store.fiat_holdings
      ≡ [] ++ hs)
    × (((unfinished start.operations ≡ []) × (hs ≡ []))
        ⊎ ((unfinished start.operations ≢ []) × AreHoldings cfg batch hs))
unfolding insert_many lit text_eq
process_events-holdings_example =
    process_events-holdings cfg (pos 9) true batch (world start) (record start { activity = batch })
      refl
