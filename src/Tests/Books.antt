-- ===== src/Tests/Books.antt =====
-- The progress of an open operation: two investors, one of whom is refunded in part.
use lend_worker_stellar.Base.{
  pos, Text, lit, text_eq, show_ℕ, member, parse_i64, str, obj, field, end, true, some, List, [],
  ◌∷◌, map, ◌≡◌, refl, arith,
}
use lend_worker_stellar.Config.Env.{new}
use lend_worker_stellar.Domain.Operation.{FundingStatus}
use lend_worker_stellar.Domain.Activity.{Activity, ActivityEventType}
use lend_worker_stellar.Storage.Tables.{Db}
use lend_worker_stellar.Storage.Activities.{users, distinct_texts}
use lend_worker_stellar.Storage.Activities.Totals.{AllAmounts}
use lend_worker_stellar.Storage.Operations.{get_ongoing_operations}
use lend_worker_stellar.Storage.Stores.{pg_stores}
use lend_worker_stellar.App.Discovery.{World}
use lend_worker_stellar.App.Handler.{sync_op_progress}
use lend_worker_stellar.App.Handler.Funding.{with_progress, sync_op_progress-nets}
use lend_worker_stellar.Tests.Store.{activity, operation, tables}
use lend_worker_stellar.Tests.Syncs.{unset, world}

abbrev traded : ActivityEventType → Text → Text → Text → Text → Activity
traded t hash user key shares = record (activity t hash) {
  user_address = some user;
  payload = obj (field (lit "usdc_amount") (str (lit "50")) (field key (str shares) end));
}

abbrev booked : List Activity
booked =
    traded ActivityEventType.invested (lit "a") (lit "GA") (lit "shares_bought") (lit "7")
    ∷ traded ActivityEventType.invested (lit "b") (lit "GB") (lit "shares_bought") (lit "5")
    ∷ traded ActivityEventType.refunded (lit "c") (lit "GA") (lit "shares_refunded") (lit "3")
    ∷ []

abbrev books : World Db
books = world (tables booked FundingStatus.open_status)

-- 7 + 5 - 3 shares, and two investors
netted :
    map (with_progress (pos 3 ∷ []) booked) books.store.operations
    ≡ record (operation FundingStatus.open_status) {
      operation = record (operation FundingStatus.open_status).operation {
        funding_participants = some (pos 2);
        shares_sold = some (lit "9");
        stellar_shares_sold = some (lit "9");
      };
    }
      ∷ []
unfolding lit text_eq show_ℕ users distinct_texts member parse_i64
netted = refl

booked-AllAmounts : AllAmounts booked
unfolding lit text_eq member parse_i64
booked-AllAmounts = record {
  invested = ((λ e. (refl, refl)), ((λ e. (refl, refl)), ((λ e. cc), tt)));
  refunded = ((λ e. cc), ((λ e. cc), ((λ e. (refl, refl)), tt)));
}

sync_op_progress-nets_example :
    ((sync_op_progress (new unset) (pos 9) pg_stores true books).store.operations
      ≡ map (with_progress (pos 3 ∷ []) booked) books.store.operations)
    × ((sync_op_progress (new unset) (pos 9) pg_stores true books).store.activity ≡ booked)
    × ((sync_op_progress (new unset) (pos 9) pg_stores true books).store.fiat_holdings ≡ [])
    × ((sync_op_progress (new unset) (pos 9) pg_stores true books).handler ≡ books.handler)
    × ((sync_op_progress (new unset) (pos 9) pg_stores true books).sent ≡ [])
unfolding get_ongoing_operations
sync_op_progress-nets_example =
    sync_op_progress-nets (new unset) (pos 9) true books (pos 3 ∷ []) refl booked-AllAmounts
      (omega arith)
