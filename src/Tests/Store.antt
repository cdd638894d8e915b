-- ===== src/Tests/Store.antt =====
-- The stores at concrete inputs: one operation that was created, paused and resumed.
use lend_worker_stellar.Base.{
  ◌≤◌, ℤ, pos, show_ℤ, Text, lit, text_eq, Json, str, obj, end, field, string_member, collect_all,
  keys, true, false, HashMap, get, int_key, none, some, List, [], ◌∷◌, ◌++◌, ok, ◌≡◌, refl, inl,
  arith,
}
use lend_worker_stellar.Domain.Operation.{FundingStatus}
use lend_worker_stellar.Domain.Activity.{Activity, ActivityEventType}
use lend_worker_stellar.Storage.Tables.{Db, OperationRow}
use lend_worker_stellar.Storage.Activities.{insert_many, get_operation_status_history}
use lend_worker_stellar.Storage.Activities.Uniqueness.{IsValid, insert_many-IsValid}
use lend_worker_stellar.Storage.Activities.History.{
  Highest, status_rows, get_operation_status_history-Highest, get_operation_status_history-resumed,
}
use lend_worker_stellar.Storage.Operations.{
  has_fop, has_token, add_chain, add_first_chain, update_operation_status, valid_updates,
  update_for,
}
use lend_worker_stellar.Storage.Operations.Chains.{primaries, add_chain_lem, add_first_chain-again}
use lend_worker_stellar.Storage.Operations.Status.{Follows, update_operation_status-Follows}

abbrev pub activity : ActivityEventType → Text → Activity
activity t hash = record {
  op_id = 42;
  factory_op_id = pos 3;
  event_hash = hash;
  chain_id = pos 0;
  event_type = t;
  user_address = none;
  block_number = pos 120;
  payload = obj end;
  created_at = pos 1;
}

abbrev pub operation : FundingStatus → OperationRow
operation status = record {
  operation = record {
    id = 42;
    funding_status = status;
    funding_goal = none;
    shares_sold = some (lit "10");
    stellar_shares_sold = none;
    funding_participants = none;
    total_shares = some (lit "10");
    stellar_shares = none;
    supported_chains = [];
    factory_op_id = some (pos 3);
  };
  published = true;
}

abbrev pub tables : List Activity → FundingStatus → Db
tables rows status = record {
  activity = rows;
  operations = operation status ∷ [];
  fiat_holdings = [];
  notified = [];
}

abbrev opened : Db
opened = tables [] FundingStatus.upcoming

abbrev batch : List Activity
batch =
    activity ActivityEventType.op_resumed (lit "a")
    ∷ activity ActivityEventType.op_paused (lit "b")
    ∷ []

abbrev history : Db
history = tables batch FundingStatus.paused

insert_many-IsValid_example :
    IsValid history × (history ≡ record history { activity = [] ++ batch })
unfolding insert_many lit text_eq
insert_many-IsValid_example =
    insert_many-IsValid batch (tables [] FundingStatus.paused) history refl
      (record { unique = tt; known = tt })

get_operation_status_history-Highest_example :
    (res : HashMap ℤ ActivityEventType) × (get_operation_status_history (pos 3 ∷ []) history
      ≡ ok res)
    × ((op : ℤ) → Highest op (status_rows (pos 3 ∷ []) history) (get op res))
get_operation_status_history-Highest_example =
    get_operation_status_history-Highest (pos 3 ∷ []) history

get_operation_status_history-resumed_example :
    (res : HashMap ℤ ActivityEventType) × (get_operation_status_history (pos 3 ∷ []) history
      ≡ ok res)
    × (get (pos 3) res ≡ some ActivityEventType.op_resumed)
get_operation_status_history-resumed_example =
    get_operation_status_history-resumed (pos 3 ∷ []) history (pos 3) (inl (refl, refl))
      ((λ e. ((λ q. cc), (λ q. cc))), ((λ e. ((λ q. cc), (λ q. cc))), tt))

add_chain_lem_example :
    (has_fop (pos 3) (operation FundingStatus.upcoming) ≡ true
      → has_token
          (lit "CTOKEN")
          (add_chain
            (pos 3)
            (lit "CTOKEN")
            (operation FundingStatus.upcoming)).operation.supported_chains
        ≡ true)
    × (primaries
          (add_chain
            (pos 3)
            (lit "CTOKEN")
            (operation FundingStatus.upcoming)).operation.supported_chains
        ≤ 1)
    × (has_fop (pos 3) (operation FundingStatus.upcoming) ≡ false
        → add_chain (pos 3) (lit "CTOKEN") (operation FundingStatus.upcoming)
          ≡ operation FundingStatus.upcoming)
unfolding primaries
add_chain_lem_example =
    add_chain_lem (pos 3) (lit "CTOKEN") (operation FundingStatus.upcoming) (omega arith)

abbrev created : Json
created = obj (
    field (lit "tx_hash") (str (lit "ab#0")) (
      field (lit "op_token") (str (lit "CTOKEN"))
        (field (lit "total_shares") (str (lit "10")) end)))

abbrev listed : Db
listed = record opened {
  operations = add_chain (pos 3) (lit "CTOKEN") (operation FundingStatus.upcoming) ∷ [];
}

add_first_chain-again_example : add_first_chain (pos 3) created listed ≡ ok listed
unfolding add_first_chain string_member lit text_eq
add_first_chain-again_example = add_first_chain-again (pos 3) created opened listed refl

abbrev finish : HashMap ℤ ActivityEventType
finish = (pos 3, ActivityEventType.op_finished) ∷ []

update_operation_status-Follows_example :
    (row' : OperationRow) × (some (operation FundingStatus.finished) ≡ some row')
    × Follows
        (update_for (valid_updates finish) (operation FundingStatus.upcoming))
        (operation FundingStatus.upcoming)
        row'
unfolding update_operation_status lit show_ℤ collect_all keys
update_operation_status-Follows_example =
    update_operation_status-Follows finish opened
      (record (tables [] FundingStatus.finished) {
        notified = (lit "op_progress", show_ℤ (pos 3)) ∷ [];
      })
      0 (operation FundingStatus.upcoming) refl refl
