-- ===== src/Storage/Operations.antt =====
-- crates/lw-storage/src/op_repository.rs and fiat_holdings_repository.rs
pub mod Chains
pub mod Status
pub mod Extends
pub mod Aligned
pub mod Keyed
pub mod Frame
use mathlib.Core.Option
use lend_worker_stellar.Base.{
  ℕ, ℤ, pos, eqb_ℤ, fits, i32_half, show_ℤ, parse_ℤ, Text, lit, text_eq, Json, string_member, Bool,
  true, false, not, ◌&&◌, any, keep, if◌then◌else◌, HashMap, get, keys, int_key, Option, none, some,
  unwrap_or, List, [], ◌∷◌, ◌++◌, map, Result, ok, err, ok_or, collect_all, ◌>>=◌,
}
use lend_worker_stellar.Config.Types.{Uuid, nil_uuid}
use lend_worker_stellar.Config.Env.{stellar_chain_id}
use lend_worker_stellar.Domain.Operation.{Operation, FundingStatus, SupportedChains, FiatHolding}
use lend_worker_stellar.Domain.Activity.{ActivityEventType, activity_event_to_funding_status}
use lend_worker_stellar.Storage.Tables.{Db, OperationRow}

pub record OperationProgressUpdate : Type 0 where
  pub participants : ℤ
  pub funded_amount : Text
  pub stellar_funded_amount : Text

abbrev pub has_id : Option ℤ → Bool
has_id none = false
has_id (some id) = true

-- factory_op_id = $n: false on null
abbrev pub has_fop : ℤ → OperationRow → Bool
has_fop fop row = elim row.operation.factory_op_id [ none ↦ false | some id ↦ eqb_ℤ id fop ]

unfoldable pub get_all : Db → Result (List Operation)
get_all db = ok (
    map (λ r. r.operation)
      (keep (λ r. has_id r.operation.factory_op_id && r.published) db.operations))

-- the nil id where there is no such operation
unfoldable pub get_op_id_from_fop_id : ℤ → Db → Result Uuid
get_op_id_from_fop_id fop db = elim (keep (has_fop fop) db.operations) [
  | [] ↦ ok nil_uuid
  | r ∷ l ↦ ok r.operation.id
]

-- the `factory_op_id`s of rows, the null ones left out
unfoldable pub fop_ids : List OperationRow → List ℤ
fop_ids [] = []
fop_ids (r ∷ l) =
    let rest = fop_ids l in elim r.operation.factory_op_id [ none ↦ rest | some id ↦ id ∷ rest ]

abbrev pub is_ongoing : FundingStatus → Bool
is_ongoing FundingStatus.open_status = true
is_ongoing FundingStatus.predeposit = true
is_ongoing _ = false

abbrev pub is_unfinished : FundingStatus → Bool
is_unfinished FundingStatus.open_status = true
is_unfinished FundingStatus.predeposit = true
is_unfinished FundingStatus.upcoming = true
is_unfinished _ = false

unfoldable pub get_ongoing_operations : Db → Result (List ℤ)
unfolding fop_ids
get_ongoing_operations db =
    ok (fop_ids (keep (λ r. is_ongoing r.operation.funding_status && r.published) db.operations))

unfoldable pub get_unfinished_operations : Db → Result (List ℤ)
unfolding fop_ids
get_unfinished_operations db =
    ok (fop_ids (keep (λ r. is_unfinished r.operation.funding_status && r.published) db.operations))

-- `pg_notify` for each of the ids
abbrev pub notices : List ℤ → List (Text × Text)
notices ids = map (λ id. (lit "op_progress", show_ℤ id)) ids

-- the entry of a map for an operation's row
abbrev pub update_for : {A : Type 0} → HashMap ℤ A → OperationRow → Option A
update_for updates row = elim row.operation.factory_op_id [ none ↦ none | some id ↦ get id updates ]

-- the SET clause of the progress update; `funding_participants` is an INT column
unfoldable pub set_progress : Option OperationProgressUpdate → OperationRow → Result OperationRow
set_progress none row = ok row
set_progress (some u) row =
    if fits i32_half u.participants
    then ok (record row {
      operation = record row.operation {
        funding_participants = some u.participants;
        shares_sold = some u.funded_amount;
        stellar_shares_sold = some u.stellar_funded_amount;
      };
    })
    else err (lit "integer out of range")

unfoldable pub update_operation_progress : HashMap ℤ OperationProgressUpdate → Db → Result Db
unfolding get set_progress
update_operation_progress updates db = do
  rows ← collect_all (λ r. set_progress (update_for updates r) r) db.operations
  ok (record db { operations = rows; notified = db.notified ++ notices (keys updates) })

-- `shares_sold::NUMERIC = total_shares::NUMERIC`, for whole numbers: null is not true, and a text that
-- is no number fails the statement.
abbrev pub numeric : Option Text → Result (Option ℤ)
numeric none = ok none
numeric (some t) = elim (parse_ℤ t) [
  | none ↦ err (lit "invalid input syntax for type numeric")
  | some z ↦ ok (some z)
]

abbrev pub same_number : Option ℤ → Option ℤ → Bool
same_number (some a) (some b) = eqb_ℤ a b
same_number _ _ = false

abbrev is_finished : FundingStatus → Bool
is_finished FundingStatus.finished = true
is_finished _ = false

-- the WHERE clause's guard on a row and its new status
unfoldable pub may_set : FundingStatus → OperationRow → Result Bool
unfolding parse_ℤ
may_set status row = elim (is_finished status) [
  | false ↦ ok true
  | true ↦ do
    sold ← numeric row.operation.shares_sold
    total ← numeric row.operation.total_shares
    ok (same_number sold total)
]

unfoldable pub set_status : Option FundingStatus → OperationRow → Result OperationRow
unfolding may_set
set_status none row = ok row
set_status (some status) row = do
  b ← may_set status row
  ok (
      if b
      then record row { operation = record row.operation { funding_status = status } }
      else row)

-- the `filter_map` over the updates
unfoldable pub valid_updates : HashMap ℤ ActivityEventType → HashMap ℤ FundingStatus
unfolding activity_event_to_funding_status
valid_updates [] = []
valid_updates ((id, event) ∷ l) =
    let rest = valid_updates l in
    elim (activity_event_to_funding_status event) [
      | none ↦ rest
      | some status ↦ (id, status) ∷ rest
    ]

-- nothing is done, nor announced, if no update is valid
unfoldable pub write_statuses : HashMap ℤ FundingStatus → Db → Result Db
unfolding set_status get
write_statuses [] db = ok db
write_statuses (u ∷ valid) db = do
  rows ← collect_all (λ r. set_status (update_for (u ∷ valid) r) r) db.operations
  ok (record db { operations = rows; notified = db.notified ++ notices (keys (u ∷ valid)) })

unfoldable pub update_operation_status : HashMap ℤ ActivityEventType → Db → Result Db
unfolding valid_updates write_statuses
update_operation_status updates db = write_statuses (valid_updates updates) db

-- `from_value::<OpCreatedEventData>`
pub record OpCreatedEventData : Type 0 where
  pub tx_hash : Text
  pub op_token : Text
  pub total_shares : Text

unfoldable pub op_created_data : Json → Result OpCreatedEventData
unfolding string_member
op_created_data d = do
  tx_hash ← ok_or (lit "missing field `tx_hash`") (string_member (lit "tx_hash") d)
  op_token ← ok_or (lit "missing field `op_token`") (string_member (lit "op_token") d)
  total_shares ← ok_or (lit "missing field `total_shares`") (string_member (lit "total_shares") d)
  ok (record { tx_hash = tx_hash; op_token = op_token; total_shares = total_shares })

-- the containment tests (`@>`) on the stored chains
abbrev pub has_primary : List SupportedChains → Bool
has_primary chains = any (λ c. c.primary) chains

abbrev pub has_token : Text → List SupportedChains → Bool
has_token token chains =
    any (λ c. text_eq c.op_token token && eqb_ℤ c.chain_id stellar_chain_id) chains

-- the SET and WHERE clauses on one row
unfoldable pub add_chain : ℤ → Text → OperationRow → OperationRow
add_chain op token row =
    let chains = row.operation.supported_chains in
    if has_fop op row && not (has_token token chains)
    then record row {
      operation = record row.operation {
        supported_chains =
            chains
            ++ record {
              op_token = token;
              chain_id = stellar_chain_id;
              lz_endpoint_id = pos 0;
              primary = not (has_primary chains);
            }
              ∷ [];
      };
    }
    else row

unfoldable pub add_first_chain : ℤ → Json → Db → Result Db
unfolding op_created_data add_chain
add_first_chain op d db = do
  created ← op_created_data d
  ok (record db { operations = map (add_chain op created.op_token) db.operations })

-- The peers of other chains are not tracked.
unfoldable pub add_supported_chain : ℤ → Json → Db → Result Db
add_supported_chain op d db = ok db

-- `PgFiatHoldingStore::insert`
unfoldable pub insert_holding : FiatHolding → Db → Result Db
insert_holding holding db = ok (record db { fiat_holdings = db.fiat_holdings ++ holding ∷ [] })
