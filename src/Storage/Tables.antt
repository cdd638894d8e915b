-- ===== src/Storage/Tables.antt =====
-- The tables that the repositories touch, with the constraints of tests/sql/schema.sql. Columns that
-- the worker never reads (surrogate keys, `updated_at`) are left out.
use lend_worker_stellar.Base.{
  Text, lit, text_eq, Bool, true, false, ◌==◌, any, if◌then◌else◌, List, [], ◌∷◌, ◌++◌, Result, ok,
  err, ◌>>=◌,
}
use lend_worker_stellar.Config.Types.{Uuid}
use lend_worker_stellar.Domain.Operation.{Operation, FiatHolding}
use lend_worker_stellar.Domain.Activity.{Activity, ActivityEventType}

pub record OperationRow : Type 0 where
  pub operation : Operation
  pub published : Bool

-- `notified` lists what `pg_notify` has sent: a channel and a payload.
pub record Db : Type 0 where
  pub activity : List Activity
  pub operations : List OperationRow
  pub fiat_holdings : List FiatHolding
  pub notified : List (Text × Text)

-- the values of the enum `activity_event_type`
abbrev pub is_stored_type : ActivityEventType → Bool
is_stored_type ActivityEventType.not_specified = false
is_stored_type ActivityEventType.claimed_ref_rewards = false
is_stored_type ActivityEventType.ref_rewards_distributed = false
is_stored_type ActivityEventType.restitution_opened = false
is_stored_type ActivityEventType.restitution_claimed = false
is_stored_type ActivityEventType.restitution_closed = false
is_stored_type _ = true

-- the key of a UNIQUE column, and of a REFERENCES clause
abbrev pub has_hash : List Activity → Text → Bool
has_hash rows h = any (λ r. text_eq r.event_hash h) rows

abbrev pub has_operation : List OperationRow → Uuid → Bool
has_operation ops id = any (λ o. o.operation.id == id) ops

-- INSERT of one row into `activity`
unfoldable pub insert_row : List OperationRow → List Activity → Activity → Result (List Activity)
insert_row ops rows a =
    if is_stored_type a.event_type
    then (if has_hash rows a.event_hash
        then err (lit "duplicate key value violates unique constraint")
        else if has_operation ops a.op_id
        then ok (rows ++ a ∷ [])
        else err (lit "insert violates foreign key constraint"))
    else err (lit "invalid input value for enum activity_event_type")

-- INSERT of several rows: all of them, or none.
unfoldable pub insert_rows :
    List OperationRow → List Activity → List Activity → Result (List Activity)
unfolding insert_row
insert_rows ops rows [] = ok rows
insert_rows ops rows (a ∷ l) = do
  let rest = λ (t : List Activity). insert_rows ops t l
  rows' ← insert_row ops rows a
  rest rows'
