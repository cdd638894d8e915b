-- ===== src/Domain/Build/Rows.antt =====
-- What `build_activity` produces, against a plain table of event types, operations and users.
use lend_worker_stellar.Base.{
  ℕ, ℤ, Text, lit, text_eq, Fields, string_member, ◌≡◌, refl, Option, none, some, [], ◌∷◌, arith,
}
use lend_worker_stellar.Config.Types.{Uuid, OpMapping, ContractEvent}
use lend_worker_stellar.Config.Env.{AppEnv}
use lend_worker_stellar.Domain.Operation.{Time}
use lend_worker_stellar.Domain.Activity.{Activity, ActivityEventType}
use lend_worker_stellar.Domain.Build.{
  as_i32, op_uuid, with_op, one_activity, simple_lifecycle, build_activity,
}

-- The activity type of an event that needs no look-up outside the mapping.
unfoldable pub row_type : ContractEvent → Option ActivityEventType
row_type (ContractEvent.op_started op) = some ActivityEventType.op_started
row_type (ContractEvent.op_canceled op) = some ActivityEventType.op_canceled
row_type (ContractEvent.op_paused op) = some ActivityEventType.op_paused
row_type (ContractEvent.op_resumed op) = some ActivityEventType.op_resumed
row_type (ContractEvent.op_finished op n) = some ActivityEventType.op_finished
row_type (ContractEvent.funding_withdrawn op n) = some ActivityEventType.funding_withdrawn
row_type (ContractEvent.op_predeposits_open op) = some ActivityEventType.op_predeposits_open
row_type (ContractEvent.op_predeposits_closed op) = some ActivityEventType.op_predeposits_closed
row_type (ContractEvent.invested a op n k) = some ActivityEventType.invested
row_type (ContractEvent.invested_fiat a d op k) = some ActivityEventType.invested_fiat
row_type (ContractEvent.claimed_tokens a op n) = some ActivityEventType.claimed_op_token
row_type (ContractEvent.refunded a op n k) = some ActivityEventType.refunded
row_type (ContractEvent.claimed_rewards op a n) = some ActivityEventType.claimed_rewards
row_type (ContractEvent.rewards_distributed op e n) = some ActivityEventType.rewards_distributed
row_type _ = none

-- The operation of an event; a transfer names none.
unfoldable pub op_of : ContractEvent → ℕ
op_of (ContractEvent.op_created a op n) = op
op_of (ContractEvent.op_started op) = op
op_of (ContractEvent.op_canceled op) = op
op_of (ContractEvent.op_paused op) = op
op_of (ContractEvent.op_resumed op) = op
op_of (ContractEvent.op_finished op n) = op
op_of (ContractEvent.funding_withdrawn op n) = op
op_of (ContractEvent.op_predeposits_open op) = op
op_of (ContractEvent.op_predeposits_closed op) = op
op_of (ContractEvent.invested a op n k) = op
op_of (ContractEvent.invested_fiat a d op k) = op
op_of (ContractEvent.claimed_tokens a op n) = op
op_of (ContractEvent.refunded a op n k) = op
op_of (ContractEvent.op_lend_transfered a b n) = 0
op_of (ContractEvent.claimed_rewards op a n) = op
op_of (ContractEvent.rewards_distributed op e n) = op

-- The account that the event is attributed to.
unfoldable pub user_of : ContractEvent → Option Text
user_of (ContractEvent.invested a op n k) = some a
user_of (ContractEvent.invested_fiat a d op k) = some a
user_of (ContractEvent.claimed_tokens a op n) = some a
user_of (ContractEvent.refunded a op n k) = some a
user_of (ContractEvent.claimed_rewards op a n) = some a
user_of _ = none

-- What a row says: its type, its operation, its user, and the transaction's key in its data.
pub record RowOf (t : ActivityEventType) (op : ℕ) (user : Option Text) (id : Uuid) (tx : Text)
    (a : Activity) : Type 0 where
  pub type_eq : a.event_type ≡ t
  pub op_eq : a.op_id ≡ id
  pub fop_eq : a.factory_op_id ≡ as_i32 op
  pub user_eq : a.user_address ≡ user
  pub tx_eq : string_member (lit "tx_hash") a.payload ≡ some tx

with_op-RowOf :
    (o : Option Uuid) (t₀ t : ActivityEventType) (suffix tx : Text) (block : ℤ) (ts : Time)
    (id : Uuid) (op : ℕ) (user : Option Text) (rest : Fields)
    → some t₀ ≡ some t
    → o ≡ some id
    → (a : Activity) × (with_op o (λ k. one_activity t₀ suffix tx block ts k op user rest)
        ≡ some (a ∷ []))
      × RowOf t op user id tx a
unfolding one_activity string_member lit text_eq
with_op-RowOf none t₀ t suffix tx block ts id op user rest h e = cc
with_op-RowOf (some k) t₀ t suffix tx block ts id op user rest h e =
    (_, refl, record { type_eq = cc; op_eq = cc; fop_eq = refl; user_eq = refl; tx_eq = refl })

-- An event of a known operation gives exactly one row, which has the event's type, the operation's
-- ids, the event's user, and the transaction's key in its data.
pub build_activity-RowOf :
    (env : AppEnv) (ops : OpMapping) (event : ContractEvent) (tx : Text) (block : ℤ) (ts : Time)
    (t : ActivityEventType) (id : Uuid)
    → row_type event ≡ some t
    → op_uuid ops (op_of event) ≡ some id
    → (a : Activity) × (build_activity env ops event tx block ts ≡ some (a ∷ []))
      × RowOf t (op_of event) (user_of event) id tx a
unfolding build_activity simple_lifecycle row_type op_of user_of
build_activity-RowOf env ops (ContractEvent.op_created a op n) tx block ts t id h e = cc
build_activity-RowOf env ops (ContractEvent.op_lend_transfered a b n) tx block ts t id h e = cc
build_activity-RowOf env ops event tx block ts t id h e = with_op-RowOf _ _ _ _ _ _ _ _ _ _ _ h e

-- An event of an operation that is not in the mapping gives no row.
build_activity-unknown_op :
    (env : AppEnv) (ops : OpMapping) (event : ContractEvent) (tx : Text) (block : ℤ) (ts : Time)
    → op_uuid ops (op_of event) ≡ none
    → build_activity env ops event tx block ts ≡ none
unfolding build_activity simple_lifecycle op_of
build_activity-unknown_op env ops (ContractEvent.op_created a op n) tx block ts e = refl
build_activity-unknown_op env ops event tx block ts e = ground arith
