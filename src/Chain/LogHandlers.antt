-- ===== src/Chain/LogHandlers.antt =====
-- crates/lw-chain/src/log_handlers.rs: from a raw event to a `ContractEvent`, and on to the rows.
pub mod RoundTrip
pub mod Hashes
pub mod Storable
use lend_worker_stellar.Base.{
  ℕ, zero, suc, ℤ, pos, show_ℤ, Text, lit, text_eq, Json, str, bool, obj, Fields, end, field, get,
  int_key, any, Bool, true, false, ◌||◌, ◌==◌, if◌then◌else◌, Option, none, some, List, [], ◌∷◌,
  ◌++◌, get_elem?, Result, ok, err, ok_or, result_or, ◌>>=◌,
}
use lend_worker_stellar.Config.Types.{Uuid, nil_uuid, OpMapping, ContractEvent, ObservableContract}
use lend_worker_stellar.Config.Env.{LocalEnv, get_ignored_addresses}
use lend_worker_stellar.Domain.Operation.{Time}
use lend_worker_stellar.Domain.Activity.{Activity, ActivityEventType}
use lend_worker_stellar.Domain.Builder
use lend_worker_stellar.Domain.Build.{as_i32, with_suffix, build_activity}
use lend_worker_stellar.Chain.Scval.{
  ScVal, ScMap, symbol_name, as_u32, as_i128, as_address, as_map, map_field,
}
use lend_worker_stellar.Chain.EventSource.Raw.{RawSorobanEvent}

-- `tg`: checked access to a topic
topic : List ScVal → ℕ → Result ScVal
topic t i = ok_or (lit "missing topic") (get_elem? t i)

address_at : List ScVal → ℕ → Result Text
unfolding topic as_address
address_at t i = topic t i >>= as_address

u32_at : List ScVal → ℕ → Result ℕ
unfolding topic as_u32
u32_at t i = topic t i >>= as_u32

amount_of : ScMap → Text → Result ℤ
unfolding map_field
amount_of m key = map_field m key >>= as_i128

-- `as_i128(map_field(as_map(&raw.value)?, key)?)?`
amount_in : ScVal → Text → Result ℤ
unfolding amount_of as_map
amount_in value key = do m ← as_map value; amount_of m key

-- The `match name.as_str()`: topics by position, data by name.
unfoldable pub decode_named : Text → List ScVal → ScVal → Result ContractEvent
unfolding address_at u32_at amount_of amount_in
decode_named name t value =
    if text_eq name (lit "operation_created")
    then (do
      a ← address_at t 1
      op ← u32_at t 2
      n ← amount_in value (lit "total_shares")
      ok (ContractEvent.op_created a op n))
    else if text_eq name (lit "operation_started")
    then (do op ← u32_at t 1; ok (ContractEvent.op_started op))
    else if text_eq name (lit "operation_canceled")
    then (do op ← u32_at t 1; ok (ContractEvent.op_canceled op))
    else if text_eq name (lit "operation_paused")
    then (do op ← u32_at t 1; ok (ContractEvent.op_paused op))
    else if text_eq name (lit "operation_resumed")
    then (do op ← u32_at t 1; ok (ContractEvent.op_resumed op))
    else if text_eq name (lit "operation_finished")
    then (do
      op ← u32_at t 1
      n ← amount_in value (lit "amount_raised_euro")
      ok (ContractEvent.op_finished op n))
    else if text_eq name (lit "funding_withdrawn")
    then (do
      op ← u32_at t 1
      n ← amount_in value (lit "usdc_amount")
      ok (ContractEvent.funding_withdrawn op n))
    else if text_eq name (lit "predeposits_open")
    then (do op ← u32_at t 1; ok (ContractEvent.op_predeposits_open op))
    else if text_eq name (lit "predeposits_closed")
    then (do op ← u32_at t 1; ok (ContractEvent.op_predeposits_closed op))
    else if text_eq name (lit "invested")
    then (do
      m ← as_map value
      a ← address_at t 1
      op ← u32_at t 2
      n ← amount_of m (lit "usdc_amount")
      k ← amount_of m (lit "shares_bought")
      ok (ContractEvent.invested a op n k))
    else if text_eq name (lit "invested_fiat")
    then (do
      a ← address_at t 1
      d ← address_at t 2
      op ← u32_at t 3
      k ← amount_in value (lit "shares_bought")
      ok (ContractEvent.invested_fiat a d op k))
    else if text_eq name (lit "claimed_op_token")
    then (do
      a ← address_at t 1
      op ← u32_at t 2
      n ← amount_in value (lit "amount")
      ok (ContractEvent.claimed_tokens a op n))
    else if text_eq name (lit "refunded")
    then (do
      m ← as_map value
      a ← address_at t 1
      op ← u32_at t 2
      n ← amount_of m (lit "usdc_amount")
      k ← amount_of m (lit "shares_refunded")
      ok (ContractEvent.refunded a op n k))
    else if text_eq name (lit "transfer")
    then (do
      m ← as_map value
      a ← address_at t 1
      b ← address_at t 2
      n ← amount_of m (lit "amount")
      ok (ContractEvent.op_lend_transfered a b n))
    else if text_eq name (lit "claimed")
    then (do
      op ← u32_at t 1
      a ← address_at t 2
      n ← amount_in value (lit "balance")
      ok (ContractEvent.claimed_rewards op a n))
    else if text_eq name (lit "rewards_distributed")
    then (do
      op ← u32_at t 1
      e ← u32_at t 2
      n ← amount_in value (lit "amount")
      ok (ContractEvent.rewards_distributed op e n))
    else err (lit "unindexed event")

unfoldable pub decode_event : RawSorobanEvent → Result ContractEvent
unfolding decode_named symbol_name
decode_event raw = do
  first ← ok_or (lit "no topics") (get_elem? raw.topics 0)
  name ← symbol_name first
  decode_named name raw.topics raw.value

-- `format!("{}#{}", raw.tx_hash, raw.event_index)`
unfoldable pub event_key : RawSorobanEvent → Text
event_key raw = raw.tx_hash ++ (lit "#" ++ show_ℤ raw.event_index)

-- The arm of `OpCreated`; the first argument is `OperationStore::get_op_id_from_fop_id`.
created : (ℤ → Result Uuid) → OpMapping → RawSorobanEvent → Text → ℕ → ℤ → Option (List Activity)
unfolding get event_key with_suffix Builder.build
created get_op_id_from_fop_id fopid_to_opid raw op_token operation_id total_shares =
    let fopid = as_i32 operation_id in
    let tx_hash = event_key raw in
    let looked_up = result_or nil_uuid (get_op_id_from_fop_id fopid) in
    let op_id : Uuid = elim (get fopid fopid_to_opid) [ some id ↦ id | none ↦ looked_up ] in
    if op_id == nil_uuid
    then none
    else some (
        Builder.build (
          Builder.payload
            (obj (
              field (lit "tx_hash") (str tx_hash) (
                field (lit "op_token") (str op_token)
                  (field (lit "total_shares") (str (show_ℤ total_shares)) end))))
            (Builder.factory_op_id fopid (
              Builder.op_id op_id (
                Builder.event_hash (with_suffix tx_hash (lit "lend_op_created")) (
                  Builder.block_timestamp raw.ledger_closed_at (
                    Builder.new raw.ledger_closed_at ActivityEventType.op_created
                      raw.ledger_seq))))))
        ∷ [])

-- one of the two rows of a transfer
transfer_row : RawSorobanEvent → Uuid → ℤ → Text → Text → ℤ → Text → Text → Bool → Activity
unfolding event_key with_suffix Builder.build
transfer_row raw op_id fopid from to amount suffix user user_is_sender =
    let tx_hash = event_key raw in
    Builder.build (
      Builder.payload
        (obj (
          field (lit "tx_hash") (str tx_hash) (
            field (lit "from") (str from) (
              field (lit "to") (str to) (
                field (lit "amount") (str (show_ℤ amount))
                  (field (lit "user_is_sender") (bool user_is_sender) end))))))
        (Builder.user_address (some user) (
          Builder.factory_op_id fopid (
            Builder.op_id op_id (
              Builder.block_timestamp raw.ledger_closed_at (
                Builder.event_hash (with_suffix tx_hash suffix) (
                  Builder.new raw.ledger_closed_at ActivityEventType.op_lend_transfered
                    raw.ledger_seq)))))))

-- `ignored.contains(..)`
ignored : LocalEnv → Text → Bool
unfolding get_ignored_addresses
ignored cfg a = any (λ x. text_eq x a) (get_ignored_addresses cfg)

-- The arm of `OpLendTransfered`.
transfer_rows : RawSorobanEvent → Option Uuid → Option ℤ → Text → Text → ℤ → Option (List Activity)
unfolding transfer_row
transfer_rows raw (some op_id) (some fopid) from to amount = some (
    transfer_row raw op_id fopid from to amount (lit "lend_oplend_transferred_from") from true
    ∷ transfer_row raw op_id fopid from to amount (lit "lend_oplend_transferred_to") to false
    ∷ [])
transfer_rows raw _ _ from to amount = none

-- The handler's context: the configuration, and the operation store's lookup.
module _ (cfg : LocalEnv) (get_op_id_from_fop_id : ℤ → Result Uuid) where
  handle_decoded :
      ObservableContract → OpMapping → RawSorobanEvent → ContractEvent → Option (List Activity)
  unfolding created transfer_rows ignored build_activity
  handle_decoded contract ops raw (ContractEvent.op_created op_token operation_id total_shares) =
      created get_op_id_from_fop_id ops raw op_token operation_id total_shares
  handle_decoded contract ops raw (ContractEvent.op_lend_transfered from to amount) =
      if ignored cfg from || ignored cfg to
      then none
      else transfer_rows raw contract.op_id contract.fop_id from to amount
  handle_decoded contract ops raw event =
      build_activity cfg.env ops event (event_key raw) raw.ledger_seq raw.ledger_closed_at

  -- The source's result is always `Ok`, so the option alone is modelled.
  unfoldable pub handle_event :
      ObservableContract → OpMapping → RawSorobanEvent → Option (List Activity)
  unfolding decode_event handle_decoded
  handle_event contract ops raw = elim (decode_event raw) [
    | err _ ↦ none
    | ok event ↦ handle_decoded contract ops raw event
  ]
