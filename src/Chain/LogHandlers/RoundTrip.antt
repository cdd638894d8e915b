-- ===== src/Chain/LogHandlers/RoundTrip.antt =====
-- The contracts' wire format, written independently of the decoder, and the round trip through it.
use lend_worker_stellar.Base.{
  ◌-◌, ◌/◌, ◌%◌, ◌^◌, ℤ, pos, negsuc, Text, lit, text_eq, ◌≡◌, refl, List, [], ◌∷◌, ok, arith,
}
use lend_worker_stellar.Config.Types.{ContractEvent}
use lend_worker_stellar.Chain.Scval.{
  ScVal, ScMap, symbol, u32, i128, address, map_val, nil, entry, other, as_i128,
}
use lend_worker_stellar.Chain.EventSource.Raw.{RawSorobanEvent}
use lend_worker_stellar.Chain.LogHandlers.{decode_event}

-- An amount, split in its high and low 64 bits.
unfoldable pub amount_val : ℤ → ScVal
amount_val (pos n) = i128 (pos (n / 2 ^ 64)) (n % 2 ^ 64)
amount_val (negsuc n) = i128 (negsuc (n / 2 ^ 64)) (2 ^ 64 - 1 - n % 2 ^ 64)

-- The two halves of an amount are put together again.
pub as_i128-amount_val : (z : ℤ) → as_i128 (amount_val z) ≡ ok z
unfolding as_i128 amount_val
as_i128-amount_val (pos n) = ground arith
as_i128-amount_val (negsuc n) = ground arith

-- The name in the first topic, the topic fields behind it, and the data map: entries are sorted by
-- their key, and a transfer has an entry that the worker does not read.
unfoldable pub event_name : ContractEvent → Text
event_name (ContractEvent.op_created a op n) = lit "operation_created"
event_name (ContractEvent.op_started op) = lit "operation_started"
event_name (ContractEvent.op_canceled op) = lit "operation_canceled"
event_name (ContractEvent.op_paused op) = lit "operation_paused"
event_name (ContractEvent.op_resumed op) = lit "operation_resumed"
event_name (ContractEvent.op_finished op n) = lit "operation_finished"
event_name (ContractEvent.funding_withdrawn op n) = lit "funding_withdrawn"
event_name (ContractEvent.op_predeposits_open op) = lit "predeposits_open"
event_name (ContractEvent.op_predeposits_closed op) = lit "predeposits_closed"
event_name (ContractEvent.invested a op n k) = lit "invested"
event_name (ContractEvent.invested_fiat a d op k) = lit "invested_fiat"
event_name (ContractEvent.claimed_tokens a op n) = lit "claimed_op_token"
event_name (ContractEvent.refunded a op n k) = lit "refunded"
event_name (ContractEvent.op_lend_transfered a b n) = lit "transfer"
event_name (ContractEvent.claimed_rewards op a n) = lit "claimed"
event_name (ContractEvent.rewards_distributed op e n) = lit "rewards_distributed"

unfoldable pub topic_fields : ContractEvent → List ScVal
topic_fields (ContractEvent.op_created a op n) = (address a) ∷ (u32 op) ∷ []
topic_fields (ContractEvent.op_started op) = (u32 op) ∷ []
topic_fields (ContractEvent.op_canceled op) = (u32 op) ∷ []
topic_fields (ContractEvent.op_paused op) = (u32 op) ∷ []
topic_fields (ContractEvent.op_resumed op) = (u32 op) ∷ []
topic_fields (ContractEvent.op_finished op n) = (u32 op) ∷ []
topic_fields (ContractEvent.funding_withdrawn op n) = (u32 op) ∷ []
topic_fields (ContractEvent.op_predeposits_open op) = (u32 op) ∷ []
topic_fields (ContractEvent.op_predeposits_closed op) = (u32 op) ∷ []
topic_fields (ContractEvent.invested a op n k) = (address a) ∷ (u32 op) ∷ []
topic_fields (ContractEvent.invested_fiat a d op k) = (address a) ∷ (address d) ∷ (u32 op) ∷ []
topic_fields (ContractEvent.claimed_tokens a op n) = (address a) ∷ (u32 op) ∷ []
topic_fields (ContractEvent.refunded a op n k) = (address a) ∷ (u32 op) ∷ []
topic_fields (ContractEvent.op_lend_transfered a b n) = (address a) ∷ (address b) ∷ []
topic_fields (ContractEvent.claimed_rewards op a n) = (u32 op) ∷ (address a) ∷ []
topic_fields (ContractEvent.rewards_distributed op e n) = (u32 op) ∷ (u32 e) ∷ []

unfoldable pub data_map : ContractEvent → ScMap
data_map (ContractEvent.op_created a op n) =
    (entry (symbol (lit "total_shares")) (amount_val n) nil)
data_map (ContractEvent.op_finished op n) =
    (entry (symbol (lit "amount_raised_euro")) (amount_val n) nil)
data_map (ContractEvent.funding_withdrawn op n) =
    (entry (symbol (lit "usdc_amount")) (amount_val n) nil)
data_map (ContractEvent.invested a op n k) =
    (entry (symbol (lit "shares_bought")) (amount_val k)
      (entry (symbol (lit "usdc_amount")) (amount_val n) nil))
data_map (ContractEvent.invested_fiat a d op k) =
    (entry (symbol (lit "shares_bought")) (amount_val k) nil)
data_map (ContractEvent.claimed_tokens a op n) = (entry (symbol (lit "amount")) (amount_val n) nil)
data_map (ContractEvent.refunded a op n k) =
    (entry (symbol (lit "shares_refunded")) (amount_val k)
      (entry (symbol (lit "usdc_amount")) (amount_val n) nil))
data_map (ContractEvent.op_lend_transfered a b n) =
    (entry (symbol (lit "to_muxed_id")) (other 0)
      (entry (symbol (lit "amount")) (amount_val n) nil))
data_map (ContractEvent.claimed_rewards op a n) =
    (entry (symbol (lit "balance")) (amount_val n) nil)
data_map (ContractEvent.rewards_distributed op e n) =
    (entry (symbol (lit "amount")) (amount_val n) nil)
data_map _ = nil

-- The raw event by which the contract `raw.contract_id` reports `event`.
unfoldable pub emitted : RawSorobanEvent → ContractEvent → RawSorobanEvent
unfolding event_name topic_fields data_map amount_val
emitted raw event = record raw {
  topics = symbol (event_name event) ∷ topic_fields event;
  value = map_val (data_map event);
}

-- Every event that the contracts report in their wire format decodes to itself: each name is
-- recognised, each topic is read from its position, each amount from its key and both its halves.
pub decode_event-emitted :
    (raw : RawSorobanEvent) (event : ContractEvent) → decode_event (emitted raw event) ≡ ok event
unfolding decode_event emitted lit text_eq
decode_event-emitted raw (ContractEvent.op_created a op n) = simp as_i128-amount_val
decode_event-emitted raw (ContractEvent.op_started op) = refl
decode_event-emitted raw (ContractEvent.op_canceled op) = refl
decode_event-emitted raw (ContractEvent.op_paused op) = refl
decode_event-emitted raw (ContractEvent.op_resumed op) = refl
decode_event-emitted raw (ContractEvent.op_finished op n) = simp as_i128-amount_val
decode_event-emitted raw (ContractEvent.funding_withdrawn op n) = simp as_i128-amount_val
decode_event-emitted raw (ContractEvent.op_predeposits_open op) = refl
decode_event-emitted raw (ContractEvent.op_predeposits_closed op) = refl
decode_event-emitted raw (ContractEvent.invested a op n k) = simp as_i128-amount_val
decode_event-emitted raw (ContractEvent.invested_fiat a d op k) = simp as_i128-amount_val
decode_event-emitted raw (ContractEvent.claimed_tokens a op n) = simp as_i128-amount_val
decode_event-emitted raw (ContractEvent.refunded a op n k) = simp as_i128-amount_val
decode_event-emitted raw (ContractEvent.op_lend_transfered a b n) = simp as_i128-amount_val
decode_event-emitted raw (ContractEvent.claimed_rewards op a n) = simp as_i128-amount_val
decode_event-emitted raw (ContractEvent.rewards_distributed op e n) = simp as_i128-amount_val
