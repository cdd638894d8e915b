-- ===== src/Domain/Activity.antt =====
-- crates/lw-domain/src/activity_model.rs: event types, their priority and status, the builder.
use lend_worker_stellar.Base.{
  ℕ, ℤ, Text, lit, Json, Bool, true, false, any, Option, none, some, List,
}
use lend_worker_stellar.Config.Types.{Uuid, Address}
use lend_worker_stellar.Domain.Operation.{Time, FundingStatus}

pub data ActivityEventType : Type 0 where
  not_specified invested invested_fiat refunded claimed_rewards claimed_ref_rewards claimed_op_token
        rewards_distributed ref_rewards_distributed op_lend_bridged op_lend_transfered
        op_lend_peer_added op_predeposits_open op_predeposits_closed op_created op_paused op_resumed
        op_canceled op_started op_finished order_filled order_cancelled restitution_opened
        restitution_claimed restitution_closed funding_withdrawn :
      ActivityEventType

unfoldable pub activity_event_priority : ActivityEventType → ℕ
activity_event_priority op_created = 1
activity_event_priority op_predeposits_open = 2
activity_event_priority op_predeposits_closed = 3
activity_event_priority op_started = 4
activity_event_priority op_paused = 5
activity_event_priority op_resumed = 6
activity_event_priority op_finished = 7
activity_event_priority op_canceled = 8
activity_event_priority _ = 0

unfoldable pub activity_event_to_funding_status : ActivityEventType → Option FundingStatus
activity_event_to_funding_status op_created = some FundingStatus.upcoming
activity_event_to_funding_status op_started = some FundingStatus.open_status
activity_event_to_funding_status op_predeposits_open = some FundingStatus.predeposit
activity_event_to_funding_status op_predeposits_closed = some FundingStatus.upcoming
activity_event_to_funding_status op_paused = some FundingStatus.paused
activity_event_to_funding_status op_resumed = some FundingStatus.open_status
activity_event_to_funding_status op_finished = some FundingStatus.finished
activity_event_to_funding_status op_canceled = some FundingStatus.canceled
activity_event_to_funding_status _ = none

pub record Activity : Type 0 where
  pub op_id : Uuid
  pub factory_op_id : ℤ
  pub event_hash : Text
  pub chain_id : ℤ
  pub event_type : ActivityEventType
  pub user_address : Option Address
  pub block_number : ℤ
  pub payload : Json
  pub created_at : Time

-- the `matches!` of `factory_needs_refresh`
abbrev pub refreshes_factory : ActivityEventType → Bool
refreshes_factory invested = true
refreshes_factory invested_fiat = true
refreshes_factory refunded = true
refreshes_factory op_created = true
refreshes_factory op_started = true
refreshes_factory op_predeposits_open = true
refreshes_factory op_paused = true
refreshes_factory op_resumed = true
refreshes_factory op_finished = true
refreshes_factory op_canceled = true
refreshes_factory op_lend_peer_added = true
refreshes_factory _ = false

unfoldable pub factory_needs_refresh : List Activity → Bool
factory_needs_refresh events = any (λ a. refreshes_factory a.event_type) events

abbrev pub refreshes_orders : ActivityEventType → Bool
refreshes_orders order_filled = true
refreshes_orders order_cancelled = true
refreshes_orders _ = false

unfoldable pub orders_needs_refresh : List Activity → Bool
orders_needs_refresh events = any (λ a. refreshes_orders a.event_type) events

-- `Display`: the snake_case name that serde gives the variant
unfoldable pub display : ActivityEventType → Text
display not_specified = lit "not_specified"
display invested = lit "invested"
display invested_fiat = lit "invested_fiat"
display refunded = lit "refunded"
display claimed_rewards = lit "claimed_rewards"
display claimed_ref_rewards = lit "claimed_ref_rewards"
display claimed_op_token = lit "claimed_op_token"
display rewards_distributed = lit "rewards_distributed"
display ref_rewards_distributed = lit "ref_rewards_distributed"
display op_lend_bridged = lit "op_lend_bridged"
display op_lend_transfered = lit "op_lend_transfered"
display op_lend_peer_added = lit "op_lend_peer_added"
display op_predeposits_open = lit "op_predeposits_open"
display op_predeposits_closed = lit "op_predeposits_closed"
display op_created = lit "op_created"
display op_paused = lit "op_paused"
display op_resumed = lit "op_resumed"
display op_canceled = lit "op_canceled"
display op_started = lit "op_started"
display op_finished = lit "op_finished"
display order_filled = lit "order_filled"
display order_cancelled = lit "order_cancelled"
display restitution_opened = lit "restitution_opened"
display restitution_claimed = lit "restitution_claimed"
display restitution_closed = lit "restitution_closed"
display funding_withdrawn = lit "funding_withdrawn"
