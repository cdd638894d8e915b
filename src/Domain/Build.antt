-- ===== src/Domain/Build.antt =====
-- crates/lw-domain/src/activity_builder.rs: the `Activity` rows that a decoded event implies.
pub mod Rows
pub mod Amounts
use lend_worker_stellar.Base.{
  ℕ, ◌/◌, ℤ, pos, negsuc, wrap_i32, show_ℕ, show_ℤ, Text, lit, Json, str, num, obj, Fields, end,
  field, get, int_key, if◌then◌else◌, Option, none, some, List, [], ◌∷◌, ◌++◌, unwrap_or,
}
use lend_worker_stellar.Config.Types.{Uuid, OpMapping, ContractEvent}
use lend_worker_stellar.Config.Env.{AppEnv, is_production_env}
use lend_worker_stellar.Domain.Operation.{Time}
use lend_worker_stellar.Domain.Activity.{Activity, ActivityEventType}
use lend_worker_stellar.Domain.Builder

-- `operation_id as i32`
abbrev pub as_i32 : ℕ → ℤ
as_i32 n = wrap_i32 (pos n)

unfoldable pub op_uuid : OpMapping → ℕ → Option Uuid
unfolding get
op_uuid fopid_to_opid op_id = get (as_i32 op_id) fopid_to_opid

-- `get_app_env()` is the first argument. The source's `/` on a positive i128 truncates.
unfoldable pub usdc_to_db_units : AppEnv → ℤ → ℤ
usdc_to_db_units env (negsuc n) = pos 0
usdc_to_db_units env (pos n) = if is_production_env env then pos (n / 10) else pos n

-- `format!("{tx_hash}#{suffix}")`
unfoldable pub with_suffix : Text → Text → Text
with_suffix tx_hash suffix = tx_hash ++ (lit "#" ++ suffix)

-- The builder chain that every arm shares: the time, the hash, the two ids, the user, the payload.
unfoldable pub one_activity :
    ActivityEventType
    → Text
    → Text
    → ℤ
    → Time
    → Uuid
    → ℕ
    → Option Text
    → Fields
    → Option (List Activity)
unfolding with_suffix Builder.build
one_activity event_type suffix tx_hash block_number ts op_id operation_id user rest = some (
    Builder.build (
      Builder.payload (obj (field (lit "tx_hash") (str tx_hash) rest)) (
        Builder.user_address user (
          Builder.factory_op_id (as_i32 operation_id) (
            Builder.op_id op_id (
              Builder.event_hash (with_suffix tx_hash suffix)
                (Builder.block_timestamp ts (Builder.new ts event_type block_number)))))))
    ∷ [])

abbrev pub with_op : Option Uuid → (Uuid → Option (List Activity)) → Option (List Activity)
with_op none k = none
with_op (some id) k = k id

unfoldable pub simple_lifecycle :
    OpMapping → ℕ → ActivityEventType → Text → Text → ℤ → Time → Option (List Activity)
simple_lifecycle fopid_to_opid operation_id event_type suffix tx_hash block_number ts =
    with_op (op_uuid fopid_to_opid operation_id)
      λ id. one_activity event_type suffix tx_hash block_number ts id operation_id none end

-- The arm of `OpFinished`.
abbrev op_finished_activity : AppEnv → OpMapping → ℕ → ℤ → Text → ℤ → Time → Option (List Activity)
unfolding one_activity usdc_to_db_units
op_finished_activity env ops op raised tx_hash block ts = with_op (op_uuid ops op) λ id.
    one_activity ActivityEventType.op_finished (lit "lend_op_finished") tx_hash block ts id op none
      (field (lit "amount_raised") (str (show_ℤ raised)) end)

-- The arm of `FundingWithdrawn`.
abbrev funding_withdrawn_activity :
    AppEnv → OpMapping → ℕ → ℤ → Text → ℤ → Time → Option (List Activity)
unfolding one_activity usdc_to_db_units
funding_withdrawn_activity env ops op usdc tx_hash block ts = with_op (op_uuid ops op) λ id.
    one_activity ActivityEventType.funding_withdrawn (lit "lend_funding_withdrawn") tx_hash block ts
      id op none
      (field (lit "usdc_amount") (str (show_ℤ usdc)) (field (lit "eurc_amount") (num (pos 0)) end))

-- The arm of `ClaimedRewards`.
abbrev claimed_rewards_activity :
    AppEnv → OpMapping → ℕ → Text → ℤ → Text → ℤ → Time → Option (List Activity)
unfolding one_activity usdc_to_db_units
claimed_rewards_activity env ops op user balance tx_hash block ts = with_op (op_uuid ops op) λ id.
    one_activity ActivityEventType.claimed_rewards (lit "lend_rewards_claimed") tx_hash block ts id
      op (some user) (field (lit "usdc_amount") (str (show_ℤ (usdc_to_db_units env balance))) end)

-- The arm of `RewardsDistributed`.
abbrev rewards_distributed_activity :
    AppEnv → OpMapping → ℕ → ℕ → ℤ → Text → ℤ → Time → Option (List Activity)
unfolding one_activity usdc_to_db_units
rewards_distributed_activity env ops op epoch amount tx_hash block ts =
    with_op (op_uuid ops op) λ id.
      one_activity ActivityEventType.rewards_distributed (lit "lend_rewards_distributed") tx_hash
        block ts id op none
        (field (lit "usdc_amount") (str (show_ℤ (usdc_to_db_units env amount)))
          (field (lit "epoch") (str (show_ℕ epoch)) (field (lit "op_id") (num (as_i32 op)) end)))

-- `None`: an unknown operation, or a variant that `handle_event` treats itself. The `data` objects
-- list their members in the order of the source's `json!`.
unfoldable pub build_activity :
    AppEnv → OpMapping → ContractEvent → Text → ℤ → Time → Option (List Activity)
unfolding simple_lifecycle one_activity usdc_to_db_units
build_activity env ops (ContractEvent.claimed_tokens investor op amount) tx_hash block ts =
    with_op (op_uuid ops op) λ id.
      one_activity ActivityEventType.claimed_op_token (lit "lend_op_tokens_claimed") tx_hash block
        ts id op (some investor) (field (lit "token_amount") (str (show_ℤ amount)) end)
build_activity env ops (ContractEvent.op_predeposits_open op) tx_hash block ts =
    with_op (op_uuid ops op) λ id.
      one_activity ActivityEventType.op_predeposits_open (lit "lend_op_predeposits_open") tx_hash
        block ts id op none end
build_activity env ops (ContractEvent.op_predeposits_closed op) tx_hash block ts =
    with_op (op_uuid ops op) λ id.
      one_activity ActivityEventType.op_predeposits_closed (lit "lend_op_predeposits_closed")
        tx_hash block ts id op none end
build_activity env ops (ContractEvent.invested investor op usdc shares) tx_hash block ts =
    with_op (op_uuid ops op) λ id.
      one_activity ActivityEventType.invested (lit "lend_invested") tx_hash block ts id op
        (some investor)
        (field (lit "usdc_amount") (str (show_ℤ (usdc_to_db_units env usdc)))
          (field (lit "shares_bought") (str (show_ℤ shares)) end))
build_activity env ops (ContractEvent.invested_fiat investor destination op shares) tx_hash block
      ts =
    with_op (op_uuid ops op) λ id.
      one_activity ActivityEventType.invested_fiat (lit "lend_invested_fiat") tx_hash block ts id op
        (some investor)
        (field (lit "op_lend_holder") (str destination)
          (field (lit "shares_bought") (str (show_ℤ shares)) end))
build_activity env ops (ContractEvent.refunded investor op usdc shares) tx_hash block ts =
    with_op (op_uuid ops op) λ id.
      one_activity ActivityEventType.refunded (lit "lend_refunded") tx_hash block ts id op
        (some investor)
        (field (lit "usdc_amount") (str (show_ℤ (usdc_to_db_units env usdc)))
          (field (lit "shares_refunded") (str (show_ℤ shares)) end))
build_activity env ops (ContractEvent.op_started op) tx_hash block ts =
    simple_lifecycle ops op ActivityEventType.op_started (lit "lend_op_started") tx_hash block ts
build_activity env ops (ContractEvent.op_finished op raised) tx_hash block ts =
    op_finished_activity env ops op raised tx_hash block ts
build_activity env ops (ContractEvent.funding_withdrawn op usdc) tx_hash block ts =
    funding_withdrawn_activity env ops op usdc tx_hash block ts
build_activity env ops (ContractEvent.op_canceled op) tx_hash block ts =
    simple_lifecycle ops op ActivityEventType.op_canceled (lit "lend_op_canceled") tx_hash block ts
build_activity env ops (ContractEvent.op_paused op) tx_hash block ts =
    simple_lifecycle ops op ActivityEventType.op_paused (lit "lend_op_paused") tx_hash block ts
build_activity env ops (ContractEvent.op_resumed op) tx_hash block ts =
    simple_lifecycle ops op ActivityEventType.op_resumed (lit "lend_op_resumed") tx_hash block ts
build_activity env ops (ContractEvent.claimed_rewards op user balance) tx_hash block ts =
    claimed_rewards_activity env ops op user balance tx_hash block ts
build_activity env ops (ContractEvent.rewards_distributed op epoch amount) tx_hash block ts =
    rewards_distributed_activity env ops op epoch amount tx_hash block ts
build_activity env ops _ tx_hash block ts = none
