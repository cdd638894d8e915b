-- ===== src/Storage/Latest.antt =====
-- crates/lw-storage/src/activity_repository.rs: the highest block of the stored rows of one kind of
-- contract.
pub mod Blocks
use mathlib.Core.List.{foldl}
use mathlib.Core.Option
use lend_worker_stellar.Base.{
  ℕ, ◌+◌, ℤ, pos, ◌+ℤ◌, max_ℤ, eqb_ℤ, show_ℤ, parse_i64, Text, lit, text_eq, ◌==◌, Json, null, bool,
  num, str, obj, member, Bool, true, false, ◌&&◌, ltb, any, keep, if◌then◌else◌, HashMap, get,
  insert, collect, int_key, Option, none, some, unwrap_or, List, [], ◌∷◌, ◌++◌, map, length, Result,
  ok, err, collect_all, ◌>>=◌,
}
use lend_worker_stellar.Config.Types.{Uuid}
use lend_worker_stellar.Config.Env.{stellar_chain_id}
use lend_worker_stellar.Domain.Operation.{Time}
use lend_worker_stellar.Domain.Activity.{Activity, ActivityEventType, activity_event_priority}
use lend_worker_stellar.Storage.Tables.{Db, insert_row, insert_rows}

-- MAX(block_number); `Err(_) => Ok(0)` catches the null of no rows.
unfoldable pub max_block : List Activity → Option ℤ
max_block [] = none
max_block (a ∷ l) =
    let rest = max_block l in
    elim rest [ none ↦ some a.block_number | some m ↦ some (max_ℤ a.block_number m) ]

-- the three IN lists
abbrev pub is_oplend_type : ActivityEventType → Bool
is_oplend_type ActivityEventType.op_lend_bridged = true
is_oplend_type ActivityEventType.op_lend_transfered = true
is_oplend_type _ = false

abbrev pub is_rewards_type : ActivityEventType → Bool
is_rewards_type ActivityEventType.claimed_rewards = true
is_rewards_type ActivityEventType.rewards_distributed = true
is_rewards_type _ = false

abbrev pub is_factory_type : ActivityEventType → Bool
is_factory_type ActivityEventType.invested = true
is_factory_type ActivityEventType.invested_fiat = true
is_factory_type ActivityEventType.refunded = true
is_factory_type ActivityEventType.op_lend_peer_added = true
is_factory_type ActivityEventType.op_predeposits_open = true
is_factory_type ActivityEventType.op_predeposits_closed = true
is_factory_type ActivityEventType.claimed_op_token = true
is_factory_type ActivityEventType.op_created = true
is_factory_type ActivityEventType.op_paused = true
is_factory_type ActivityEventType.op_resumed = true
is_factory_type ActivityEventType.op_started = true
is_factory_type ActivityEventType.op_canceled = true
is_factory_type ActivityEventType.op_finished = true
is_factory_type ActivityEventType.funding_withdrawn = true
is_factory_type _ = false

-- chain_id = $1
abbrev pub on_stellar : Activity → Bool
on_stellar a = eqb_ℤ a.chain_id stellar_chain_id

unfoldable pub get_oplend_latest_blocks : Uuid → Db → Result ℤ
unfolding max_block
get_oplend_latest_blocks id db = ok (
    unwrap_or (pos 0) (
      max_block
        (keep (λ a. on_stellar a && (a.op_id == id && is_oplend_type a.event_type)) db.activity)))

unfoldable pub get_rewards_latest_blocks : Db → Result ℤ
unfolding max_block
get_rewards_latest_blocks db = ok (
    unwrap_or (pos 0)
      (max_block (keep (λ a. on_stellar a && is_rewards_type a.event_type) db.activity)))

unfoldable pub get_factory_latest_block : Db → Result ℤ
unfolding max_block
get_factory_latest_block db = ok (
    unwrap_or (pos 0)
      (max_block (keep (λ a. on_stellar a && is_factory_type a.event_type) db.activity)))
