-- ===== src/Domain/Builder.antt =====
-- `ActivityBuilder` of crates/lw-domain/src/activity_model.rs: the setters take the builder last.
use lend_worker_stellar.Base.{ℤ, pos, Text, Json, obj, end, Option, none, []}
use lend_worker_stellar.Config.Types.{Uuid, Address, nil_uuid}
use lend_worker_stellar.Config.Env.{stellar_chain_id}
use lend_worker_stellar.Domain.Operation.{Time}
use lend_worker_stellar.Domain.Activity.{Activity, ActivityEventType}

pub record ActivityBuilder : Type 0 where
  pub op_id : Uuid
  pub factory_op_id : ℤ
  pub event_hash : Text
  pub chain_id : ℤ
  pub event_type : ActivityEventType
  pub user_address : Option Address
  pub block_number : ℤ
  pub payload : Json
  pub created_at : Time

-- `now` is `Utc::now()`, which every caller in the sources replaces.
unfoldable pub new : Time → ActivityEventType → ℤ → ActivityBuilder
new now event_type block_number = record {
  op_id = nil_uuid;
  factory_op_id = pos 0;
  event_hash = [];
  chain_id = stellar_chain_id;
  event_type = event_type;
  user_address = none;
  block_number = block_number;
  payload = obj end;
  created_at = now;
}

unfoldable pub block_timestamp : Time → ActivityBuilder → ActivityBuilder
block_timestamp bts b = record b { created_at = bts }

unfoldable pub event_hash : Text → ActivityBuilder → ActivityBuilder
event_hash h b = record b { event_hash = h }

unfoldable pub op_id : Uuid → ActivityBuilder → ActivityBuilder
op_id id b = record b { op_id = id }

unfoldable pub factory_op_id : ℤ → ActivityBuilder → ActivityBuilder
factory_op_id id b = record b { factory_op_id = id }

unfoldable pub user_address : Option Address → ActivityBuilder → ActivityBuilder
user_address a b = record b { user_address = a }

-- `ActivityBuilder::data`
unfoldable pub payload : Json → ActivityBuilder → ActivityBuilder
payload j b = record b { payload = j }

unfoldable pub build : ActivityBuilder → Activity
unfolding new block_timestamp event_hash op_id factory_op_id user_address payload
build b = record {
  op_id = b.op_id;
  factory_op_id = b.factory_op_id;
  event_hash = b.event_hash;
  chain_id = b.chain_id;
  event_type = b.event_type;
  user_address = b.user_address;
  block_number = b.block_number;
  payload = b.payload;
  created_at = b.created_at;
}
