-- ===== src/Chain/EventSource/Raw.antt =====
-- `RawSorobanEvent`, and the index that the event id carries.
use lend_worker_stellar.Base.{ℤ, pos, wrap_i32, Text, List, rsplit_first, parse_i64, unwrap_or}
use lend_worker_stellar.Domain.Operation.{Time}
use lend_worker_stellar.Chain.Scval.{ScVal}

pub record RawSorobanEvent : Type 0 where
  pub tx_hash : Text
  pub event_index : ℤ
  pub contract_id : Text
  pub topics : List ScVal
  pub value : ScVal
  pub ledger_seq : ℤ
  pub ledger_closed_at : Time

-- the number behind the last `-` of an event id, 0 if there is none
unfoldable pub event_index_from_id : Text → ℤ
unfolding rsplit_first parse_i64 wrap_i32
event_index_from_id id = wrap_i32 (unwrap_or (pos 0) (parse_i64 (rsplit_first b'-' id)))
