-- ===== src/Tests/Events.antt =====
-- Decoding, the rows and their hashes at concrete inputs.
use lend_worker_stellar.Base.{
  ℤ, pos, wrap_i32, Text, string_member, text_eq, lit, ◌≡◌, refl, none, some, List, [], ◌∷◌,
  int_key, Result, ok, err, arith,
}
use lend_worker_stellar.Config.Types.{
  Uuid, ContractEvent, ContractType, ObservableContract, OpMapping,
}
use lend_worker_stellar.Config.Env.{Environ, new, production}
use lend_worker_stellar.Domain.Activity.{Activity, ActivityEventType}
use lend_worker_stellar.Domain.Builder
use lend_worker_stellar.Domain.Build.{build_activity, op_uuid}
use lend_worker_stellar.Domain.Build.Amounts.{moved, IsShown, build_activity-IsShown}
use lend_worker_stellar.Domain.Build.Rows.{RowOf, row_type, op_of, user_of, build_activity-RowOf}
use lend_worker_stellar.Chain.Scval.{ScVal, as_i128}
use lend_worker_stellar.Chain.EventSource.Raw.{RawSorobanEvent}
use lend_worker_stellar.Chain.LogHandlers.{decode_event, handle_event}
use lend_worker_stellar.Chain.LogHandlers.RoundTrip.{emitted, decode_event-emitted}
use lend_worker_stellar.Chain.LogHandlers.Hashes.{handle_event-hash_unique}

abbrev pub blank : RawSorobanEvent
blank = record {
  tx_hash = lit "ab12";
  event_index = pos 4;
  contract_id = lit "CFACTORY";
  topics = [];
  value = ScVal.other 0;
  ledger_seq = pos 120;
  ledger_closed_at = pos 1_700_000_000;
}

abbrev pub investment : ContractEvent
investment = ContractEvent.invested (lit "GINVESTOR") 3 (pos 25_000_000) (pos 7)

abbrev mapping : OpMapping
mapping = (pos 3, 42) ∷ []

abbrev unset : Environ
unset name = none

abbrev store : ℤ → Result Uuid
store fop = err (lit "no such operation")

abbrev pub factory : ObservableContract
factory = record {
  contract_type = ContractType.factory;
  op_id = none;
  fop_id = none;
  address = lit "CFACTORY";
  latest_block = pos 0;
}

build_activity-IsShown_example :
    (a : Activity) × (t : Text) × (build_activity production mapping investment
        (lit "ab12#4")
        (pos 120)
        (pos 1)
      ≡ some (a ∷ []))
    × (string_member (lit "usdc_amount") a.payload ≡ some t)
    × IsShown production investment (pos 25_000_000) t
unfolding moved op_of op_uuid wrap_i32
build_activity-IsShown_example =
    build_activity-IsShown production mapping investment (lit "ab12#4") (pos 120) (pos 1)
      (pos 25_000_000) 42 refl refl

build_activity-RowOf_example :
    (a : Activity) × (build_activity production mapping investment (lit "ab12#4") (pos 120) (pos 1)
      ≡ some (a ∷ []))
    × RowOf ActivityEventType.invested 3 (some (lit "GINVESTOR")) 42 (lit "ab12#4") a
unfolding row_type op_of user_of op_uuid wrap_i32
build_activity-RowOf_example =
    build_activity-RowOf production mapping investment (lit "ab12#4") (pos 120) (pos 1)
      ActivityEventType.invested 42 refl refl

decode_event-emitted_example : decode_event (emitted blank investment) ≡ ok investment
decode_event-emitted_example = decode_event-emitted blank investment

-- the same event, as another source reports it: later in the chain
abbrev later : RawSorobanEvent
later = record blank { ledger_seq = pos 121 }

abbrev rows : RawSorobanEvent → List Activity
unfolding handle_event
rows raw = elim (handle_event (new unset) store factory mapping (emitted raw investment)) [
  | none ↦ []
  | some l ↦ l
]

abbrev row : RawSorobanEvent → Activity
row raw = elim (rows raw) [
  | [] ↦ Builder.build (Builder.new (pos 0) ActivityEventType.invested (pos 0))
  | a ∷ l ↦ a
]

handle_event-hash_unique_example :
    ((emitted blank investment).tx_hash ≡ (emitted later investment).tx_hash)
    × ((emitted blank investment).event_index ≡ (emitted later investment).event_index)
    × ((row blank).event_type ≡ (row later).event_type)
unfolding emitted handle_event op_uuid build_activity lit text_eq as_i128 wrap_i32 rows
handle_event-hash_unique_example =
    handle_event-hash_unique (new unset) store store factory factory mapping mapping
      (emitted blank investment) (emitted later investment) (rows blank) (rows later) 0 0
      (row blank) (row later) (omega arith) (omega arith) refl refl refl refl refl
