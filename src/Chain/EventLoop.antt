-- ===== src/Chain/EventLoop.antt =====
-- crates/lw-chain/src/event_loop.rs: error classification, the replay source, and one turn of the
-- loop. A turn drains the pending commands and polls once; the sleep between turns is not modelled.
pub mod Errors
pub mod Cursor
pub mod Coverage
pub mod CatchUp
pub mod Trust
pub mod Sends
pub mod Start
pub mod Known
pub mod Observed
pub mod Progress
use mathlib.Core.List.{foldl}
use lend_worker_stellar.Base.{
  ℕ, zero, suc, ℤ, pos, add_i32, max_ℤ, ltb_ℤ, Text, is_empty, Bool, true, false, if◌then◌else◌,
  Option, none, some, List, [], ◌∷◌, HashMap, get, insert, keys, text_key, Result, ok, err,
}
use lend_worker_stellar.Config.Types.{
  OpMapping, ObservableContract, IndexerCommand, update_contracts,
}
use lend_worker_stellar.Config.Env.{LocalEnv}
use lend_worker_stellar.Domain.Activity.{Activity}
use lend_worker_stellar.Chain.EventSource.Raw.{RawSorobanEvent}
use lend_worker_stellar.Chain.EventSource.Range.{parse_ledger_range}

pub data Attempt : Type 0 where
  live_only live_with_backfill backfill_bounded backfill_archival : Attempt

pub data Recovery : Type 0 where
  replay_gap : ℤ → Recovery
  skip_gap : ℤ → Recovery
  report : Recovery

-- the inner match on the attempt
abbrev pub below_floor : ℤ → Attempt → Recovery
below_floor low live_with_backfill = replay_gap low
below_floor low _ = skip_gap low

-- the match on the parsed range
abbrev pub by_range : Option (ℤ × ℤ) → ℤ → Attempt → Recovery
by_range none cursor attempt = report
by_range (some range) cursor attempt =
    if ltb_ℤ cursor range.0 then below_floor range.0 attempt else report

unfoldable pub classify_fetch_error : Text → ℤ → Attempt → Recovery
classify_fetch_error error cursor backfill_archival = report
classify_fetch_error error cursor attempt = by_range (parse_ledger_range error) cursor attempt

-- `dyn EventSource`: `fetch` from a ledger, for some contracts.
abbrev pub Source : Type 0
Source = ℤ → List Text → Result (List RawSorobanEvent × ℤ)

pub record Replay : Type 0 where
  pub source : Source
  pub attempt : Attempt

-- `build_replay`; connecting to Hubble and building an RPC client are arguments.
module _ (connect_hubble : Text → Text → ℤ → ℤ → Result Source)
    (new_backfill : Text → ℤ → Result Source) where
  rpc_replay : LocalEnv → Option Replay
  rpc_replay cfg =
      if is_empty cfg.backfill_source_url
      then none
      else elim (new_backfill cfg.backfill_source_url cfg.backfill_max_span) [
        | ok b ↦ some (record { source = b; attempt = backfill_bounded })
        | err e ↦ none
      ]

  hubble_or : LocalEnv → ℤ → Option Replay → Option Replay
  hubble_or cfg tip fallback =
      elim (connect_hubble cfg.hubble_billing_project cfg.hubble_dataset cfg.hubble_max_span tip) [
        | ok h ↦ some (record { source = h; attempt = backfill_archival })
        | err e ↦ fallback
      ]

  unfoldable pub build_replay : LocalEnv → Option ℤ → Option Replay
  unfolding rpc_replay hubble_or
  build_replay cfg network_tip =
      if is_empty cfg.hubble_billing_project then rpc_replay cfg else elim network_tip [
        | none ↦ rpc_replay cfg
        | some tip ↦ hubble_or cfg tip (rpc_replay cfg)
      ]

-- The variables that the loop carries from turn to turn.
pub record LoopState : Type 0 where
  pub contracts : HashMap Text ObservableContract
  pub fopid_to_opid : OpMapping
  pub cursor : ℤ
  pub retention_floor : Option ℤ

-- The body of the `for` over a command's contracts.
unfoldable pub track : ℤ → LoopState → ObservableContract → LoopState
unfolding insert
track start_ledger s c = record s {
  cursor = max_ℤ (max_ℤ s.cursor (add_i32 c.latest_block (pos 1))) start_ledger;
  contracts = insert c.address c s.contracts;
}

unfoldable pub apply_command : ℤ → LoopState → IndexerCommand → LoopState
unfolding track
apply_command start_ledger s (update_contracts list mapping) =
    record (foldl (track start_ledger) s list) { fopid_to_opid = mapping }

unfoldable pub drain : ℤ → LoopState → List IndexerCommand → LoopState
unfolding apply_command
drain start_ledger = foldl (apply_command start_ledger)

-- What surrounds a poll: the two sources, the handler, and the sends that succeed before the event
-- channel is closed, if it is.
pub record Context : Type 0 where
  pub live : Source
  pub backfill : Option Replay
  pub handle : ObservableContract → OpMapping → RawSorobanEvent → Option (List Activity)
  pub open_for : Option ℕ

-- the match that picks the source
abbrev pub choose : Source → ℤ → Option ℤ → Option Replay → Source × Attempt
choose live cursor floor none = (live, live_only)
choose live cursor none (some r) = (live, live_with_backfill)
choose live cursor (some floor) (some r) =
    if ltb_ℤ cursor floor then (r.source, r.attempt) else (live, live_with_backfill)

unfoldable pub route : Context → LoopState → Source × Attempt
route ctx s = choose ctx.live s.cursor s.retention_floor ctx.backfill

-- `contracts.get(..)` and `handle_event`: the rows of one event, if there are any to send
unfoldable pub rows_of : Context → LoopState → RawSorobanEvent → Option (List Activity)
unfolding get
rows_of ctx s raw = elim (get raw.contract_id s.contracts) [
  | none ↦ none
  | some contract ↦ ctx.handle contract s.fopid_to_opid raw
]

-- The `for` over the events: what was sent, and whether a send failed.
unfoldable pub forward :
    Context → LoopState → Option ℕ → List RawSorobanEvent → List (List Activity) × Bool
unfolding rows_of
forward ctx s open_for [] = ([], false)
forward ctx s open_for (raw ∷ raws) =
    let rest = λ (o : Option ℕ). forward ctx s o raws in
    elim (rows_of ctx s raw) [
      | none ↦ rest open_for
      | some rows ↦ elim open_for [
        | none ↦ let (sent, closed) = rest none in (rows ∷ sent, closed)
        | some zero ↦ ([], true)
        | some (suc n) ↦ let (sent, closed) = rest (some n) in (rows ∷ sent, closed)
      ]
    ]

-- What a poll leaves behind: the state, the rows sent, and whether the loop returned.
pub record Polled : Type 0 where
  pub state : LoopState
  pub sent : List (List Activity)
  pub stopped : Bool

abbrev pub recover : LoopState → Recovery → LoopState
recover s (replay_gap floor) = record s { retention_floor = some floor }
recover s (skip_gap floor) = record s { retention_floor = some floor; cursor = floor }
recover s report = s

abbrev pub arrived : LoopState → ℤ → List (List Activity) × Bool → Polled
arrived s next_cursor (sent, true) = record { state = s; sent = sent; stopped = true }
arrived s next_cursor (sent, false) = record {
  state = record s { cursor = next_cursor };
  sent = sent;
  stopped = false;
}

abbrev pub is_idle : LoopState → Bool
is_idle s = elim s.contracts [ [] ↦ true | _ ∷ _ ↦ false ]

unfoldable pub poll : Context → LoopState → Polled
unfolding route forward classify_fetch_error keys
poll ctx s =
    let (source, attempt) = route ctx s in
    let answered : Polled = elim (source s.cursor (keys s.contracts)) [
      | ok (events, next_cursor) ↦ arrived s next_cursor (forward ctx s ctx.open_for events)
      | err e ↦ record {
        state = recover s (classify_fetch_error e s.cursor attempt);
        sent = [];
        stopped = false;
      }
    ] in
    if is_idle s then record { state = s; sent = []; stopped = false } else answered

-- One turn of the loop.
unfoldable pub turn : Context → ℤ → List IndexerCommand → LoopState → Polled
unfolding drain poll
turn ctx start_ledger commands s = poll ctx (drain start_ledger s commands)
