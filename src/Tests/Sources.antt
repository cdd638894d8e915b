-- ===== src/Tests/Sources.antt =====
-- The sources at concrete inputs: a node that keeps one event and serves it to a request from its ledger
-- or below, and nothing behind a cursor.
use mathlib.Core.List.{Perm}
use lend_worker_stellar.Base.{
  ◌<◌, ◌+◌, ℕ, ◌-◌, ◌^◌, ◌≤◌, pos, negsuc, ◌≤ℤ◌, ◌<ℤ◌, ◌+ℤ◌, Text, lit, text_eq, is_empty,
  parse_i32, i32_half, leb, Bool-cases, inl, inr, if◌then◌else◌, err, Option, none, some, [], ◌∷◌,
  ◌++◌, get_elem?, split_once, wrap_i32, collect_all, concat, length, map, List, All, add_i32,
  Result, ok, ◌≡◌, refl, sym, arith,
}
use lend_worker_stellar.Config.Env.{Environ, new}
use lend_worker_stellar.Domain.Operation.{Time}
use lend_worker_stellar.Chain.Scval.{ScVal}
use lend_worker_stellar.Chain.EventSource.Raw.{RawSorobanEvent, event_index_from_id}
use lend_worker_stellar.Chain.EventSource.Range.{parse_ledger_range}
use lend_worker_stellar.Chain.EventSource.Range.Message.{bounds, parse_ledger_range-bounds}
use lend_worker_stellar.Chain.EventSource.Retry.{
  RpcEvent, GetEventsResponse, EventStart, ledger, cursor, Client, get_events_retrying,
  rpc_max_retries,
}
use lend_worker_stellar.Chain.EventSource.Retry.Budget.{Requests, get_events_retrying-Requests}
use lend_worker_stellar.Chain.EventSource.Rpc.{
  page_limit, max_contract_ids_per_filter, Tagged, chunks, push_events, fetch, as_u32_word, to_raw,
}
use lend_worker_stellar.Chain.EventSource.Rpc.Order.{IsOrdered}
use lend_worker_stellar.Chain.EventSource.Rpc.Paging.{Pages}
use lend_worker_stellar.Chain.EventSource.Rpc.Whole.{least_resume, over, served, fetch-Swept}
use lend_worker_stellar.Chain.EventSource.Rpc.Window.{Serves, InWindow, asked_from}
use lend_worker_stellar.Chain.EventSource.Rpc.Resume.{fetch-le}
use lend_worker_stellar.Chain.EventSource.Backfill.{bounded}
use lend_worker_stellar.Chain.EventSource.Backfill.Span.{bounded_lem, bounded_overflow}
use lend_worker_stellar.Config.Types.{ContractType}
use lend_worker_stellar.Chain.EventLoop.{
  Context, LoopState, Replay, backfill_bounded, build_replay, drain, turn,
}
use lend_worker_stellar.Chain.EventLoop.Cursor.{Progresses, turn-le}
use lend_worker_stellar.Chain.EventLoop.Progress.{
  rpc_source, rpc_source-Progresses, backfill_source, backfill_source-Progresses, new_backfill,
}

abbrev event : RpcEvent
event = record {
  id = lit "0001-7";
  ledger = 110;
  tx_hash = none;
  contract_id = lit "CTOKEN";
  topic = [];
  value = lit "AAAA";
  ledger_closed_at = lit "2025-01-01T00:00:00Z";
}

abbrev page : GetEventsResponse
page = record { events = event ∷ []; latest_ledger = 300; cursor = lit "0001-7" }

abbrev node : Client
node n (ledger k) ids limit =
    if leb k 110 then ok page else err (lit "startLedger must be within the ledger range: 90 - 110")
node n (cursor c) ids limit = ok (record { events = []; latest_ledger = 300; cursor = c })

abbrev xdr : Text → Result ScVal
xdr t = ok (ScVal.other 0)

abbrev rfc : Text → Option Time
rfc t = some (pos 5)

abbrev raw : RawSorobanEvent
raw = record {
  tx_hash = lit "0001-7";
  event_index = event_index_from_id (lit "0001-7");
  contract_id = lit "CTOKEN";
  topics = [];
  value = ScVal.other 0;
  ledger_seq = pos 110;
  ledger_closed_at = pos 5;
}

get_events_retrying-Requests_example :
    Requests node page_limit
      (ledger 100)
      []
      (get_events_retrying node page_limit (ledger 100) [] 0)
      rpc_max_retries
      0
    × ((get_events_retrying node page_limit (ledger 100) [] 0).waited ≤ 32_750)
    × (0 < (get_events_retrying node page_limit (ledger 100) [] 0).next_call)
    × ((get_events_retrying node page_limit (ledger 100) [] 0).next_call ≤ 0 + 11)
get_events_retrying-Requests_example =
    get_events_retrying-Requests node page_limit (ledger 100) [] 0

parse_ledger_range-bounds_example :
    parse_ledger_range ([] ++ (lit "ledger range:" ++ bounds 200 300 [])) ≡ some (pos 200, pos 300)
unfolding lit split_once
parse_ledger_range-bounds_example =
    parse_ledger_range-bounds [] [] 200 300 (omega arith) (omega arith) refl refl refl

-- Six contracts, so two batches.
abbrev ids : List Text
ids = lit "C1" ∷ lit "C2" ∷ lit "C3" ∷ lit "C4" ∷ lit "C5" ∷ lit "C6" ∷ []

abbrev pages : List (List GetEventsResponse)
pages = (page ∷ []) ∷ (page ∷ []) ∷ []

abbrev tagged : List (List Tagged)
tagged = ((lit "0001-7", raw) ∷ []) ∷ ((lit "0001-7", raw) ∷ []) ∷ []

fetch-Swept_example :
    (concat (chunks max_contract_ids_per_filter ids) ≡ ids)
    × All (λ c. length c ≤ 5) (chunks max_contract_ids_per_filter ids)
    × (sorted : List Tagged) × Perm sorted (concat tagged)
    × IsOrdered (map (λ t. t.1) sorted)
    × (fetch xdr rfc node 1 (pos 100) ids 0
        ≡ some (ok (map (λ t. t.1) sorted, least_resume (pos 100) pages), 2))
unfolding get_events_retrying to_raw collect_all chunks wrap_i32 as_u32_word
fetch-Swept_example =
    fetch-Swept xdr rfc node (pos 100) 1 ids 0 2 pages tagged
      (served (Pages.last refl refl refl) refl (served (Pages.last refl refl refl) refl over))
      (let small : length (page ∷ []) ≤ 1 = omega arith in (small, (small, tt)))

served_from :
    (k : ℕ) (resp : GetEventsResponse)
    → (if leb k 110
        then ok page
        else err (lit "startLedger must be within the ledger range: 90 - 110"))
      ≡ ok resp
    → (k ≤ 110) × (page ≡ resp)
served_from k resp e = elim (Bool-cases (leb k 110)) [
  | inl h ↦ (ground (arith, h), cc (rw h at e))
  | inr h ↦ cc (rw h at e)
]

node_window :
    (n : ℕ) (start : EventStart) (ids : List Text) (resp : GetEventsResponse)
    → node n start ids page_limit ≡ ok resp
    → All (InWindow (pos (asked_from (λ c. 110) start))) resp.events
      × (asked_from (λ c. 110) start ≤ 110)
      × (resp.latest_ledger + 1 < i32_half)
node_window n (ledger k) ids resp e =
    let (low, same) = served_from k resp e in rw (sym same) (omega (arith, low))
node_window n (cursor c) ids resp e =
    let same : record { events = []; latest_ledger = 300; cursor = c } ≡ resp = cc in
    rw (sym same) (omega arith)

node-Serves : Serves node
node-Serves = record { position = λ c. 110; window = node_window }

fetch-le_example : (pos 100 ≤ℤ pos 111) × IsOrdered (raw ∷ [])
unfolding fetch get_events_retrying push_events wrap_i32 to_raw as_u32_word collect_all add_i32
fetch-le_example =
    fetch-le xdr rfc node node-Serves (pos 100) (omega arith) 1 (lit "CTOKEN" ∷ []) 0 (raw ∷ [])
      (pos 111) 1 refl

bounded_lem_example :
    ((j : ℕ) × (get_elem? (bounded (pos 50) (pos 100) (raw ∷ [], pos 301)).0 j ≡ some raw))
    × ((bounded (pos 50) (pos 100) (raw ∷ [], pos 301)).1 ≤ℤ pos 301)
    × ((bounded (pos 50) (pos 100) (raw ∷ [], pos 301)).1 ≤ℤ pos 100 +ℤ pos 50 +ℤ pos 1)
    × (pos 100 <ℤ (bounded (pos 50) (pos 100) (raw ∷ [], pos 301)).1)
unfolding bounded ◌+ℤ◌
bounded_lem_example =
    bounded_lem (pos 50) (pos 100) (raw ∷ []) (pos 301) 0 raw (omega arith) (omega arith)
      (omega arith) (omega arith) refl (omega arith)

bounded_overflow_example :
    (bounded (pos 2_147_483_647) (pos 100) ([], pos 301)).1 ≡ negsuc (2 ^ 31 - 1)
unfolding ◌+ℤ◌
bounded_overflow_example =
    bounded_overflow (pos 2_147_483_647) (pos 100) [] (pos 301) (omega arith) (omega arith)

-- A loop over the node, with the node again as the replay.
abbrev replay : Replay
replay = record { source = backfill_source xdr rfc node 1 0 (pos 50); attempt = backfill_bounded }

abbrev sources : Context
sources = record {
  live = rpc_source xdr rfc node 1 0;
  backfill = some replay;
  handle = λ c m e. none;
  open_for = none;
}

abbrev observing : LoopState
observing = record {
  contracts =
      (
        lit "CTOKEN",
        record {
          contract_type = ContractType.op_lend;
          op_id = some 7;
          fop_id = some (pos 3);
          address = lit "CTOKEN";
          latest_block = pos 99;
        },
      )
      ∷ [];
  fopid_to_opid = [];
  cursor = pos 100;
  retention_floor = none;
}

replay-Progresses : (r : Replay) → some replay ≡ some r → Progresses r.source (pos 100)
unfolding ◌+ℤ◌
replay-Progresses r e =
    let same : replay ≡ r = cc in
    rw (sym same) (
      backfill_source-Progresses xdr rfc node 1 0 (pos 50) (pos 100) node-Serves (omega arith)
        (omega arith) (omega arith))

turn-le_example : pos 100 ≤ℤ (turn sources (pos 0) [] observing).state.cursor
unfolding drain
turn-le_example = turn-le sources (pos 0) [] observing (record {
  of_live = rpc_source-Progresses xdr rfc node 1 0 (pos 100) node-Serves (omega arith);
  of_replay = replay-Progresses;
})

abbrev vars : Environ
vars name = if text_eq name (lit "BACKFILL_SOURCE_URL") then some (lit "https://archive") else none

-- Without a billing project, the replay is the bounded one over the configured node.
replay_over_rpc :
    build_replay
      (λ p d span tip. err (lit "unused"))
      (new_backfill xdr rfc 1 0 (λ url. ok node))
      (new vars)
      (some (pos 300))
    ≡ some (record {
      source = backfill_source xdr rfc node 1 0 (pos 120_000);
      attempt = backfill_bounded;
    })
unfolding build_replay new_backfill new lit text_eq is_empty parse_i32
replay_over_rpc = refl
