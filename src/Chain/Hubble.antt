-- ===== src/Chain/Hubble.antt =====
-- crates/lw-chain/src/hubble.rs: backfill from the Hubble dataset. BigQuery answers queries page by
-- page; Chain/BigQuery has the requests.
pub mod Rows
pub mod Sweep
pub mod Boot
use mathlib.Core.Option
use lend_worker_stellar.Base.{
  ℕ, zero, suc, ℤ, pos, wrap_i32, add_i32, sub_i32, saturating_add_i32, max_ℤ, ltb_ℤ, Text, lit,
  is_empty, ◌==◌, Bool, true, false, if◌then◌else◌, Option, none, some, List, [], ◌∷◌, ◌++◌, keep,
  Result, ok, err, ok_or, map_err, unwrap_or, collect_all, ◌>>=◌,
}
use lend_worker_stellar.Domain.Operation.{Time}
use lend_worker_stellar.Chain.Scval.{ScVal}
use lend_worker_stellar.Chain.EventSource.Raw.{RawSorobanEvent}
use lend_worker_stellar.Chain.BigQuery.{
  Coverage, Query, tip_query, coverage_query, events_query, request_of, Row, Page, BigQuery,
}

-- MAX_TIP_DRIFT
abbrev pub max_tip_drift : ℤ
max_tip_drift = pos 1_000_000

pub record HubbleSource : Type 0 where
  pub billing_project : Text
  pub dataset : Text
  pub max_span : ℤ

-- `split(',')` with the empty parts dropped
split_commas : Text → Text → List Text
split_commas part [] = if is_empty part then [] else part ∷ []
split_commas part (c ∷ t) =
    let rest = λ (p : Text). split_commas p t in
    if c == b',' then (if is_empty part then rest [] else part ∷ rest []) else rest (part ++ c ∷ [])

-- the two closures of `row_to_event`
want_string : Row → Text → Result Text
want_string row name =
    map_err (λ e. lit "hubble column " ++ name ++ lit ": " ++ e) (row.strings name)
    >>= ok_or (lit "hubble column " ++ name ++ lit " is null")

want_i64 : Row → Text → Result ℤ
want_i64 row name =
    map_err (λ e. lit "hubble column " ++ name ++ lit ": " ++ e) (row.ints name)
    >>= ok_or (lit "hubble column " ++ name ++ lit " is null")

-- The XDR decoder and chrono's `timestamp_opt` are other crates'.
module _ (from_xdr_base64 : Text → Result ScVal) (timestamp_opt : ℤ → Option Time) where
  unfoldable pub to_utc : ℤ → Time
  to_utc unix_seconds = unwrap_or (pos 0) (timestamp_opt unix_seconds)

  unfoldable pub row_to_event : Row → Result RawSorobanEvent
  unfolding want_string want_i64 split_commas to_utc
  row_to_event row = do
    topics_b64 ← want_string row (lit "topics_b64")
    topics ←
        map_err (λ e. lit "hubble topic xdr: " ++ e)
          (collect_all from_xdr_base64 (split_commas [] topics_b64))
    data_b64 ← want_string row (lit "data_b64")
    value ← map_err (λ e. lit "hubble value xdr: " ++ e) (from_xdr_base64 data_b64)
    tx_hash ← want_string row (lit "transaction_hash")
    event_index ← want_i64 row (lit "event_index")
    contract_id ← want_string row (lit "contract_id")
    ledger_seq ← want_i64 row (lit "ledger_sequence")
    closed_at ← want_i64 row (lit "closed_at_s")
    ok (record {
      tx_hash = tx_hash;
      event_index = wrap_i32 event_index;
      contract_id = contract_id;
      topics = topics;
      value = value;
      ledger_seq = wrap_i32 ledger_seq;
      ledger_closed_at = to_utc closed_at;
    })

  -- The two nested loops of `fetch`, over the pages and their rows: the events, and the reason for
  -- which each other row was skipped.
  unfoldable pub decode_rows : List Row → List RawSorobanEvent × List Text
  unfolding row_to_event
  decode_rows [] = ([], [])
  decode_rows (row ∷ rows) =
      let (events, skipped) = decode_rows rows in
      elim (row_to_event row) [ ok e ↦ (e ∷ events, skipped) | err m ↦ (events, m ∷ skipped) ]

  unfoldable pub decode_pages : List (List Row) → List RawSorobanEvent × List Text
  unfolding decode_rows
  decode_pages [] = ([], [])
  decode_pages (page ∷ pages) =
      let (events, skipped) = decode_rows page in
      let (others, missed) = decode_pages pages in (events ++ others, skipped ++ missed)

  -- what `fetch` makes of the pages of its second query
  abbrev pub replayed : Coverage → Result (List (List Row)) → Result (List RawSorobanEvent × ℤ)
  replayed c r = do pages ← r; ok ((decode_pages pages).0, add_i32 c.max_ledger (pos 1))

-- `query`: every page of a query's result.
module _ (client : BigQuery) where
  -- The `while` over page tokens; `none` means that the fuel, one unit a further page, ran out.
  unfoldable pub next_pages : ℕ → Text → Text → Option Text → Option (Result (List (List Row)))
  next_pages f project job none = some (ok [])
  next_pages zero project job (some token) = none
  next_pages (suc f) project job (some token) =
      let rest = λ (t : Option Text). next_pages f project job t in
      elim (client.get_query_results project job token) [
        | err e ↦ some (err (lit "bigquery paging: " ++ e))
        | ok page ↦ Option.map (λ r. do pages ← r; ok (page.rows ∷ pages)) (rest page.page_token)
      ]

  -- the first reply, and the pages behind it
  unfoldable pub pages_of :
      ℕ → Text → Result (Option Text × Page) → Option (Result (List (List Row)))
  unfolding next_pages
  pages_of fuel project (err e) = some (err (lit "bigquery query: " ++ e))
  pages_of fuel project (ok (none, first)) =
      some (err (lit "bigquery query: response carried no job id"))
  pages_of fuel project (ok (some job, first)) =
      Option.map (λ r. do pages ← r; ok (first.rows ∷ pages))
        (next_pages fuel project job first.page_token)

  unfoldable pub run_query : ℕ → Text → Query → Option (Result (List (List Row)))
  unfolding pages_of request_of
  run_query fuel project q = pages_of fuel project (client.query project (request_of q))

-- `pages.first_mut()` and `next_row`
abbrev pub first_row : List (List Row) → Option Row
first_row [] = none
first_row ([] ∷ pages) = none
first_row ((row ∷ rows) ∷ pages) = some row

-- the result of `tip`, from its rows
unfoldable pub tip_of : Option Row → Result (Option ℤ)
tip_of none = ok none
tip_of (some row) = do t ← row.ints (lit "tip"); ok (Option.map wrap_i32 t)

-- the result of `coverage`, from its rows: MIN and MAX over no ledger are null
abbrev pub coverage_of_columns : Option ℤ → Option ℤ → Option ℤ → Option Coverage
coverage_of_columns (some t0) (some t1) (some max_ledger) =
    some (record { first_closed_at = t0; last_closed_at = t1; max_ledger = wrap_i32 max_ledger })
coverage_of_columns _ _ _ = none

unfoldable pub coverage_of : Option Row → Result (Option Coverage)
coverage_of none = ok none
coverage_of (some row) = do
  t0 ← row.ints (lit "t0")
  t1 ← row.ints (lit "t1")
  max_ledger ← row.ints (lit "max_ledger")
  ok (coverage_of_columns t0 t1 max_ledger)

-- `i32::abs`
unfoldable pub abs_i32 : ℤ → ℤ
unfolding sub_i32
abs_i32 z = if ltb_ℤ z (pos 0) then sub_i32 (pos 0) z else z

-- The checks of `connect` on the tip that Hubble reports.
unfoldable pub accept_tip : HubbleSource → ℤ → Option ℤ → Result HubbleSource
unfolding abs_i32
accept_tip s network_tip none = err (s.dataset ++ lit ".history_ledgers is empty")
accept_tip s network_tip (some hubble_tip) =
    if ltb_ℤ max_tip_drift (abs_i32 (sub_i32 network_tip hubble_tip))
    then err (s.dataset ++ lit ": this dataset is for a different network")
    else ok s

module _ (client : BigQuery) where
  unfoldable pub tip : ℕ → HubbleSource → Option (Result (Option ℤ))
  unfolding run_query tip_of
  tip fuel s =
      Option.map (λ r. do pages ← r; tip_of (first_row pages))
        (run_query client fuel s.billing_project (tip_query s.dataset))

  unfoldable pub coverage : ℕ → HubbleSource → ℤ → ℤ → Option (Result (Option Coverage))
  unfolding run_query coverage_of
  coverage fuel s from to =
      Option.map (λ r. do pages ← r; coverage_of (first_row pages))
        (run_query client fuel s.billing_project (coverage_query s.dataset from to))

  -- `connect`, behind the client's own authentication
  unfoldable pub connect : ℕ → Text → Text → ℤ → ℤ → Option (Result HubbleSource)
  unfolding tip accept_tip max_ℤ
  connect fuel billing_project dataset max_span network_tip =
      let source : HubbleSource = record {
        billing_project = billing_project;
        dataset = dataset;
        max_span = max_ℤ max_span (pos 1);
      } in
      Option.map
        (λ r. do
          t ← map_err (λ e. lit "bigquery probe on " ++ dataset ++ lit ": " ++ e) r
          accept_tip source network_tip t)
        (tip fuel source)

  -- `fetch` of the Hubble source
  module _ (from_xdr_base64 : Text → Result ScVal) (timestamp_opt : ℤ → Option Time) where
    unfoldable pub fetch :
        ℕ → HubbleSource → ℤ → List Text → Option (Result (List RawSorobanEvent × ℤ))
    unfolding coverage run_query decode_pages
    fetch fuel s start_ledger contract_ids =
        let requested_end = saturating_add_i32 start_ledger (sub_i32 s.max_span (pos 1)) in
        elim (coverage fuel s start_ledger requested_end) [
          | none ↦ none
          | some (err e) ↦ some (err e)
          | some (ok none) ↦ some (ok ([], start_ledger))
          | some (ok (some c)) ↦ Option.map (replayed from_xdr_base64 timestamp_opt c) (
              run_query client fuel s.billing_project
                (events_query s.dataset c start_ledger c.max_ledger contract_ids))
        ]
