-- ===== src/Tests/Replay.antt =====
-- The Hubble replay at concrete inputs: a dataset of one page, with its tip at ledger 150.
use lend_worker_stellar.Base.{
  ◌+◌, ◌≤◌, ℤ, pos, ◌≤ℤ◌, ◌<ℤ◌, ◌+ℤ◌, ◌-ℤ◌, sub_i32, add_i32, saturating_add_i32, wrap_i32, max_ℤ,
  parse_ℤ, show_ℤ, leb_ℤ, ◌&&◌, Bool-cases, inl, inr, Text, lit, text_eq, is_empty, collect_all,
  false, if◌then◌else◌, Option, none, some, List, [], ◌∷◌, concat, Result, ok, err, ◌≡◌, refl, sym,
  ap, ◌∙◌, ◌⊎◌, arith,
}
use lend_worker_stellar.Config.Env.{Environ, new}
use lend_worker_stellar.Domain.Operation.{Time}
use lend_worker_stellar.Chain.Scval.{ScVal}
use lend_worker_stellar.Chain.EventSource.Raw.{RawSorobanEvent}
use lend_worker_stellar.Chain.BigQuery.{
  Coverage, Row, Page, coverage_query, events_query, BigQuery, request_of, QueryRequest, bound_int,
  bound_strings, params_of-bound,
}
use lend_worker_stellar.Chain.Hubble.{HubbleSource, run_query, coverage, tip, connect, fetch}
use lend_worker_stellar.Chain.Hubble.Rows.{decodable}
use lend_worker_stellar.Chain.Hubble.Boot.{connect-close}
use lend_worker_stellar.Chain.Hubble.Sweep.{Reports, requested_end, fetch-ingested}
use lend_worker_stellar.Chain.EventLoop.{Source, backfill_archival, build_replay}
use lend_worker_stellar.Chain.EventLoop.Trust.{build_replay-archival}

-- A row whose every text is the same, and whose every number is 150.
abbrev row : Row
row = record { strings = λ name. ok (some (lit "AAAA")); ints = λ name. ok (some (pos 150)) }

abbrev unreadable : Row
unreadable = record { strings = λ name. ok none; ints = λ name. ok none }

-- the coverage of a range: ledger 150, if it lies in it
abbrev within : ℤ → ℤ → Row
within from to = if leb_ℤ from (pos 150) && leb_ℤ (pos 150) to then row else unreadable

-- by what is bound: the tip, the coverage, or the events
abbrev reply : Option ℤ → Option ℤ → Option (List Text) → Page
reply from to (some ids) = record { rows = row ∷ unreadable ∷ []; page_token = none }
reply (some from) (some to) none = record { rows = within from to ∷ []; page_token = none }
reply _ _ none = record { rows = row ∷ []; page_token = none }

abbrev answer : QueryRequest → Page
answer r =
    reply (bound_int (lit "from") r.query_parameters) (bound_int (lit "to") r.query_parameters)
      (bound_strings (lit "ids") r.query_parameters)

abbrev dataset : BigQuery
dataset = record {
  query = λ project q. ok (some (lit "job"), answer q);
  get_query_results = λ project job token. err (lit "no such page");
}

abbrev xdr : Text → Result ScVal
xdr t = ok (ScVal.other 0)

abbrev utc : ℤ → Option Time
utc t = some t

abbrev source : HubbleSource
source = record { billing_project = lit "p"; dataset = lit "d"; max_span = pos 51 }

connect-close_example : (200 ≤ 150 + 1_000_000) × (150 ≤ 200 + 1_000_000) × (pos 1 ≤ℤ pos 51)
unfolding connect tip sub_i32 wrap_i32 max_ℤ ◌-ℤ◌ bound_strings bound_int
connect-close_example =
    connect-close dataset 0 (lit "p") (lit "d") (pos 51) 200 150 source refl refl (omega arith)
      (omega arith)

within-window :
    (from to m : ℤ)
    → (within from to).ints (lit "max_ledger") ≡ ok (some m)
    → (from ≤ℤ m) × (m ≤ℤ to)
within-window from to m h = elim (Bool-cases (leb_ℤ from (pos 150) && leb_ℤ (pos 150) to)) [
  | inr out ↦ cc (rw out at h)
  | inl in_range ↦ let q : pos 150 ≡ m = cc (rw in_range at h) in rw (sym q) (ground arith)
]

dataset-Reports : Reports dataset
unfolding request_of
dataset-Reports = record {
  max_ledger = λ project set job from to m page r rows asked front told.
      let none_known : Coverage = record {
        first_closed_at = pos 0;
        last_closed_at = pos 0;
        max_ledger = pos 0;
      } in
      let (low, high, no_ids, _, _, _) = params_of-bound set none_known from to [] in
      let read : answer (request_of (coverage_query set from to))
          ≡ reply (some from) (some to) none =
        rw (low, high, no_ids) refl in
      let first : reply (some from) (some to) none ≡ page = sym read ∙ cc in
      let shape : within from to ∷ [] ≡ r ∷ rows = ap (λ (p : Page). p.rows) first ∙ front in
      let same : within from to ≡ r = cc in
      within-window from to m (ap (λ (x : Row). x.ints (lit "max_ledger")) same ∙ told);
}

-- what is read: the one row that decodes
abbrev replayed_events : List RawSorobanEvent
replayed_events = decodable xdr utc ((row ∷ unreadable ∷ []))

fetch-ingested_example :
    ((coverage dataset 0 source (pos 100) (requested_end source (pos 100)) ≡ some (ok none))
      × (replayed_events ≡ [])
      × (pos 151 ≡ pos 100))
    ⊎ ((c : Coverage) × (pages : List (List Row)) × (coverage dataset 0 source
            (pos 100)
            (requested_end source (pos 100))
          ≡ some (ok (some c)))
        × (run_query dataset 0 (lit "p") (events_query (lit "d") c (pos 100) c.max_ledger [])
            ≡ some (ok pages))
        × (replayed_events ≡ decodable xdr utc (concat pages))
        × (pos 151 ≡ c.max_ledger +ℤ pos 1)
        × (pos 100 <ℤ pos 151)
        × (pos 151 ≤ℤ pos 100 +ℤ pos 51))
unfolding fetch ◌+ℤ◌ saturating_add_i32 sub_i32 wrap_i32 add_i32 ◌-ℤ◌ collect_all decodable lit
    is_empty bound_strings text_eq bound_int parse_ℤ show_ℤ
fetch-ingested_example =
    fetch-ingested dataset xdr utc 0 source (pos 100) [] replayed_events (pos 151) dataset-Reports
      (omega arith) (omega arith) (omega arith) (omega arith) refl

abbrev hubble : Source
hubble start ids = ok ([], start)

abbrev configured : Environ
configured name = if text_eq name (lit "HUBBLE_BILLING_PROJECT") then some (lit "p") else none

build_replay-archival_example :
    (is_empty (new configured).hubble_billing_project ≡ false)
    × (tip : ℤ) × (some (pos 200) ≡ some tip)
    × (ok hubble ≡ ok hubble)
unfolding build_replay new lit text_eq is_empty
build_replay-archival_example =
    build_replay-archival (λ p d span tip. ok hubble) (λ url span. err (lit "unused"))
      (new configured) (record { source = hubble; attempt = backfill_archival }) refl
      (some (pos 200)) refl
