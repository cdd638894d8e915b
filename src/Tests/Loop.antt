-- ===== src/Tests/Loop.antt =====
-- The event loop at concrete inputs: a live source that keeps ledgers 200 to 300, and an archive.
use lend_worker_stellar.Chain.Scval.{ScVal}
use lend_worker_stellar.Chain.EventLoop.Sends.{all_rows, poll-sends}
use lend_worker_stellar.Chain.EventSource.Raw.{RawSorobanEvent}
use lend_worker_stellar.Base.{
  ◌<◌, true, false, length, take, ℕ, ◌≤◌, ℤ, pos, ◌≤ℤ◌, ◌+ℤ◌, ltb_ℤ, Text, lit, trim_start,
  trim_end, is_space, is_empty, if◌then◌else◌, Option, none, some, [], ◌∷◌, Any, ok, err, ◌≡◌, refl,
  ◌⊎◌, arith,
}
use lend_worker_stellar.Config.Types.{ObservableContract, ContractType}
use lend_worker_stellar.Chain.EventSource.Range.{parse_ledger_range}
use lend_worker_stellar.Chain.EventLoop.{
  LoopState, Context, Source, Replay, live_only, live_with_backfill, backfill_bounded,
  backfill_archival, poll, route,
}
use lend_worker_stellar.Chain.EventLoop.Errors.{poll-rejected_below_floor}
use lend_worker_stellar.Chain.EventLoop.Coverage.{read_by, Run, Run-Covers, Span, Covers}
use lend_worker_stellar.Chain.EventLoop.CatchUp.{polls, polls-catch_up, Replays}

abbrev rejection : Text
rejection = lit "startLedger must be within the ledger range: 200 - 300"

abbrev live : Source
live start ids = if ltb_ℤ start (pos 200) then err rejection else ok ([], start +ℤ pos 1)

abbrev archive : Replay
archive = record { source = λ start ids. ok ([], start +ℤ pos 50); attempt = backfill_archival }

abbrev broken : Replay
broken = record {
  source = λ start ids. err (lit "bigquery query: quota");
  attempt = backfill_archival;
}

abbrev token : ObservableContract
token = record {
  contract_type = ContractType.op_lend;
  op_id = some 7;
  fop_id = some (pos 3);
  address = lit "CTOKEN";
  latest_block = pos 99;
}

abbrev context : Option Replay → Context
context r = record { live = live; backfill = r; handle = λ c m raw. none; open_for = none }

abbrev state : Option ℤ → LoopState
state floor = record {
  contracts = (lit "CTOKEN", token) ∷ [];
  fopid_to_opid = (pos 3, 7) ∷ [];
  cursor = pos 100;
  retention_floor = floor;
}

poll-rejected_below_floor_example :
    ((poll (context (some archive)) (state none)).state.retention_floor ≡ some (pos 200))
    × ((((route (context (some archive)) (state none)).1 ≡ live_with_backfill)
          × ((poll (context (some archive)) (state none)).state.cursor ≡ pos 100)
          × ((r : Replay) × (some archive ≡ some r)
              × (route (context (some archive)) (poll (context (some archive)) (state none)).state
                  ≡ (r.source, r.attempt))))
        ⊎ ((((route (context (some archive)) (state none)).1 ≡ live_only)
              ⊎ ((route (context (some archive)) (state none)).1 ≡ backfill_bounded))
            × ((poll (context (some archive)) (state none)).state.cursor ≡ pos 200)
            × ((route (context (some archive)) (poll (context (some archive)) (state none)).state).0
                ≡ live)))
unfolding parse_ledger_range route lit trim_start trim_end is_space is_empty
poll-rejected_below_floor_example =
    poll-rejected_below_floor (context (some archive)) (state none) rejection (pos 200) (pos 300)
      refl refl refl (omega arith) (ground arith)

-- an event of the token, and a handler that makes one empty batch of each event
abbrev transfer : RawSorobanEvent
transfer = record {
  tx_hash = lit "ab";
  event_index = pos 0;
  contract_id = lit "CTOKEN";
  topics = [];
  value = ScVal.other 0;
  ledger_seq = pos 100;
  ledger_closed_at = pos 1;
}

abbrev closing : Context
closing = record {
  live = λ start ids. ok (transfer ∷ transfer ∷ [], pos 101);
  backfill = none;
  handle = λ c m raw. some [];
  open_for = some 1;
}

poll-sends_example :
    ((poll closing (state none)).stopped ≡ false
      → ((poll closing (state none)).sent
          ≡ all_rows closing (state none) (transfer ∷ transfer ∷ []))
        × ((poll closing (state none)).state ≡ record (state none) { cursor = pos 101 }))
    × ((poll closing (state none)).stopped ≡ true
        → ((poll closing (state none)).state ≡ state none)
          × (n : ℕ) × (some 1 ≡ some n)
          × (n < length (all_rows closing (state none) (transfer ∷ transfer ∷ [])))
          × ((poll closing (state none)).sent
              ≡ take n (all_rows closing (state none) (transfer ∷ transfer ∷ []))))
unfolding route
poll-sends_example = poll-sends closing (state none) (transfer ∷ transfer ∷ []) (pos 101) refl refl

archive-Replays : Replays archive (pos 200)
unfolding ◌+ℤ◌
archive-Replays = record { answers = λ start ids below. ([], start +ℤ pos 50, refl, ground arith) }

polls-catch_up_example :
    (k : ℕ) × (k ≤ 100)
    × (pos 200 ≤ℤ (polls (context (some archive)) k (state (some (pos 200)))).cursor)
unfolding ◌+ℤ◌
polls-catch_up_example =
    polls-catch_up (context (some archive)) archive (pos 200) archive-Replays refl refl 100
      (state (some (pos 200))) refl refl (omega arith)

-- The rejected poll, the poll of the archive, and the poll behind it.
Run-Covers_example : Any (Covers (pos 120)) (Span.read (pos 100) (pos 150) ∷ [])
unfolding route lit parse_ledger_range ◌+ℤ◌ poll read_by trim_start trim_end is_space is_empty
Run-Covers_example =
    let begin : Run (state none) [] (state none) = Run.here in
    let learned : Run (state none) [] (state (some (pos 200))) =
      Run.polled (context (some archive)) archive refl refl begin refl refl in
    let replayed : Run (state none) (Span.read (pos 100) (pos 150) ∷ [])
        (poll (context (some archive)) (state (some (pos 200)))).state =
      Run.polled (context (some archive)) archive refl refl learned refl refl in
    Run-Covers (pos 120) replayed (omega arith) (omega arith)
