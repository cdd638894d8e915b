-- ===== src/Tests/Delivered.antt =====
-- The delivery of a turn's batches at concrete runs, and of those of two turns that read the same.
use lend_worker_stellar.Base.{
  ◌+ℤ◌, ◌≤◌, pos, lit, text_eq, is_empty, wrap_i32, true, Bool, List, [], ◌∷◌, ◌++◌, length, false,
  All, Any, inl, ◌≡◌, refl, arith,
}
use lend_worker_stellar.Config.Env.{new}
use lend_worker_stellar.Domain.Operation.{Time}
use lend_worker_stellar.Storage.Operations
use lend_worker_stellar.Storage.Activities.Delivered.{deliver}
use lend_worker_stellar.Chain.EventSource.Raw.{RawSorobanEvent}
use lend_worker_stellar.Chain.LogHandlers.RoundTrip.{emitted}
use lend_worker_stellar.Chain.LogHandlers.Storable.{get_op_id_from_fop_id-LooksUp}
use lend_worker_stellar.Domain.Build.{op_uuid}
use lend_worker_stellar.Chain.Scval.{as_i128}
use lend_worker_stellar.Chain.LogHandlers.{handle_event}
use lend_worker_stellar.Chain.EventLoop.{LoopState, drain, route}
use lend_worker_stellar.Chain.EventLoop.Sends.{all_rows}
use lend_worker_stellar.System.{System, context, take_turn, handed_in, run, Run, here, next, turned}
use lend_worker_stellar.System.Delivery.Repeats.{with_batches, handle_all-repeats}
use lend_worker_stellar.System.Delivery.{handle_all, handle_all-delivers}
use lend_worker_stellar.Tests.Events.{blank, investment}
use lend_worker_stellar.Tests.Whole.{cfg, start, around, read, start-IsValid}

abbrev raws : List RawSorobanEvent
raws = emitted blank investment ∷ []

-- The loop's state in front of the poll.
abbrev drained : LoopState
drained = drain cfg.start_ledger (run cfg start).loop (run cfg start).world.sent

abbrev times : List (Time × Bool)
times = (pos 9, true) ∷ []

waits : length read.events ≤ length times
unfolding run is_empty new Operations.get_all text_eq lit emitted handle_event as_i128 op_uuid
    wrap_i32 take_turn
waits = omega arith

handle_all-delivers_example :
    ((handle_all cfg times read).world.store.activity
      ≡ deliver
          (run cfg start).world.store.activity
          ((run cfg start).events ++ all_rows (context cfg around) drained raws))
    × ((handle_all cfg times read).events ≡ [])
    × ((handle_all cfg times read).loop.cursor ≡ drained.cursor +ℤ pos 1)
unfolding run is_empty new Operations.get_all drain route context
handle_all-delivers_example =
    handle_all-delivers cfg start [] (run cfg start) around raws (drained.cursor +ℤ pos 1) times
      start-IsValid here (get_op_id_from_fop_id-LooksUp start) refl refl waits

-- Two turns that read the same investment.
abbrev twice : System
twice = take_turn cfg around read

abbrev sees : List RawSorobanEvent
sees = handed_in cfg around read ++ (handed_in cfg around (run cfg start) ++ [])

reads : Run cfg (run cfg start) sees twice
unfolding run is_empty new Operations.get_all take_turn
reads =
    next (next here (turned around (get_op_id_from_fop_id-LooksUp start) refl refl) refl)
      (turned around (get_op_id_from_fop_id-LooksUp start) refl refl) refl

abbrev rounds : List (Time × Bool)
rounds = (pos 9, true) ∷ (pos 11, false) ∷ []

waiting : length twice.events ≤ length rounds
unfolding run is_empty new Operations.get_all text_eq lit emitted handle_event as_i128 op_uuid
    wrap_i32 take_turn
waiting = omega arith

doubled : twice.events ≡ read.events ++ read.events
unfolding run is_empty new Operations.get_all text_eq lit emitted handle_event as_i128 op_uuid
    wrap_i32 take_turn
doubled = refl

among : All (λ rows. Any (λ other. other ≡ rows) read.events) read.events
unfolding run is_empty new Operations.get_all text_eq lit emitted handle_event as_i128 op_uuid
    wrap_i32 take_turn
among = (inl refl, tt)

handle_all-repeats_example :
    ((handle_all cfg rounds twice).world.store.activity
      ≡ (handle_all cfg times (with_batches twice read.events)).world.store.activity)
    × ((handle_all cfg rounds twice).events ≡ [])
handle_all-repeats_example =
    handle_all-repeats cfg start sees twice read.events read.events rounds times start-IsValid reads
      doubled among waiting waits
