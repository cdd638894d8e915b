-- ===== src/Tests/Merged.antt =====
-- One turn through the channels at a concrete run: a poll that reads an investment, whose batch is sent.
use lend_worker_stellar.Base.{lit, text_eq, is_empty, wrap_i32, Bool, List, [], ◌≡◌, refl, arith}
use lend_worker_stellar.Config.Env.{new}
use lend_worker_stellar.Domain.Operation.{Time}
use lend_worker_stellar.Storage.Operations
use lend_worker_stellar.Chain.LogHandlers.RoundTrip.{emitted}
use lend_worker_stellar.Domain.Build.{op_uuid}
use lend_worker_stellar.Chain.Scval.{as_i128}
use lend_worker_stellar.Chain.LogHandlers.{handle_event}
use lend_worker_stellar.System.{take_turn, run}
use lend_worker_stellar.System.Delivery.{handle_all}
use lend_worker_stellar.System.Channels.{Tasks, poll_sources, row_sent, here, next}
use lend_worker_stellar.System.Channels.Merged.{merged, Exchanges-take_turn}
use lend_worker_stellar.Tests.Whole.{cfg, start, around}

-- The first command is in its channel.
abbrev started : Tasks
started = record {
  loop = (run cfg start).loop;
  world = record (run cfg start).world { sent = [] };
  outbox = [];
  events = [];
  commands = (run cfg start).world.sent;
}

abbrev sent_on : Tasks
sent_on = record (poll_sources cfg around started) {
  outbox = [];
  events = (poll_sources cfg around started).outbox;
}

Exchanges-take_turn_example :
    (times : List (Time × Bool)) × (merged sent_on
      ≡ handle_all cfg times (take_turn cfg around (merged started)))
unfolding run is_empty new Operations.get_all text_eq lit emitted handle_event as_i128 op_uuid
    wrap_i32 poll_sources
Exchanges-take_turn_example =
    Exchanges-take_turn cfg around started sent_on refl refl
      (next here (row_sent refl (omega arith) refl))
