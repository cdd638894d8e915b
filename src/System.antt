-- ===== src/System.antt =====
-- The worker as a whole: `Handler::run` of crates/lw-app/src/handler.rs with the task that it spawns,
-- `event_loop`. The two share nothing but the channels: the batches of rows that the loop has sent,
-- and the commands that the handler has sent, which the world lists. A run interleaves turns of the
-- loop, batches handled and changes that others make to the operations.
pub mod Loop
pub mod Safety
pub mod Trace
pub mod Creation
pub mod Delivery
pub mod Restart
pub mod Channels
use lend_worker_stellar.Base.{ℤ, Bool, true, false, Option, none, List, [], ◌∷◌, ◌++◌, Result, ◌≡◌}
use lend_worker_stellar.Config.Types.{Uuid}
use lend_worker_stellar.Config.Env.{LocalEnv}
use lend_worker_stellar.Domain.Operation.{Time}
use lend_worker_stellar.Domain.Activity.{Activity}
use lend_worker_stellar.Storage.Tables.{Db}
use lend_worker_stellar.Storage.Operations.Extends.{Keeps}
use lend_worker_stellar.Storage.Stores.{pg_stores}
use lend_worker_stellar.Chain.EventSource.Raw.{RawSorobanEvent}
use lend_worker_stellar.Chain.LogHandlers.{handle_event}
use lend_worker_stellar.Chain.LogHandlers.Storable.{LooksUp}
use lend_worker_stellar.Chain.EventLoop.{LoopState, Context, Source, Replay, drain, turn}
use lend_worker_stellar.Chain.EventLoop.Start.{initial}
use lend_worker_stellar.Chain.EventLoop.Known.{handed}
use lend_worker_stellar.App.Discovery.{World, run_start}
use lend_worker_stellar.App.Handler.{process_events}

pub record System : Type 0 where
  pub loop : LoopState
  pub world : World Db
  pub events : List (List Activity)

-- `Handler::with_stores`, on the tables as they are.
unfoldable pub new_world : Db → World Db
new_world db = record {
  handler = record { fopid_to_dbopid = []; op_data = []; contracts = []; has_sender = false };
  store = db;
  sent = [];
}

-- `run` up to its loop: the first command is sent, and the event loop has not taken it yet.
unfoldable pub run : LocalEnv → Db → System
unfolding new_world initial run_start
run cfg db = record {
  loop = initial cfg;
  world = run_start cfg pg_stores true (new_world db);
  events = [];
}

-- The surroundings of a turn: what the two sources answer then, and what a look-up of an operation
-- finds then.
pub record Around : Type 0 where
  pub live : Source
  pub backfill : Option Replay
  pub lookup : ℤ → Result Uuid

unfoldable pub context : LocalEnv → Around → Context
context cfg a = record {
  live = a.live;
  backfill = a.backfill;
  handle = handle_event cfg a.lookup;
  open_for = none;
}

-- One turn of the loop: it takes the commands that are there, and sends batches.
unfoldable pub take_turn : LocalEnv → Around → System → System
unfolding turn context
take_turn cfg a s =
    let p = turn (context cfg a) cfg.start_ledger s.world.sent s.loop in
    record { loop = p.state; world = record s.world { sent = [] }; events = s.events ++ p.sent }

-- The events that the source of such a turn handed over.
unfoldable pub handed_in : LocalEnv → Around → System → List RawSorobanEvent
unfolding handed drain context
handed_in cfg a s = handed (context cfg a) (drain cfg.start_ledger s.loop s.world.sent)

-- The body of `run`'s loop: the oldest batch is handled. `is_open` says whether the event loop still
-- receives commands.
unfoldable pub handle_next : LocalEnv → Time → Bool → System → System
unfolding process_events
handle_next cfg now is_open s = elim s.events [
  | [] ↦ s
  | batch ∷ rest ↦ record s {
    world = process_events cfg now pg_stores is_open batch s.world;
    events = rest;
  }
]

-- One step, and the events that a source handed over in it. Others may add and change operations, but
-- not take one away, nor touch the activity.
pub data Step (cfg : LocalEnv) (s : System) : List RawSorobanEvent → System → Type 0 where
  turned :
      {raws : List RawSorobanEvent} {t : System} (a : Around)
      → LooksUp s.world.store.operations a.lookup
      → raws ≡ handed_in cfg a s
      → t ≡ take_turn cfg a s
      → Step cfg s raws t
  handled :
      {raws : List RawSorobanEvent} {t : System} (now : Time) (is_open : Bool)
      → raws ≡ []
      → t ≡ handle_next cfg now is_open s
      → Step cfg s raws t
  edited :
      {raws : List RawSorobanEvent} {t : System} (db : Db)
      → Keeps s.world.store db
      → raws ≡ []
      → t ≡ record s { world = record s.world { store = db } }
      → Step cfg s raws t

-- Runs, with all the events that were handed over, the latest first.
pub data Run (cfg : LocalEnv) (s : System) : List RawSorobanEvent → System → Type 0 where
  here : Run cfg s [] s
  next :
      {seen : List RawSorobanEvent} {t u : System} {raws more : List RawSorobanEvent}
      → Run cfg s seen t
      → Step cfg t raws u
      → more ≡ raws ++ seen
      → Run cfg s more u
