-- ===== src/System/Channels.antt =====
-- The two bounded channels between `event_loop` (crates/lw-chain/src/event_loop.rs) and the handler
-- that spawns it (`run` of crates/lw-app/src/handler.rs), one send or receive at a time. A send waits
-- while its channel is full. The commands of a batch are sent at the end of the batch, and a poll makes
-- all of its rows before it sends the first: look-ups see the tables as at the poll.
pub mod Stuck
pub mod Free
pub mod Merged
use lend_worker_stellar.Base.{
  ℕ, ◌<◌, ◌≤◌, true, List, [], ◌∷◌, ◌++◌, length, ◌≡◌, ◌⊎◌, inl, inr, refl, arith,
}
use lend_worker_stellar.Config.Types.{IndexerCommand}
use lend_worker_stellar.Config.Env.{LocalEnv}
use lend_worker_stellar.Domain.Operation.{Time}
use lend_worker_stellar.Domain.Activity.{Activity}
use lend_worker_stellar.Storage.Tables.{Db}
use lend_worker_stellar.Storage.Stores.{pg_stores}
use lend_worker_stellar.Chain.EventLoop.{LoopState, turn}
use lend_worker_stellar.App.Discovery.{World}
use lend_worker_stellar.App.Handler.{process_events}
use lend_worker_stellar.System.{Around, context}

-- `mpsc::channel(1000)` and `mpsc::channel(10)`
abbrev pub event_capacity : ℕ
event_capacity = 1_000

abbrev pub command_capacity : ℕ
command_capacity = 10

-- What the loop still has to send of its last poll, what is in the two channels, and the handler,
-- whose world lists the commands that it still has to send.
pub record Tasks : Type 0 where
  pub loop : LoopState
  pub world : World Db
  pub outbox : List (List Activity)
  pub events : List (List Activity)
  pub commands : List IndexerCommand

-- The top of the loop: it takes the commands that are there, and polls.
unfoldable pub poll_sources : LocalEnv → Around → Tasks → Tasks
unfolding turn context
poll_sources cfg a s =
    let p = turn (context cfg a) cfg.start_ledger s.commands s.loop in
    record s { loop = p.state; outbox = p.sent; commands = [] }

-- `tx_events.send(activities).await`, `rx_events.recv().await` with the batch handled, and
-- `tx.send(UpdateContracts(..)).await`.
pub data Exchange (cfg : LocalEnv) (s t : Tasks) : Type 0 where
  row_sent :
      {rows : List Activity} {rest : List (List Activity)}
      → s.outbox ≡ rows ∷ rest
      → length s.events < event_capacity
      → t ≡ record s { outbox = rest; events = s.events ++ rows ∷ [] }
      → Exchange cfg s t
  handled :
      {rows : List Activity} {rest : List (List Activity)} (now : Time)
      → s.world.sent ≡ []
      → s.events ≡ rows ∷ rest
      → t ≡ record s { world = process_events cfg now pg_stores true rows s.world; events = rest }
      → Exchange cfg s t
  command_sent :
      {c : IndexerCommand} {rest : List IndexerCommand}
      → s.world.sent ≡ c ∷ rest
      → length s.commands < command_capacity
      → t ≡ record s { world = record s.world { sent = rest }; commands = s.commands ++ c ∷ [] }
      → Exchange cfg s t

-- A step of either task.
pub data Move (cfg : LocalEnv) (s t : Tasks) : Type 0 where
  polled : (a : Around) → s.outbox ≡ [] → t ≡ poll_sources cfg a s → Move cfg s t
  exchanged : Exchange cfg s t → Move cfg s t

-- The exchanges between two polls.
pub data Exchanges (cfg : LocalEnv) (s : Tasks) : Tasks → Type 0 where
  here : Exchanges cfg s s
  next : {t u : Tasks} → Exchanges cfg s t → Exchange cfg t u → Exchanges cfg s u

-- Each task waits for the other: the loop for room for its rows, the handler for room for a command.
pub record IsStuck (s : Tasks) : Type 0 where
  pub rows_wait : 0 < length s.outbox
  pub events_full : event_capacity ≤ length s.events
  pub command_waits : 0 < length s.world.sent
  pub commands_full : command_capacity ≤ length s.commands
