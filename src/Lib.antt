-- ===== src/Lib.antt =====
-- Lend's Stellar worker: an indexer of Soroban contract events. It polls a node for the events of
-- the contracts it observes, decodes them, stores the activity rows that they imply, and keeps the
-- operations' progress and status up to date.
--
-- Base: the native numbers, integers with the wrap of i32 and i128, texts as lists of code points
--   with the `str` methods that the sources call, results, maps and JSON objects.
-- Config (crates/lw-config/src): Config/Types has types.rs, Config/Env has `LocalEnv::new` of
--   config.rs over an environment given as a function, and `StellarNetwork::default`.
-- Domain (crates/lw-domain/src): Domain/Operation has op_model.rs and fiat_holdings.rs,
--   Domain/Activity and Domain/Builder activity_model.rs, Domain/Build `build_activity`, Domain/Utils
--   utils.rs.
-- Chain (crates/lw-chain/src): Chain/Scval and Chain/LogHandlers decode an event and make its rows
--   (scval.rs, log_handlers.rs); Chain/EventSource is event_source.rs: Range reads the node's
--   out-of-range message, Retry is `get_events_retrying`, Rpc is the live source with its paging,
--   batches and order, Backfill the replay over a second node; Chain/EventLoop is event_loop.rs:
--   `turn` drains the pending commands and polls once, and EventLoop/Start is what comes in front.
--   Chain/BigQuery has the requests of hubble.rs, and Chain/Hubble the rest of it: Boot is about
--   `connect`, Rows about the row decoder, Sweep about `fetch`.
-- Storage (crates/lw-storage/src): Storage/Tables has the tables with the constraints of
--   tests/sql/schema.sql, Storage/Latest, Storage/Activities and Storage/Operations the repositories'
--   statements as functions on them, Storage/Stores the store traits as records of operations on a
--   state, which the Postgres stores fill. Their children have lemmas on the highest block, on groups
--   and sums, and on fresh batches and sequences of them.
-- App (crates/lw-app/src/handler.rs): App/Discovery finds the contracts to observe, App/Handler has
--   `process_events` and the two syncs; both take the stores as an argument. The handler's children
--   follow a batch: Funding the progress, Final the statuses, Creation a new token, Holdings the fiat
--   holdings.
-- System: `Handler::run` with the `event_loop` that it spawns, and the runs of the two. System/Loop
--   and System/Safety carry an invariant through the runs, System/Trace follows the rows, and
--   System/Creation a new operation's token; System/Delivery handles every batch that waits,
--   System/Delivery/Repeats those that a source hands over again,
--   System/Restart is about a process that starts on stored tables, and System/Channels about the two
--   bounded channels.
-- Process (src/main.rs, src/bootstrap.rs, crates/lw-storage/src/helpers.rs): the start-up, on the two
--   cells of a process, and the health check.
-- Tests: each theorem at a concrete input.
--
-- The parts meet in three places: the handler sends `UpdateContracts` commands that `turn` drains
-- (a `World` lists those that the loop has not taken), `poll` sends the rows that `handle_event` makes
-- to the handler's `process_events`, and the handler reads and writes the stores.
--
-- The loop's state is the record `LoopState`, with the four variables that event_loop.rs carries
-- from turn to turn; its surroundings (the sources, the row handler, the event channel) are the
-- record `Context`. A source is a function from a ledger and contract ids to events and the ledger
-- to resume from, or an error. The node is a `Client` that answers its n-th call as it likes; what
-- theorems need of it is a named hypothesis (`Serves`, `Progresses`, `Replays`).
-- EventLoop/Progress has the three sources in the shape that the loop uses.
--
-- A step of a `Run` is a whole turn of the loop or a whole batch of the handler, so that what the
-- sources answer and what the look-ups find is fixed within a turn but free from turn to turn. Others
-- (the application that owns the operations table) may add and change operations in between. Whole
-- turns leave out the capacity of the channels; System/Channels has it, one send or receive at a time.
--
-- Fuel: `batch_loop` takes one unit a page, so a sweep needs as many units as its longest batch has
-- pages (Rpc/Paging, Rpc/Whole). The retry loop recurses on the retries that are left. A Hubble query
-- takes one unit a page behind the first.
--
-- Machine integers: i32 addition wraps as in a release build, `as i32` and `as u32` keep the low
-- bits. Amounts are integers whose i128 range is not written out, since the sources only parse,
-- divide and print them.
--
-- Not modelled: log lines but those of the health check, sleeping, the connection pool, and the
-- process-wide configuration cell (the configuration is an argument). The XDR decoder, the RFC 3339
-- parser, the RPC client, the pool and BigQuery are other crates' and are parameters.
pub mod Base
pub mod Config
pub mod Domain
pub mod Chain
pub mod Storage
pub mod App
pub mod System
pub mod Process
pub mod Tests
