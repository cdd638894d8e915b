-- ===== src/Chain/EventSource.antt =====
-- crates/lw-chain/src/event_source.rs, part by part.
pub mod Raw
pub mod Range
pub mod Retry
pub mod Rpc
pub mod Backfill
