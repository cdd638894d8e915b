-- ===== src/Chain.antt =====
-- crates/lw-chain: event sources, decoding, and the loop that drives the indexer.
pub mod Scval
pub mod EventSource
pub mod LogHandlers
pub mod EventLoop
pub mod BigQuery
pub mod Hubble
