-- ===== src/App.antt =====
-- crates/lw-app: the handler that stores activity and keeps operations and contracts up to date.
pub mod Discovery
pub mod Handler
