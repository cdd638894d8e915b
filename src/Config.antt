-- ===== src/Config.antt =====
-- crates/lw-config: the configuration, the network, and the types that the layers exchange.
pub mod Types
pub mod Env
