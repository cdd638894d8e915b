-- ===== src/Storage.antt =====
-- crates/lw-storage/src: the repositories, with their SQL statements as functions on tables.
pub mod Tables
pub mod Latest
pub mod Activities
pub mod Operations
pub mod Stores
