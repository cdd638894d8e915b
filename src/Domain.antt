-- ===== src/Domain.antt =====
-- crates/lw-domain: the activity taxonomy and its builder, operations, and the pure business math.
pub mod Activity
pub mod Builder
pub mod Operation
pub mod Build
pub mod Utils
