-- ===== src/Tests.antt =====
-- The theorems at concrete inputs, and runs of the definitions.
mod Loop
mod Events
mod Sources
mod Replay
mod Store
mod Syncs
mod Books
mod Whole
mod Delivered
mod Restarts
mod Blocked
mod Merged
mod Starting
mod Created
mod Fiat
