-- ===== src/Engine.antt =====
-- worker/worker/engine: the engine that runs inside a thread's container, a child for each of its
-- modules.
pub mod Fanout
pub mod Permissions
pub mod Tools
pub mod Gate
pub mod Approvals
pub mod Watchdogs
pub mod Goal
pub mod Compaction
pub mod Background
pub mod Tasks
pub mod Streaks
