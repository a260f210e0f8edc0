-- ===== src/Replay/Agreement.antt =====
-- internal/replay and internal/simulation: that replay shows what the simulation holds.
pub mod Views
pub mod Events
pub mod Snapshots
pub mod Steps
pub mod Moves
pub mod Drives
pub mod Assigned
pub mod Dispatches
pub mod Closures
pub mod Loaded
pub mod Live
pub mod Runs
