-- ===== src/Replay.antt =====
-- internal/replay: the modules of the event log's replay.
pub mod Json
pub mod Wire
pub mod Recorder
pub mod State
pub mod Fold
pub mod Coherent
pub mod Panics
pub mod Reader
pub mod Paging
pub mod Pages
pub mod Agreement
