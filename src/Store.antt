-- ===== src/Store.antt =====
-- internal/store: the persistence contract and its in-process implementation.
pub mod Memory
pub mod Retry
pub mod Log
pub mod Retention
pub mod Newest
