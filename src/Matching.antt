-- ===== src/Matching.antt =====
-- internal/matching: orders to drivers. The children are the greedy matcher, the assignment
-- solver and the batch matcher that uses it.
pub mod Baseline
pub mod Assignment
pub mod Optimized
