-- ===== src/Simulation/Lifecycle.antt =====
-- internal/simulation/simulation.go: the life of orders and drivers under the baseline strategy.
pub mod Consistent
pub mod Updates
pub mod Queue
pub mod Hops
pub mod Orders
pub mod Movement
pub mod Roads
pub mod Loop
pub mod Clear
pub mod Rounds
