-- ===== src/Simulation/Stream.antt =====
-- internal/simulation/simulation.go: the sequence numbers of the events, through every command,
-- every tick and the loop.
pub mod Extends
pub mod Movement
pub mod Dispatch
pub mod Roads
pub mod Loop
