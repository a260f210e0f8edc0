-- ===== src/Simulation.antt =====
-- internal/simulation/simulation.go: one simulation, as a state and its steps. `State` has the
-- state and what it emits, `Roads`, `Dispatch` and `Movement` the parts of a step, and `Actor` the
-- commands, the tick and the loop.
pub mod State
pub mod Dispatch
pub mod Movement
pub mod Roads
pub mod Actor
pub mod Stream
pub mod Lifecycle
