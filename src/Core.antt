-- ===== src/Core.antt =====
-- The core, src/machine/core.h, core.cpp, pipeline.h and core/core_state.h: the five stages, the two cores
-- that run them, and the traps.
pub mod Memory
pub mod Stage
pub mod State
pub mod Atomic
pub mod Fetch
pub mod Execute
pub mod Access
pub mod Trap
pub mod Hazard
pub mod Step
mod Tests
