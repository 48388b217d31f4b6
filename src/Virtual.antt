-- ===== src/Virtual.antt =====
-- Virtual memory: src/machine/memory/virtual and the checks of src/machine/memory/memory_utils.h.
pub mod Pte
pub mod Walk
mod Tests
