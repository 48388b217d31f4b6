-- ===== src/Tlb.antt =====
-- The translation lookaside buffer of src/machine/memory/tlb.
pub mod Policy
pub mod Storage
pub mod Translate
mod Tests
mod StorageTests
