-- ===== src/Cache.antt =====
-- The caches of src/machine/memory/cache.
pub mod Policy
pub mod Location
pub mod Storage
pub mod Client
mod Tests
mod StorageTests
