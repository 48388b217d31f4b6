-- ===== src/Cache/Policy.antt =====
-- The replacement policies of src/machine/memory/cache/cache_policy.h and cache_policy.cpp: one child
-- for each kind of state, on one row (set) of the cache, and the policies here.
pub mod Queue
pub mod Frequency
pub mod Tree
pub mod Recent
