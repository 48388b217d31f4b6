-- ===== src/Csr/Trap.antt =====
-- Entry to a trap and return from it, `exception_initiate` and `exception_return`.
pub mod Fields
pub mod Writes
pub mod Machine
pub mod Supervisor
