-- ===== src/Csr.antt =====
-- The control and status registers, src/machine/csr: addresses and privilege levels, the fields of the
-- status registers, the table of registers, and the operations of `ControlState`.
pub mod Address
pub mod Field
pub mod Table
pub mod State
pub mod Bits
pub mod Status
pub mod Trap
pub mod Access
mod Tests
