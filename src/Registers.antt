-- ===== src/Registers.antt =====
-- The register file, src/machine/registers.h and registers.cpp. An address and a register value are their
-- 64-bit patterns, and a register identifier is a number below 32, as `RegisterId` asserts.
pub mod Reads
mod Tests
use qtrvsim.Base.{
  ℕ, zero, suc, ◌+◌, ◌%◌, Bool, true, false, Option, none, some, List, get_or, set, ◌==◌,
  if◌then◌else◌,
}
use mathlib.Core.Option

pub record Registers : Type 0 where
  pub pc : ℕ
  pub gp : List ℕ

-- `none` is the exception of an unaligned jump.
unfoldable pub write_pc : Registers → ℕ → Option Registers
write_pc r address = if address % 4 == 0 then some (record r { pc = address }) else none

unfoldable pub read_gp : Registers → ℕ → ℕ
read_gp r reg = if reg == 0 then 0 else get_or r.gp reg 0

unfoldable pub write_gp : Registers → ℕ → ℕ → Registers
write_gp r reg value = if reg == 0 then r else record r { gp = set r.gp reg value }

-- The loop of `reset` from register `i`, with `left` registers left.
unfoldable pub clear_gp : ℕ → ℕ → Registers → Registers
clear_gp zero i r = r
clear_gp (suc left) i r = clear_gp left (i + 1) (write_gp r i 0)

abbrev pub pc_init : ℕ
pc_init = 0x00000200

abbrev pub sp_init : ℕ
sp_init = 0xbfffff00

unfoldable pub reset : Registers → Option Registers
reset r = Option.map (λ s. write_gp (clear_gp 31 1 s) 2 sp_init) (write_pc r pc_init)
