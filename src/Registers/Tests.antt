-- ===== src/Registers/Tests.antt =====
-- Runs of the register file.
use qtrvsim.Base.{◌≡◌, refl, replicate, arith, ◌==◌, if◌then◌else◌}
use qtrvsim.Registers.{Registers, read_gp, write_gp}
use qtrvsim.Registers.Reads.{read_gp-write_gp}

abbrev all_sevens : Registers
all_sevens = record { pc = 0x400; gp = replicate 32 7 }

read_gp-write_gp_example :
    read_gp (write_gp all_sevens 5 9) 6
    ≡ (if 6 == 0 then 0 else if 5 == 6 then 9 else read_gp all_sevens 6)
read_gp-write_gp_example = read_gp-write_gp all_sevens 5 6 9 refl (omega arith)
