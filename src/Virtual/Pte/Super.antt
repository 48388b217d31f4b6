-- ===== src/Virtual/Pte/Super.antt =====
-- The physical address of a leaf, of a page and of a larger one.
use qtrvsim.Base.{ℕ, zero, suc, ◌+◌, ◌*◌, ◌/◌, ◌%◌, ◌^◌, ◌≤◌, ◌≡◌, arith}
use qtrvsim.Virtual.Pte.{
  PagingMode, page_shift, vpn_bits, ppn, max_level_idx, vpn_combined, make_phys,
}

-- A leaf at a level maps a region of 2 ^ (12 + level * bits) bytes: the address keeps its place in the
-- region, also where the region is put together from the parts of the page number, and the region is the one
-- that the upper part of the number in the entry names. The level is one of the format's.
pub make_phys_lem :
    (mode : PagingMode) (raw va level : ℕ)
    → level ≤ max_level_idx mode
    → let size = 2 ^ (level * vpn_bits mode) in
      make_phys mode raw va level
      ≡ ppn mode raw / size * (size * 2 ^ page_shift) + va % (size * 2 ^ page_shift)
unfolding make_phys vpn_combined
make_phys_lem PagingMode.sv32 raw va zero h = omega arith
make_phys_lem PagingMode.sv32 raw va (suc zero) h = omega arith
make_phys_lem PagingMode.sv32 raw va (suc (suc l)) h = absurd (omega arith)
make_phys_lem PagingMode.sv39 raw va zero h = omega arith
make_phys_lem PagingMode.sv39 raw va (suc zero) h = omega arith
make_phys_lem PagingMode.sv39 raw va (suc (suc zero)) h = omega arith
make_phys_lem PagingMode.sv39 raw va (suc (suc (suc l))) h = absurd (omega arith)
