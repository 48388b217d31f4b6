-- ===== src/Virtual/Tests.antt =====
-- Page tables in which every entry is the same leaf.
use qtrvsim.Base.{
  ℕ, ◌+◌, ◌*◌, ◌/◌, ◌%◌, ◌^◌, ◌≡◌, ◌↔◌, refl, true, false, ◌==◌, if◌then◌else◌, arith,
}
use qtrvsim.Cache.Storage.Flat.{flat_memory, flat_memory-laws}
use qtrvsim.Csr.Address.{PrivilegeLevel}
use qtrvsim.Virtual.Pte.{
  AccessOp, PagingMode, Flags, flags_of, v, r, w, u, is_valid, is_leaf, rsw, ppn, make, make_phys,
  check_permissions,
}
use qtrvsim.Virtual.Pte.Fields.{make_fields}
use qtrvsim.Virtual.Pte.Super.{make_phys_lem}
use qtrvsim.Virtual.Walk.{WalkResult, walk, walk_from, at_leaf}
use qtrvsim.Virtual.Walk.Maps.{Leads, IsGranted, walk-iff-Leads}

abbrev no_user : Flags
no_user = record {
  readable = true;
  writable = true;
  executable = true;
  user = false;
  global = false;
  accessed = true;
  dirty = true;
}

make_fields_example :
    let raw = make PagingMode.sv39 true no_user 2 77 in
    (v raw ≡ true) × (flags_of raw ≡ no_user) × (rsw raw ≡ 2) × (ppn PagingMode.sv39 raw ≡ 77)
make_fields_example = make_fields PagingMode.sv39 true no_user 2 77

make_phys_example :
    make_phys PagingMode.sv39 0x100000cf 0x345678 1
    ≡ ppn PagingMode.sv39 0x100000cf / 2 ^ 9 * (2 ^ 9 * 2 ^ 12) + 0x345678 % (2 ^ 9 * 2 ^ 12)
make_phys_example = make_phys_lem PagingMode.sv39 0x100000cf 0x345678 1 (omega arith)

abbrev pub table_bytes : ℕ → ℕ
table_bytes y = if y % 4 == 0 then 0xcf else if y % 4 == 3 then 0x10 else 0

walk-iff-Leads_example :
    ((walk PagingMode.sv32
        (flat_memory 0)
        0x403123
        0
        PrivilegeLevel.supervisor
        AccessOp.read
        (2 ^ 31 + 1)
        table_bytes).0
      ≡ WalkResult.found 0x40003123 0x1004 0x100000cf)
    ↔ ((level : ℕ) × Leads PagingMode.sv32 table_bytes 0x403123 2 1 0x100000cf level 0x1004
        × IsGranted PagingMode.sv32 0 PrivilegeLevel.supervisor AccessOp.read 0x100000cf level
        × (0x40003123 ≡ make_phys PagingMode.sv32 0x100000cf 0x403123 level))
walk-iff-Leads_example =
    walk-iff-Leads PagingMode.sv32 (flat_memory 0) flat_memory-laws 0x403123 0
      PrivilegeLevel.supervisor AccessOp.read table_bytes (2 ^ 31 + 1) 0x40003123 0x1004 0x100000cf
      tt refl

-- The walk that the theorem speaks of.
walk_found :
    (walk PagingMode.sv32
      (flat_memory 0)
      0x403123
      0
      PrivilegeLevel.supervisor
      AccessOp.read
      (2 ^ 31 + 1)
      table_bytes).0
    ≡ WalkResult.found 0x40003123 0x1004 0x100000cf
unfolding walk walk_from is_valid v w r is_leaf at_leaf ppn check_permissions u make_phys
walk_found = refl
