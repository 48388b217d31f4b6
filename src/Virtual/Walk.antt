-- ===== src/Virtual/Walk.antt =====
-- `PageTableWalker::walk` of src/machine/memory/virtual/page_table_walker.cpp, over the memory that it reads.
-- The bytes of an entry are joined as a little-endian machine that runs the simulator does.
pub mod Maps
use qtrvsim.Base.{
  ℕ, zero, suc, ◌+◌, ◌*◌, ◌/◌, ◌%◌, ◌^◌, Bool, true, false, not, ◌&&◌, ◌||◌, ltb, ◌==◌,
  if◌then◌else◌,
}
use qtrvsim.Cache.Storage.{AccessEffects, BackingMemory}
use qtrvsim.Csr.Address.{PrivilegeLevel, ExceptionCause}
use qtrvsim.Virtual.Pte.{
  AccessOp, PagingMode, page_shift, vpn_bits, ppn_bits, raw_bytes, max_level_idx, is_satp_mode, r,
  w, x, ppn, is_leaf, is_valid, flags_of, make_phys, check_permissions, get_current_cause,
}

-- A translation without an entry is one that the mode of the register switches off.
pub data WalkResult : Type 0 where
  bare : ℕ → WalkResult
  found : (phys : ℕ) (pte_addr : ℕ) (leaf_pte : ℕ) → WalkResult
  page_fault : ExceptionCause → WalkResult

abbrev pub join_bytes : ℕ → (ℕ → ℕ) → ℕ
join_bytes zero bytes = 0
join_bytes (suc n) bytes = join_bytes n bytes + bytes n * 2 ^ (8 * n)

abbrev pub vpn_idx : PagingMode → ℕ → ℕ → ℕ
vpn_idx mode va lvl = va / 2 ^ (page_shift + lvl * vpn_bits mode) % 2 ^ vpn_bits mode

abbrev pub pte_address : PagingMode → ℕ → ℕ → ℕ → ℕ
pte_address mode va lvl number = number * 2 ^ page_shift + vpn_idx mode va lvl * raw_bytes mode

-- The level of a leaf above the lowest has a number that ends in zeros.
abbrev pub is_misaligned : PagingMode → ℕ → ℕ → Bool
is_misaligned mode raw lvl = ltb 0 lvl && not (ppn mode raw % 2 ^ (lvl * vpn_bits mode) == 0)

module _ {M : Type 0} (mode : PagingMode) (below : BackingMemory M) (va sstatus : ℕ)
    (priv : PrivilegeLevel) (op : AccessOp) where
  -- The part of the loop that a leaf ends.
  unfoldable pub at_leaf : ℕ → ℕ → ℕ → WalkResult
  at_leaf raw pte_addr lvl =
      if is_misaligned mode raw lvl
      then page_fault (get_current_cause op)
      else if not (check_permissions (flags_of raw) sstatus priv op)
      then page_fault (get_current_cause op)
      else found (make_phys mode raw va lvl) pte_addr raw

  -- The loop with `levels` levels left.
  unfoldable pub walk_from : ℕ → ℕ → M → WalkResult × M
  walk_from zero number m = (page_fault (get_current_cause op), m)
  walk_from (suc lvl) number m =
      let pte_addr = pte_address mode va lvl number in
      let (bytes, m') = below.read m AccessEffects.regular pte_addr (raw_bytes mode) in
      let raw = join_bytes (raw_bytes mode) bytes in
      let rest = walk_from lvl (ppn mode raw) m' in
      if not (is_valid raw)
      then (page_fault (get_current_cause op), m')
      else if is_leaf raw
      then (at_leaf raw pte_addr lvl, m')
      else if r raw || w raw || x raw
      then (page_fault (get_current_cause op), m')
      else rest

  unfoldable pub walk : ℕ → M → WalkResult × M
  walk satp m =
      let result = walk_from (max_level_idx mode + 1) (satp % 2 ^ ppn_bits mode) m in
      if not (is_satp_mode mode satp) then (bare va, m) else result
