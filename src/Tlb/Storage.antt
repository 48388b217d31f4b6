-- ===== src/Tlb/Storage.antt =====
-- The state of `TLB`, src/machine/memory/tlb/tlb.h and tlb.cpp, and what takes entries out. The memory system is one state, which the TLB reaches
-- through two ports, for the accesses and for the walks; the source passes one memory for both where it has
-- no other. The table is a function of the set and the way. The replacement policy is an argument.
pub mod Fence
use qtrvsim.Base.{
  ℕ, zero, suc, ◌+◌, ◌-◌, ◌*◌, ◌/◌, ◌%◌, ◌^◌, min, bit_and, bit_or, Bool, true, false, not, ◌&&◌,
  ◌||◌, Option, none, some, ltb, ◌==◌, if◌then◌else◌,
}
use qtrvsim.Cache.Storage.{AccessEffects, BackingMemory}
use qtrvsim.Csr.Address.{Xlen, PrivilegeLevel, ExceptionCause, is_machine}
use qtrvsim.Virtual.Pte.{
  AccessOp, PagingMode, Flags, page_shift, raw_bytes, is_satp_mode, flags_of, check_permissions,
  get_current_cause,
}
use qtrvsim.Virtual.Walk.{WalkResult, join_bytes, walk}

pub record Entry : Type 0 where
  pub valid : Bool
  pub asid : ℕ
  pub vpn : ℕ
  pub phys : ℕ
  pub pte_addr : ℕ
  pub pte_bytes : ℕ
  pub flags : Flags

pub record ReplacementPolicy (P : Type 0) : Type 0 where
  pub select_victim : P → ℕ → ℕ × P
  pub notify_use : P → ℕ → ℕ → Bool → P

pub record Counters : Type 0 where
  pub hit_count : ℕ
  pub miss_count : ℕ
  pub mem_reads : ℕ
  pub mem_writes : ℕ
  pub ptw_reads : ℕ
  pub ptw_writes : ℕ
  pub burst_reads : ℕ
  pub burst_writes : ℕ
  pub change_counter : ℕ

pub record TlbConfig : Type 0 where
  pub xlen : Xlen
  pub vm_enabled : Bool
  pub num_sets : ℕ
  pub associativity : ℕ

pub record Tlb (M P : Type 0) : Type 0 where
  pub mem : M
  pub policy : P
  pub table : ℕ → ℕ → Entry
  pub satp : ℕ
  pub sstatus : ℕ
  pub counters : Counters

-- What an access carries besides its address.
pub record AccessMode : Type 0 where
  pub priv : PrivilegeLevel
  pub asid : ℕ
  pub opkind : AccessOp

abbrev pub u32 : ℕ → ℕ
u32 n = n % 2 ^ 32

abbrev pub paging_mode : Xlen → PagingMode
paging_mode Xlen.xlen_32 = PagingMode.sv32
paging_mode Xlen.xlen_64 = PagingMode.sv39

abbrev pub set_entry : (ℕ → ℕ → Entry) → ℕ → ℕ → Entry → ℕ → ℕ → Entry
set_entry table set way entry s w = if s == set && w == way then entry else table s w

unfoldable pub set_index : TlbConfig → ℕ → ℕ
set_index config vpn = bit_and vpn ((config.num_sets + (2 ^ 64 - 1)) % 2 ^ 64)

unfoldable pub is_mode_enabled_in_satp : TlbConfig → ℕ → Bool
is_mode_enabled_in_satp config satp = is_satp_mode (paging_mode config.xlen) satp

-- A number below `n` for which the test holds.
unfoldable pub any_below : ℕ → (ℕ → Bool) → Bool
any_below zero test = false
any_below (suc n) test = any_below n test || test n

abbrev pub invalid : Entry → Entry
invalid e = record e { valid = false }

-- The table is searched from the first set, and in it from the first way, for a page of the address.
unfoldable pub reverse_way : ℕ → ℕ → (ℕ → Entry) → ℕ → ℕ → Option ℕ → Option ℕ
reverse_way zero w row number offset otherwise = otherwise
reverse_way (suc left) w row number offset otherwise =
    let rest = reverse_way left (w + 1) row number offset otherwise in
    if (row w).valid && (row w).phys / 2 ^ 12 == number
    then some ((row w).vpn * 2 ^ 12 + offset)
    else rest

unfoldable pub reverse_from : TlbConfig → ℕ → ℕ → (ℕ → ℕ → Entry) → ℕ → ℕ → Option ℕ
reverse_from config zero set table number offset = none
reverse_from config (suc left) set table number offset =
    reverse_way config.associativity 0 (table set) number offset
      (reverse_from config left (set + 1) table number offset)

abbrev empty_entry : Entry
empty_entry = record {
  valid = false;
  asid = 0;
  vpn = 0;
  phys = 0;
  pte_addr = 0;
  pte_bytes = 0;
  flags = record {
    readable = false;
    writable = false;
    executable = false;
    user = false;
    global = false;
    accessed = false;
    dirty = false;
  };
}

-- A new table; the flags of an entry that is not valid are not set by the source.
unfoldable pub make : {M P : Type 0} → M → P → Tlb M P
make mem policy = record {
  mem = mem;
  policy = policy;
  table = λ set w. empty_entry;
  satp = 0;
  sstatus = 0;
  counters = record {
    hit_count = 0;
    miss_count = 0;
    mem_reads = 0;
    mem_writes = 0;
    ptw_reads = 0;
    ptw_writes = 0;
    burst_reads = 0;
    burst_writes = 0;
    change_counter = 0;
  };
}

-- The arguments are the penalties of a read, a write and a burst, and whether bursts are enabled.
unfoldable pub get_stall_count : {M P : Type 0} → ℕ → ℕ → ℕ → Bool → Tlb M P → ℕ
get_stall_count pen_r pen_w pen_b bursts s =
    let c = s.counters in
    let minus : ℕ → ℕ → ℕ = λ a b. u32 (a + 2 ^ 32 - b) in
    let accesses = u32 (c.mem_reads * minus pen_r 1 + c.mem_writes * minus pen_w 1) in
    let cycles = u32 (accesses + c.miss_count) in
    let saved = u32 (c.burst_reads * minus pen_r pen_b + c.burst_writes * minus pen_w pen_b) in
    if bursts then minus cycles saved else cycles

module _ {M P : Type 0} (config : TlbConfig) where
  abbrev pub changed : Bool → Tlb M P → Tlb M P
  changed any s = record s {
    counters =
        if any
        then record s.counters { change_counter = u32 (s.counters.change_counter + 1) }
        else s.counters;
  }

  -- The loops over the sets and ways that take the entries with a property out.
  unfoldable pub flush_where : (Entry → Bool) → Tlb M P → Tlb M P
  flush_where test s =
      let any = any_below config.num_sets (λ set.
        any_below config.associativity (λ w. (s.table set w).valid && test (s.table set w))) in
      changed any (record s {
        table = λ set w.
            if ltb set config.num_sets
              && ltb w config.associativity
              && (s.table set w).valid
              && test (s.table set w)
            then invalid (s.table set w)
            else s.table set w;
      })

  unfoldable pub flush_single : ℕ → ℕ → Tlb M P → Tlb M P
  flush_single va asid s =
      let vpn = va / 2 ^ 12 in
      let set = set_index config vpn in
      let test : Entry → Bool = λ e. e.valid && e.vpn == vpn && (e.asid == asid || asid == 0) in
      changed (any_below config.associativity (λ w. test (s.table set w))) (record s {
        table = λ q w.
            if q == set && ltb w config.associativity && test (s.table q w)
            then invalid (s.table q w)
            else s.table q w;
      })

  unfoldable pub flush_all_entries : Tlb M P → Tlb M P
  flush_all_entries s =
      if config.num_sets == 0 || config.associativity == 0
      then s
      else changed true (record s {
        table = λ set w.
            if ltb set config.num_sets && ltb w config.associativity && (s.table set w).valid
            then invalid (s.table set w)
            else s.table set w;
      })

  unfoldable pub flush_by_asid : ℕ → Tlb M P → Tlb M P
  flush_by_asid asid = flush_where (λ e. e.asid == asid)

  unfoldable pub flush_by_vpn : ℕ → Tlb M P → Tlb M P
  flush_by_vpn vpn = flush_where (λ e. e.vpn == vpn)

  unfoldable pub sfence_vma : ℕ → ℕ → Tlb M P → Tlb M P
  sfence_vma vaddr asid s =
      if vaddr == 0 && asid == 0
      then flush_all_entries s
      else if not (vaddr == 0) && not (asid == 0)
      then flush_single vaddr (asid % 2 ^ 16) s
      else if vaddr == 0 && not (asid == 0)
      then flush_by_asid (asid % 2 ^ 16) s
      else flush_by_vpn (vaddr / 2 ^ 12) s

  -- Which of the two registers was written.
  unfoldable pub on_csr_write : Bool → Bool → ℕ → Tlb M P → Tlb M P
  on_csr_write is_sstatus is_satp val s =
      let t = record s { satp = val } in
      let old_mode = is_mode_enabled_in_satp config s.satp in
      let new_mode = is_mode_enabled_in_satp config val in
      if is_sstatus
      then record s { sstatus = val }
      else if not is_satp
      then s
      else if old_mode && not new_mode || not old_mode && new_mode
      then flush_all_entries t
      else t

  unfoldable pub reset : Tlb M P → Tlb M P
  reset s = record s {
    table = λ set w.
        if ltb set config.num_sets && ltb w config.associativity && (s.table set w).valid
        then invalid (s.table set w)
        else s.table set w;
    counters = record s.counters {
      hit_count = 0;
      miss_count = 0;
      mem_reads = 0;
      mem_writes = 0;
      burst_reads = 0;
      burst_writes = 0;
      change_counter = 0;
    };
  }

  unfoldable pub reverse_lookup : Tlb M P → ℕ → Option ℕ
  reverse_lookup s paddr =
      reverse_from config config.num_sets 0 s.table (paddr / 2 ^ 12) (paddr % 2 ^ 12)
