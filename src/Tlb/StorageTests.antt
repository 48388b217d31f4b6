-- ===== src/Tlb/StorageTests.antt =====
-- A table of two sets and two ways over page tables in which every entry is the same leaf.
use qtrvsim.Base.{
  ℕ, ◌+◌, ◌-◌, ◌*◌, ◌/◌, ◌%◌, ◌^◌, ◌<◌, ◌≡◌, ◌≢◌, refl, true, false, ◌&&◌, some, ◌==◌,
  if◌then◌else◌, arith,
}
use qtrvsim.Cache.Storage.{AccessEffects}
use qtrvsim.Cache.Storage.Flat.{flat_memory}
use qtrvsim.Csr.Address.{Xlen, PrivilegeLevel}
use qtrvsim.Virtual.Pte.{
  AccessOp, Flags, v, r, w, u, is_valid, is_leaf, ppn, check_permissions, make_phys,
}
use qtrvsim.Virtual.Walk.{walk, walk_from, at_leaf}
use qtrvsim.Tlb.Storage.{
  Entry, ReplacementPolicy, TlbConfig, Tlb, Counters, AccessMode, set_index,
  is_mode_enabled_in_satp, invalid, sfence_vma,
}
use qtrvsim.Tlb.Storage.Fence.{IsIndexed, is_fenced, sfence_vma-table}
use qtrvsim.Tlb.Translate.{
  TranslationResult, done, out_of_fuel, is_translated, find_way, fill, miss,
  translate_virtual_to_physical, translate_and_read, translate_and_write,
}
use qtrvsim.Tlb.Translate.Again.{translate-translate}
use qtrvsim.Tlb.Translate.Pages.{pages_end, translate-IsIndexed}

abbrev config_32 : TlbConfig
config_32 = record { xlen = Xlen.xlen_32; vm_enabled = true; num_sets = 2; associativity = 2 }

abbrev first_policy : ReplacementPolicy ℕ
first_policy = record { select_victim = λ p set. (1, p); notify_use = λ p set way valid. p }

first_policy_chooses : (p set : ℕ) → (first_policy.select_victim p set).0 < 2
first_policy_chooses p set = omega arith

abbrev no_flags : Flags
no_flags = record {
  readable = false;
  writable = false;
  executable = false;
  user = false;
  global = false;
  accessed = false;
  dirty = false;
}

abbrev no_entry : Entry
no_entry = record {
  valid = false;
  asid = 0;
  vpn = 0;
  phys = 0;
  pte_addr = 0;
  pte_bytes = 0;
  flags = no_flags;
}

abbrev no_counts : Counters
no_counts = record {
  hit_count = 0;
  miss_count = 0;
  mem_reads = 0;
  mem_writes = 0;
  ptw_reads = 0;
  ptw_writes = 0;
  burst_reads = 0;
  burst_writes = 0;
  change_counter = 0;
}

abbrev table_bytes : ℕ → ℕ
table_bytes y = if y % 4 == 0 then 0xcf else if y % 4 == 3 then 0x10 else 0

abbrev empty_tlb : Tlb (ℕ → ℕ) ℕ
empty_tlb = record {
  mem = table_bytes;
  policy = 0;
  table = λ set way. no_entry;
  satp = 2 ^ 31 + 1;
  sstatus = 0;
  counters = no_counts;
}

abbrev load : AccessMode
load = record { priv = PrivilegeLevel.supervisor; asid = 3; opkind = AccessOp.read }

abbrev first_result : TranslationResult
first_result = record { phys = 0x40003123; bytes_until_page_end = 0xedd; entry = some (1, 1) }

first_translation :
    (translate_virtual_to_physical config_32
      (flat_memory 0)
      (flat_memory 0)
      true
      first_policy
      0x403123
      load
      empty_tlb).0
    ≡ done first_result
unfolding translate_virtual_to_physical is_mode_enabled_in_satp find_way miss walk walk_from
    is_valid v w r is_leaf at_leaf ppn check_permissions u fill make_phys set_index
first_translation = refl

translation_on : is_translated config_32 empty_tlb.satp load.priv ≡ true
unfolding is_mode_enabled_in_satp
translation_on = refl

abbrev translated_tlb : Tlb (ℕ → ℕ) ℕ
translated_tlb =
    (translate_virtual_to_physical config_32 (flat_memory 0) (flat_memory 0) true first_policy
      0x403123 load empty_tlb).1

translate-translate_example :
    let next =
      translate_virtual_to_physical config_32
        (flat_memory 0)
        (flat_memory 0)
        true
        first_policy
        0x403fff
        load
        translated_tlb in
    (next.0
      ≡ done (record {
        phys = 0x40003123 / 2 ^ 12 * 2 ^ 12 + 0x403fff % 2 ^ 12;
        bytes_until_page_end = 2 ^ 12 - 0x403fff % 2 ^ 12;
        entry = some (1, 1);
      }))
    × (next.1.mem ≡ translated_tlb.mem)
translate-translate_example =
    translate-translate config_32 (flat_memory 0) (flat_memory 0) true first_policy empty_tlb
      0x403123 0x403fff load first_result first_policy_chooses translation_on refl first_translation

empty_tlb-IsIndexed : IsIndexed config_32 empty_tlb
empty_tlb-IsIndexed set way valid = cc

translate-IsIndexed_example : IsIndexed config_32 translated_tlb
translate-IsIndexed_example =
    translate-IsIndexed config_32 (flat_memory 0) (flat_memory 0) true first_policy empty_tlb
      0x403123 load empty_tlb-IsIndexed

-- The entry of the page, with the number of its space and with another one.
sfence_vma-table_example :
    let e = translated_tlb.table 1 1 in
    (sfence_vma config_32 0x403000 3 translated_tlb).table 1 1
    ≡ (if e.valid && is_fenced 0x403000 3 e then invalid e else e)
sfence_vma-table_example =
    sfence_vma-table config_32 translated_tlb 0x403000 3 1 1
      (translate-IsIndexed config_32 (flat_memory 0) (flat_memory 0) true first_policy empty_tlb
        0x403123 load empty_tlb-IsIndexed)
      (omega arith) (omega arith) (omega arith)

-- Bytes on two pages.
pages_end_example :
    ((translate_and_read config_32
        (flat_memory 0)
        (flat_memory 0)
        true
        first_policy
        0x403ffe
        (λ i. 0)
        4
        load
        AccessEffects.regular
        empty_tlb).0
      ≢ out_of_fuel)
    × ((translate_and_write config_32
          (flat_memory 0)
          (flat_memory 0)
          true
          first_policy
          0x403ffe
          (λ i. 0)
          4
          load
          AccessEffects.regular
          empty_tlb).0
        ≢ out_of_fuel)
pages_end_example =
    pages_end config_32 (flat_memory 0) (flat_memory 0) true first_policy 0x403ffe 4 (λ i. 0) load
      AccessEffects.regular empty_tlb
