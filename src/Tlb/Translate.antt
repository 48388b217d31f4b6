-- ===== src/Tlb/Translate.antt =====
-- The translation of addresses and the accesses of `TLB`, src/machine/memory/tlb/tlb.cpp.
pub mod Search
pub mod Again
pub mod Pages
use qtrvsim.Base.{
  ℕ, zero, suc, ◌+◌, ◌-◌, ◌*◌, ◌/◌, ◌%◌, ◌^◌, min, bit_and, bit_or, Bool, true, false, not, ◌&&◌,
  ◌||◌, Option, none, some, ltb, ◌==◌, if◌then◌else◌,
}
use qtrvsim.Cache.Storage.{AccessEffects, BackingMemory}
use qtrvsim.Csr.Address.{Xlen, PrivilegeLevel, ExceptionCause, is_machine}
use qtrvsim.Virtual.Pte.{
  AccessOp, PagingMode, Flags, page_shift, raw_bytes, flags_of, check_permissions,
  get_current_cause,
}
use qtrvsim.Virtual.Walk.{WalkResult, join_bytes, walk}
use qtrvsim.Tlb.Storage.{
  Entry, ReplacementPolicy, TlbConfig, Tlb, AccessMode, u32, paging_mode, set_entry, set_index,
  is_mode_enabled_in_satp,
}

abbrev pub holds : ℕ → ℕ → Entry → Bool
holds vpn asid e = e.valid && e.vpn == vpn && e.asid == asid

-- The loop of the search from a way, with `left` ways left.
unfoldable pub find_way : ℕ → ℕ → (ℕ → Entry) → ℕ → ℕ → Option ℕ
find_way zero w row vpn asid = none
find_way (suc left) w row vpn asid =
    let rest = find_way left (w + 1) row vpn asid in if holds vpn asid (row w) then some w else rest

-- The bytes of a number, the lowest first.
abbrev pub split_bytes : ℕ → ℕ → ℕ
split_bytes n i = n / 2 ^ (8 * i) % 2 ^ 8

abbrev pub is_write : AccessOp → Bool
is_write AccessOp.write = true
is_write _ = false

-- A translation gives the address, how many bytes of the page there are from it, and the set and way of
-- the entry, or a page fault.
pub record TranslationResult : Type 0 where
  pub phys : ℕ
  pub bytes_until_page_end : ℕ
  pub entry : Option (ℕ × ℕ)

pub data Outcome (A : Type 0) : Type 0 where
  done : A → Outcome A
  fault : ExceptionCause → Outcome A
  out_of_fuel : Outcome A

abbrev pub is_translated : TlbConfig → ℕ → PrivilegeLevel → Bool
is_translated config satp priv =
    config.vm_enabled && is_mode_enabled_in_satp config satp && not (is_machine priv)

module _ {M P : Type 0} (config : TlbConfig) (mem_port walk_port : BackingMemory M)
    (same_port : Bool) (policy : ReplacementPolicy P) where
  abbrev pub should_translate : Tlb M P → PrivilegeLevel → Bool
  should_translate s priv = is_translated config s.satp priv

  unfoldable pub hit : ℕ → ℕ → ℕ → AccessMode → Tlb M P → Outcome TranslationResult × Tlb M P
  hit set way off mode s =
      let e = s.table set way in
      if not (check_permissions e.flags s.sstatus mode.priv mode.opkind)
      then (fault (get_current_cause mode.opkind), s)
      else (
        done (record {
          phys = e.phys / 2 ^ 12 * 2 ^ 12 + off;
          bytes_until_page_end = 2 ^ 12 - off;
          entry = some (set, way);
        }),
        record s {
          policy = policy.notify_use s.policy set way true;
          counters = record s.counters { hit_count = u32 (s.counters.hit_count + 1) };
        },
      )

  -- The entry for a page that a walk found.
  abbrev pub resolved : ℕ → ℕ → ℕ → ℕ → ℕ → Entry
  resolved vpn asid phys pte_addr leaf_pte = record {
    valid = true;
    asid = asid;
    vpn = vpn;
    phys = phys / 2 ^ 12 * 2 ^ 12;
    pte_addr = pte_addr;
    pte_bytes = raw_bytes (paging_mode config.xlen);
    flags = flags_of leaf_pte;
  }

  unfoldable pub fill :
      ℕ → ℕ → AccessMode → ℕ → ℕ → ℕ → Tlb M P → Outcome TranslationResult × Tlb M P
  fill vpn off mode phys pte_addr leaf_pte s =
      let set = set_index config vpn in
      let (victim, p) = policy.select_victim s.policy set in
      (
        done (record {
          phys = phys / 2 ^ 12 * 2 ^ 12 + off;
          bytes_until_page_end = 2 ^ 12 - off;
          entry = some (set, victim);
        }),
        record s {
          table = set_entry s.table set victim (resolved vpn mode.asid phys pte_addr leaf_pte);
          policy = policy.notify_use p set victim true;
          counters = record s.counters {
            mem_reads = u32 (s.counters.mem_reads + 1);
            miss_count = u32 (s.counters.miss_count + 1);
          };
        },
      )

  -- The walk does not write entries, so that the count of such writes stays. A walk without a leaf, which
  -- the source does not check for, comes only with the mode switched off.
  unfoldable pub miss : ℕ → AccessMode → Tlb M P → Outcome TranslationResult × Tlb M P
  miss virt mode s =
      let (result, m) =
        walk (paging_mode config.xlen) walk_port virt s.sstatus mode.priv mode.opkind s.satp
          s.mem in
      let t = record s { mem = m } in
      elim result [
        | WalkResult.found phys pte_addr leaf_pte ↦
            fill (virt / 2 ^ 12) (virt % 2 ^ 12) mode phys pte_addr leaf_pte t
        | WalkResult.page_fault cause ↦ (fault cause, t)
        | WalkResult.bare phys ↦ (fault (get_current_cause mode.opkind), t)
      ]

  unfoldable pub translate_virtual_to_physical :
      ℕ → AccessMode → Tlb M P → Outcome TranslationResult × Tlb M P
  translate_virtual_to_physical virt mode s =
      let vpn = virt / 2 ^ 12 in
      let off = virt % 2 ^ 12 in
      let set = set_index config vpn in
      let searched : Outcome TranslationResult × Tlb M P =
        elim (find_way config.associativity 0 (s.table set) vpn mode.asid) [
          | some way ↦ hit set way off mode s
          | none ↦ miss virt mode s
        ] in
      if not (should_translate s mode.priv)
      then (done (record { phys = virt; bytes_until_page_end = 2 ^ 64 - 1; entry = none }), s)
      else searched

  -- The bits of the entry in memory that say that the page was accessed, and written to.
  unfoldable pub ensure_ad_bits : AccessOp → ℕ → ℕ → Tlb M P → Tlb M P
  ensure_ad_bits op set way s =
      let e = s.table set way in
      let size = if e.pte_bytes == 4 then 4 else 8 in
      let (bytes, m) = walk_port.read s.mem AccessEffects.regular e.pte_addr size in
      let raw = join_bytes size bytes in
      let accessed = bit_or raw (2 ^ 6) in
      let updated = if is_write op then bit_or accessed (2 ^ 7) else accessed in
      let (changed, m') =
        walk_port.write m AccessEffects.regular e.pte_addr (split_bytes updated) size in
      let flags = record e.flags {
        accessed = true;
        dirty = if is_write op then true else e.flags.dirty;
      } in
      record s {
        mem = if updated == raw then m else m';
        table = set_entry s.table set way (record e { flags = flags });
      }

  abbrev pub mark : AccessOp → Option (ℕ × ℕ) → Tlb M P → Tlb M P
  mark op none s = s
  mark op (some (set, way)) s = ensure_ad_bits op set way s

  -- The loop over the pages of a write, on fuel: the bytes left are enough, as each page takes one at least.
  -- The result says whether a byte changed.
  unfoldable pub write_pages :
      ℕ → ℕ → (ℕ → ℕ) → ℕ → AccessMode → AccessEffects → Bool → Tlb M P → Outcome Bool × Tlb M P
  write_pages zero virt src remaining mode opts any s =
      if remaining == 0 then (done any, s) else (out_of_fuel, s)
  write_pages (suc fuel) virt src remaining mode opts any s =
      let (translated, t) = translate_virtual_to_physical virt mode s in
      let go_on : Outcome Bool × Tlb M P = elim translated [
        | done tr ↦
            let u = if should_translate t mode.priv then mark AccessOp.write tr.entry t else t in
            let n = min remaining tr.bytes_until_page_end in
            let (changed_here, m) = mem_port.write u.mem opts tr.phys src n in
            write_pages fuel ((virt + n) % 2 ^ 64) (λ i. src (i + n)) (remaining - n) mode opts
              (any || changed_here) (record u { mem = m })
        | fault cause ↦ (fault cause, t)
        | out_of_fuel ↦ (out_of_fuel, t)
      ] in
      if remaining == 0 then (done any, s) else go_on

  unfoldable pub translate_and_write :
      ℕ → (ℕ → ℕ) → ℕ → AccessMode → AccessEffects → Tlb M P → Outcome Bool × Tlb M P
  translate_and_write dst src size mode opts s = write_pages size dst src size mode opts false s

  -- The loop over the pages of a read, into a buffer from the place `at`.
  unfoldable pub read_pages :
      ℕ → ℕ → (ℕ → ℕ) → ℕ → ℕ → AccessMode → AccessEffects → Tlb M P → Outcome (ℕ → ℕ) × Tlb M P
  read_pages zero virt dst at remaining mode opts s =
      if remaining == 0 then (done dst, s) else (out_of_fuel, s)
  read_pages (suc fuel) virt dst at remaining mode opts s =
      let (translated, t) = translate_virtual_to_physical virt mode s in
      let go_on : Outcome (ℕ → ℕ) × Tlb M P = elim translated [
        | done tr ↦
            let u = if should_translate t mode.priv then mark AccessOp.read tr.entry t else t in
            let n = min remaining tr.bytes_until_page_end in
            let (bytes, m) = mem_port.read u.mem opts tr.phys n in
            let filled : ℕ → ℕ =
              λ i. if not (ltb i at) && ltb i (at + n) then bytes (i - at) else dst i in
            read_pages fuel ((virt + n) % 2 ^ 64) filled (at + n) (remaining - n) mode opts
              (record u { mem = m })
        | fault cause ↦ (fault cause, t)
        | out_of_fuel ↦ (out_of_fuel, t)
      ] in
      if remaining == 0 then (done dst, s) else go_on

  unfoldable pub translate_and_read :
      ℕ → (ℕ → ℕ) → ℕ → AccessMode → AccessEffects → Tlb M P → Outcome (ℕ → ℕ) × Tlb M P
  translate_and_read src dst size mode opts s = read_pages size src dst 0 size mode opts s

  unfoldable pub sync : Tlb M P → Tlb M P
  sync s = record s { mem = mem_port.sync s.mem }

  unfoldable pub get_read_count : Tlb M P → ℕ
  get_read_count s = u32 (s.counters.mem_reads + (if same_port then 0 else s.counters.ptw_reads))

  unfoldable pub get_write_count : Tlb M P → ℕ
  get_write_count s = u32 (s.counters.mem_writes + (if same_port then 0 else s.counters.ptw_writes))
