-- ===== src/Tlb/Translate/Pages.antt =====
-- An access goes over all its pages, and a translation keeps the entries in their sets.
use qtrvsim.Base.{
  ℕ, zero, suc, ◌+◌, ◌-◌, ◌/◌, ◌%◌, ◌^◌, min, ◌≤◌, ◌<◌, ◌≡◌, ◌≢◌, refl, sym, ap, ◌∙◌, Bool, true,
  false, not, ◌&&◌, ◌||◌, ◌⊎◌, inl, inr, ltb, ◌==◌, ==_iff, Bool-cases, if◌then◌else◌, arith,
}
use qtrvsim.Cache.Storage.{BackingMemory, AccessEffects}
use qtrvsim.Cache.Storage.Relation.{and-true}
use qtrvsim.Csr.Address.{ExceptionCause}
use qtrvsim.Virtual.Pte.{AccessOp, check_permissions}
use qtrvsim.Virtual.Walk.{walk}
use qtrvsim.Tlb.Storage.{
  Entry, ReplacementPolicy, TlbConfig, Tlb, AccessMode, paging_mode, set_entry, set_index,
}
use qtrvsim.Tlb.Storage.Fence.{IsIndexed}
use qtrvsim.Tlb.Translate.{
  TranslationResult, Outcome, done, fault, out_of_fuel, is_translated, hit, fill, miss, mark,
  resolved, translate_virtual_to_physical, write_pages, translate_and_write, read_pages,
  translate_and_read,
}
use qtrvsim.Tlb.Translate.Search.{walk_cases}
use qtrvsim.Tlb.Translate.Again.{Option-cases, found_way, translate, translate-some, translate-none}

-- A translation succeeds with a byte of the page or more, or ends in a fault.
abbrev IsOutcome : Outcome TranslationResult → Type 0
IsOutcome (done tr) = 0 < tr.bytes_until_page_end
IsOutcome (fault cause) = Unit {0}
IsOutcome out_of_fuel = ⊥

outcome_cases :
    (out : Outcome TranslationResult)
    → IsOutcome out
    → ((tr : TranslationResult) × (out ≡ done tr) × (0 < tr.bytes_until_page_end))
      ⊎ ((cause : ExceptionCause) × (out ≡ fault cause))
outcome_cases (done tr) h = inl (tr, refl, h)
outcome_cases (fault cause) h = inr (cause, refl)
outcome_cases out_of_fuel h = absurd h

fewer :
    (remaining bytes fuel : ℕ)
    → remaining ≤ suc fuel
    → 0 < bytes
    → (remaining == 0) ≡ false
    → remaining - min remaining bytes ≤ fuel
fewer remaining bytes fuel enough pos more = ground arith

module _ {M P : Type 0} (config : TlbConfig) (mem_port walk_port : BackingMemory M)
    (same_port : Bool) (policy : ReplacementPolicy P) where
  hit-IsOutcome :
      (s : Tlb M P) (set way virt : ℕ) (mode : AccessMode)
      → IsOutcome (hit config mem_port walk_port same_port policy set way (virt % 2 ^ 12) mode s).0
  unfolding hit
  hit-IsOutcome s set way virt mode =
      elim (Bool-cases
        (check_permissions (s.table set way).flags s.sstatus mode.priv mode.opkind)) [
          | inl granted ↦ rw granted (omega arith)
          | inr denied ↦ rw denied tt
        ]

  miss-IsOutcome :
      (s : Tlb M P) (virt : ℕ) (mode : AccessMode)
      → IsOutcome (miss config mem_port walk_port same_port policy virt mode s).0
  unfolding miss fill
  miss-IsOutcome s virt mode =
      elim (walk_cases
        (walk (paging_mode config.xlen) walk_port virt s.sstatus mode.priv mode.opkind s.satp
          s.mem).0) [
            | inl (phys, pte_addr, leaf_pte, e) ↦ rw (e, miss) (omega arith)
            | inr (inl (cause, e)) ↦ rw (e, miss) tt
            | inr (inr (phys, e)) ↦ rw (e, miss) tt
          ]

  translate-IsOutcome :
      (s : Tlb M P) (virt : ℕ) (mode : AccessMode)
      → IsOutcome (translate config mem_port walk_port same_port policy virt mode s).0
  unfolding translate_virtual_to_physical
  translate-IsOutcome s virt mode = elim (Bool-cases (is_translated config s.satp mode.priv)) [
    | inl on ↦
        elim (Option-cases (found_way config mem_port walk_port same_port policy s virt mode)) [
          | inl (way, found) ↦
              rw
                (translate-some config mem_port walk_port same_port policy s virt way mode on found)
                (hit-IsOutcome s (set_index config (virt / 2 ^ 12)) way virt mode)
          | inr absent ↦
              rw (translate-none config mem_port walk_port same_port policy s virt mode on absent)
                (miss-IsOutcome s virt mode)
        ]
    | inr off ↦ rw off (omega arith)
  ]

  write_pages-ends :
      (fuel : ℕ) (virt : ℕ) (src : ℕ → ℕ) (remaining : ℕ) (mode : AccessMode) (opts : AccessEffects)
      (any : Bool) (s : Tlb M P)
      → remaining ≤ fuel
      → (write_pages config mem_port walk_port same_port policy fuel virt src remaining mode opts
          any s).0
        ≢ out_of_fuel
  unfolding write_pages
  write_pages-ends zero virt src remaining mode opts any s enough =
      let none_left : (remaining == 0) ≡ true = ground arith in rw none_left (λ e. cc)
  write_pages-ends (suc fuel) virt src remaining mode opts any s enough =
      elim (Bool-cases (remaining == 0)) [
        | inl end ↦ rw end (λ e. cc)
        | inr more ↦ elim (outcome_cases _ (translate-IsOutcome s virt mode)) [
          | inl (tr, e, pos) ↦
              let t = (translate config mem_port walk_port same_port policy virt mode s).1 in
              let u =
                if is_translated config t.satp mode.priv
                then mark config mem_port walk_port same_port policy AccessOp.write tr.entry t
                else t in
              let n = min remaining tr.bytes_until_page_end in
              let written = mem_port.write u.mem opts tr.phys src n in
              rw (more, e, write_pages)
                (write_pages-ends fuel ((virt + n) % 2 ^ 64) (λ i. src (i + n)) (remaining - n) mode
                  opts (any || written.0) (record u { mem = written.1 })
                  (fewer remaining tr.bytes_until_page_end fuel enough pos more))
          | inr (cause, e) ↦ rw (more, e, write_pages) (λ d. cc)
        ]
      ]

  read_pages-ends :
      (fuel : ℕ) (virt : ℕ) (dst : ℕ → ℕ) (at remaining : ℕ) (mode : AccessMode)
      (opts : AccessEffects) (s : Tlb M P)
      → remaining ≤ fuel
      → (read_pages config mem_port walk_port same_port policy fuel virt dst at remaining mode opts
          s).0
        ≢ out_of_fuel
  unfolding read_pages
  read_pages-ends zero virt dst at remaining mode opts s enough =
      let none_left : (remaining == 0) ≡ true = ground arith in rw none_left (λ e. cc)
  read_pages-ends (suc fuel) virt dst at remaining mode opts s enough =
      elim (Bool-cases (remaining == 0)) [
        | inl end ↦ rw end (λ e. cc)
        | inr more ↦ elim (outcome_cases _ (translate-IsOutcome s virt mode)) [
          | inl (tr, e, pos) ↦
              let t = (translate config mem_port walk_port same_port policy virt mode s).1 in
              let u =
                if is_translated config t.satp mode.priv
                then mark config mem_port walk_port same_port policy AccessOp.read tr.entry t
                else t in
              let n = min remaining tr.bytes_until_page_end in
              let (bytes, m) = mem_port.read u.mem opts tr.phys n in
              rw (more, e, read_pages)
                (read_pages-ends fuel ((virt + n) % 2 ^ 64)
                  (λ i. if not (ltb i at) && ltb i (at + n) then bytes (i - at) else dst i) (at + n)
                  (remaining - n) mode opts (record u { mem = m })
                  (fewer remaining tr.bytes_until_page_end fuel enough pos more))
          | inr (cause, e) ↦ rw (more, e, read_pages) (λ d. cc)
        ]
      ]

  -- Reads and writes over any number of pages end, with the fuel that their size is: each page that is
  -- reached takes a byte or more, and a fault ends them.
  pub pages_end :
      (address size : ℕ) (buffer : ℕ → ℕ) (mode : AccessMode) (opts : AccessEffects) (s : Tlb M P)
      → ((translate_and_read config mem_port walk_port same_port policy address buffer size mode
            opts s).0
          ≢ out_of_fuel)
        × ((translate_and_write config mem_port walk_port same_port policy address buffer size mode
              opts s).0
            ≢ out_of_fuel)
  unfolding translate_and_read translate_and_write
  pages_end address size buffer mode opts s = (
    read_pages-ends size address buffer 0 size mode opts s (omega arith),
    write_pages-ends size address buffer size mode opts false s (omega arith),
  )

  hit-IsIndexed :
      (s : Tlb M P) (set way virt : ℕ) (mode : AccessMode)
      → IsIndexed config s
      → IsIndexed config
          (hit config mem_port walk_port same_port policy set way (virt % 2 ^ 12) mode s).1
  unfolding hit
  hit-IsIndexed s set way virt mode h =
      elim (Bool-cases
        (check_permissions (s.table set way).flags s.sstatus mode.priv mode.opkind)) [
          | inl granted ↦ rw granted h
          | inr denied ↦ rw denied h
        ]

  set_entry-IsIndexed :
      (s : Tlb M P) (vpn way : ℕ) (e : Entry)
      → IsIndexed config s
      → e.vpn ≡ vpn
      → (q w : ℕ) → (set_entry s.table (set_index config vpn) way e q w).valid ≡ true
      → set_index config (set_entry s.table (set_index config vpn) way e q w).vpn ≡ q
  set_entry-IsIndexed s vpn way e h page q w valid =
      elim (Bool-cases (q == set_index config vpn && w == way)) [
        | inl here ↦
            rw here (ap (set_index config) page ∙ sym ((==_iff _ _).0 (and-true _ _ here).0))
        | inr other ↦
            let old : set_entry s.table (set_index config vpn) way e q w ≡ s.table q w =
              rw other refl in
            ap (λ o. set_index config o.vpn) old ∙ h q w (ap (λ o. o.valid) (sym old) ∙ valid)
      ]

  miss-IsIndexed :
      (s : Tlb M P) (virt : ℕ) (mode : AccessMode)
      → IsIndexed config s
      → IsIndexed config (miss config mem_port walk_port same_port policy virt mode s).1
  unfolding miss fill
  miss-IsIndexed s virt mode h =
      elim (walk_cases
        (walk (paging_mode config.xlen) walk_port virt s.sstatus mode.priv mode.opkind s.satp
          s.mem).0) [
            | inl (phys, pte_addr, leaf_pte, e) ↦
                rw (e, miss)
                  (set_entry-IsIndexed s (virt / 2 ^ 12)
                    (policy.select_victim s.policy (set_index config (virt / 2 ^ 12))).0
                    (resolved config mem_port walk_port same_port policy (virt / 2 ^ 12) mode.asid
                      phys pte_addr leaf_pte)
                    h refl)
            | inr (inl (cause, e)) ↦ rw (e, miss) h
            | inr (inr (phys, e)) ↦ rw (e, miss) h
          ]

  -- A translation, also one that faults, keeps every valid entry in the set of its page.
  pub translate-IsIndexed :
      (s : Tlb M P) (virt : ℕ) (mode : AccessMode)
      → IsIndexed config s
      → IsIndexed config
          (translate_virtual_to_physical config mem_port walk_port same_port policy virt mode s).1
  unfolding translate_virtual_to_physical
  translate-IsIndexed s virt mode h = elim (Bool-cases (is_translated config s.satp mode.priv)) [
    | inl on ↦
        elim (Option-cases (found_way config mem_port walk_port same_port policy s virt mode)) [
          | inl (way, found) ↦
              rw
                (translate-some config mem_port walk_port same_port policy s virt way mode on found)
                (hit-IsIndexed s (set_index config (virt / 2 ^ 12)) way virt mode h)
          | inr absent ↦
              rw (translate-none config mem_port walk_port same_port policy s virt mode on absent)
                (miss-IsIndexed s virt mode h)
        ]
    | inr off ↦ rw off h
  ]
