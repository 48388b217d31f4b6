-- ===== src/Tlb/Translate/Again.antt =====
-- A page that was translated is translated again in the same way, and from the table alone.
use qtrvsim.Base.{
  ℕ, ◌+◌, ◌-◌, ◌*◌, ◌/◌, ◌%◌, ◌^◌, ◌≤◌, ◌<◌, ◌≡◌, refl, sym, ap, ap₂, ◌∙◌, Bool, true, false, ◌&&◌,
  ◌⊎◌, inl, inr, Option, none, some, ◌==◌, ==_iff, Bool-cases, arith,
}
use qtrvsim.Cache.Storage.{BackingMemory}
use qtrvsim.Csr.Address.{ExceptionCause}
use qtrvsim.Virtual.Pte.{check_permissions, get_current_cause}
use qtrvsim.Virtual.Walk.{WalkResult, walk}
use qtrvsim.Tlb.Translate.Search.{
  find_way-none, find_way_only, set_entry_here, set_entry_other, walk_cases, walk-granted,
}
use qtrvsim.Tlb.Storage.{
  Entry, ReplacementPolicy, TlbConfig, Tlb, AccessMode, paging_mode, set_entry, set_index,
}
use qtrvsim.Tlb.Translate.{
  holds, find_way, TranslationResult, Outcome, done, fault, is_translated, should_translate, hit,
  resolved, fill, miss, translate_virtual_to_physical,
}

pub Option-cases : (o : Option ℕ) → ((n : ℕ) × (o ≡ some n)) ⊎ (o ≡ none)
Option-cases (some n) = inl (n, refl)
Option-cases none = inr refl

-- What a translation of an address in the page gives from an entry.
abbrev of_entry : ℕ → ℕ → ℕ → ℕ → TranslationResult
of_entry base set way virt = record {
  phys = base / 2 ^ 12 * 2 ^ 12 + virt % 2 ^ 12;
  bytes_until_page_end = 2 ^ 12 - virt % 2 ^ 12;
  entry = some (set, way);
}

same_page :
    (base set way virt virt' : ℕ) (tr : TranslationResult)
    → done (of_entry base set way virt) ≡ done tr
    → done (of_entry base set way virt')
      ≡ done (record {
        phys = tr.phys / 2 ^ 12 * 2 ^ 12 + virt' % 2 ^ 12;
        bytes_until_page_end = 2 ^ 12 - virt' % 2 ^ 12;
        entry = tr.entry;
      })
same_page base set way virt virt' tr e =
    let got : of_entry base set way virt ≡ tr = cc in
    let place : tr.phys ≡ base / 2 ^ 12 * 2 ^ 12 + virt % 2 ^ 12 = sym (ap (λ q. q.phys) got) in
    let next : base / 2 ^ 12 * 2 ^ 12 + virt' % 2 ^ 12
        ≡ tr.phys / 2 ^ 12 * 2 ^ 12 + virt' % 2 ^ 12 =
      omega (arith, place) in
    λ i. done (record {
      phys = next i;
      bytes_until_page_end = 2 ^ 12 - virt' % 2 ^ 12;
      entry = ap (λ q. q.entry) got i;
    })

-- The address of a page stands for every address in it.
same_base :
    (base set way virt : ℕ)
    → done (of_entry (base / 2 ^ 12 * 2 ^ 12) set way virt) ≡ done (of_entry base set way virt)
same_base base set way virt =
    let place : base / 2 ^ 12 * 2 ^ 12 / 2 ^ 12 * 2 ^ 12 + virt % 2 ^ 12
        ≡ base / 2 ^ 12 * 2 ^ 12 + virt % 2 ^ 12 =
      omega arith in
    λ i. done (record {
      phys = place i;
      bytes_until_page_end = 2 ^ 12 - virt % 2 ^ 12;
      entry = some (set, way);
    })

self_holds : (vpn asid : ℕ) → (true && vpn == vpn && asid == asid) ≡ true
self_holds vpn asid = rw ((==_iff vpn vpn).1 refl, (==_iff asid asid).1 refl) refl

module _ {M P : Type 0} (config : TlbConfig) (mem_port walk_port : BackingMemory M)
    (same_port : Bool) (policy : ReplacementPolicy P) where
  abbrev pub translate : ℕ → AccessMode → Tlb M P → Outcome TranslationResult × Tlb M P
  translate = translate_virtual_to_physical config mem_port walk_port same_port policy

  abbrev pub row_of : Tlb M P → ℕ → ℕ → Entry
  row_of s virt = s.table (set_index config (virt / 2 ^ 12))

  abbrev pub found_way : Tlb M P → ℕ → AccessMode → Option ℕ
  found_way s virt mode = find_way config.associativity 0 (row_of s virt) (virt / 2 ^ 12) mode.asid

  pub translate-some :
      (s : Tlb M P) (virt way : ℕ) (mode : AccessMode)
      → should_translate config mem_port walk_port same_port policy s mode.priv ≡ true
      → found_way s virt mode ≡ some way
      → translate virt mode s
        ≡ hit config mem_port walk_port same_port policy
            (set_index config (virt / 2 ^ 12))
            way
            (virt % 2 ^ 12)
            mode
            s
  unfolding translate_virtual_to_physical
  translate-some s virt way mode on e = rw (on, e) refl

  pub translate-none :
      (s : Tlb M P) (virt : ℕ) (mode : AccessMode)
      → should_translate config mem_port walk_port same_port policy s mode.priv ≡ true
      → found_way s virt mode ≡ none
      → translate virt mode s ≡ miss config mem_port walk_port same_port policy virt mode s
  unfolding translate_virtual_to_physical
  translate-none s virt mode on e = rw (on, e) refl

  hit_lem :
      (s : Tlb M P) (virt way : ℕ) (mode : AccessMode)
      → should_translate config mem_port walk_port same_port policy s mode.priv ≡ true
      → found_way s virt mode ≡ some way
      → check_permissions (row_of s virt way).flags s.sstatus mode.priv mode.opkind ≡ true
      → ((translate virt mode s).0
          ≡ done (of_entry (row_of s virt way).phys (set_index config (virt / 2 ^ 12)) way virt))
        × ((translate virt mode s).1.mem ≡ s.mem)
        × ((translate virt mode s).1.table ≡ s.table)
        × ((translate virt mode s).1.satp ≡ s.satp)
        × ((translate virt mode s).1.sstatus ≡ s.sstatus)
  unfolding hit
  hit_lem s virt way mode on e granted =
      let call = translate-some s virt way mode on e in
      rw (call, granted) (refl, refl, refl, refl, refl)

  miss_lem :
      (s : Tlb M P) (virt : ℕ) (mode : AccessMode) (phys pte_addr leaf_pte : ℕ)
      → should_translate config mem_port walk_port same_port policy s mode.priv ≡ true
      → found_way s virt mode ≡ none
      → (walk
          (paging_mode config.xlen)
          walk_port
          virt
          s.sstatus
          mode.priv
          mode.opkind
          s.satp
          s.mem).0
        ≡ WalkResult.found phys pte_addr leaf_pte
      → let set = set_index config (virt / 2 ^ 12) in
        let victim = (policy.select_victim s.policy set).0 in
        let t = (translate virt mode s).1 in
        ((translate virt mode s).0 ≡ done (of_entry phys set victim virt))
        × (t.table
            ≡ set_entry s.table set victim (
                resolved config mem_port walk_port same_port policy
                  (virt / 2 ^ 12)
                  mode.asid
                  phys
                  pte_addr
                  leaf_pte))
        × (t.satp ≡ s.satp)
        × (t.sstatus ≡ s.sstatus)
  unfolding miss fill
  miss_lem s virt mode phys pte_addr leaf_pte on absent found =
      let call = translate-none s virt mode on absent in
      rw (call, found, miss) (refl, refl, refl, refl)

  miss-failed :
      (s : Tlb M P) (virt : ℕ) (mode : AccessMode) (tr : TranslationResult)
      → let result =
          (walk
            (paging_mode config.xlen)
            walk_port
            virt
            s.sstatus
            mode.priv
            mode.opkind
            s.satp
            s.mem).0 in
        ((cause : ExceptionCause) × (result ≡ WalkResult.page_fault cause))
          ⊎ ((phys : ℕ) × (result ≡ WalkResult.bare phys))
        → (miss config mem_port walk_port same_port policy virt mode s).0 ≡ done tr
        → ⊥
  unfolding miss
  miss-failed s virt mode out (inl (cause, e)) d =
      let call : (miss config mem_port walk_port same_port policy virt mode s).0 ≡ fault cause =
        rw (e, miss) refl in
      cc
  miss-failed s virt mode out (inr (phys, e)) d =
      let call : (miss config mem_port walk_port same_port policy virt mode s).0
          ≡ fault (get_current_cause mode.opkind) =
        rw (e, miss) refl in
      cc

  hit-granted :
      (s : Tlb M P) (set way off : ℕ) (mode : AccessMode) (tr : TranslationResult)
      → (hit config mem_port walk_port same_port policy set way off mode s).0 ≡ done tr
      → check_permissions (s.table set way).flags s.sstatus mode.priv mode.opkind ≡ true
  unfolding hit
  hit-granted s set way off mode tr d =
      elim (Bool-cases
        (check_permissions (s.table set way).flags s.sstatus mode.priv mode.opkind)) [
          | inl granted ↦ granted
          | inr denied ↦
              let out : (hit config mem_port walk_port same_port policy set way off mode s).0
                  ≡ fault (get_current_cause mode.opkind) =
                rw denied refl in
              absurd (cc)
        ]

  -- A translation in a state like another one, whose entry for the page grants the access.
  again :
      (t : Tlb M P) (table : ℕ → ℕ → Entry) (satp sstatus virt virt' way : ℕ) (mode : AccessMode)
      → t.table ≡ table
      → t.satp ≡ satp
      → t.sstatus ≡ sstatus
      → is_translated config satp mode.priv ≡ true
      → virt' / 2 ^ 12 ≡ virt / 2 ^ 12
      → find_way config.associativity 0
          (table (set_index config (virt / 2 ^ 12)))
          (virt / 2 ^ 12)
          mode.asid
        ≡ some way
      → check_permissions
          (table (set_index config (virt / 2 ^ 12)) way).flags
          sstatus
          mode.priv
          mode.opkind
        ≡ true
      → ((translate virt' mode t).0
          ≡ done (
              of_entry
                (table (set_index config (virt / 2 ^ 12)) way).phys
                (set_index config (virt / 2 ^ 12))
                way
                virt'))
        × ((translate virt' mode t).1.mem ≡ t.mem)
  again t table satp sstatus virt virt' way mode tables satps statuses on page found granted =
      let entries : row_of t virt' way ≡ table (set_index config (virt / 2 ^ 12)) way =
        λ i. tables i (set_index config (page i)) way in
      let search : found_way t virt' mode
          ≡ find_way config.associativity 0 (table (set_index config (virt / 2 ^ 12)))
              (virt / 2 ^ 12) mode.asid =
        λ i.
          find_way config.associativity 0 (tables i (set_index config (page i))) (page i)
            mode.asid in
      let checks : check_permissions (row_of t virt' way).flags t.sstatus mode.priv mode.opkind
          ≡ check_permissions (table (set_index config (virt / 2 ^ 12)) way).flags sstatus mode.priv
              mode.opkind =
        λ i. check_permissions (entries i).flags (statuses i) mode.priv mode.opkind in
      let (result, memory, kept, same_satp, same_sstatus) =
        hit_lem t virt' way mode (ap (λ q. is_translated config q mode.priv) satps ∙ on)
          (search ∙ found) (checks ∙ granted) in
      (
        result
            ∙ ap₂ (λ base set. done (of_entry base set way virt')) (ap (λ e. e.phys) entries)
                (ap (set_index config) page),
        memory,
      )

  -- After a translation that succeeds, every address of the same page translates in the same mode, in the
  -- state that it left, to the same page and the same entry, without a look at the memory: whether the entry
  -- was in the table or came from a walk, with a policy that chooses a way of the table.
  pub translate-translate :
      (s : Tlb M P) (virt virt' : ℕ) (mode : AccessMode) (tr : TranslationResult)
      → ((p : P) (set : ℕ) → (policy.select_victim p set).0 < config.associativity)
      → is_translated config s.satp mode.priv ≡ true
      → virt' / 2 ^ 12 ≡ virt / 2 ^ 12
      → (translate_virtual_to_physical config mem_port walk_port same_port policy virt mode s).0
        ≡ done tr
      → let t =
          (translate_virtual_to_physical config mem_port walk_port same_port policy virt mode
            s).1 in
        let next =
          translate_virtual_to_physical config mem_port walk_port same_port policy virt' mode t in
        (next.0
          ≡ done (record {
            phys = tr.phys / 2 ^ 12 * 2 ^ 12 + virt' % 2 ^ 12;
            bytes_until_page_end = 2 ^ 12 - virt' % 2 ^ 12;
            entry = tr.entry;
          }))
        × (next.1.mem ≡ t.mem)
  translate-translate s virt virt' mode tr chooses on page d =
      elim (Option-cases (found_way s virt mode)) [
        | inl (way, found) ↦
            let set = set_index config (virt / 2 ^ 12) in
            let granted =
              hit-granted s set way (virt % 2 ^ 12) mode tr
                (sym (ap (λ q. q.0) (translate-some s virt way mode on found)) ∙ d) in
            let (first, memory, kept, same_satp, same_sstatus) =
              hit_lem s virt way mode on found granted in
            let (next, same) =
              again (translate virt mode s).1 s.table s.satp s.sstatus virt virt' way mode kept
                same_satp same_sstatus on page found granted in
            (next ∙ same_page (s.table set way).phys set way virt virt' tr (sym first ∙ d), same)
        | inr absent ↦
            elim (walk_cases
              (walk (paging_mode config.xlen) walk_port virt s.sstatus mode.priv mode.opkind s.satp
                s.mem).0) [
                  | inl (phys, pte_addr, leaf_pte, found) ↦
                      let vpn = virt / 2 ^ 12 in
                      let set = set_index config vpn in
                      let victim = (policy.select_victim s.policy set).0 in
                      let entry =
                        resolved config mem_port walk_port same_port policy vpn mode.asid phys
                          pte_addr leaf_pte in
                      let table = set_entry s.table set victim entry in
                      let here : table set victim ≡ entry =
                        set_entry_here s.table set victim entry in
                      let (first, tables, satps, statuses) =
                        miss_lem s virt mode phys pte_addr leaf_pte on absent found in
                      let before : (q : ℕ)
                          → 0 ≤ q
                          → q < victim
                          → holds vpn mode.asid (table set q) ≡ false =
                        λ q low small.
                          ap (holds vpn mode.asid)
                            (set_entry_other s.table set victim q entry (ground arith))
                          ∙ find_way-none config.associativity 0 (s.table set) vpn mode.asid q
                              absent low (omega (arith, small, chooses s.policy set)) in
                      let way =
                        find_way_only config.associativity 0 (table set) vpn mode.asid victim
                          (ap (holds vpn mode.asid) here ∙ self_holds vpn mode.asid) before
                          (omega arith) (omega (arith, chooses s.policy set)) in
                      let granted =
                        ap (λ e. check_permissions e.flags s.sstatus mode.priv mode.opkind) here
                        ∙ walk-granted (paging_mode config.xlen) walk_port virt s.sstatus mode.priv
                            mode.opkind s.satp s.mem phys pte_addr leaf_pte found in
                      let (next, same) =
                        again (translate virt mode s).1 table s.satp s.sstatus virt virt' victim
                          mode tables satps statuses on page way granted in
                      (
                        next
                            ∙ ap (λ b. done (of_entry b set victim virt')) (ap (λ e. e.phys) here)
                            ∙ same_base phys set victim virt'
                            ∙ same_page phys set victim virt virt' tr (sym first ∙ d),
                        same,
                      )
                  | inr failed ↦ absurd (
                      miss-failed s virt mode tr failed
                        (sym (ap (λ q. q.0) (translate-none s virt mode on absent)) ∙ d))
                ]
      ]
