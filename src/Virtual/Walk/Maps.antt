-- ===== src/Virtual/Walk/Maps.antt =====
-- What a walk finds is what the tables in the memory say.
use qtrvsim.Base.{
  ℕ, zero, suc, ◌+◌, ◌%◌, ◌^◌, ◌≤◌, ◌<◌, ◌≡◌, ◌↔◌, refl, sym, ap, ◌∙◌, true, false, ◌||◌, inl, inr,
  Bool-cases, arith,
}
use native.Mathlib.Nat.{mod-lt}
use qtrvsim.Cache.Storage.{AccessEffects, BackingMemory}
use qtrvsim.Cache.Storage.Relation.{MemoryLaws}
use qtrvsim.Csr.Address.{PrivilegeLevel}
use qtrvsim.Virtual.Pte.{
  AccessOp, PagingMode, ppn_bits, raw_bytes, vpn_bits, max_level_idx, is_satp_mode, ppn, is_leaf,
  is_valid, flags_of, make_phys, check_permissions, get_current_cause, r, w, x,
}
use qtrvsim.Virtual.Walk.{
  WalkResult, join_bytes, vpn_idx, pte_address, is_misaligned, at_leaf, walk_from, walk,
}

-- The entry at an address of a memory.
abbrev pub entry_at : PagingMode → (ℕ → ℕ) → ℕ → ℕ
entry_at mode byte address = join_bytes (raw_bytes mode) (λ i. byte (address + i))

-- With `levels` levels left, the table with the number `number` leads to the leaf `raw`, of the level `level`,
-- which stands at the address `pte_addr`.
pub data Leads (mode : PagingMode) (byte : ℕ → ℕ) (va : ℕ) : ℕ → ℕ → ℕ → ℕ → ℕ → Type 0 where
  leaf :
      (lvl number raw pte_addr : ℕ)
      → pte_addr ≡ pte_address mode va lvl number
      → raw ≡ entry_at mode byte pte_addr
      → is_valid raw ≡ true
      → is_leaf raw ≡ true
      → Leads mode byte va (suc lvl) number raw lvl pte_addr
  next :
      (lvl number table raw level pte_addr : ℕ)
      → table ≡ entry_at mode byte (pte_address mode va lvl number)
      → is_valid table ≡ true
      → is_leaf table ≡ false
      → Leads mode byte va lvl (ppn mode table) raw level pte_addr
      → Leads mode byte va (suc lvl) number raw level pte_addr

join_bytes-ext :
    (n : ℕ) (f g : ℕ → ℕ) → ((i : ℕ) → i < n → f i ≡ g i) → join_bytes n f ≡ join_bytes n g
join_bytes-ext zero f g same = refl
join_bytes-ext (suc n) f g same =
    let rest = join_bytes-ext n f g (λ i small. same i (omega arith)) in
    rw (rest, same n (omega arith)) refl

idx-lt : (mode : PagingMode) (va lvl : ℕ) → vpn_idx mode va lvl < 2 ^ vpn_bits mode
idx-lt PagingMode.sv32 va lvl = mod-lt _ (omega arith)
idx-lt PagingMode.sv39 va lvl = mod-lt _ (omega arith)

ppn-lt : (mode : PagingMode) (raw : ℕ) → ppn mode raw < 2 ^ ppn_bits mode
unfolding ppn
ppn-lt PagingMode.sv32 raw = omega arith
ppn-lt PagingMode.sv39 raw = omega arith

table-lt : (mode : PagingMode) (satp : ℕ) → satp % 2 ^ ppn_bits mode < 2 ^ ppn_bits mode
table-lt PagingMode.sv32 satp = omega arith
table-lt PagingMode.sv39 satp = omega arith

entry_fits :
    (mode : PagingMode) (va lvl number : ℕ)
    → number < 2 ^ ppn_bits mode
    → pte_address mode va lvl number + raw_bytes mode ≤ 2 ^ 64
entry_fits PagingMode.sv32 va lvl number h =
    let small = idx-lt PagingMode.sv32 va lvl in omega (arith, small, h)
entry_fits PagingMode.sv39 va lvl number h =
    let small = idx-lt PagingMode.sv39 va lvl in omega (arith, small, h)

-- An entry that is valid and no leaf grants nothing.
pointer_lem :
    (raw : ℕ) → is_valid raw ≡ true → is_leaf raw ≡ false → (r raw || w raw || x raw) ≡ false
unfolding is_valid is_leaf
pointer_lem raw valid inner = ground arith

module _ (mode : PagingMode) (sstatus : ℕ) (priv : PrivilegeLevel) (op : AccessOp) where
  -- A leaf that is in its place and grants the access.
  abbrev pub IsGranted : ℕ → ℕ → Type 0
  IsGranted raw level =
      (is_misaligned mode raw level ≡ false)
      × (check_permissions (flags_of raw) sstatus priv op ≡ true)

module _ {M : Type 0} (mode : PagingMode) (below : BackingMemory M) (va sstatus : ℕ)
    (priv : PrivilegeLevel) (op : AccessOp) where
  pub at_leaf-found :
      (raw address lvl phys pte_addr leaf_pte : ℕ)
      → at_leaf mode below va sstatus priv op raw address lvl
        ≡ WalkResult.found phys pte_addr leaf_pte
      → IsGranted mode sstatus priv op raw lvl
        × (phys ≡ make_phys mode raw va lvl)
        × (pte_addr ≡ address)
        × (leaf_pte ≡ raw)
  unfolding at_leaf
  at_leaf-found raw address lvl phys pte_addr leaf_pte e =
      let call = at_leaf mode below va sstatus priv op raw address lvl in
      elim (Bool-cases (is_misaligned mode raw lvl)) [
        | inl off ↦
            let fault : call ≡ WalkResult.page_fault (get_current_cause op) = rw off refl in
            absurd (cc)
        | inr aligned ↦ elim (Bool-cases (check_permissions (flags_of raw) sstatus priv op)) [
          | inl granted ↦
              let hit : call ≡ WalkResult.found (make_phys mode raw va lvl) address raw =
                rw (aligned, granted) refl in
              ((aligned, granted), cc, cc, cc)
          | inr denied ↦
              let fault : call ≡ WalkResult.page_fault (get_current_cause op) =
                rw (aligned, denied) refl in
              absurd (cc)
        ]
      ]

  found-at_leaf :
      (raw address lvl : ℕ)
      → IsGranted mode sstatus priv op raw lvl
      → at_leaf mode below va sstatus priv op raw address lvl
        ≡ WalkResult.found (make_phys mode raw va lvl) address raw
  unfolding at_leaf
  found-at_leaf raw address lvl (aligned, granted) = rw (aligned, granted) refl

module _ {M : Type 0} (mode : PagingMode) (below : BackingMemory M) (laws : MemoryLaws below)
    (va sstatus : ℕ) (priv : PrivilegeLevel) (op : AccessOp) where
  read_entry :
      (m : M) (byte : ℕ → ℕ) (lvl number : ℕ)
      → laws.IsSound m
      → ((y : ℕ) → laws.byte m y ≡ byte y)
      → number < 2 ^ ppn_bits mode
      → join_bytes
          (raw_bytes mode)
          (below.read m AccessEffects.regular (pte_address mode va lvl number) (raw_bytes mode)).0
        ≡ entry_at mode byte (pte_address mode va lvl number)
  read_entry m byte lvl number sound same small = join_bytes-ext (raw_bytes mode) _ _ (λ i inside.
      laws.read-byte m AccessEffects.regular (pte_address mode va lvl number) (raw_bytes mode) i
        sound (entry_fits mode va lvl number small) inside
      ∙ same (pte_address mode va lvl number + i))

  -- A step of the walk, by what the entry is.
  walk_step :
      (m : M) (byte : ℕ → ℕ) (lvl number : ℕ)
      → laws.IsSound m
      → ((y : ℕ) → laws.byte m y ≡ byte y)
      → number < 2 ^ ppn_bits mode
      → let address = pte_address mode va lvl number in
        let raw = entry_at mode byte address in
        let call = walk_from mode below va sstatus priv op in
        let m' = (below.read m AccessEffects.regular address (raw_bytes mode)).1 in
        ((is_valid raw ≡ false)
          → (call (suc lvl) number m).0 ≡ WalkResult.page_fault (get_current_cause op))
        × ((is_valid raw ≡ true)
            → (is_leaf raw ≡ true)
            → (call (suc lvl) number m).0 ≡ at_leaf mode below va sstatus priv op raw address lvl)
        × ((is_valid raw ≡ true)
            → (is_leaf raw ≡ false)
            → (call (suc lvl) number m).0 ≡ (call lvl (ppn mode raw) m').0)
  unfolding walk_from
  walk_step m byte lvl number sound same small =
      let entry = read_entry m byte lvl number sound same small in
      (
        λ invalid. rw (entry, invalid) refl,
        λ valid leaf. rw (entry, valid, leaf) refl,
        λ valid inner. rw (entry, valid, inner, pointer_lem _ valid inner) refl,
      )

  walk_from-Leads :
      (levels : ℕ) (m : M) (byte : ℕ → ℕ) (number phys pte_addr raw : ℕ)
      → laws.IsSound m
      → ((y : ℕ) → laws.byte m y ≡ byte y)
      → number < 2 ^ ppn_bits mode
      → (walk_from mode below va sstatus priv op levels number m).0
        ≡ WalkResult.found phys pte_addr raw
      → (level : ℕ) × Leads mode byte va levels number raw level pte_addr
        × IsGranted mode sstatus priv op raw level
        × (phys ≡ make_phys mode raw va level)
  unfolding walk_from
  walk_from-Leads zero m byte number phys pte_addr raw sound same small e = absurd (cc)
  walk_from-Leads (suc lvl) m byte number phys pte_addr raw sound same small e =
      let address = pte_address mode va lvl number in
      let entry = entry_at mode byte address in
      let fits = entry_fits mode va lvl number small in
      let (faults, ends, goes_on) = walk_step m byte lvl number sound same small in
      elim (Bool-cases (is_valid entry)) [
        | inl valid ↦ elim (Bool-cases (is_leaf entry)) [
          | inl end ↦
              let (granted, place, where_, what) =
                at_leaf-found mode below va sstatus priv op entry address lvl phys pte_addr raw
                  (sym (ends valid end) ∙ e) in
              (
                lvl,
                Leads.leaf lvl number raw pte_addr where_
                    (what ∙ ap (entry_at mode byte) (sym where_)) (ap is_valid what ∙ valid)
                    (ap is_leaf what ∙ end),
                rw what granted,
                place ∙ ap (λ q. make_phys mode q va lvl) (sym what),
              )
          | inr inner ↦
              let (level, path, granted, place) =
                walk_from-Leads lvl (below.read m AccessEffects.regular address (raw_bytes mode)).1
                  byte (ppn mode entry) phys pte_addr raw (laws.read-IsSound m _ _ _ sound fits)
                  (λ y. laws.byte-read m _ _ _ y sound fits ∙ same y) (ppn-lt mode entry)
                  (sym (goes_on valid inner) ∙ e) in
              (
                level,
                Leads.next lvl number entry raw level pte_addr refl valid inner path,
                granted,
                place,
              )
        ]
        | inr invalid ↦ let fault = faults invalid in absurd (cc)
      ]

  Leads-walk_from :
      (byte : ℕ → ℕ) (levels : ℕ) (m : M) (number raw level pte_addr : ℕ)
      → laws.IsSound m
      → ((y : ℕ) → laws.byte m y ≡ byte y)
      → number < 2 ^ ppn_bits mode
      → IsGranted mode sstatus priv op raw level
      → Leads mode byte va levels number raw level pte_addr
      → (walk_from mode below va sstatus priv op levels number m).0
        ≡ WalkResult.found (make_phys mode raw va level) pte_addr raw
  Leads-walk_from byte levels m number raw level pte_addr sound same small granted
        (Leads.leaf lvl n q z where_ what valid end) =
      let (faults, ends, goes_on) = walk_step m byte lvl n sound same small in
      let here : q ≡ entry_at mode byte (pte_address mode va lvl n) =
        what ∙ ap (entry_at mode byte) where_ in
      ends (ap is_valid (sym here) ∙ valid) (ap is_leaf (sym here) ∙ end)
      ∙ rw (← here, ← where_) (found-at_leaf mode below va sstatus priv op q z lvl granted)
  Leads-walk_from byte levels m number raw level pte_addr sound same small granted
        (Leads.next lvl n table q l z what valid inner path) =
      let address = pte_address mode va lvl n in
      let fits = entry_fits mode va lvl n small in
      let (faults, ends, goes_on) = walk_step m byte lvl n sound same small in
      goes_on (ap is_valid (sym what) ∙ valid) (ap is_leaf (sym what) ∙ inner)
      ∙ ap
          (λ e.
            (walk_from mode below va sstatus priv op lvl (ppn mode e)
              (below.read m AccessEffects.regular address (raw_bytes mode)).1).0)
          (sym what)
      ∙ Leads-walk_from byte lvl (below.read m AccessEffects.regular address (raw_bytes mode)).1
          (ppn mode table) q l z (laws.read-IsSound m _ _ _ sound fits)
          (λ y. laws.byte-read m _ _ _ y sound fits ∙ same y) (ppn-lt mode table) granted path

  -- A walk with its mode switched on finds exactly the leaf that the tables lead to from the page number in
  -- the register, where the leaf is in its place and grants the access, and gives the address that the leaf
  -- maps: over any memory that keeps its laws, and for both formats.
  pub walk-iff-Leads :
      (m : M) (satp phys pte_addr raw : ℕ)
      → laws.IsSound m
      → is_satp_mode mode satp ≡ true
      → ((walk mode below va sstatus priv op satp m).0 ≡ WalkResult.found phys pte_addr raw) ↔ (
          (level : ℕ) × Leads mode
            (laws.byte m)
            va
            (max_level_idx mode + 1)
            (satp % 2 ^ ppn_bits mode)
            raw
            level
            pte_addr
          × IsGranted mode sstatus priv op raw level
          × (phys ≡ make_phys mode raw va level))
  unfolding walk
  walk-iff-Leads m satp phys pte_addr raw sound on =
      let small = table-lt mode satp in
      rw on (
        λ e.
            walk_from-Leads (max_level_idx mode + 1) m (laws.byte m) (satp % 2 ^ ppn_bits mode) phys
              pte_addr raw sound (λ y. refl) small e,
        λ (level, path, granted, place).
            Leads-walk_from (laws.byte m) (max_level_idx mode + 1) m (satp % 2 ^ ppn_bits mode) raw
              level pte_addr sound (λ y. refl) small granted path
            ∙ ap (λ z. WalkResult.found z pte_addr raw) (sym place),
      )
