-- ===== src/Tlb/Translate/Search.antt =====
-- The search for an entry, and that a walk finds only what grants the access.
use qtrvsim.Base.{
  ℕ, zero, suc, ◌+◌, ◌%◌, ◌^◌, ◌≤◌, ◌<◌, ◌≡◌, refl, sym, ap, ◌∙◌, true, false, ◌||◌, ◌⊎◌, inl, inr,
  none, some, ◌==◌, ==_iff, Bool-cases, arith,
}
use qtrvsim.Cache.Storage.{BackingMemory, AccessEffects}
use qtrvsim.Csr.Address.{PrivilegeLevel, ExceptionCause}
use qtrvsim.Virtual.Pte.{
  AccessOp, PagingMode, ppn_bits, raw_bytes, max_level_idx, is_satp_mode, r, w, x, ppn, is_leaf,
  is_valid, flags_of, check_permissions, get_current_cause,
}
use qtrvsim.Virtual.Walk.{WalkResult, join_bytes, pte_address, at_leaf, walk_from, walk}
use qtrvsim.Virtual.Walk.Maps.{at_leaf-found}
use qtrvsim.Cache.Storage.Transfer.{and_false}
use qtrvsim.Tlb.Storage.{Entry, set_entry}
use qtrvsim.Tlb.Translate.{holds, find_way}

pub find_way-some :
    (left v : ℕ) (row : ℕ → Entry) (vpn asid way : ℕ)
    → find_way left v row vpn asid ≡ some way
    → (v ≤ way) × (way < v + left) × (holds vpn asid (row way) ≡ true)
unfolding find_way
find_way-some zero v row vpn asid way e = absurd (cc)
find_way-some (suc left) v row vpn asid way e = elim (Bool-cases (holds vpn asid (row v))) [
  | inl on ↦
      let first : find_way (suc left) v row vpn asid ≡ some v = rw on refl in
      let same : v ≡ way = cc in
      (omega (arith, same), omega (arith, same), ap (λ q. holds vpn asid (row q)) (sym same) ∙ on)
  | inr off ↦
      let later : find_way (suc left) v row vpn asid ≡ find_way left (v + 1) row vpn asid =
        rw off refl in
      let (low, high, on) = find_way-some left (v + 1) row vpn asid way (sym later ∙ e) in
      (omega (arith, low), omega (arith, high), on)
]

pub find_way-none :
    (left v : ℕ) (row : ℕ → Entry) (vpn asid way : ℕ)
    → find_way left v row vpn asid ≡ none
    → v ≤ way
    → way < v + left
    → holds vpn asid (row way) ≡ false
unfolding find_way
find_way-none zero v row vpn asid way e low high = absurd (omega arith)
find_way-none (suc left) v row vpn asid way e low high =
    elim (Bool-cases (holds vpn asid (row v))) [
      | inl on ↦ let first : find_way (suc left) v row vpn asid ≡ some v = rw on refl in absurd (cc)
      | inr off ↦
          let later : find_way (suc left) v row vpn asid ≡ find_way left (v + 1) row vpn asid =
            rw off refl in
          elim (Bool-cases (way == v)) [
            | inl here ↦ ap (λ q. holds vpn asid (row q)) ((==_iff way v).0 here) ∙ off
            | inr other ↦
                find_way-none left (v + 1) row vpn asid way (sym later ∙ e) (ground arith)
                  (omega (arith, high))
          ]
    ]

-- The way that alone holds the page is found.
pub find_way_only :
    (left v : ℕ) (row : ℕ → Entry) (vpn asid way : ℕ)
    → holds vpn asid (row way) ≡ true
    → ((q : ℕ) → v ≤ q → q < way → holds vpn asid (row q) ≡ false)
    → v ≤ way
    → way < v + left
    → find_way left v row vpn asid ≡ some way
unfolding find_way
find_way_only zero v row vpn asid way on before low high = absurd (omega arith)
find_way_only (suc left) v row vpn asid way on before low high = elim (Bool-cases (way == v)) [
  | inl here ↦
      let same = (==_iff way v).0 here in
      rw (ap (λ q. holds vpn asid (row q)) (sym same) ∙ on) (ap some (sym same))
  | inr other ↦
      let above : v < way = ground arith in
      rw (before v (omega arith) above) (
        find_way_only left (v + 1) row vpn asid way on (λ q a b. before q (omega (arith, a)) b)
          (omega (arith, above)) (omega (arith, high)))
]

module _ {M : Type 0} (mode : PagingMode) (below : BackingMemory M) (va sstatus : ℕ)
    (priv : PrivilegeLevel) (op : AccessOp) where
  -- A walk finds only what grants the access.
  walk_from-granted :
      (levels number : ℕ) (m : M) (phys pte_addr raw : ℕ)
      → (walk_from mode below va sstatus priv op levels number m).0
        ≡ WalkResult.found phys pte_addr raw
      → check_permissions (flags_of raw) sstatus priv op ≡ true
  unfolding walk_from
  walk_from-granted zero number m phys pte_addr raw e = absurd (cc)
  walk_from-granted (suc lvl) number m phys pte_addr raw e =
      let address = pte_address mode va lvl number in
      let entry =
        join_bytes (raw_bytes mode)
          (below.read m AccessEffects.regular address (raw_bytes mode)).0 in
      let m' = (below.read m AccessEffects.regular address (raw_bytes mode)).1 in
      let call = (walk_from mode below va sstatus priv op (suc lvl) number m).0 in
      let fault = WalkResult.page_fault (get_current_cause op) in
      elim (Bool-cases (is_valid entry)) [
        | inl valid ↦ elim (Bool-cases (is_leaf entry)) [
          | inl end ↦
              let step : call ≡ at_leaf mode below va sstatus priv op entry address lvl =
                rw (valid, end) refl in
              let (granted, place, where_, what) =
                at_leaf-found mode below va sstatus priv op entry address lvl phys pte_addr raw
                  (sym step ∙ e) in
              ap (λ q. check_permissions (flags_of q) sstatus priv op) what ∙ granted.1
          | inr inner ↦ elim (Bool-cases (r entry || w entry || x entry)) [
            | inl odd ↦ let step : call ≡ fault = rw (valid, inner, odd) refl in absurd (cc)
            | inr pointer ↦
                let step : call
                    ≡ (walk_from mode below va sstatus priv op lvl (ppn mode entry) m').0 =
                  rw (valid, inner, pointer) refl in
                walk_from-granted lvl (ppn mode entry) m' phys pte_addr raw (sym step ∙ e)
          ]
        ]
        | inr invalid ↦ let step : call ≡ fault = rw invalid refl in absurd (cc)
      ]

  pub walk-granted :
      (satp : ℕ) (m : M) (phys pte_addr raw : ℕ)
      → (walk mode below va sstatus priv op satp m).0 ≡ WalkResult.found phys pte_addr raw
      → check_permissions (flags_of raw) sstatus priv op ≡ true
  unfolding walk
  walk-granted satp m phys pte_addr raw e = elim (Bool-cases (is_satp_mode mode satp)) [
    | inl on ↦
        let step : (walk mode below va sstatus priv op satp m).0
            ≡ (walk_from mode below va sstatus priv op (max_level_idx mode + 1)
                (satp % 2 ^ ppn_bits mode) m).0 =
          rw on refl in
        walk_from-granted (max_level_idx mode + 1) (satp % 2 ^ ppn_bits mode) m phys pte_addr raw
          (sym step ∙ e)
    | inr off ↦
        let step : (walk mode below va sstatus priv op satp m).0 ≡ WalkResult.bare va =
          rw off refl in
        absurd (cc)
  ]

pub set_entry_here :
    (table : ℕ → ℕ → Entry) (set way : ℕ) (e : Entry) → set_entry table set way e set way ≡ e
set_entry_here table set way e = rw ((==_iff set set).1 refl, (==_iff way way).1 refl) refl

pub set_entry_other :
    (table : ℕ → ℕ → Entry) (set way q : ℕ) (e : Entry)
    → (q == way) ≡ false
    → set_entry table set way e set q ≡ table set q
set_entry_other table set way q e other = rw (other, and_false (set == set)) refl

pub walk_cases :
    (result : WalkResult)
    → ((phys : ℕ) × (pte_addr : ℕ) × (leaf_pte : ℕ) × (result
          ≡ WalkResult.found phys pte_addr leaf_pte))
      ⊎ ((cause : ExceptionCause) × (result ≡ WalkResult.page_fault cause))
      ⊎ ((phys : ℕ) × (result ≡ WalkResult.bare phys))
walk_cases (WalkResult.found phys pte_addr leaf_pte) = inl (phys, pte_addr, leaf_pte, refl)
walk_cases (WalkResult.page_fault cause) = inr (inl (cause, refl))
walk_cases (WalkResult.bare phys) = inr (inr (phys, refl))
