-- ===== src/Tlb/Storage/Fence.antt =====
-- A fence takes out the entries that it names, and no others.
use qtrvsim.Base.{
  ℕ, ◌/◌, ◌%◌, ◌^◌, ◌<◌, ◌≡◌, refl, sym, ap, ◌∙◌, Bool, true, false, ◌&&◌, ◌||◌, inl, inr, lt→ltb,
  ◌==◌, ==_iff, Bool-cases, if◌then◌else◌, arith,
}
use native.Mathlib.Nat.{mod-eq_of_lt}
use qtrvsim.Cache.Storage.Relation.{and-true}
use qtrvsim.Tlb.Storage.{
  Entry, TlbConfig, Tlb, set_index, invalid, flush_where, flush_single, flush_all_entries,
  flush_by_asid, flush_by_vpn, sfence_vma,
}

-- The entries that a fence names: 0 stands for every address, and for every number of a space.
abbrev pub is_fenced : ℕ → ℕ → Entry → Bool
is_fenced vaddr asid e = (vaddr == 0 || e.vpn == vaddr / 2 ^ 12) && (asid == 0 || e.asid == asid)

and_true : (a : Bool) → a ≡ (a && true)
and_true true = refl
and_true false = refl

three_tests : (a b c z : Bool) → z ≡ false → (a && b && (c || z)) ≡ (a && (b && c))
three_tests true true true z off = refl
three_tests true true false z off = off
three_tests true false c z off = refl
three_tests false b c z off = refl

module _ {M P : Type 0} (config : TlbConfig) where
  -- A valid entry stands in the set of its page.
  abbrev pub IsIndexed : Tlb M P → Type 0
  IsIndexed s =
      (set way : ℕ) → (s.table set way).valid ≡ true → set_index config (s.table set way).vpn ≡ set

  flush_where-table :
      (test : Entry → Bool) (s : Tlb M P) (set way : ℕ)
      → set < config.num_sets
      → way < config.associativity
      → let e = s.table set way in
        (flush_where config test s).table set way ≡ (if e.valid && test e then invalid e else e)
  unfolding flush_where
  flush_where-table test s set way in_set in_way = rw (lt→ltb _ _ in_set, lt→ltb _ _ in_way) refl

  flush_all_entries-table :
      (s : Tlb M P) (set way : ℕ)
      → set < config.num_sets
      → way < config.associativity
      → let e = s.table set way in
        (flush_all_entries config s).table set way ≡ (if e.valid then invalid e else e)
  unfolding flush_all_entries
  flush_all_entries-table s set way in_set in_way =
      let sets : (config.num_sets == 0 || config.associativity == 0) ≡ false = ground arith in
      rw (sets, lt→ltb _ _ in_set, lt→ltb _ _ in_way) refl

  -- In the set of another page no entry is valid with this one.
  flush_single-table :
      (s : Tlb M P) (va asid set way : ℕ)
      → IsIndexed s
      → way < config.associativity
      → let e = s.table set way in
        (flush_single config va asid s).table set way ≡ (
          if e.valid && e.vpn == va / 2 ^ 12 && (e.asid == asid || asid == 0) then invalid e else e)
  unfolding flush_single
  flush_single-table s va asid set way indexed in_way =
      elim (Bool-cases (set == set_index config (va / 2 ^ 12))) [
        | inl here ↦ rw (here, lt→ltb _ _ in_way) refl
        | inr elsewhere ↦
            let off : ((s.table set way).valid && (s.table set way).vpn == va / 2 ^ 12) ≡ false =
              elim (Bool-cases ((s.table set way).valid && (s.table set way).vpn == va / 2 ^ 12)) [
                | inl on ↦
                    let (valid, page) = and-true _ _ on in
                    let same =
                      sym (indexed set way valid) ∙ ap (set_index config) ((==_iff _ _).0 page) in
                    cc ((==_iff _ _).1 same)
                | inr e ↦ e
              ] in
            rw (elsewhere, off) refl
      ]

  -- A fence with an address and the number of a space, below 2 ^ 16, makes invalid the entries of the page
  -- and of the space that it names, where 0 names all, and leaves the others as they are: in a table in which
  -- the valid entries stand in their sets.
  pub sfence_vma-table :
      (s : Tlb M P) (vaddr asid set way : ℕ)
      → IsIndexed s
      → asid < 2 ^ 16
      → set < config.num_sets
      → way < config.associativity
      → let e = s.table set way in
        (sfence_vma config vaddr asid s).table set way
        ≡ (if e.valid && is_fenced vaddr asid e then invalid e else e)
  unfolding sfence_vma flush_by_asid flush_by_vpn
  sfence_vma-table s vaddr asid set way indexed small in_set in_way =
      let e = s.table set way in
      let cut : asid % 2 ^ 16 ≡ asid = mod-eq_of_lt small in
      elim (Bool-cases (vaddr == 0)) [
        | inl all_pages ↦ elim (Bool-cases (asid == 0)) [
          | inl all_spaces ↦
              rw (all_pages, all_spaces)
                (flush_all_entries-table s set way in_set in_way
                  ∙ ap (λ b. if b then invalid e else e) (and_true _))
          | inr space ↦
              rw (all_pages, space, cut)
                (flush_where-table _ s set way in_set in_way
                  ∙ ap (λ b. if b then invalid e else e) refl)
        ]
        | inr page ↦ elim (Bool-cases (asid == 0)) [
          | inl all_spaces ↦
              rw (page, all_spaces)
                (flush_where-table _ s set way in_set in_way
                  ∙ ap (λ b. if b then invalid e else e) (ap (λ b. e.valid && b) (and_true _)))
          | inr space ↦
              rw (page, space, cut)
                (flush_single-table s vaddr asid set way indexed in_way
                  ∙ ap (λ b. if b then invalid e else e)
                      (three_tests e.valid (e.vpn == vaddr / 2 ^ 12) (e.asid == asid) (asid == 0)
                        space))
        ]
      ]
