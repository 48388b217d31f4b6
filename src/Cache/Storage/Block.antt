-- ===== src/Cache/Storage/Block.antt =====
-- An access to one block reads the bytes that the client sees, or changes them as it should.
use qtrvsim.Base.{
  ℕ, ◌+◌, ◌-◌, ◌^◌, ◌≤◌, ◌<◌, ◌≡◌, refl, sym, ap, ap₂, ◌∙◌, true, false, not, ◌&&◌, inl, inr, leb,
  ltb, lt→ltb, leb→le, ltb→lt, Bool-cases, if◌then◌else◌, arith,
}
use mathlib.Core.Path.{subst}
use qtrvsim.Cache.Location.{
  CacheConfig, WritePolicy, IsSized, compute_location, block_bytes, block_start, offset, row-lt,
  block_start-compute_location, same_block, is_back, is_noalloc,
}
use qtrvsim.Cache.Storage.{
  AccessType, BackingMemory, CachePolicy, Cache, set_line, find_block_index, place, fill, differs,
  transfer, access_block,
}
use qtrvsim.Cache.Storage.Relation.{
  MemoryLaws, and-true, IsOutside, IsBacked, Table, row_of, tag_of, IsHit, IsHit-same_block, lookup,
}
use qtrvsim.Cache.Storage.Kick.{overwritten}
use qtrvsim.Cache.Storage.Transfer.{
  and_false, differs_none, IsStored, dirtied, store-IsCoherent, store-IsBacked, skip-IsCoherent,
  through-IsBacked,
}
use qtrvsim.Cache.Storage.Access.{Holds, place-Holds, fill-Holds}

not_back : (p : WritePolicy) → is_noalloc p ≡ true → is_back p ≡ false
not_back WritePolicy.wp_through_noalloc e = refl
not_back WritePolicy.wp_through_alloc e = cc
not_back WritePolicy.wp_back e = cc

-- Up to where a write leaves the memory below to be written: with writing back it leaves nothing.
abbrev pub settled : CacheConfig → ℕ → ℕ → ℕ
settled config to end = if is_back config.write_policy then to else end

module _ (config : CacheConfig) (sized : IsSized config) where
  behind :
      (a from to : ℕ)
      → ((x : ℕ) → block_start config (tag_of config a) (row_of config a) ≤ x → IsOutside from to x)
      → (x : ℕ) → a ≤ x
      → IsOutside from to x
  behind a from to free x above =
      let at = block_start-compute_location config sized a in free x (omega (arith, at, above))

  pub settled_back : (to end : ℕ) → is_back config.write_policy ≡ true → settled config to end ≡ to
  settled_back to end e = rw e refl

  pub settled_through :
      (to end : ℕ) → is_back config.write_policy ≡ false → settled config to end ≡ end
  settled_through to end e = rw e refl

  -- The place of a later byte of the same block.
  later_byte :
      (a i : ℕ)
      → offset (compute_location config a) + i < block_bytes config
      → (row_of config (a + i) ≡ row_of config a)
        × (tag_of config (a + i) ≡ tag_of config a)
        × (offset (compute_location config (a + i)) ≡ offset (compute_location config a) + i)
  later_byte a i inside =
      let at = block_start-compute_location config sized a in
      let here = block_start-compute_location config sized (a + i) in
      let (tags, rows) =
        same_block config sized (tag_of config a) (row_of config a) (a + i) (row-lt config sized a)
          (omega (arith, at)) (omega (arith, at, inside)) in
      let start : block_start config (tag_of config (a + i)) (row_of config (a + i))
          ≡ block_start config (tag_of config a) (row_of config a) =
        ap₂ (block_start config) tags rows in
      (rows, tags, omega (arith, at, here, start))

  -- The bytes that the transfer leaves in the line.
  transfer-IsStored :
      (old buffer : ℕ → ℕ) (a n : ℕ)
      → let o = offset (compute_location config a) in
        IsStored config sized
          (if differs n (λ i. old (o + i)) buffer
            then (λ i. if leb o i && ltb i (o + n) then buffer (i - o) else old i)
            else old)
          old
          a
          buffer
          n
  transfer-IsStored old buffer a n i =
      let o = offset (compute_location config a) in
      elim (Bool-cases (differs n (λ j. old (o + j)) buffer)) [
        | inl changed ↦ rw changed refl
        | inr same ↦ rw same (elim (Bool-cases (leb o i && ltb i (o + n))) [
          | inl inside ↦
              let (low, high) = and-true _ _ inside in
              let above = leb→le o i low in
              let below = ltb→lt i (o + n) high in
              rw inside (
                ap old (omega (arith, above))
                ∙ differs_none n (λ j. old (o + j)) buffer same (i - o)
                    (omega (arith, above, below)))
          | inr outside ↦ rw outside refl
        ])
      ]

  module _ {M P : Type 0} (below : BackingMemory M) (laws : MemoryLaws below)
      (policy : CachePolicy P)
      (chooses : (p : P) (row : ℕ)
        → (policy.select_way_to_evict p row).0 < config.associativity) where
    -- What follows on the placing of the block, for each kind of access.
    placed_lem :
        (s : Cache M P) (view : ℕ → ℕ) (a from to : ℕ) (access_type : AccessType)
        → let loc = compute_location config a in
          let start = block_start config loc.tag loc.row in
          let (way, t) = place config below policy loc s in
          let u = fill config below policy way loc access_type t in
          Holds config sized below laws from to s.mem s.dt view
          → ((x : ℕ) → start ≤ x → IsOutside from to x)
          → start + block_bytes config ≤ 2 ^ 64
          → Holds config sized below laws from to u.mem u.dt view × IsHit config u.dt way a
    placed_lem s view a from to access_type h free fits =
        let loc = compute_location config a in
        let (way, t) = place config below policy loc s in
        let (kept, placed) =
          place-Holds config sized below laws policy s view a from to chooses h in
        fill-Holds config sized below laws policy t view way a from to access_type kept placed free
          fits

    pub block_read :
        (s : Cache M P) (view buffer : ℕ → ℕ) (a n from to : ℕ)
        → let loc = compute_location config a in
          let start = block_start config loc.tag loc.row in
          Holds config sized below laws from to s.mem s.dt view
          → ((x : ℕ) → start ≤ x → IsOutside from to x)
          → start + block_bytes config ≤ 2 ^ 64
          → offset loc + n ≤ block_bytes config
          → let (bytes, changed, t) =
              access_block config below policy a buffer n AccessType.read_access s in
            Holds config sized below laws from to t.mem t.dt view
            × ((i : ℕ) → i < n → bytes i ≡ view (a + i))
    unfolding access_block transfer
    block_read s view buffer a n from to h free fits within =
        let loc = compute_location config a in
        let (way, t) = place config below policy loc s in
        let (kept, hit) = placed_lem s view a from to AccessType.read_access h free fits in
        let u = fill config below policy way loc AccessType.read_access t in
        rw (and_false (not (ltb (find_block_index config s loc) config.associativity))) (
          kept,
          λ i small.
              let (rows, tags, later) = later_byte a i (omega (arith, small, within)) in
              rw (lt→ltb i n small) (
                rw (← later, ← rows) refl
                ∙ kept.coherent.cached way (a + i)
                    (IsHit-same_block config u.dt way a (a + i) (sym rows) (sym tags) hit)),
        )

    -- Where nothing is written back, the written bytes are still to go to the memory.
    through-settled :
        (mem : M) (dt t : Table) (view buffer : ℕ → ℕ) (a n from to : ℕ)
        → is_back config.write_policy ≡ false
        → ((x : ℕ)
            → block_start config (tag_of config a) (row_of config a) ≤ x
            → IsOutside from to x)
        → from ≤ a
        → IsBacked config from to (laws.byte mem) dt view
        → IsBacked config from
            (settled config to (a + n))
            (laws.byte mem)
            t
            (overwritten view a buffer n)
    through-settled mem dt t view buffer a n from to through free before backed =
        subst (λ z. IsBacked config from z (laws.byte mem) t (overwritten view a buffer n))
          (sym (settled_through to (a + n) through))
          (through-IsBacked config sized from to (laws.byte mem) dt t view buffer a n through before
            (behind a from to free) backed)

    store-Holds :
        (u : Cache M P) (view buffer : ℕ → ℕ) (way a n from to : ℕ)
        → let loc = compute_location config a in
          let start = block_start config loc.tag loc.row in
          Holds config sized below laws from to u.mem u.dt view
          → IsHit config u.dt way a
          → ((x : ℕ) → start ≤ x → IsOutside from to x)
          → from ≤ a
          → offset loc + n ≤ block_bytes config
          → let (first, changed, t) =
              transfer config below policy way loc buffer n AccessType.write_access u in
            Holds config sized below laws from
              (settled config to (a + n))
              t.mem
              t.dt
              (overwritten view a buffer n)
    unfolding transfer
    store-Holds u view buffer way a n from to h hit free before within =
        let loc = compute_location config a in
        let line = u.dt way loc.row in
        let data_bytes : ℕ → ℕ =
          if differs n (λ i. line.data_bytes (offset loc + i)) buffer
          then (λ i.
              if leb (offset loc) i && ltb i (offset loc + n)
              then buffer (i - offset loc)
              else line.data_bytes i)
          else line.data_bytes in
        record {
          sound = h.sound;
          coherent =
              store-IsCoherent config sized u.dt view buffer way a n data_bytes h.coherent hit
                (transfer-IsStored line.data_bytes buffer a n) within;
          backed = elim (Bool-cases (is_back config.write_policy)) [
            | inl back ↦
                subst
                  (λ z.
                    IsBacked config from z (laws.byte u.mem)
                      (set_line u.dt way loc.row (dirtied config sized line data_bytes))
                      (overwritten view a buffer n))
                  (sym (settled_back to (a + n) back))
                  (store-IsBacked config sized from to (laws.byte u.mem) u.dt view buffer way a n
                    data_bytes back h.backed hit within)
            | inr through ↦
                through-settled u.mem u.dt
                  (set_line u.dt way loc.row (dirtied config sized line data_bytes)) view buffer a n
                  from to through free before h.backed
          ];
        }

    pub block_write :
        (s : Cache M P) (view buffer : ℕ → ℕ) (a n from to : ℕ)
        → let loc = compute_location config a in
          let start = block_start config loc.tag loc.row in
          Holds config sized below laws from to s.mem s.dt view
          → ((x : ℕ) → start ≤ x → IsOutside from to x)
          → from ≤ a
          → start + block_bytes config ≤ 2 ^ 64
          → offset loc + n ≤ block_bytes config
          → let (first, changed, t) =
              access_block config below policy a buffer n AccessType.write_access s in
            Holds config sized below laws from
              (settled config to (a + n))
              t.mem
              t.dt
              (overwritten view a buffer n)
            × (first ≡ buffer)
    unfolding access_block transfer
    block_write s view buffer a n from to h free before fits within =
        let loc = compute_location config a in
        let (way, t) = place config below policy loc s in
        let u = fill config below policy way loc AccessType.write_access t in
        let (kept, hit) = placed_lem s view a from to AccessType.write_access h free fits in
        let stored = store-Holds u view buffer way a n from to kept hit free before within in
        elim (lookup config s a) [
          | inl found ↦ rw (lt→ltb _ _ found.0) (stored, refl)
          | inr (end, none) ↦
              let out : ltb (find_block_index config s loc) config.associativity ≡ false =
                ground arith in
              elim (Bool-cases (is_noalloc config.write_policy)) [
                | inl skips ↦
                    let through = not_back config.write_policy skips in
                    rw (out, skips)
                      (
                        record {
                          sound = h.sound;
                          coherent =
                              skip-IsCoherent config sized s.dt view buffer a n h.coherent none
                                within;
                          backed =
                              through-settled s.mem s.dt s.dt view buffer a n from to through free
                                before h.backed;
                        },
                        refl,
                      )
                | inr alloc ↦ rw (out, alloc) (stored, refl)
              ]
        ]
