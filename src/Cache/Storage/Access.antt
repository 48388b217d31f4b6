-- ===== src/Cache/Storage/Access.antt =====
-- The parts of `Cache::access` keep what relates the cache to the bytes that its client sees.
use qtrvsim.Base.{
  ℕ, ◌+◌, ◌*◌, ◌^◌, ◌≤◌, ◌<◌, ◌≡◌, refl, ap, ◌∙◌, true, false, ◌⊎◌, inl, inr, ltb, lt→ltb,
  Bool-cases, arith,
}
use native.Mathlib.Nat.{mod-eq_of_lt}
use qtrvsim.Cache.Location.{
  CacheConfig, IsSized, compute_location, calc_base_address, block_bytes, block_start, row-lt,
  same_block,
}
use qtrvsim.Cache.Storage.{
  AccessType, AccessEffects, BackingMemory, CachePolicy, CacheLine, Cache, set_line,
  find_block_index, write_back, kick, place, read_block, fill,
}
use qtrvsim.Cache.Storage.Relation.{
  MemoryLaws, and-true, set_line_cases, IsOutside, Table, row_of, tag_of, line_at, IsHit-same_block,
  IsHit, is_pending, IsCoherent, IsBacked, lookup,
}
use qtrvsim.Cache.Storage.Kick.{dropped, overwritten, dropped-IsHit, drop-IsCoherent, drop-IsBacked}
use qtrvsim.Cache.Storage.Fill.{filled, fill-IsCoherent, fill-IsBacked}

module _ (config : CacheConfig) (sized : IsSized config) {M : Type 0} (below : BackingMemory M)
    (laws : MemoryLaws below) where
  -- The memory below and the table together hold the bytes `view`.
  pub record Holds (from to : ℕ) (mem : M) (dt : Table) (view : ℕ → ℕ) : Type 0 where
    pub sound : laws.IsSound mem
    pub coherent : IsCoherent config dt view
    pub backed : IsBacked config from to (laws.byte mem) dt view

  base_lem :
      (tag row : ℕ)
      → block_start config tag row + block_bytes config ≤ 2 ^ 64
      → calc_base_address config tag row ≡ block_start config tag row
  unfolding calc_base_address
  base_lem tag row fits =
      let start : (tag * config.set_count + row) * config.block_size * 4
          ≡ block_start config tag row =
        grind arith in
      rw start (mod-eq_of_lt (omega (arith, fits, sized.1)))

  module _ {P : Type 0} (policy : CachePolicy P) where
    pub kick-dt :
        (s : Cache M P) (way row : ℕ)
        → (kick config below policy way row s).dt ≡ set_line s.dt way row (dropped (s.dt way row))
    unfolding kick write_back
    kick-dt s way row = elim (Bool-cases (is_pending config (s.dt way row))) [
      | inl pending ↦ rw pending refl
      | inr quiet ↦ rw quiet refl
    ]

    pub kick-written :
        (s : Cache M P) (way row : ℕ)
        → is_pending config (s.dt way row) ≡ true
        → let line = s.dt way row in
          (kick config below policy way row s).mem
          ≡ (below.write s.mem AccessEffects.regular
              (calc_base_address config line.tag row)
              line.data_bytes
              (block_bytes config)).1
    unfolding kick write_back
    kick-written s way row pending = rw pending refl

    kick-kept :
        (s : Cache M P) (way row : ℕ)
        → is_pending config (s.dt way row) ≡ false
        → (kick config below policy way row s).mem ≡ s.mem
    unfolding kick write_back
    kick-kept s way row quiet = rw quiet refl

    pub kick-Holds :
        (s : Cache M P) (view : ℕ → ℕ) (way row from to : ℕ)
        → way < config.associativity
        → row < config.set_count
        → Holds from to s.mem s.dt view
        → let t = kick config below policy way row s in Holds from to t.mem t.dt view
    kick-Holds s view way row from to in_way in_row h =
        let line = s.dt way row in
        let coherent = drop-IsCoherent config s.dt view way row h.coherent in
        let backed : (byte' : ℕ → ℕ)
            → (is_pending config line ≡ true
                → (x : ℕ)
                → byte' x
                  ≡ overwritten (laws.byte s.mem) (block_start config line.tag row) line.data_bytes
                      (block_bytes config) x)
            → (is_pending config line ≡ false → (x : ℕ) → byte' x ≡ laws.byte s.mem x)
            → IsBacked config from to byte' (set_line s.dt way row (dropped line)) view =
          λ byte' wrote kept.
            drop-IsBacked config sized (laws.byte s.mem) byte' s.dt view way row from to in_way
              in_row h.coherent h.backed wrote kept in
        elim (Bool-cases (is_pending config line)) [
          | inl pending ↦
              let fits =
                h.coherent.bounded way row in_way in_row
                  (h.coherent.valid_of_dirty way row in_way in_row (and-true _ _ pending).0) in
              rw (kick-dt s way row, kick-written s way row pending, base_lem line.tag row fits)
                (record {
                  sound = laws.write-IsSound s.mem _ _ _ _ h.sound fits;
                  coherent = coherent;
                  backed =
                      backed _ (λ on x. laws.byte-write s.mem _ _ _ _ x h.sound fits)
                        (λ off. absurd cc);
                })
          | inr quiet ↦
              rw (kick-dt s way row, kick-kept s way row quiet)
                (record {
                  sound = h.sound;
                  coherent = coherent;
                  backed = backed _ (λ on. absurd cc) (λ off x. refl);
                })
        ]

    -- The way of the block, or a way that was emptied as no way holds it.
    abbrev pub IsPlaced : Table → ℕ → ℕ → Type 0
    IsPlaced dt way a =
        IsHit config dt way a
        ⊎ ((way < config.associativity)
            × ((line_at config dt way a).valid ≡ false)
            × ((w : ℕ) → ¬ (IsHit config dt w a)))

    pub set_line_here :
        (dt : Table) (way row : ℕ) (line : CacheLine) → set_line dt way row line way row ≡ line
    set_line_here dt way row line = elim (set_line_cases dt way row line way row) [
      | inl (i, j, e) ↦ e
      | inr (other, e) ↦ absurd (other refl refl)
    ]

    pub place-Holds :
        (s : Cache M P) (view : ℕ → ℕ) (a from to : ℕ)
        → ((p : P) (row : ℕ) → (policy.select_way_to_evict p row).0 < config.associativity)
        → Holds from to s.mem s.dt view
        → let (way, t) = place config below policy (compute_location config a) s in
          Holds from to t.mem t.dt view × IsPlaced t.dt way a
    unfolding place
    place-Holds s view a from to chooses h =
        let loc = compute_location config a in
        elim (lookup config s a) [
          | inl hit ↦ rw (lt→ltb _ _ hit.0) (h, inl hit)
          | inr (end, none) ↦
              let victim = (policy.select_way_to_evict s.policy loc.row).0 in
              let t = record s { policy = (policy.select_way_to_evict s.policy loc.row).1 } in
              let out : ltb (find_block_index config s loc) config.associativity ≡ false =
                ground arith in
              let inside = chooses s.policy loc.row in
              let table = kick-dt t victim loc.row in
              rw out (
                kick-Holds t view victim loc.row from to inside (row-lt config sized a) h,
                inr (
                  inside,
                  rw table (
                      ap (λ l. l.valid)
                        (set_line_here s.dt victim loc.row (dropped (s.dt victim loc.row)))),
                  rw table (λ w hit. none w (dropped-IsHit config s.dt victim loc.row w a hit).0),
                ),
              )
        ]

    -- The bytes of a block that no way holds are those of the memory.
    missed_bytes :
        (mem : M) (dt : Table) (view : ℕ → ℕ) (a from to i : ℕ)
        → let start = block_start config (tag_of config a) (row_of config a) in
          Holds from to mem dt view
          → ((w : ℕ) → ¬ (IsHit config dt w a))
          → ((x : ℕ) → start ≤ x → IsOutside from to x)
          → i < block_bytes config
          → laws.byte mem (start + i) ≡ view (start + i)
    missed_bytes mem dt view a from to i h none free inside =
        let start = block_start config (tag_of config a) (row_of config a) in
        let (tags, rows) =
          same_block config sized (tag_of config a) (row_of config a) (start + i)
            (row-lt config sized a) (omega arith) (omega (arith, inside)) in
        h.backed (start + i) (free _ (omega arith))
          (λ w hit. absurd (none w (IsHit-same_block config dt w (start + i) a rows tags hit)))

    fill-full :
        (s : Cache M P) (way a : ℕ) (access_type : AccessType)
        → (line_at config s.dt way a).valid ≡ true
        → let t = fill config below policy way (compute_location config a) access_type s in
          (t.mem ≡ s.mem) × (t.dt ≡ s.dt)
    unfolding fill
    fill-full s way a access_type valid = rw valid (refl, refl)

    fill-empty :
        (s : Cache M P) (way a : ℕ) (access_type : AccessType)
        → (line_at config s.dt way a).valid ≡ false
        → let loc = compute_location config a in
          let (bytes, mem) =
            below.read s.mem AccessEffects.regular
              (calc_base_address config loc.tag loc.row)
              (block_bytes config) in
          let t = fill config below policy way loc access_type s in
          (t.mem ≡ mem) × (t.dt ≡ set_line s.dt way loc.row (filled loc.tag bytes))
    unfolding fill read_block
    fill-empty s way a access_type empty = rw empty (refl, refl)

    pub fill-Holds :
        (s : Cache M P) (view : ℕ → ℕ) (way a from to : ℕ) (access_type : AccessType)
        → let loc = compute_location config a in
          let start = block_start config loc.tag loc.row in
          Holds from to s.mem s.dt view
          → IsPlaced s.dt way a
          → ((x : ℕ) → start ≤ x → IsOutside from to x)
          → start + block_bytes config ≤ 2 ^ 64
          → let t = fill config below policy way loc access_type s in
            Holds from to t.mem t.dt view × IsHit config t.dt way a
    fill-Holds s view way a from to access_type h placed free fits = elim placed [
      | inl hit ↦ let (mem, dt) = fill-full s way a access_type hit.1 in rw (mem, dt) (h, hit)
      | inr (inside, empty, none) ↦
          let loc = compute_location config a in
          let start = block_start config loc.tag loc.row in
          let base = base_lem loc.tag loc.row fits in
          let (mem, dt) = fill-empty s way a access_type empty in
          let bytes = (below.read s.mem AccessEffects.regular start (block_bytes config)).0 in
          let here = set_line_here s.dt way loc.row (filled loc.tag bytes) in
          rw (mem, dt, base)
            (
              record {
                sound = laws.read-IsSound s.mem _ _ _ h.sound fits;
                coherent =
                    fill-IsCoherent config sized s.dt view way a bytes h.coherent none
                      (λ i small.
                        laws.read-byte s.mem _ _ _ i h.sound fits small
                        ∙ missed_bytes s.mem s.dt view a from to i h none free small)
                      fits;
                backed = λ x out clean.
                    laws.byte-read s.mem _ _ _ x h.sound fits
                    ∙ fill-IsBacked config sized from to (laws.byte s.mem) s.dt view way a bytes
                        h.backed empty x out clean;
              },
              (inside, ap (λ l. l.valid) here, ap (λ l. l.tag) here),
            )
    ]
