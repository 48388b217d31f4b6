-- ===== src/Cache/Storage/Loop.antt =====
-- `Cache::access` over all the blocks of an access.
use qtrvsim.Base.{
  ℕ, zero, suc, ◌+◌, ◌-◌, ◌*◌, ◌%◌, ◌^◌, ◌≤◌, ◌<◌, ◌≡◌, refl, ap, ◌∙◌, true, false, ◌⊎◌, ◌&&◌, inl,
  inr, leb, ltb, ◌==◌, ==_iff, ltb→lt, Bool-cases, if◌then◌else◌, arith,
}
use mathlib.Core.Path.{subst, fun_ext}
use native.Mathlib.Nat.{mod-eq_of_lt}
use qtrvsim.Cache.Location.{
  CacheConfig, IsSized, compute_location, block_bytes, block_start, offset, offset-lt,
  block_start-compute_location, same_parts, is_back,
}
use qtrvsim.Cache.Storage.{
  AccessType, BackingMemory, CachePolicy, Cache, calculate_overflow_to_next_blocks, access_block,
  access,
}
use qtrvsim.Cache.Storage.Relation.{MemoryLaws, IsOutside, row_of, tag_of}
use qtrvsim.Cache.Storage.Kick.{overwritten}
use qtrvsim.Cache.Storage.Access.{Holds}
use qtrvsim.Cache.Storage.Block.{settled, settled_back, settled_through, block_read, block_write}

-- Two writes, one behind the other, are one.
overwritten_twice :
    (view buffer : ℕ → ℕ) (a k over x : ℕ)
    → overwritten (overwritten view a buffer k) (a + k) (λ i. buffer (i + k)) over x
      ≡ overwritten view a buffer (k + over) x
overwritten_twice view buffer a k over x = elim (Bool-cases (leb (a + k) x)) [
  | inl behind ↦
      let place : leb a x && ltb x (a + k) ≡ false = ground arith in
      let low : leb a x ≡ true = ground arith in
      let high : ltb x (a + k + over) ≡ ltb x (a + (k + over)) = ground arith in
      let far : x - (a + k) + k ≡ x - a = ground arith in rw (behind, place, low, high, far) refl
  | inr before ↦
      let high : ltb x (a + k) ≡ true = ground arith in
      let all : ltb x (a + (k + over)) ≡ true = ground arith in rw (before, high, all) refl
]

join_bytes :
    (first rest view : ℕ → ℕ) (a k over i : ℕ)
    → ((j : ℕ) → j < k → first j ≡ view (a + j))
    → ((j : ℕ) → j < over → rest j ≡ view (a + k + j))
    → i < k + over
    → (if ltb i k then first i else rest (i - k)) ≡ view (a + i)
join_bytes first rest view a k over i low high inside = elim (Bool-cases (ltb i k)) [
  | inl below ↦ rw below (low i (ltb→lt i k below))
  | inr behind ↦
      let place : k ≤ i = ground arith in
      rw behind (high (i - k) (omega (arith, inside, place)) ∙ ap view (omega (arith, place)))
]

module _ (config : CacheConfig) (sized : IsSized config) where
  -- The split of an access: a byte or more lies in the first block, and where some lie behind, the first
  -- block is full.
  split_lem :
      (a size : ℕ)
      → 0 < size
      → let loc = compute_location config a in
        let over = calculate_overflow_to_next_blocks config size loc in
        let within = size - over in
        (0 < within)
        × (within + over ≡ size)
        × (offset loc + within ≤ block_bytes config)
        × ((over ≡ 0) ⊎ ((0 < over) × (offset loc + within ≡ block_bytes config)))
  unfolding calculate_overflow_to_next_blocks
  split_lem a size some = let small = offset-lt config sized a in ground arith

  start_lem :
      (a : ℕ)
      → block_start config (tag_of config a) (row_of config a) + offset (compute_location config a)
        ≡ a
  start_lem a = block_start-compute_location config sized a

  -- Behind a full block the next one starts.
  next_start :
      (a within : ℕ)
      → offset (compute_location config a) + within ≡ block_bytes config
      → block_start config (tag_of config (a + within)) (row_of config (a + within)) ≡ a + within
  next_start a within full =
      let here = start_lem a in
      let there = start_lem (a + within) in
      let small = offset-lt config sized (a + within) in
      let q = tag_of config a * config.set_count + row_of config a in
      let q' = tag_of config (a + within) * config.set_count + row_of config (a + within) in
      let sum : q' * block_bytes config + offset (compute_location config (a + within))
          ≡ (q + 1) * block_bytes config + 0 =
        grind (arith, here, there, full) in
      let (same, zero_offset) =
        same_parts (block_bytes config) q' _ (q + 1) 0 small (omega (arith, small)) sum in
      omega (arith, there, zero_offset)

  module _ {M P : Type 0} (below : BackingMemory M) (laws : MemoryLaws below)
      (policy : CachePolicy P)
      (chooses : (p : P) (row : ℕ)
        → (policy.select_way_to_evict p row).0 < config.associativity) where
    pub access_read :
        (fuel : ℕ) (s : Cache M P) (view buffer : ℕ → ℕ) (a size from to : ℕ)
        → 0 < size
        → size ≤ fuel
        → Holds config sized below laws from to s.mem s.dt view
        → ((x : ℕ)
            → block_start config (tag_of config a) (row_of config a) ≤ x
            → IsOutside from to x)
        → a + size + block_bytes config ≤ 2 ^ 64
        → let (bytes, changed, t) =
            access config below policy fuel a buffer size AccessType.read_access s in
          Holds config sized below laws from to t.mem t.dt view
          × ((i : ℕ) → i < size → bytes i ≡ view (a + i))
    unfolding access
    access_read zero s view buffer a size from to some enough h free fits = absurd (omega arith)
    access_read (suc fuel) s view buffer a size from to some enough h free fits =
        let over = calculate_overflow_to_next_blocks config size (compute_location config a) in
        let within = size - over in
        let (bytes, changed, t) =
          access_block config below policy a buffer within AccessType.read_access s in
        let (part, sum, in_block, last) = split_lem a size some in
        let here = start_lem a in
        let (kept, read) =
          block_read config sized below laws policy chooses s view buffer a within from to h free
            (omega (arith, here, fits)) in_block in
        let more : (size == 0) ≡ false = ground arith in
        elim last [
          | inl end ↦
              rw (more, (==_iff over 0).1 end)
                (kept, λ i small. read i (omega (arith, sum, end, small)))
          | inr (rest, full) ↦
              let go_on : (over == 0) ≡ false = ground arith in
              let wrap : (a + within) % 2 ^ 64 ≡ a + within =
                mod-eq_of_lt (omega (arith, fits, sum, rest)) in
              let next = next_start a within full in
              let (kept', read') =
                access_read fuel t view (λ i. bytes (i + within)) (a + within) over from to rest
                  (omega (arith, enough, sum, part)) kept
                  (λ x above. free x (omega (arith, here, next, above)))
                  (omega (arith, fits, sum)) in
              rw (more, go_on, wrap)
                (
                  kept',
                  λ i small.
                      join_bytes bytes _ view a within over i read read'
                        (omega (arith, sum, small)),
                )
        ]

    -- What is left to be written to the memory after the first block.
    next-IsOutside :
        (a within from to x : ℕ)
        → ((y : ℕ)
            → block_start config (tag_of config a) (row_of config a) ≤ y
            → IsOutside from to y)
        → block_start config (tag_of config (a + within)) (row_of config (a + within)) ≡ a + within
        → block_start config (tag_of config (a + within)) (row_of config (a + within)) ≤ x
        → IsOutside from (settled config to (a + within)) x
    next-IsOutside a within from to x free next above =
        elim (Bool-cases (is_back config.write_policy)) [
          | inl back ↦
              rw (settled_back config sized to (a + within) back)
                (free x (omega (arith, start_lem a, next, above)))
          | inr through ↦
              rw (settled_through config sized to (a + within) through)
                (inr (omega (arith, next, above)))
        ]

    settled_twice :
        (to middle end : ℕ) → settled config (settled config to middle) end ≡ settled config to end
    settled_twice to middle end = elim (Bool-cases (is_back config.write_policy)) [
      | inl back ↦ rw back refl
      | inr through ↦ rw through refl
    ]

    pub access_write :
        (fuel : ℕ) (s : Cache M P) (view buffer : ℕ → ℕ) (a size from to : ℕ)
        → 0 < size
        → size ≤ fuel
        → Holds config sized below laws from to s.mem s.dt view
        → ((x : ℕ)
            → block_start config (tag_of config a) (row_of config a) ≤ x
            → IsOutside from to x)
        → from ≤ a
        → a + size + block_bytes config ≤ 2 ^ 64
        → let (bytes, changed, t) =
            access config below policy fuel a buffer size AccessType.write_access s in
          Holds config sized below laws from
            (settled config to (a + size))
            t.mem
            t.dt
            (overwritten view a buffer size)
    unfolding access
    access_write zero s view buffer a size from to some enough h free before fits =
        absurd (omega arith)
    access_write (suc fuel) s view buffer a size from to some enough h free before fits =
        let over = calculate_overflow_to_next_blocks config size (compute_location config a) in
        let within = size - over in
        let (bytes, changed, t) =
          access_block config below policy a buffer within AccessType.write_access s in
        let (part, sum, in_block, last) = split_lem a size some in
        let here = start_lem a in
        let (kept, same) =
          block_write config sized below laws policy chooses s view buffer a within from to h free
            before (omega (arith, here, fits)) in_block in
        let more : (size == 0) ≡ false = ground arith in
        elim last [
          | inl end ↦
              let whole : within ≡ size = omega (arith, sum, end) in
              rw (more, (==_iff over 0).1 end)
                (subst
                  (λ n.
                    Holds config sized below laws from (settled config to (a + n)) t.mem t.dt
                      (overwritten view a buffer n))
                  whole kept)
          | inr (rest, full) ↦
              let go_on : (over == 0) ≡ false = ground arith in
              let wrap : (a + within) % 2 ^ 64 ≡ a + within =
                mod-eq_of_lt (omega (arith, fits, sum, rest)) in
              let next = next_start a within full in
              let first = overwritten view a buffer within in
              let tail : ℕ → ℕ = λ i. bytes (i + within) in
              let (bytes', changed', u) =
                access config below policy fuel (a + within) tail over AccessType.write_access t in
              let kept' =
                access_write fuel t first tail (a + within) over from
                  (settled config to (a + within)) rest (omega (arith, enough, sum, part)) kept
                  (λ x above. next-IsOutside a within from to x free next above)
                  (omega (arith, before)) (omega (arith, fits, sum)) in
              let ends : settled config (settled config to (a + within)) (a + within + over)
                  ≡ settled config to (a + size) =
                settled_twice to (a + within) (a + within + over)
                ∙ ap (settled config to) (omega (arith, sum)) in
              let views : overwritten first (a + within) tail over
                  ≡ overwritten view a buffer size =
                fun_ext (λ x.
                  ap (λ f. overwritten first (a + within) (λ i. f (i + within)) over x) same
                  ∙ overwritten_twice view buffer a within over x
                  ∙ ap (λ n. overwritten view a buffer n x) sum) in
              rw (more, go_on, wrap)
                (subst
                  (λ n.
                    Holds config sized below laws from n u.mem u.dt
                      (overwritten view a buffer size))
                  ends
                  (subst
                    (λ v.
                      Holds config sized below laws from
                        (settled config (settled config to (a + within)) (a + within + over)) u.mem
                        u.dt v)
                    views kept'))
        ]
