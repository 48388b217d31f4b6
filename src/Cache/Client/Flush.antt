-- ===== src/Cache/Client/Flush.antt =====
-- A flush empties the cache into the memory below.
use qtrvsim.Base.{
  ℕ, zero, suc, ◌+◌, ◌≤◌, ◌<◌, ◌≡◌, refl, ap, ◌∙◌, true, false, inl, inr, ◌==◌, ==_iff, Bool-cases,
  if◌then◌else◌, arith,
}
use qtrvsim.Cache.Location.{CacheConfig, IsSized, compute_location, row-lt}
use qtrvsim.Cache.Storage.{BackingMemory, CachePolicy, Cache, kick}
use qtrvsim.Cache.Storage.Relation.{MemoryLaws, set_line_cases}
use qtrvsim.Cache.Storage.Kick.{dropped}
use qtrvsim.Cache.Storage.Access.{kick-dt, kick-Holds, set_line_here}
use qtrvsim.Cache.Client.{flush_rows, flush_ways, flush}
use qtrvsim.Cache.Client.View.{IsView}

module _ {M P : Type 0} (config : CacheConfig) (sized : IsSized config) (below : BackingMemory M)
    (laws : MemoryLaws below) (policy : CachePolicy P)
    (chooses : (p : P) (row : ℕ)
      → (policy.select_way_to_evict p row).0 < config.associativity) where
  abbrev visit : ℕ → ℕ → Cache M P → Cache M P
  visit way row s = if (s.dt way row).valid then kick config below policy way row s else s

  -- A visit to a line empties it and fills none.
  visit_lem :
      (s : Cache M P) (view : ℕ → ℕ) (way row : ℕ)
      → way < config.associativity
      → row < config.set_count
      → IsView config sized below laws policy chooses s view
      → let t = visit way row s in
        IsView config sized below laws policy chooses t view
        × ((t.dt way row).valid ≡ false)
        × ((w r : ℕ) → (s.dt w r).valid ≡ false → (t.dt w r).valid ≡ false)
  visit_lem s view way row in_way in_row h =
      let gone = kick-dt config sized below laws policy s way row in
      elim (Bool-cases (s.dt way row).valid) [
        | inl full ↦ rw full (
          kick-Holds config sized below laws policy s view way row 0 0 in_way in_row h,
          rw gone (
              ap (λ l. l.valid)
                (set_line_here config sized below laws policy s.dt way row
                  (dropped (s.dt way row)))),
          λ w r empty. rw gone (elim (set_line_cases s.dt way row (dropped (s.dt way row)) w r) [
            | inl (i, j, e) ↦ ap (λ l. l.valid) e
            | inr (other, e) ↦ ap (λ l. l.valid) e ∙ empty
          ]),
        )
        | inr empty ↦ rw empty (h, empty, λ w r e. e)
      ]

  flush_rows_lem :
      (left row way : ℕ) (s : Cache M P) (view : ℕ → ℕ)
      → way < config.associativity
      → row + left ≤ config.set_count
      → IsView config sized below laws policy chooses s view
      → let t = flush_rows config below policy left row way s in
        IsView config sized below laws policy chooses t view
        × ((r : ℕ) → row ≤ r → r < row + left → (t.dt way r).valid ≡ false)
        × ((w r : ℕ) → (s.dt w r).valid ≡ false → (t.dt w r).valid ≡ false)
  unfolding flush_rows
  flush_rows_lem zero row way s view in_way fits h =
      (h, λ r low high. absurd (omega arith), λ w r e. e)
  flush_rows_lem (suc left) row way s view in_way fits h =
      let (kept, here, fewer) = visit_lem s view way row in_way (omega (arith, fits)) h in
      let (kept', empty, fewer') =
        flush_rows_lem left (row + 1) way (visit way row s) view in_way (omega (arith, fits))
          kept in
      (
        kept',
        λ r low high. elim (Bool-cases (r == row)) [
          | inl e ↦
              let same = (==_iff r row).0 e in
              fewer' way r (ap (λ q. ((visit way row s).dt way q).valid) same ∙ here)
          | inr other ↦ empty r (ground arith) (omega (arith, high))
        ],
        λ w r e. fewer' w r (fewer w r e),
      )

  flush_ways_lem :
      (left way : ℕ) (s : Cache M P) (view : ℕ → ℕ)
      → way + left ≤ config.associativity
      → IsView config sized below laws policy chooses s view
      → let t = flush_ways config below policy left way s in
        IsView config sized below laws policy chooses t view
        × ((w r : ℕ) → way ≤ w → w < way + left → r < config.set_count → (t.dt w r).valid ≡ false)
        × ((w r : ℕ) → (s.dt w r).valid ≡ false → (t.dt w r).valid ≡ false)
  unfolding flush_ways
  flush_ways_lem zero way s view fits h =
      (h, λ w r low high in_row. absurd (omega arith), λ w r e. e)
  flush_ways_lem (suc left) way s view fits h =
      let (kept, here, fewer) =
        flush_rows_lem config.set_count 0 way s view (omega (arith, fits)) (omega arith) h in
      let (kept', empty, fewer') =
        flush_ways_lem left (way + 1) (flush_rows config below policy config.set_count 0 way s) view
          (omega (arith, fits)) kept in
      (
        kept',
        λ w r low high in_row. elim (Bool-cases (w == way)) [
          | inl e ↦
              let same = (==_iff w way).0 e in
              fewer' w r (
                ap (λ v. ((flush_rows config below policy config.set_count 0 way s).dt v r).valid)
                  same
                ∙ here r (omega arith) (omega (arith, in_row)))
          | inr other ↦ empty w r (ground arith) (omega (arith, high)) in_row
        ],
        λ w r e. fewer' w r (fewer w r e),
      )

  flush_on :
      (s : Cache M P)
      → config.enabled ≡ true
      → let t = flush_ways config below policy config.associativity 0 s in
        ((flush config below policy s).mem ≡ t.mem) × ((flush config below policy s).dt ≡ t.dt)
  unfolding flush
  flush_on s enabled = rw enabled (refl, refl)

  -- The flush of a cache that is enabled leaves no line valid, and brings the memory below to hold every
  -- byte that the client sees, which stays as it was: where the cache and a memory that keeps its laws hold
  -- these bytes before.
  pub flush-IsView :
      (s : Cache M P) (view : ℕ → ℕ)
      → config.enabled ≡ true
      → IsView config sized below laws policy chooses s view
      → let t = flush config below policy s in
        IsView config sized below laws policy chooses t view
        × ((w r : ℕ) → w < config.associativity → r < config.set_count → (t.dt w r).valid ≡ false)
        × ((x : ℕ) → laws.byte t.mem x ≡ view x)
  flush-IsView s view enabled h =
      let (kept, empty, fewer) = flush_ways_lem config.associativity 0 s view (omega arith) h in
      let (mem, dt) = flush_on s enabled in
      rw (mem, dt)
        (
          kept,
          λ w r in_way in_row. empty w r (omega arith) (omega (arith, in_way)) in_row,
          λ x. kept.backed x (inr (omega arith)) (λ w (inside, valid, same).
              let off =
                empty w (compute_location config x).row (omega arith) (omega (arith, inside))
                  (row-lt config sized x) in
              cc),
        )
