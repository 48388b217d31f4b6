-- ===== src/Cache/Storage/Fill.antt =====
-- A line that is filled from the memory keeps what the client sees.
use qtrvsim.Base.{ℕ, ◌+◌, ◌^◌, ◌≤◌, ◌<◌, ◌≡◌, refl, sym, ap, ap₂, ◌∙◌, true, false, ◌⊎◌, inl, inr}
use qtrvsim.Cache.Location.{
  CacheConfig, IsSized, compute_location, block_bytes, block_start, offset, offset-lt,
  block_start-compute_location,
}
use qtrvsim.Cache.Storage.{CacheLine, set_line}
use qtrvsim.Cache.Storage.Relation.{
  set_line_cases, set_line-valid_of_dirty, set_line-bounded, Table, row_of, tag_of,
  IsHit-same_block, line_at, IsHit, is_pending, IsCoherent, IsBacked,
}
use qtrvsim.Cache.Storage.Kick.{off_line}

abbrev pub filled : ℕ → (ℕ → ℕ) → CacheLine
filled tag bytes = record { valid = true; dirty = false; tag = tag; data_bytes = bytes }

module _ (config : CacheConfig) (sized : IsSized config) where
  -- A hit after the line of the address `a` was filled is on its block, or a hit before.
  filled-IsHit :
      (dt : Table) (way a : ℕ) (bytes : ℕ → ℕ) (w x : ℕ)
      → let t = set_line dt way (row_of config a) (filled (tag_of config a) bytes) in
        IsHit config t w x
        → ((w ≡ way)
            × (row_of config x ≡ row_of config a)
            × (tag_of config x ≡ tag_of config a)
            × (line_at config t w x ≡ filled (tag_of config a) bytes))
          ⊎ (IsHit config dt w x × (line_at config t w x ≡ line_at config dt w x))
  filled-IsHit dt way a bytes w x (inside, valid, same) =
      elim (set_line_cases dt way (row_of config a) (filled (tag_of config a) bytes) w
        (row_of config x)) [
          | inl (i, j, e) ↦ inl (i, j, sym same ∙ ap (λ l. l.tag) e, e)
          | inr (other, e) ↦
              inr ((inside, ap (λ l. l.valid) (sym e) ∙ valid, ap (λ l. l.tag) (sym e) ∙ same), e)
        ]

  pub fill-IsCoherent :
      (dt : Table) (view : ℕ → ℕ) (way a : ℕ) (bytes : ℕ → ℕ)
      → let loc = compute_location config a in
        let start = block_start config loc.tag loc.row in
        IsCoherent config dt view
        → ((w : ℕ) → ¬ (IsHit config dt w a))
        → ((i : ℕ) → i < block_bytes config → bytes i ≡ view (start + i))
        → start + block_bytes config ≤ 2 ^ 64
        → IsCoherent config (set_line dt way loc.row (filled loc.tag bytes)) view
  fill-IsCoherent dt view way a bytes c none read fits =
      let hits = filled-IsHit dt way a bytes in
      let line = filled (tag_of config a) bytes in
      record {
        cached = λ w x h. elim (hits w x h) [
          | inl (i, rows, tags, e) ↦
              ap (λ l. l.data_bytes (offset (compute_location config x))) e
              ∙ read _ (offset-lt config sized x)
              ∙ ap view (rw (sym tags, sym rows) (block_start-compute_location config sized x))
          | inr (before, e) ↦
              ap (λ l. l.data_bytes (offset (compute_location config x))) e ∙ c.cached w x before
        ];
        unique = λ w v x h k. elim (hits w x h) [
          | inl (i, rows, tags, e) ↦ elim (hits v x k) [
            | inl (j, rows', tags', e') ↦ i ∙ sym j
            | inr (before, e') ↦ absurd (none v (IsHit-same_block config dt v x a rows tags before))
          ]
          | inr (before, e) ↦ elim (hits v x k) [
            | inl (j, rows, tags, e') ↦
                absurd (none w (IsHit-same_block config dt w x a rows tags before))
            | inr (before', e') ↦ c.unique w v x before before'
          ]
        ];
        valid_of_dirty =
            set_line-valid_of_dirty config dt way (row_of config a) line (λ e. refl)
              c.valid_of_dirty;
        bounded = set_line-bounded config dt way (row_of config a) line (λ e. fits) c.bounded;
      }

  pub fill-IsBacked :
      (from to : ℕ) (byte : ℕ → ℕ) (dt : Table) (view : ℕ → ℕ) (way a : ℕ) (bytes : ℕ → ℕ)
      → IsBacked config from to byte dt view
      → (dt way (row_of config a)).valid ≡ false
      → IsBacked config from to byte
          (set_line dt way (row_of config a) (filled (tag_of config a) bytes))
          view
  fill-IsBacked from to byte dt view way a bytes backed empty x above clean =
      backed x above (λ w (inside, valid, same).
        elim (set_line_cases dt way (row_of config a) (filled (tag_of config a) bytes) w
          (row_of config x)) [
            | inl (i, j, e) ↦
                absurd (off_line (λ l. l.valid) _ _ (ap₂ (λ v r. dt v r) i j) valid empty)
            | inr (other, e) ↦
                ap (is_pending config) (sym e)
                ∙ clean w (inside, ap (λ l. l.valid) e ∙ valid, ap (λ l. l.tag) e ∙ same)
          ])
