-- ===== src/Cache/Storage/Kick.antt =====
-- A kick keeps what the client sees: a line that is still to be written goes to the memory.
use qtrvsim.Base.{
  ℕ, ◌+◌, ◌-◌, ◌<◌, ◌≡◌, ◌≢◌, refl, sym, ap, ap₂, ◌∙◌, Bool, true, false, ◌&&◌, inl, inr, ltb, leb,
  Bool-cases, le→leb, lt→ltb, leb→le, ltb→lt, if◌then◌else◌, arith,
}
use qtrvsim.Cache.Location.{
  CacheConfig, IsSized, compute_location, block_bytes, block_start, offset, offset-lt,
  block_start-compute_location, same_block,
}
use qtrvsim.Cache.Storage.{CacheLine, set_line}
use qtrvsim.Cache.Storage.Relation.{
  set_line_cases, set_line-valid_of_dirty, set_line-bounded, Table, line_at, IsHit, is_pending,
  IsCoherent, IsBacked, and-true,
}

abbrev pub dropped : CacheLine → CacheLine
dropped line = record line { valid = false; dirty = false }

-- The memory after a line of the block `start` was written to it.
abbrev pub overwritten : (ℕ → ℕ) → ℕ → (ℕ → ℕ) → ℕ → ℕ → ℕ
overwritten byte start source n x =
    if leb start x && ltb x (start + n) then source (x - start) else byte x

pub off_line : (f : CacheLine → Bool) (a b : CacheLine) → a ≡ b → f a ≡ true → f b ≡ false → ⊥
off_line f a b e on off = let same : f a ≡ f b = ap f e in cc

inside_range :
    (start n o x : ℕ) → start + o ≡ x → o < n → (leb start x && ltb x (start + n)) ≡ false → ⊥
inside_range start n o x e small out =
    let yes : (leb start x && ltb x (start + n)) ≡ true =
      rw (le→leb start x (omega (arith, e)), lt→ltb x (start + n) (omega (arith, e))) refl in
    cc

module _ (config : CacheConfig) where
  -- A hit in the table with one line thrown out is a hit of another line before.
  pub dropped-IsHit :
      (dt : Table) (way row w x : ℕ)
      → let t = set_line dt way row (dropped (dt way row)) in
        IsHit config t w x → IsHit config dt w x × (line_at config t w x ≡ line_at config dt w x)
  dropped-IsHit dt way row w x (inside, valid, same) =
      let r = (compute_location config x).row in
      elim (set_line_cases dt way row (dropped (dt way row)) w r) [
        | inl (a, b, e) ↦ absurd (off_line (λ l. l.valid) _ _ e valid refl)
        | inr (other, e) ↦
            ((inside, ap (λ l. l.valid) (sym e) ∙ valid, ap (λ l. l.tag) (sym e) ∙ same), e)
      ]

  -- A hit of another line than the one that is thrown out.
  other_line :
      (dt : Table) (way row w x : ℕ)
      → ((v : ℕ)
          → IsHit config (set_line dt way row (dropped (dt way row))) v x
          → is_pending config (line_at config (set_line dt way row (dropped (dt way row))) v x)
            ≡ false)
      → IsHit config dt w x
      → (w ≡ way
          → (compute_location config x).row ≡ row
          → is_pending config (line_at config dt w x) ≡ false)
      → is_pending config (line_at config dt w x) ≡ false
  other_line dt way row w x clean (inside, valid, same) this =
      elim (set_line_cases dt way row (dropped (dt way row)) w (compute_location config x).row) [
        | inl (i, j, e) ↦ this i j
        | inr (other, e) ↦
            ap (is_pending config) (sym e)
            ∙ clean w (inside, ap (λ l. l.valid) e ∙ valid, ap (λ l. l.tag) e ∙ same)
      ]

  pub drop-IsCoherent :
      (dt : Table) (view : ℕ → ℕ) (way row : ℕ)
      → IsCoherent config dt view
      → IsCoherent config (set_line dt way row (dropped (dt way row))) view
  drop-IsCoherent dt view way row c =
      let hit = dropped-IsHit dt way row in
      record {
        cached = λ w x h.
            let (before, same) = hit w x h in
            ap (λ l. l.data_bytes (offset (compute_location config x))) same ∙ c.cached w x before;
        unique = λ w v x h k. c.unique w v x (hit w x h).0 (hit v x k).0;
        valid_of_dirty =
            set_line-valid_of_dirty config dt way row (dropped (dt way row)) (λ e. absurd cc)
              c.valid_of_dirty;
        bounded =
            set_line-bounded config dt way row (dropped (dt way row)) (λ e. absurd cc) c.bounded;
      }

  module _ (sized : IsSized config) where
    -- An address whose block the line holds.
    held_address :
        (line : CacheLine) (row x : ℕ)
        → line.tag ≡ (compute_location config x).tag
        → (compute_location config x).row ≡ row
        → block_start config line.tag row + offset (compute_location config x) ≡ x
    held_address line row x same here =
        rw (same, ← here) (block_start-compute_location config sized x)

    not_in_block :
        (line : CacheLine) (row x : ℕ)
        → (leb (block_start config line.tag row) x
            && ltb x (block_start config line.tag row + block_bytes config))
          ≡ false
        → (compute_location config x).row ≡ row
        → line.tag ≢ (compute_location config x).tag
    not_in_block line row x out here same =
        let e = held_address line row x same here in
        let small = offset-lt config sized x in
        inside_range (block_start config line.tag row) (block_bytes config)
          (offset (compute_location config x)) x e small out

    -- After the line has gone to the memory where it was still to be written, the memory holds what it
    -- should without the line.
    pub drop-IsBacked :
        (byte byte' : ℕ → ℕ) (dt : Table) (view : ℕ → ℕ) (way row from to : ℕ)
        → way < config.associativity
        → row < config.set_count
        → IsCoherent config dt view
        → IsBacked config from to byte dt view
        → (is_pending config (dt way row) ≡ true
            → (x : ℕ)
            → byte' x
              ≡ overwritten byte
                  (block_start config (dt way row).tag row)
                  (dt way row).data_bytes
                  (block_bytes config)
                  x)
        → (is_pending config (dt way row) ≡ false → (x : ℕ) → byte' x ≡ byte x)
        → IsBacked config from to byte' (set_line dt way row (dropped (dt way row))) view
    drop-IsBacked byte byte' dt view way row from to in_way in_row c backed wrote kept x above
          clean =
        let line = dt way row in
        let start = block_start config line.tag row in
        let loc = compute_location config x in
        elim (Bool-cases (is_pending config line)) [
          | inl pending ↦ elim (Bool-cases (leb start x && ltb x (start + block_bytes config))) [
            | inl inside ↦
                let (low, high) = and-true _ _ inside in
                let (tag, here) =
                  same_block config sized line.tag row x in_row (leb→le _ _ low)
                    (ltb→lt _ _ high) in
                let e = held_address line row x (sym tag) here in
                let hit : IsHit config dt way x = (
                  in_way,
                  ap (λ r. (dt way r).valid) here
                      ∙ c.valid_of_dirty way row in_way in_row (and-true _ _ pending).0,
                  ap (λ r. (dt way r).tag) here ∙ sym tag,
                ) in
                wrote pending x
                ∙ rw inside (ap line.data_bytes (omega (arith, e)))
                ∙ ap (λ r. (dt way r).data_bytes (offset loc)) (sym here)
                ∙ c.cached way x hit
            | inr out ↦
                wrote pending x
                ∙ rw out (
                    backed x above (λ w hit. other_line dt way row w x clean hit (λ i j. absurd (
                      not_in_block line row x out j
                        (ap₂ (λ v r. (dt v r).tag) (sym i) (sym j) ∙ hit.2)))))
          ]
          | inr quiet ↦
              kept quiet x
              ∙ backed x above (λ w hit.
                other_line dt way row w x clean hit
                  (λ i j. ap₂ (λ v r. is_pending config (dt v r)) i j ∙ quiet))
        ]
