-- ===== src/Cache/Storage/Transfer.antt =====
-- A write into a line changes what the client sees as it should.
use qtrvsim.Base.{
  ℕ, zero, suc, ◌+◌, ◌-◌, ◌≤◌, ◌<◌, ◌≡◌, ◌≢◌, refl, sym, ap, ap₂, ◌∙◌, Bool, true, false, not, ◌&&◌,
  ◌||◌, ◌⊎◌, inl, inr, leb, ltb, leb→le, ltb→lt, ◌==◌, ==_iff, Bool-cases, if◌then◌else◌, arith,
}
use qtrvsim.Cache.Location.{
  CacheConfig, IsSized, compute_location, block_bytes, block_start, offset, row-lt,
  block_start-compute_location, same_block, is_back,
}
use qtrvsim.Cache.Storage.{CacheLine, set_line, differs}
use qtrvsim.Cache.Storage.Relation.{
  set_line_cases, set_line-valid_of_dirty, set_line-bounded, Table, IsOutside, and-true, row_of,
  tag_of, IsHit-same_block, line_at, IsHit, is_pending, IsCoherent, IsBacked,
}
use qtrvsim.Cache.Storage.Kick.{overwritten}

same_byte : (a b : ℕ) (rest : Bool) → (not (a == b) || rest) ≡ false → a ≡ b
same_byte a b rest e = ground arith

or_false : (a b : Bool) → (a || b) ≡ false → b ≡ false
or_false true b e = cc
or_false false b e = e

pub and_false : (a : Bool) → (a && false) ≡ false
and_false true = refl
and_false false = refl

pub differs_none : (n : ℕ) (a b : ℕ → ℕ) → differs n a b ≡ false → (i : ℕ) → i < n → a i ≡ b i
unfolding differs
differs_none zero a b e i h = absurd (omega arith)
differs_none (suc n) a b e i h = elim (Bool-cases (i == n)) [
  | inl last ↦
      let l = (==_iff i n).0 last in ap a l ∙ same_byte (a n) (b n) (differs n a b) e ∙ ap b (sym l)
  | inr earlier ↦ differs_none n a b (or_false _ _ e) i (ground arith)
]

-- Two places in a block are as far apart as the addresses.
same_window :
    (buffer : ℕ → ℕ) (old new start o p n a x : ℕ)
    → start + o ≡ a
    → start + p ≡ x
    → old ≡ new
    → (if leb o p && ltb p (o + n) then buffer (p - o) else old)
      ≡ (if leb a x && ltb x (a + n) then buffer (x - a) else new)
same_window buffer old new start o p n a x at here e =
    let low : leb o p ≡ leb a x = ground arith in
    let high : ltb p (o + n) ≡ ltb x (a + n) = ground arith in
    let far : p - o ≡ x - a = omega (arith, at, here) in rw (low, high, far, e) refl

module _ (config : CacheConfig) (sized : IsSized config) where
  -- The line with `n` bytes of the buffer at the address `a`.
  abbrev pub IsStored : (ℕ → ℕ) → (ℕ → ℕ) → ℕ → (ℕ → ℕ) → ℕ → Type 0
  IsStored data_bytes old a buffer n =
      let o = offset (compute_location config a) in
      (i : ℕ) → data_bytes i ≡ (if leb o i && ltb i (o + n) then buffer (i - o) else old i)

  abbrev pub dirtied : CacheLine → (ℕ → ℕ) → CacheLine
  dirtied line data_bytes = record line { dirty = true; data_bytes = data_bytes }

  -- An address of another block is not written.
  other_block :
      (view buffer : ℕ → ℕ) (a n x : ℕ)
      → offset (compute_location config a) + n ≤ block_bytes config
      → ((row_of config x ≡ row_of config a) → tag_of config x ≢ tag_of config a)
      → overwritten view a buffer n x ≡ view x
  other_block view buffer a n x within apart =
      let at = block_start-compute_location config sized a in
      elim (Bool-cases (leb a x && ltb x (a + n))) [
        | inl inside ↦
            let (low, high) = and-true _ _ inside in
            let (tags, rows) =
              same_block config sized (tag_of config a) (row_of config a) x (row-lt config sized a)
                (omega (arith, at, leb→le a x low))
                (omega (arith, at, within, ltb→lt x (a + n) high)) in
            absurd (apart rows tags)
        | inr outside ↦ rw outside refl
      ]

  -- In the block the address has the same distance from `a` as its place has.
  same_place :
      (view buffer old : ℕ → ℕ) (a n x : ℕ)
      → row_of config x ≡ row_of config a
      → tag_of config x ≡ tag_of config a
      → old (offset (compute_location config x)) ≡ view x
      → let o = offset (compute_location config a) in
        let p = offset (compute_location config x) in
        (if leb o p && ltb p (o + n) then buffer (p - o) else old p) ≡ overwritten view a buffer n x
  same_place view buffer old a n x rows tags e =
      let at : block_start config (tag_of config a) (row_of config a)
            + offset (compute_location config a)
          ≡ a =
        block_start-compute_location config sized a in
      let here : block_start config (tag_of config a) (row_of config a)
            + offset (compute_location config x)
          ≡ x =
        rw (← tags, ← rows) (block_start-compute_location config sized x) in
      same_window buffer (old (offset (compute_location config x))) (view x) _ _ _ n a x at here e

  -- A hit after the line of the block of `a` was written to is a hit before, on this line or another.
  dirtied-IsHit :
      (dt : Table) (way a : ℕ) (data_bytes : ℕ → ℕ) (w x : ℕ)
      → let line = dirtied (dt way (row_of config a)) data_bytes in
        let t = set_line dt way (row_of config a) line in
        IsHit config t w x
        → IsHit config dt w x
          × (((w ≡ way) × (row_of config x ≡ row_of config a) × (line_at config t w x ≡ line))
              ⊎ (((w ≡ way) → row_of config x ≢ row_of config a)
                  × (line_at config t w x ≡ line_at config dt w x)))
  dirtied-IsHit dt way a data_bytes w x (inside, valid, same) =
      elim (set_line_cases dt way (row_of config a) (dirtied (dt way (row_of config a)) data_bytes)
        w (row_of config x)) [
          | inl (i, j, e) ↦
              let old : dt w (row_of config x) ≡ dt way (row_of config a) =
                ap₂ (λ v r. dt v r) i j in
              (
                (
                  inside,
                  ap (λ l. l.valid) old ∙ ap (λ l. l.valid) (sym e) ∙ valid,
                  ap (λ l. l.tag) old ∙ ap (λ l. l.tag) (sym e) ∙ same,
                ),
                inl (i, j, e),
              )
          | inr (other, e) ↦ (
            (inside, ap (λ l. l.valid) (sym e) ∙ valid, ap (λ l. l.tag) (sym e) ∙ same),
            inr (other, e),
          )
        ]

  pub store-IsCoherent :
      (dt : Table) (view buffer : ℕ → ℕ) (way a n : ℕ) (data_bytes : ℕ → ℕ)
      → let line = dt way (row_of config a) in
        IsCoherent config dt view
        → IsHit config dt way a
        → IsStored data_bytes line.data_bytes a buffer n
        → offset (compute_location config a) + n ≤ block_bytes config
        → IsCoherent config
            (set_line dt way (row_of config a) (dirtied line data_bytes))
            (overwritten view a buffer n)
  store-IsCoherent dt view buffer way a n data_bytes c (inside, valid, same) stored within =
      let line = dt way (row_of config a) in
      let hits = dirtied-IsHit dt way a data_bytes in
      record {
        cached = λ w x h.
            let (before, place) = hits w x h in
            elim place [
              | inl (i, rows, e) ↦
                  let tags : tag_of config x ≡ tag_of config a =
                    sym before.2 ∙ ap₂ (λ v r. (dt v r).tag) i rows ∙ same in
                  ap (λ l. l.data_bytes (offset (compute_location config x))) e
                  ∙ stored _
                  ∙ same_place view buffer line.data_bytes a n x rows tags (
                      ap₂ (λ v r. (dt v r).data_bytes (offset (compute_location config x))) (sym i)
                        (sym rows)
                      ∙ c.cached w x before)
              | inr (other, e) ↦
                  ap (λ l. l.data_bytes (offset (compute_location config x))) e
                  ∙ c.cached w x before
                  ∙ sym (
                      other_block view buffer a n x within (λ rows tags.
                        other
                          (c.unique w way a (IsHit-same_block config dt w x a rows tags before)
                            (inside, valid, same))
                          rows))
            ];
        unique = λ w v x h k. c.unique w v x (hits w x h).0 (hits v x k).0;
        valid_of_dirty =
            set_line-valid_of_dirty config dt way (row_of config a) (dirtied line data_bytes)
              (λ e. valid) c.valid_of_dirty;
        bounded =
            set_line-bounded config dt way (row_of config a) (dirtied line data_bytes)
              (λ e. c.bounded way (row_of config a) inside (row-lt config sized a) valid) c.bounded;
      }

  -- A write that the cache skips, as no way holds its block.
  pub skip-IsCoherent :
      (dt : Table) (view buffer : ℕ → ℕ) (a n : ℕ)
      → IsCoherent config dt view
      → ((w : ℕ) → ¬ (IsHit config dt w a))
      → offset (compute_location config a) + n ≤ block_bytes config
      → IsCoherent config dt (overwritten view a buffer n)
  skip-IsCoherent dt view buffer a n c none within = record {
    cached = λ w x h.
        c.cached w x h
        ∙ sym (
            other_block view buffer a n x within
              (λ rows tags. none w (IsHit-same_block config dt w x a rows tags h)));
    unique = c.unique;
    valid_of_dirty = c.valid_of_dirty;
    bounded = c.bounded;
  }

  -- The line that was written to waits.
  waiting :
      (dt : Table) (row r : ℕ) (l line : CacheLine) (way : ℕ)
      → ((way ≡ way) × (r ≡ row) × (l ≡ line)) ⊎ (((way ≡ way) → r ≢ row) × (l ≡ dt way r))
      → is_pending config line ≡ true
      → r ≡ row
      → (l ≡ line → is_pending config l ≡ false)
      → ⊥
  waiting dt row r l line way place on rows off = elim place [
    | inl (i, j, e) ↦ let quiet = off e in let same = ap (is_pending config) e in cc
    | inr (other, e) ↦ other refl rows
  ]

  -- With writing back, the line that was written to waits to be written to the memory.
  pub store-IsBacked :
      (from to : ℕ) (byte : ℕ → ℕ) (dt : Table) (view buffer : ℕ → ℕ) (way a n : ℕ)
      (data_bytes : ℕ → ℕ)
      → let line = dt way (row_of config a) in
        is_back config.write_policy ≡ true
        → IsBacked config from to byte dt view
        → IsHit config dt way a
        → offset (compute_location config a) + n ≤ block_bytes config
        → IsBacked config from to byte
            (set_line dt way (row_of config a) (dirtied line data_bytes))
            (overwritten view a buffer n)
  store-IsBacked from to byte dt view buffer way a n data_bytes back backed (inside, valid, same)
        within x above clean =
      let line = dt way (row_of config a) in
      let new = dirtied line data_bytes in
      let cases = set_line_cases dt way (row_of config a) new in
      let outside : ((row_of config x ≡ row_of config a) → tag_of config x ≢ tag_of config a)
          → byte x ≡ overwritten view a buffer n x =
        λ apart.
          backed x above (λ w (i, v, t). elim (cases w (row_of config x)) [
            | inl (ways, rows, e) ↦
                absurd (apart rows (sym t ∙ ap₂ (λ v r. (dt v r).tag) ways rows ∙ same))
            | inr (other, e) ↦
                ap (is_pending config) (sym e)
                ∙ clean w (i, ap (λ l. l.valid) e ∙ v, ap (λ l. l.tag) e ∙ t)
          ])
          ∙ sym (other_block view buffer a n x within apart) in
      elim (Bool-cases (row_of config x == row_of config a)) [
        | inl r ↦ elim (Bool-cases (tag_of config x == tag_of config a)) [
          | inl t ↦
              let rows = (==_iff _ _).0 r in
              let tags = (==_iff _ _).0 t in
              absurd (
                waiting dt _ _ _ new way (cases way (row_of config x)) back rows (λ e.
                  clean way
                    (inside, ap (λ l. l.valid) e ∙ valid, ap (λ l. l.tag) e ∙ same ∙ sym tags)))
          | inr t ↦ outside (λ rows tags. cc ((==_iff _ _).1 tags))
        ]
        | inr r ↦ outside (λ rows tags. cc ((==_iff _ _).1 rows))
      ]

  -- Without, nothing waits, and the memory is still to get the bytes of the buffer.
  pub through-IsBacked :
      (from to : ℕ) (byte : ℕ → ℕ) (dt t : Table) (view buffer : ℕ → ℕ) (a n : ℕ)
      → is_back config.write_policy ≡ false
      → from ≤ a
      → ((x : ℕ) → a ≤ x → IsOutside from to x)
      → IsBacked config from to byte dt view
      → IsBacked config from (a + n) byte t (overwritten view a buffer n)
  through-IsBacked from to byte dt t view buffer a n through below free backed x above clean =
      let still : (w : ℕ)
          → IsHit config dt w x
          → is_pending config (line_at config dt w x) ≡ false =
        λ w h. rw through (and_false _) in
      elim above [
        | inl before ↦
            let out : leb a x ≡ false = ground arith in backed x (inl before) still ∙ rw out refl
        | inr behind ↦
            let out : ltb x (a + n) ≡ false = ground arith in
            backed x (free x (omega arith)) still ∙ rw (out, and_false (leb a x)) refl
      ]
