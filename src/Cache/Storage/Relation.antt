-- ===== src/Cache/Storage/Relation.antt =====
-- What relates a cache to the bytes that its client sees.
use qtrvsim.Base.{
  ℕ, zero, suc, ◌+◌, ◌-◌, ◌^◌, ◌≤◌, ◌<◌, ◌≡◌, ◌≢◌, refl, sym, ap, ◌∙◌, Bool, true, false, ◌&&◌, ◌⊎◌,
  inl, inr, ltb, leb, ◌==◌, ==_iff, Bool-cases, if◌then◌else◌, arith,
}
use qtrvsim.Cache.Location.{
  CacheConfig, compute_location, block_bytes, block_start, offset, is_back,
}
use qtrvsim.Cache.Storage.{
  AccessEffects, BackingMemory, CacheLine, Cache, set_line, holds_tag, find_from, find_block_index,
}

-- The laws of the memory below: `byte` is what it holds at an address. They ask for no more than
-- accesses that do not run over the end of the addresses.
pub record MemoryLaws {M : Type 0} (ops : BackingMemory M) : Type 1 where
  pub IsSound : M → Type 0
  pub byte : M → ℕ → ℕ
  pub read-byte :
      (m : M) (e : AccessEffects) (a n i : ℕ)
      → IsSound m
      → a + n ≤ 2 ^ 64
      → i < n
      → (ops.read m e a n).0 i ≡ byte m (a + i)
  pub byte-read :
      (m : M) (e : AccessEffects) (a n x : ℕ)
      → IsSound m
      → a + n ≤ 2 ^ 64
      → byte (ops.read m e a n).1 x ≡ byte m x
  pub read-IsSound :
      (m : M) (e : AccessEffects) (a n : ℕ)
      → IsSound m
      → a + n ≤ 2 ^ 64
      → IsSound (ops.read m e a n).1
  pub byte-write :
      (m : M) (e : AccessEffects) (a : ℕ) (source : ℕ → ℕ) (n x : ℕ)
      → IsSound m
      → a + n ≤ 2 ^ 64
      → byte (ops.write m e a source n).1 x
        ≡ (if leb a x && ltb x (a + n) then source (x - a) else byte m x)
  pub write-IsSound :
      (m : M) (e : AccessEffects) (a : ℕ) (source : ℕ → ℕ) (n : ℕ)
      → IsSound m
      → a + n ≤ 2 ^ 64
      → IsSound (ops.write m e a source n).1
  pub byte-sync : (m : M) (x : ℕ) → IsSound m → byte (ops.sync m) x ≡ byte m x
  pub sync-IsSound : (m : M) → IsSound m → IsSound (ops.sync m)

pub and-true : (a b : Bool) → (a && b) ≡ true → (a ≡ true) × (b ≡ true)
and-true true b e = (refl, e)
and-true false b e = cc

pub set_line_cases :
    (dt : ℕ → ℕ → CacheLine) (way row : ℕ) (line : CacheLine) (w r : ℕ)
    → ((w ≡ way) × (r ≡ row) × (set_line dt way row line w r ≡ line))
      ⊎ (((w ≡ way) → r ≢ row) × (set_line dt way row line w r ≡ dt w r))
set_line_cases dt way row line w r = elim (Bool-cases (w == way)) [
  | inl a ↦ elim (Bool-cases (r == row)) [
    | inl b ↦ inl ((==_iff w way).0 a, (==_iff r row).0 b, rw (a, b) refl)
    | inr b ↦ inr (λ e f. cc ((==_iff r row).1 f), rw (a, b) refl)
  ]
  | inr a ↦ inr (λ e. absurd (cc ((==_iff w way).1 e)), rw a refl)
]

-- The search finds a way that holds the block, or ends behind the last way and none holds it.
found_or_none :
    (left index tag : ℕ) (column : ℕ → CacheLine)
    → let way = find_from left index column tag in
      ((way < index + left) × ((column way).valid ≡ true) × ((column way).tag ≡ tag))
      ⊎ ((way ≡ index + left)
          × ((w : ℕ) → index ≤ w → w < index + left → holds_tag (column w) tag ≡ false))
unfolding find_from
found_or_none zero index tag column = inr (omega arith, λ w low high. absurd (omega arith))
found_or_none (suc left) index tag column = elim (Bool-cases (holds_tag (column index) tag)) [
  | inl hit ↦
      let (valid, same) = and-true _ _ hit in rw hit (inl (omega arith, valid, (==_iff _ _).0 same))
  | inr miss ↦ elim (found_or_none left (index + 1) tag column) [
    | inl (inside, valid, same) ↦ rw miss (inl (omega arith, valid, same))
    | inr (end, none) ↦ rw miss (
        inr (
          omega (arith, end),
          λ w low high. elim (Bool-cases (w == index)) [
            | inl e ↦ ap (λ v. holds_tag (column v) tag) ((==_iff w index).0 e) ∙ miss
            | inr ne ↦ none w (ground arith) (omega arith)
          ],
        ))
  ]
]

-- A line that a kick would write to the memory.
abbrev pub is_pending : CacheConfig → CacheLine → Bool
is_pending config line = line.dirty && is_back config.write_policy

no_hit :
    (line : CacheLine) (tag : ℕ)
    → line.valid ≡ true
    → line.tag ≡ tag
    → ¬ (holds_tag line tag ≡ false)
no_hit line tag valid same e =
    let hit : holds_tag line tag ≡ true = rw (valid, (==_iff line.tag tag).1 same) refl in cc

abbrev pub Table : Type 0
Table = ℕ → ℕ → CacheLine

abbrev pub IsOutside : ℕ → ℕ → ℕ → Type 0
IsOutside start end x = (x < start) ⊎ (end ≤ x)

module _ (config : CacheConfig) where
  abbrev pub row_of : ℕ → ℕ
  row_of x = (compute_location config x).row

  abbrev pub tag_of : ℕ → ℕ
  tag_of x = (compute_location config x).tag

  -- The line that an address has in a way.
  abbrev pub line_at : Table → ℕ → ℕ → CacheLine
  line_at dt w x = dt w (compute_location config x).row

  -- The way holds the block of the address.
  abbrev pub IsHit : Table → ℕ → ℕ → Type 0
  IsHit dt w x =
      (w < config.associativity)
      × ((line_at dt w x).valid ≡ true)
      × ((line_at dt w x).tag ≡ (compute_location config x).tag)

  -- A hit of one address is a hit of another in the block.
  pub IsHit-same_block :
      (dt : Table) (w x a : ℕ)
      → row_of x ≡ row_of a
      → tag_of x ≡ tag_of a
      → IsHit dt w x
      → IsHit dt w a
  IsHit-same_block dt w x a rows tags (inside, valid, same) = (
    inside,
    ap (λ r. (dt w r).valid) (sym rows) ∙ valid,
    ap (λ r. (dt w r).tag) (sym rows) ∙ same ∙ tags,
  )

  -- The table is well formed, and its blocks hold the bytes `view`.
  pub record IsCoherent (dt : Table) (view : ℕ → ℕ) : Type 0 where
    pub cached :
        (w x : ℕ)
        → IsHit dt w x
        → (line_at dt w x).data_bytes (offset (compute_location config x)) ≡ view x
    pub unique : (w v x : ℕ) → IsHit dt w x → IsHit dt v x → w ≡ v
    pub valid_of_dirty :
        (w r : ℕ)
        → w < config.associativity
        → r < config.set_count
        → (dt w r).dirty ≡ true
        → (dt w r).valid ≡ true
    pub bounded :
        (w r : ℕ)
        → w < config.associativity
        → r < config.set_count
        → (dt w r).valid ≡ true
        → block_start config (dt w r).tag r + block_bytes config ≤ 2 ^ 64

  -- A new line that is dirty only where it is valid, and whose block ends where the addresses do.
  pub set_line-valid_of_dirty :
      (dt : Table) (way row : ℕ) (line : CacheLine)
      → (line.dirty ≡ true → line.valid ≡ true)
      → ((w r : ℕ)
          → w < config.associativity
          → r < config.set_count
          → (dt w r).dirty ≡ true
          → (dt w r).valid ≡ true)
      → (w r : ℕ) → w < config.associativity
      → r < config.set_count
      → (set_line dt way row line w r).dirty ≡ true
      → (set_line dt way row line w r).valid ≡ true
  set_line-valid_of_dirty dt way row line new old w r p q dirty =
      elim (set_line_cases dt way row line w r) [
        | inl (i, j, e) ↦ ap (λ l. l.valid) e ∙ new (ap (λ l. l.dirty) (sym e) ∙ dirty)
        | inr (other, e) ↦ ap (λ l. l.valid) e ∙ old w r p q (ap (λ l. l.dirty) (sym e) ∙ dirty)
      ]

  pub set_line-bounded :
      (dt : Table) (way row : ℕ) (line : CacheLine)
      → (line.valid ≡ true → block_start config line.tag row + block_bytes config ≤ 2 ^ 64)
      → ((w r : ℕ)
          → w < config.associativity
          → r < config.set_count
          → (dt w r).valid ≡ true
          → block_start config (dt w r).tag r + block_bytes config ≤ 2 ^ 64)
      → (w r : ℕ) → w < config.associativity
      → r < config.set_count
      → (set_line dt way row line w r).valid ≡ true
      → block_start config (set_line dt way row line w r).tag r + block_bytes config ≤ 2 ^ 64
  set_line-bounded dt way row line new old w r p q valid =
      elim (set_line_cases dt way row line w r) [
        | inl (i, j, e) ↦ rw (e, j) (new (ap (λ l. l.valid) (sym e) ∙ valid))
        | inr (other, e) ↦ rw e (old w r p q (ap (λ l. l.valid) (sym e) ∙ valid))
      ]

  -- Outside of the addresses from `start` to `end` the memory below holds the bytes `view`, except where a
  -- line is still to be written to it.
  abbrev pub IsBacked : ℕ → ℕ → (ℕ → ℕ) → Table → (ℕ → ℕ) → Type 0
  IsBacked start end byte dt view =
      (x : ℕ)
      → IsOutside start end x
      → ((w : ℕ) → IsHit dt w x → is_pending config (line_at dt w x) ≡ false)
      → byte x ≡ view x

  pub lookup :
      {M P : Type 0} (s : Cache M P) (x : ℕ)
      → let way = find_block_index config s (compute_location config x) in
        IsHit s.dt way x ⊎ ((way ≡ config.associativity) × ((w : ℕ) → ¬ (IsHit s.dt w x)))
  unfolding find_block_index
  lookup s x =
      let loc = compute_location config x in
      elim (found_or_none config.associativity 0 loc.tag (λ w. s.dt w loc.row)) [
        | inl (inside, valid, same) ↦ inl (omega (arith, inside), valid, same)
        | inr (end, none) ↦ inr (
          omega (arith, end),
          λ w (inside, valid, same).
              no_hit (s.dt w loc.row) loc.tag valid same
                (none w (omega arith) (omega (arith, inside))),
        )
      ]
