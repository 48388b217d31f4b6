-- ===== src/Cache/Client/View.antt =====
-- Reads and writes act on the bytes that a client sees, whatever of them lie in the cache.
use qtrvsim.Base.{
  ℕ, ◌+◌, ◌-◌, ◌^◌, ◌≤◌, ◌<◌, ◌≡◌, refl, sym, ap, ◌∙◌, false, ◌&&◌, inl, inr, leb, ltb, ltb→lt,
  Bool-cases, if◌then◌else◌, arith,
}
use mathlib.Core.Path.{subst}
use qtrvsim.Cache.Location.{CacheConfig, IsSized, block_bytes, is_back}
use qtrvsim.Cache.Storage.{AccessType, AccessEffects, BackingMemory, CachePolicy, Cache, access}
use qtrvsim.Cache.Storage.Relation.{MemoryLaws, IsOutside}
use qtrvsim.Cache.Storage.Kick.{overwritten}
use qtrvsim.Cache.Storage.Access.{Holds}
use qtrvsim.Cache.Storage.Block.{settled, settled_back, settled_through}
use qtrvsim.Cache.Storage.Loop.{access_read, access_write}
use qtrvsim.Cache.Client.{make, passes_by, read, write, write_through}

not_within : (a b x : ℕ) → (leb a x && ltb x b) ≡ false → IsOutside a b x
not_within a b x e = elim (Bool-cases (ltb x a)) [
  | inl before ↦ inl (ltb→lt x a before)
  | inr behind ↦ inr (ground arith)
]

outside : (a x : ℕ) → IsOutside a a x
outside a x = elim (Bool-cases (ltb x a)) [
  | inl before ↦ inl (ltb→lt x a before)
  | inr behind ↦ inr (ground arith)
]

-- Bytes that are written over hold what is written, whatever they held before.
written :
    (view source byte : ℕ → ℕ) (a size x : ℕ)
    → (IsOutside a (a + size) x → byte x ≡ overwritten view a source size x)
    → overwritten byte a source size x ≡ overwritten view a source size x
written view source byte a size x same = elim (Bool-cases (leb a x && ltb x (a + size))) [
  | inl within ↦ rw within refl
  | inr off ↦
      ap (λ b. if b then source (x - a) else byte x) off ∙ same (not_within a (a + size) x off)
]

module _ {M P : Type 0} (config : CacheConfig) (sized : IsSized config) (below : BackingMemory M)
    (laws : MemoryLaws below) (policy : CachePolicy P)
    (chooses : (p : P) (row : ℕ)
      → (policy.select_way_to_evict p row).0 < config.associativity) where
  -- The cache and the memory below together hold the bytes `view`.
  abbrev pub IsView : Cache M P → (ℕ → ℕ) → Type 0
  IsView s view = Holds config sized below laws 0 0 s.mem s.dt view

  -- A new cache shows the memory below.
  pub make-IsView : (mem : M) (p : P) → laws.IsSound mem → IsView (make mem p) (laws.byte mem)
  unfolding make
  make-IsView mem p sound = record {
    sound = sound;
    coherent = record {
      cached = λ w x hit. cc hit.1;
      unique = λ w v x hit other. cc hit.1;
      valid_of_dirty = λ w r in_way in_row dirty. dirty;
      bounded = λ w r in_way in_row valid. cc valid;
    };
    backed = λ x out clean. refl;
  }

  -- A regular read, of a byte or more, that does not go past the cache gives the bytes that the client
  -- sees, and leaves what it sees as it was, also where it throws out lines and goes over several blocks:
  -- with any replacement policy that chooses a way of the cache, over a memory that keeps its laws, where a
  -- block behind the access has an address below 2 ^ 64.
  pub read-IsView :
      (s : Cache M P) (view buffer : ℕ → ℕ) (source size : ℕ)
      → passes_by config source size ≡ false
      → IsView s view
      → 0 < size
      → source + size + block_bytes config ≤ 2 ^ 64
      → let (bytes, t) = read config below policy source buffer size AccessEffects.regular s in
        IsView t view × ((i : ℕ) → i < size → bytes i ≡ view (source + i))
  unfolding read
  read-IsView s view buffer source size here h some fits = rw here (
      access_read config sized below laws policy chooses size s view buffer source size 0 0 some
        (omega arith) h (λ x above. inr (omega arith)) fits)

  -- A write, of a byte or more, that does not go past the cache changes those bytes that the client sees and
  -- no others, with each of the three ways to write: with any replacement policy that chooses a way of the
  -- cache, over a memory that keeps its laws, where a block behind the access has an address below 2 ^ 64.
  pub write-IsView :
      (s : Cache M P) (view source : ℕ → ℕ) (destination size : ℕ) (options : AccessEffects)
      → passes_by config destination size ≡ false
      → IsView s view
      → 0 < size
      → destination + size + block_bytes config ≤ 2 ^ 64
      → IsView
          (write config below policy destination source size options s).1
          (overwritten view destination source size)
  unfolding write write_through
  write-IsView s view source destination size options here h some fits =
      let (bytes, changed, t) =
        access config below policy size destination source size AccessType.write_access s in
      let kept : Holds config sized below laws destination
          (settled config destination (destination + size)) t.mem t.dt
          (overwritten view destination source size) =
        access_write config sized below laws policy chooses size s view source destination size
          destination destination some (omega arith)
          (record {
            sound = h.sound;
            coherent = h.coherent;
            backed = λ x out. h.backed x (inr (omega arith));
          })
          (λ x above. outside destination x) (omega arith) fits in
      elim (Bool-cases (is_back config.write_policy)) [
        | inl back ↦
            let end : settled config destination (destination + size) ≡ destination =
              settled_back config sized destination (destination + size) back in
            rw (here, back)
              (record {
                sound = kept.sound;
                coherent = kept.coherent;
                backed = λ x out.
                    kept.backed x
                      (subst (λ z. IsOutside destination z x) (sym end) (outside destination x));
              })
        | inr through ↦
            let end = settled_through config sized destination (destination + size) through in
            rw (here, through)
              (record {
                sound = laws.write-IsSound _ _ _ _ _ kept.sound (omega (arith, fits));
                coherent = kept.coherent;
                backed = λ x out clean.
                    laws.byte-write _ options destination source size x kept.sound
                      (omega (arith, fits))
                    ∙ written view source (laws.byte t.mem) destination size x (λ off.
                      kept.backed x (subst (λ z. IsOutside destination z x) (sym end) off) clean);
              })
      ]
