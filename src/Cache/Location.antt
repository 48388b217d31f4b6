-- ===== src/Cache/Location.antt =====
-- Where an address lies in a cache: `CacheLocation` of src/machine/memory/cache/cache_types.h, `CacheConfig` of
-- src/machine/machineconfig.h, and `Cache::compute_location` and `calc_base_address`.
use qtrvsim.Base.{
  ℕ, ◌+◌, ◌*◌, ◌/◌, ◌%◌, ◌^◌, ◌≤◌, ◌<◌, ◌≡◌, refl, sym, ◌∙◌, Bool, true, false, arith,
}
use native.Mathlib.Nat.{
  mod-lt, mod-eq_of_lt, div-add-mod', div-eq_of_lt-le, div-lt_iff_lt-mul, mul-pos,
}

pub data WritePolicy : Type 0 where
  wp_through_noalloc wp_through_alloc wp_back : WritePolicy

abbrev pub is_back : WritePolicy → Bool
is_back WritePolicy.wp_back = true
is_back _ = false

abbrev pub is_noalloc : WritePolicy → Bool
is_noalloc WritePolicy.wp_through_noalloc = true
is_noalloc _ = false

-- A block has `block_size` words of 4 bytes.
pub record CacheConfig : Type 0 where
  pub enabled : Bool
  pub set_count : ℕ
  pub block_size : ℕ
  pub associativity : ℕ
  pub write_policy : WritePolicy

pub record CacheLocation : Type 0 where
  pub row : ℕ
  pub col : ℕ
  pub tag : ℕ
  pub byte : ℕ

unfoldable pub compute_location : CacheConfig → ℕ → CacheLocation
compute_location config address =
    let word_index = address / 4 in
    let way_size_words = config.set_count * config.block_size % 2 ^ 32 in
    let index_in_way = word_index % way_size_words in
    record {
      row = index_in_way / config.block_size;
      col = index_in_way % config.block_size;
      tag = word_index / way_size_words;
      byte = address % 4;
    }

unfoldable pub calc_base_address : CacheConfig → ℕ → ℕ → ℕ
calc_base_address config tag row = (tag * config.set_count + row) * config.block_size * 4 % 2 ^ 64

-- The bytes of a block, and the place of a byte in its block.
abbrev pub block_bytes : CacheConfig → ℕ
block_bytes config = config.block_size * 4

abbrev pub offset : CacheLocation → ℕ
offset loc = loc.col * 4 + loc.byte

-- The first address of a block, without the limit of an address.
abbrev pub block_start : CacheConfig → ℕ → ℕ → ℕ
block_start config tag row = (tag * config.set_count + row) * block_bytes config

same_quotient : (n a r m : ℕ) → r < n → m ≡ a * n + r → m / n ≡ a
same_quotient n a r m h e = div-eq_of_lt-le n (omega (arith, e)) (grind (arith, e, h))

pub same_parts : (n a r b s : ℕ) → r < n → s < n → a * n + r ≡ b * n + s → (a ≡ b) × (r ≡ s)
same_parts n a r b s h k e =
    let quotients : a ≡ b =
      sym (same_quotient n a r (a * n + r) h refl) ∙ same_quotient n b s (a * n + r) k e in
    (quotients, grind (arith, e, quotients))

-- The size of a way in words is not 0 and no more than the source counts.
abbrev pub IsSized : CacheConfig → Type 0
IsSized config =
    (0 < config.set_count)
    × (0 < config.block_size)
    × (config.set_count * config.block_size < 2 ^ 32)

module _ (config : CacheConfig) (sized : IsSized config) where
  way_words : config.set_count * config.block_size % 2 ^ 32 ≡ config.set_count * config.block_size
  way_words = mod-eq_of_lt sized.2

  way_words-pos : 0 < config.set_count * config.block_size
  way_words-pos = mul-pos sized.0 sized.1

  pub row-lt : (x : ℕ) → (compute_location config x).row < config.set_count
  unfolding compute_location
  row-lt x = rw way_words ((div-lt_iff_lt-mul sized.1).1 (mod-lt (x / 4) way_words-pos))

  pub offset-lt : (x : ℕ) → offset (compute_location config x) < block_bytes config
  unfolding compute_location
  offset-lt x =
      let h = mod-lt (x / 4 % (config.set_count * config.block_size % 2 ^ 32)) sized.1 in
      omega (arith, h)

  -- An address is the start of its block and the place in the block.
  pub block_start-compute_location :
      (x : ℕ)
      → let loc = compute_location config x in block_start config loc.tag loc.row + offset loc ≡ x
  unfolding compute_location
  block_start-compute_location x = rw way_words (
      let w = x / 4 in
      let i = w % (config.set_count * config.block_size) in
      let h1 = div-add-mod' w (config.set_count * config.block_size) in
      let h2 = div-add-mod' i config.block_size in
      let h3 = div-add-mod' x 4 in grind (arith, h1, h2, h3))

  -- Two addresses in one block, and the addresses of a block.
  pub same_block :
      (tag row x : ℕ)
      → row < config.set_count
      → block_start config tag row ≤ x
      → x < block_start config tag row + block_bytes config
      → let loc = compute_location config x in (loc.tag ≡ tag) × (loc.row ≡ row)
  same_block tag row x inside low high =
      let loc = compute_location config x in
      let here = block_start-compute_location x in
      let small = offset-lt x in
      let q = loc.tag * config.set_count + loc.row in
      let p = tag * config.set_count + row in
      let quotient_q : x / block_bytes config ≡ q =
        div-eq_of_lt-le (block_bytes config) (omega (arith, here)) (grind (arith, here, small)) in
      let quotient_p : x / block_bytes config ≡ p =
        div-eq_of_lt-le (block_bytes config) low (grind (arith, high)) in
      same_parts config.set_count loc.tag loc.row tag row (row-lt x) inside
        (sym quotient_q ∙ quotient_p)

  -- The base address of the block of an address and the place of the address in the block give the address
  -- back, and a place is less than the bytes of a block and a row less than the sets, where the number of
  -- sets and the words of a block are not 0, their product is below 2 ^ 32 and the address below 2 ^ 64.
  pub calc_base_address-compute_location :
      (x : ℕ)
      → x < 2 ^ 64
      → let loc = compute_location config x in
        (calc_base_address config loc.tag loc.row + offset loc ≡ x)
        × (offset loc < block_bytes config)
        × (loc.row < config.set_count)
  unfolding calc_base_address
  calc_base_address-compute_location x fits =
      let loc = compute_location config x in
      let here = block_start-compute_location x in
      let base : (loc.tag * config.set_count + loc.row) * config.block_size * 4
          ≡ block_start config loc.tag loc.row =
        grind arith in
      let small : block_start config loc.tag loc.row < 2 ^ 64 = omega (arith, here, fits) in
      (rw (base, mod-eq_of_lt small) here, offset-lt x, row-lt x)
