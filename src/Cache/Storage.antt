-- ===== src/Cache/Storage.antt =====
-- `Cache` of src/machine/memory/cache/cache.h and cache.cpp. The memory below and the replacement policy are
-- arguments. A buffer is a function from the place of a byte, as the source passes a pointer with a size, and
-- so is the data of a line; the table of lines is a function of the way and the row.
pub mod Relation
pub mod Flat
pub mod Kick
pub mod Fill
pub mod Transfer
pub mod Access
pub mod Block
pub mod Loop
use qtrvsim.Base.{
  ℕ, zero, suc, ◌+◌, ◌-◌, ◌*◌, ◌/◌, ◌%◌, ◌^◌, Bool, true, false, not, ◌&&◌, ◌||◌, ltb, leb, ◌==◌,
  if◌then◌else◌,
}
use qtrvsim.Cache.Location.{
  CacheConfig, CacheLocation, compute_location, calc_base_address, block_bytes, offset, is_back,
  is_noalloc,
}

pub data AccessType : Type 0 where
  read_access write_access : AccessType

pub data AccessEffects : Type 0 where
  regular internal external_async : AccessEffects

-- What a cache asks of the memory below: the bytes that are read, and whether a write changed one.
pub record BackingMemory (M : Type 0) : Type 0 where
  pub read : M → AccessEffects → ℕ → ℕ → (ℕ → ℕ) × M
  pub write : M → AccessEffects → ℕ → (ℕ → ℕ) → ℕ → Bool × M
  pub sync : M → M
  pub location_status : M → ℕ → ℕ

pub record CachePolicy (P : Type 0) : Type 0 where
  pub select_way_to_evict : P → ℕ → ℕ × P
  pub update_stats : P → ℕ → ℕ → Bool → P

pub record CacheLine : Type 0 where
  pub valid : Bool
  pub dirty : Bool
  pub tag : ℕ
  pub data_bytes : ℕ → ℕ

pub record Counters : Type 0 where
  pub hit_read : ℕ
  pub miss_read : ℕ
  pub hit_write : ℕ
  pub miss_write : ℕ
  pub mem_reads : ℕ
  pub mem_writes : ℕ
  pub burst_reads : ℕ
  pub burst_writes : ℕ
  pub change_counter : ℕ

abbrev pub no_counts : Counters
no_counts = record {
  hit_read = 0;
  miss_read = 0;
  hit_write = 0;
  miss_write = 0;
  mem_reads = 0;
  mem_writes = 0;
  burst_reads = 0;
  burst_writes = 0;
  change_counter = 0;
}

pub record Cache (M P : Type 0) : Type 0 where
  pub mem : M
  pub policy : P
  pub dt : ℕ → ℕ → CacheLine
  pub counters : Counters

abbrev pub u32 : ℕ → ℕ
u32 n = n % 2 ^ 32

abbrev pub set_line : (ℕ → ℕ → CacheLine) → ℕ → ℕ → CacheLine → ℕ → ℕ → CacheLine
set_line dt way row line w r = if w == way && r == row then line else dt w r

abbrev count_hit : AccessType → Counters → Counters
count_hit AccessType.write_access c = record c { hit_write = u32 (c.hit_write + 1) }
count_hit AccessType.read_access c = record c { hit_read = u32 (c.hit_read + 1) }

abbrev count_miss : AccessType → Counters → Counters
count_miss AccessType.write_access c = record c { miss_write = u32 (c.miss_write + 1) }
count_miss AccessType.read_access c = record c { miss_read = u32 (c.miss_read + 1) }

abbrev pub is_write : AccessType → Bool
is_write AccessType.write_access = true
is_write AccessType.read_access = false

-- A line holds the block with the tag.
abbrev pub holds_tag : CacheLine → ℕ → Bool
holds_tag line tag = line.valid && line.tag == tag

-- The loop of `find_block_index` from a way, with `left` ways left.
unfoldable pub find_from : ℕ → ℕ → (ℕ → CacheLine) → ℕ → ℕ
find_from zero index column tag = index
find_from (suc left) index column tag =
    let rest = find_from left (index + 1) column tag in
    if holds_tag (column index) tag then index else rest

-- `memcmp` over the first `n` bytes.
unfoldable pub differs : ℕ → (ℕ → ℕ) → (ℕ → ℕ) → Bool
differs zero a b = false
differs (suc n) a b = let rest = differs n a b in not (a n == b n) || rest

unfoldable pub is_in_uncached_area : ℕ → Bool
is_in_uncached_area source = leb 0xf0000000 source && leb source 0xfffffffe

unfoldable pub calculate_overflow_to_next_blocks : CacheConfig → ℕ → CacheLocation → ℕ
calculate_overflow_to_next_blocks config access_size loc =
    offset loc + access_size - block_bytes config

module _ {M P : Type 0} where
  unfoldable pub find_block_index : CacheConfig → Cache M P → CacheLocation → ℕ
  find_block_index config s loc = find_from config.associativity 0 (λ w. s.dt w loc.row) loc.tag

module _ {M P : Type 0} (config : CacheConfig) (below : BackingMemory M)
    (policy : CachePolicy P) where
  -- The writing back of a line that is thrown out.
  unfoldable pub write_back : ℕ → ℕ → Cache M P → Cache M P
  write_back way row s =
      let cd = s.dt way row in
      let (changed, mem) =
        below.write s.mem AccessEffects.regular (calc_base_address config cd.tag row) cd.data_bytes
          (block_bytes config) in
      if cd.dirty && is_back config.write_policy
      then record s {
        mem = mem;
        counters = record s.counters {
          mem_writes = u32 (s.counters.mem_writes + config.block_size);
          burst_writes = u32 (s.counters.burst_writes + config.block_size + (2 ^ 32 - 1));
        };
      }
      else s

  unfoldable pub kick : ℕ → ℕ → Cache M P → Cache M P
  kick way row s =
      let t = write_back way row s in
      record t {
        dt = set_line t.dt way row (record (t.dt way row) { valid = false; dirty = false });
        policy = policy.update_stats t.policy way row false;
        counters = record t.counters { change_counter = u32 (t.counters.change_counter + 1) };
      }

  -- The way of the block, after a kick where no way holds it.
  unfoldable pub place : CacheLocation → Cache M P → ℕ × Cache M P
  place loc s =
      let way = find_block_index config s loc in
      let (victim, p) = policy.select_way_to_evict s.policy loc.row in
      if ltb way config.associativity
      then (way, s)
      else (victim, kick victim loc.row (record s { policy = p }))

  unfoldable pub read_block : ℕ → CacheLocation → AccessType → Cache M P → Cache M P
  read_block way loc access_type s =
      let missed = count_miss access_type s.counters in
      let (bytes, mem) =
        below.read s.mem AccessEffects.regular (calc_base_address config loc.tag loc.row)
          (block_bytes config) in
      record s {
        mem = mem;
        dt =
            set_line s.dt way loc.row
              (record { valid = true; dirty = false; tag = loc.tag; data_bytes = bytes });
        counters = record missed {
          change_counter = u32 (missed.change_counter + config.block_size);
          mem_reads = u32 (missed.mem_reads + config.block_size);
          burst_reads = u32 (missed.burst_reads + config.block_size + (2 ^ 32 - 1));
        };
      }

  -- The line that the access goes to, filled where it is not valid.
  unfoldable pub fill : ℕ → CacheLocation → AccessType → Cache M P → Cache M P
  fill way loc access_type s =
      let hit = record s { counters = count_hit access_type s.counters } in
      let t = if (s.dt way loc.row).valid then hit else read_block way loc access_type s in
      record t { policy = policy.update_stats t.policy way loc.row (t.dt way loc.row).valid }

  -- The bytes between the buffer and the line.
  unfoldable pub transfer :
      ℕ → CacheLocation → (ℕ → ℕ) → ℕ → AccessType → Cache M P → (ℕ → ℕ) × Bool × Cache M P
  transfer way loc buffer size AccessType.read_access s =
      let cd = s.dt way loc.row in
      (λ i. if ltb i size then cd.data_bytes (offset loc + i) else buffer i, false, s)
  transfer way loc buffer size AccessType.write_access s =
      let cd = s.dt way loc.row in
      let changed = differs size (λ i. cd.data_bytes (offset loc + i)) buffer in
      let stored : ℕ → ℕ = λ i.
        if leb (offset loc) i && ltb i (offset loc + size)
        then buffer (i - offset loc)
        else cd.data_bytes i in
      let line = record cd {
        dirty = true;
        data_bytes = if changed then stored else cd.data_bytes;
      } in
      let counted = u32 (s.counters.change_counter + 1) in
      (
        buffer,
        changed,
        record s {
          dt = set_line s.dt way loc.row line;
          counters = if changed then record s.counters { change_counter = counted } else s.counters;
        },
      )

  -- The part of an access that lies in the first block: a write that misses and does not allocate
  -- leaves the cache alone.
  unfoldable pub access_block :
      ℕ → (ℕ → ℕ) → ℕ → AccessType → Cache M P → (ℕ → ℕ) × Bool × Cache M P
  access_block address buffer within access_type s =
      let loc = compute_location config address in
      let missed = not (ltb (find_block_index config s loc) config.associativity) in
      let skipped = record s { counters = count_miss access_type s.counters } in
      let (way, placed) = place loc s in
      if missed && is_write access_type && is_noalloc config.write_policy
      then (buffer, false, skipped)
      else transfer way loc buffer within access_type (fill way loc access_type placed)

  -- On fuel; the size is enough, as each block takes a byte at least.
  unfoldable pub access : ℕ → ℕ → (ℕ → ℕ) → ℕ → AccessType → Cache M P → (ℕ → ℕ) × Bool × Cache M P
  access zero address buffer size access_type s = (buffer, false, s)
  access (suc fuel) address buffer size access_type s =
      let over = calculate_overflow_to_next_blocks config size (compute_location config address) in
      let within = size - over in
      let (first, changed, t) = access_block address buffer within access_type s in
      let (rest, changed_rest, u) =
        access fuel ((address + within) % 2 ^ 64) (λ i. first (i + within)) over access_type t in
      if size == 0
      then (buffer, false, s)
      else if over == 0
      then (first, changed, t)
      else (λ i. if ltb i within then first i else rest (i - within), changed || changed_rest, u)
