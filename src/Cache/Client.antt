-- ===== src/Cache/Client.antt =====
-- The operations of `Cache` for its clients, of src/machine/memory/cache/cache.cpp. The results that count
-- bytes are left out, as the caches read and write all of them.
pub mod View
pub mod Flush
pub mod Fault
use qtrvsim.Base.{
  ℕ, zero, suc, ◌+◌, ◌-◌, ◌*◌, ◌%◌, ◌^◌, Bool, true, false, not, ◌&&◌, ◌||◌, ltb, ◌==◌,
  if◌then◌else◌,
}
use qtrvsim.Cache.Location.{CacheConfig, CacheLocation, compute_location, offset, is_back}
use qtrvsim.Cache.Storage.{
  AccessType, AccessEffects, BackingMemory, CachePolicy, CacheLine, Counters, no_counts, Cache, u32,
  holds_tag, find_from, is_in_uncached_area, kick, access,
}

-- The flags `LOCSTAT_CACHED` and `LOCSTAT_DIRTY`, and the test of the first.
abbrev pub locstat_cached : ℕ
locstat_cached = 1

abbrev pub locstat_dirty : ℕ
locstat_dirty = 2

abbrev pub has_cached : ℕ → Bool
has_cached status = status % 2 == 1

abbrev empty_line : CacheLine
empty_line = record { valid = false; dirty = false; tag = 0; data_bytes = λ i. 0 }

unfoldable pub make : {M P : Type 0} → M → P → Cache M P
make mem policy = record {
  mem = mem;
  policy = policy;
  dt = λ way row. empty_line;
  counters = no_counts;
}

-- The access goes to the memory below.
unfoldable pub passes_by : CacheConfig → ℕ → ℕ → Bool
passes_by config address size =
    not config.enabled
    || is_in_uncached_area address
    || is_in_uncached_area ((address + size) % 2 ^ 64)

-- The first way from `index` whose line holds the block, with `left` ways left, and `d` where none does.
unfoldable pub first_way : {A : Type 0} → ℕ → ℕ → (ℕ → CacheLine) → ℕ → A → (CacheLine → A) → A
first_way zero index column tag d f = d
first_way (suc left) index column tag d f =
    let rest = first_way left (index + 1) column tag d f in
    if holds_tag (column index) tag then f (column index) else rest

module _ {M P : Type 0} (config : CacheConfig) where
  -- An address in a block reads on behind it, where the source reads behind the vector of the data.
  unfoldable pub internal_read : Cache M P → ℕ → ℕ → ℕ
  internal_read s source =
      let loc = compute_location config source in
      first_way config.associativity 0 (λ w. s.dt w loc.row) loc.tag (λ i. 0)
        (λ line i. line.data_bytes (offset loc + i))

  unfoldable pub get_hit_count : Cache M P → ℕ
  get_hit_count s = u32 (s.counters.hit_read + s.counters.hit_write)

  unfoldable pub get_miss_count : Cache M P → ℕ
  get_miss_count s = u32 (s.counters.miss_read + s.counters.miss_write)

  -- The arguments are the penalties of a read, a write and a burst, and whether bursts are enabled.
  unfoldable pub get_stall_count : ℕ → ℕ → ℕ → Bool → Cache M P → ℕ
  get_stall_count pen_r pen_w pen_b bursts s =
      let c = s.counters in
      let minus : ℕ → ℕ → ℕ = λ a b. u32 (a + 2 ^ 32 - b) in
      let accesses = u32 (c.mem_reads * minus pen_r 1 + c.mem_writes * minus pen_w 1) in
      let cycles = u32 (accesses + u32 (c.miss_read + c.miss_write) * config.block_size) in
      let saved = u32 (c.burst_reads * minus pen_r pen_b + c.burst_writes * minus pen_w pen_b) in
      if bursts then minus cycles saved else cycles

  -- The counter of changes is kept, and so is the policy.
  unfoldable pub reset : Cache M P → Cache M P
  reset s = record s {
    dt = if config.enabled then (λ way row. record (s.dt way row) { valid = false }) else s.dt;
    counters = record no_counts { change_counter = s.counters.change_counter };
  }

module _ {M P : Type 0} (config : CacheConfig) (below : BackingMemory M)
    (policy : CachePolicy P) where
  unfoldable pub location_status : Cache M P → ℕ → ℕ
  location_status s address =
      let loc = compute_location config address in
      let other = below.location_status s.mem address in
      if config.enabled
      then first_way config.associativity 0 (λ w. s.dt w loc.row) loc.tag other
          (λ line.
            if line.dirty && is_back config.write_policy
            then locstat_cached + locstat_dirty
            else locstat_cached)
      else other

  unfoldable pub write_through : ℕ → (ℕ → ℕ) → ℕ → AccessEffects → Cache M P → Bool × Cache M P
  write_through destination source size options s =
      let (changed, mem) = below.write s.mem options destination source size in
      (
        changed,
        record s {
          mem = mem;
          counters = record s.counters { mem_writes = u32 (s.counters.mem_writes + 1) };
        },
      )

  unfoldable pub write : ℕ → (ℕ → ℕ) → ℕ → AccessEffects → Cache M P → Bool × Cache M P
  write destination source size options s =
      let (bytes, changed, t) =
        access config below policy size destination source size AccessType.write_access s in
      if passes_by config destination size
      then write_through destination source size options s
      else if not (is_back config.write_policy)
      then write_through destination source size options t
      else (changed, t)

  -- The bytes read.
  unfoldable pub read : ℕ → (ℕ → ℕ) → ℕ → AccessEffects → Cache M P → (ℕ → ℕ) × Cache M P
  read source buffer size options s =
      let (past, mem) = below.read s.mem options source size in
      let counted = record s {
        mem = mem;
        counters = record s.counters { mem_reads = u32 (s.counters.mem_reads + 1) };
      } in
      let inside =
        if has_cached (location_status s source)
        then (internal_read config s source, s)
        else (past, record s { mem = mem }) in
      let (bytes, changed, t) =
        access config below policy size source buffer size AccessType.read_access s in
      if passes_by config source size
      then (past, counted)
      else elim options [ AccessEffects.internal ↦ inside | _ ↦ (bytes, t) ]

  -- The rows from `row`, with `left` rows left.
  unfoldable pub flush_rows : ℕ → ℕ → ℕ → Cache M P → Cache M P
  flush_rows zero row way s = s
  flush_rows (suc left) row way s =
      flush_rows left (row + 1) way
        (if (s.dt way row).valid then kick config below policy way row s else s)

  unfoldable pub flush_ways : ℕ → ℕ → Cache M P → Cache M P
  flush_ways zero way s = s
  flush_ways (suc left) way s = flush_ways left (way + 1) (flush_rows config.set_count 0 way s)

  unfoldable pub flush : Cache M P → Cache M P
  flush s =
      let t = flush_ways config.associativity 0 s in
      if config.enabled
      then record t {
        counters = record t.counters { change_counter = u32 (t.counters.change_counter + 1) };
      }
      else s

  unfoldable pub sync : Cache M P → Cache M P
  sync s = let t = flush s in record t { mem = below.sync t.mem }
