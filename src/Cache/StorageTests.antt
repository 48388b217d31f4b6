-- ===== src/Cache/StorageTests.antt =====
-- A cache of two sets, two ways and blocks of one word, over a memory that is a function.
use qtrvsim.Base.{ℕ, ◌+◌, ◌≡◌, ◌<◌, refl, true, false, arith}
use qtrvsim.Cache.Location.{
  CacheConfig, WritePolicy, IsSized, compute_location, calc_base_address, block_bytes, offset,
  calc_base_address-compute_location,
}
use qtrvsim.Cache.Storage.{AccessEffects, CachePolicy, Cache, kick, is_in_uncached_area}
use qtrvsim.Cache.Storage.Kick.{overwritten}
use qtrvsim.Cache.Storage.Flat.{flat_memory, flat_memory-laws}
use qtrvsim.Cache.Client.{make, passes_by, read, write, flush, reset}
use qtrvsim.Cache.Client.View.{IsView, make-IsView, read-IsView, write-IsView}
use qtrvsim.Cache.Client.Flush.{flush-IsView}
use qtrvsim.Cache.Client.Fault.{kick-reset}

abbrev pub small_cache : WritePolicy → CacheConfig
small_cache policy = record {
  enabled = true;
  set_count = 2;
  block_size = 1;
  associativity = 2;
  write_policy = policy;
}

abbrev back : CacheConfig
back = small_cache WritePolicy.wp_back

small_cache-IsSized : (policy : WritePolicy) → IsSized (small_cache policy)
small_cache-IsSized policy = (omega arith, omega arith, omega arith)

abbrev first_policy : CachePolicy ℕ
first_policy = record { select_way_to_evict = λ p row. (0, p); update_stats = λ p way row valid. p }

first_policy_chooses : (p row : ℕ) → (first_policy.select_way_to_evict p row).0 < 2
first_policy_chooses p row = omega arith

abbrev bytes_of : ℕ → ℕ
bytes_of x = x

abbrev empty_cache : Cache (ℕ → ℕ) ℕ
empty_cache = make bytes_of 0

here : passes_by back 6 4 ≡ false
unfolding passes_by is_in_uncached_area
here = refl

empty_cache-IsView :
    IsView back
      (small_cache-IsSized WritePolicy.wp_back)
      (flat_memory 0)
      flat_memory-laws
      first_policy
      first_policy_chooses
      empty_cache
      bytes_of
empty_cache-IsView =
    make-IsView back (small_cache-IsSized WritePolicy.wp_back) (flat_memory 0) flat_memory-laws
      first_policy first_policy_chooses bytes_of 0 tt

calc_base_address-compute_location_example :
    let config = small_cache WritePolicy.wp_back in
    let loc = compute_location config 1006 in
    (calc_base_address config loc.tag loc.row + offset loc ≡ 1006)
    × (offset loc < block_bytes config)
    × (loc.row < 2)
calc_base_address-compute_location_example =
    calc_base_address-compute_location (small_cache WritePolicy.wp_back)
      (small_cache-IsSized WritePolicy.wp_back) 1006 (omega arith)

read-IsView_example :
    let (bytes, t) =
      read back (flat_memory 0) first_policy 6 (λ i. 0) 4 AccessEffects.regular empty_cache in
    IsView back
      (small_cache-IsSized WritePolicy.wp_back)
      (flat_memory 0)
      flat_memory-laws
      first_policy
      first_policy_chooses
      t
      bytes_of
    × ((i : ℕ) → i < 4 → bytes i ≡ 6 + i)
read-IsView_example =
    read-IsView back (small_cache-IsSized WritePolicy.wp_back) (flat_memory 0) flat_memory-laws
      first_policy first_policy_chooses empty_cache bytes_of (λ i. 0) 6 4 here empty_cache-IsView
      (omega arith) (omega arith)

-- The cache after four bytes over two blocks were written.
abbrev written_cache : Cache (ℕ → ℕ) ℕ
written_cache =
    (write back (flat_memory 0) first_policy 6 (λ i. 200 + i) 4 AccessEffects.regular empty_cache).1

abbrev written_view : ℕ → ℕ
written_view = overwritten bytes_of 6 (λ i. 200 + i) 4

written_cache-IsView :
    IsView back
      (small_cache-IsSized WritePolicy.wp_back)
      (flat_memory 0)
      flat_memory-laws
      first_policy
      first_policy_chooses
      written_cache
      written_view
written_cache-IsView =
    write-IsView back (small_cache-IsSized WritePolicy.wp_back) (flat_memory 0) flat_memory-laws
      first_policy first_policy_chooses empty_cache bytes_of (λ i. 200 + i) 6 4
      AccessEffects.regular here empty_cache-IsView (omega arith) (omega arith)

-- The same place is written once more.
write-IsView_example :
    IsView back
      (small_cache-IsSized WritePolicy.wp_back)
      (flat_memory 0)
      flat_memory-laws
      first_policy
      first_policy_chooses
      (write back (flat_memory 0) first_policy 6 (λ i. i) 4 AccessEffects.regular written_cache).1
      (overwritten written_view 6 (λ i. i) 4)
write-IsView_example =
    write-IsView back (small_cache-IsSized WritePolicy.wp_back) (flat_memory 0) flat_memory-laws
      first_policy first_policy_chooses written_cache written_view (λ i. i) 6 4
      AccessEffects.regular here written_cache-IsView (omega arith) (omega arith)

flush-IsView_example :
    let t = flush back (flat_memory 0) first_policy written_cache in
    IsView back
      (small_cache-IsSized WritePolicy.wp_back)
      (flat_memory 0)
      flat_memory-laws
      first_policy
      first_policy_chooses
      t
      written_view
    × ((w r : ℕ) → w < 2 → r < 2 → (t.dt w r).valid ≡ false)
    × ((x : ℕ) → t.mem x ≡ written_view x)
flush-IsView_example =
    flush-IsView back (small_cache-IsSized WritePolicy.wp_back) (flat_memory 0) flat_memory-laws
      first_policy first_policy_chooses written_cache written_view refl written_cache-IsView

abbrev dirty_cache : Cache (ℕ → ℕ) ℕ
dirty_cache = record empty_cache {
  dt = λ w r. record { valid = true; dirty = true; tag = 5; data_bytes = λ i. 77 };
}

kick-reset_example :
    (((reset back dirty_cache).dt 1 0).valid ≡ false)
    × ((kick back (flat_memory 0) first_policy 1 0 (reset back dirty_cache)).mem
        ≡ overwritten bytes_of (calc_base_address back 5 0) (λ i. 77) 4)
unfolding make
kick-reset_example = kick-reset back (flat_memory 0) first_policy dirty_cache 1 0 refl refl
