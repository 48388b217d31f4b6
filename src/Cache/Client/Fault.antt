-- ===== src/Cache/Client/Fault.antt =====
-- What a reset and a look from outside do to blocks that are not in the memory below.
use qtrvsim.Base.{ℕ, ◌≡◌, refl, true, false}
use qtrvsim.Cache.Location.{CacheConfig, calc_base_address, block_bytes}
use qtrvsim.Cache.Storage.{AccessEffects, BackingMemory, CachePolicy, Cache, write_back, kick}
use qtrvsim.Cache.Storage.Relation.{is_pending}
use qtrvsim.Cache.Client.{reset}

module _ {M P : Type 0} (config : CacheConfig) (below : BackingMemory M)
    (policy : CachePolicy P) where
  -- A reset keeps the mark of a line that is still to be written: with writing back, the next time the line
  -- is thrown out its old bytes go to the memory.
  pub kick-reset :
      (s : Cache M P) (way row : ℕ)
      → config.enabled ≡ true
      → is_pending config (s.dt way row) ≡ true
      → let line = s.dt way row in
        (((reset config s).dt way row).valid ≡ false)
        × ((kick config below policy way row (reset config s)).mem
            ≡ (below.write s.mem AccessEffects.regular
                (calc_base_address config line.tag row)
                line.data_bytes
                (block_bytes config)).1)
  unfolding reset kick write_back
  kick-reset s way row enabled pending = rw enabled (refl, rw pending refl)
