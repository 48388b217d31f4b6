-- ===== src/Cache/Storage/Flat.antt =====
-- The simplest memory that keeps the laws: a function from addresses to bytes, for the tests.
use qtrvsim.Base.{ℕ, ◌+◌, refl, true}
use qtrvsim.Cache.Storage.{BackingMemory}
use qtrvsim.Cache.Storage.Relation.{MemoryLaws}
use qtrvsim.Cache.Storage.Kick.{overwritten}

-- The status of every address in the memory below is the argument.
abbrev pub flat_memory : ℕ → BackingMemory (ℕ → ℕ)
flat_memory status = record {
  read = λ m e a n. (λ i. m (a + i), m);
  write = λ m e a source n. (true, overwritten m a source n);
  sync = λ m. m;
  location_status = λ m a. status;
}

abbrev pub flat_memory-laws : MemoryLaws (flat_memory 0)
flat_memory-laws = record {
  IsSound = λ m. Unit {0};
  byte = λ m. m;
  read-byte = λ m e a n i sound fits small. refl;
  byte-read = λ m e a n x sound fits. refl;
  read-IsSound = λ m e a n sound fits. tt;
  byte-write = λ m e a source n x sound fits. refl;
  write-IsSound = λ m e a source n sound fits. tt;
  byte-sync = λ m x sound. refl;
  sync-IsSound = λ m sound. tt;
}
