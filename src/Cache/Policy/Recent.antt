-- ===== src/Cache/Policy/Recent.antt =====
-- `CachePolicyNMRU` and `CachePolicyRAND`. The number that `std::rand` returns is an argument.
use qtrvsim.Base.{
  ℕ, ◌+◌, ◌-◌, ◌%◌, ◌<◌, ◌≡◌, ◌≢◌, refl, false, Option, some, List, get_elem?, get_elem?-set_self,
  set, replicate, ltb, ◌==◌, if◌then◌else◌, arith,
}
use mathlib.Core.Option
use native.Mathlib.Nat.{mod-lt}

pub record CachePolicyNmru : Type 0 where
  pub mru_ptr : List ℕ
  pub associativity : ℕ

unfoldable pub make : ℕ → ℕ → CachePolicyNmru
make associativity set_count = record {
  mru_ptr = replicate set_count 0;
  associativity = associativity;
}

unfoldable pub update_stats : CachePolicyNmru → ℕ → ℕ → Option CachePolicyNmru
update_stats p way row =
    Option.map (λ _. record p { mru_ptr = set p.mru_ptr row way }) (get_elem? p.mru_ptr row)

-- The way that is drawn among the others than the most recent one.
abbrev skip_recent : ℕ → ℕ → ℕ
skip_recent row_ptr idx = if ltb idx row_ptr then idx else idx + 1

unfoldable pub select_way_to_evict : CachePolicyNmru → ℕ → ℕ → Option ℕ
select_way_to_evict p row rand =
    if p.associativity == 1
    then some 0
    else Option.map (λ row_ptr. skip_recent row_ptr (rand % (p.associativity - 1)))
        (get_elem? p.mru_ptr row)

-- `CachePolicyRAND::select_way_to_evict`
unfoldable pub select_random : ℕ → ℕ → ℕ
select_random associativity rand = rand % associativity

-- With more than one way, the policy evicts one of the ways, whatever the random number is, and never
-- the way of the latest update of the row.
pub select_way_to_evict-update_stats :
    (p : CachePolicyNmru) (way row rand : ℕ) {old : ℕ}
    → get_elem? p.mru_ptr row ≡ some old
    → 1 < p.associativity
    → way < p.associativity
    → (p' : CachePolicyNmru) × (victim : ℕ) × (update_stats p way row ≡ some p')
      × (select_way_to_evict p' row rand ≡ some victim)
      × (victim < p.associativity)
      × (victim ≢ way)
unfolding update_stats select_way_to_evict
select_way_to_evict-update_stats p way row rand read several inside =
    let draw : rand % (p.associativity - 1) < p.associativity - 1 = mod-lt rand (omega arith) in
    let one : (p.associativity == 1) ≡ false = ground arith in
    (
      record p { mru_ptr = set p.mru_ptr row way },
      skip_recent way (rand % (p.associativity - 1)),
      rw read refl,
      rw (one, get_elem?-set_self p.mru_ptr row way read) refl,
      ground arith,
      ground arith,
    )
