-- ===== src/Cache/Tests.antt =====
-- Runs of the replacement policies on small rows.
use qtrvsim.Base.{ℕ, zero, suc, ◌<◌, ◌≤◌, ◌≡◌, ◌≢◌, refl, true, false, some, [], ◌∷◌, get_or, arith}
use qtrvsim.Cache.Policy.Queue
use qtrvsim.Cache.Policy.Queue.{CachePolicyLru, update_row}
use qtrvsim.Cache.Policy.Queue.Move.{update_row_lem}
use qtrvsim.Cache.Policy.Queue.Rows.{IsQueue, select_way_to_evict-update_row}
use qtrvsim.Cache.Policy.Frequency
use qtrvsim.Cache.Policy.Frequency.{CachePolicyLfu, select_way_to_evict_least}
use qtrvsim.Cache.Policy.Tree
use qtrvsim.Cache.Policy.Tree.{CachePolicyPlru}
use qtrvsim.Cache.Policy.Tree.Away.{select_way_to_evict-point_away}
use qtrvsim.Cache.Policy.Recent.{CachePolicyNmru}

two_ways : (w : ℕ) → w < 2 → Queue.Move.count w (1 ∷ 0 ∷ []) ≡ 1
two_ways w h = ground arith

two_ways-IsQueue : IsQueue 2 (1 ∷ 0 ∷ [])
two_ways-IsQueue = record { size = refl; once = two_ways }

abbrev one_queue : CachePolicyLru
one_queue = record { stats = (1 ∷ 0 ∷ []) ∷ []; associativity = 2 }

select_way_to_evict-update_row_example :
    ((p' : CachePolicyLru) × (Queue.update_stats one_queue 1 0 false ≡ some p')
      × (Queue.select_way_to_evict p' 0 ≡ some 1))
    × ((p' : CachePolicyLru) × (victim : ℕ) × (Queue.update_stats one_queue 1 0 true ≡ some p')
        × (Queue.select_way_to_evict p' 0 ≡ some victim)
        × (victim ≢ 1))
select_way_to_evict-update_row_example =
    select_way_to_evict-update_row one_queue 0 1 (1 ∷ 0 ∷ []) refl two_ways-IsQueue (omega arith)
      (omega arith)

abbrev one_count : CachePolicyLfu
one_count = record { stats = (3 ∷ 1 ∷ 2 ∷ []) ∷ [] }

select_way_to_evict_least_example :
    (victim : ℕ) × (Frequency.select_way_to_evict one_count 0 ≡ some victim)
    × (victim < 3)
    × ((j : ℕ) → j < 3 → get_or (3 ∷ 1 ∷ 2 ∷ []) victim 0 ≤ get_or (3 ∷ 1 ∷ 2 ∷ []) j 0)
select_way_to_evict_least_example =
    select_way_to_evict_least one_count 0 (3 ∷ 1 ∷ 2 ∷ []) refl (omega arith)

abbrev one_tree : CachePolicyPlru
one_tree = record { plru_ptr = (0 ∷ 0 ∷ 1 ∷ []) ∷ []; associativity = 3; associativity_c_log2 = 2 }

pointer_bits : (i : ℕ) → get_or (0 ∷ 0 ∷ 1 ∷ []) i 0 ≤ 1
pointer_bits zero = omega arith
pointer_bits (suc zero) = omega arith
pointer_bits (suc (suc zero)) = omega arith
pointer_bits (suc (suc (suc i))) = omega arith

select_way_to_evict-point_away_example :
    (p' : CachePolicyPlru) × (victim : ℕ) × (Tree.update_stats one_tree 2 0 ≡ some p')
    × (Tree.select_way_to_evict p' 0 ≡ some victim)
    × (victim < 3)
    × (victim ≢ 2)
select_way_to_evict-point_away_example =
    select_way_to_evict-point_away one_tree 1 2 0 (0 ∷ 0 ∷ 1 ∷ []) refl (omega arith) (omega arith)
      refl (record { root = omega arith; bits = pointer_bits }) (omega arith)

abbrev one_pointer : CachePolicyNmru
one_pointer = record { mru_ptr = 0 ∷ []; associativity = 4 }
