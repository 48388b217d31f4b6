-- ===== src/Cache/Policy/Queue.antt =====
-- `CachePolicyLRU`: the queue of the ways of a row, from the last accessed one to the most recent.
pub mod Move
pub mod Rows
use qtrvsim.Base.{
  ℕ, zero, suc, ◌+◌, Bool, true, false, Option, none, some, List, [], ◌∷◌, map, length, get_or,
  get_elem?, set, replicate, leb, ◌==◌, if◌then◌else◌,
}
use mathlib.Core.Option

-- The bubble pass: it found the way's old place, or ran past the end of the queue with a way in hand.
pub data Pass : Type 0 where
  found : List ℕ → Pass
  past_end : ℕ → List ℕ → Pass

-- The `do` loop from the back: `places` are the positions left below the last one visited.
unfoldable pub from_back : ℕ → ℕ → ℕ → List ℕ → Pass
from_back zero way next_way row = past_end next_way row
from_back (suc i) way next_way row =
    let out = get_or row i 0 in
    let swapped = set row i next_way in
    let rest = from_back i way out swapped in if out == way then found swapped else rest

-- The `do` loop from the front, at position `i` with `places` positions left.
unfoldable pub from_front : ℕ → ℕ → ℕ → ℕ → List ℕ → Pass
from_front zero i way next_way row = past_end next_way row
from_front (suc places) i way next_way row =
    let out = get_or row i 0 in
    let swapped = set row i next_way in
    let rest = from_front places (suc i) way out swapped in
    if out == way then found swapped else rest

-- A row has `associativity` ways from the constructor on, so the pass from the back starts at its end.
-- `none` is the exception that the way was lost.
abbrev pub of_pass : Pass → Option (List ℕ)
of_pass (found row) = some row
of_pass (past_end next_way row) = none

unfoldable pub update_row : List ℕ → ℕ → Bool → Option (List ℕ)
update_row row way is_valid =
    of_pass (
      if is_valid
      then from_back (length row) way way row
      else from_front (length row) 0 way way row)

pub record CachePolicyLru : Type 0 where
  pub stats : List (List ℕ)
  pub associativity : ℕ

abbrev pub count_up : ℕ → ℕ → List ℕ
count_up zero i = []
count_up (suc n) i = i ∷ count_up n (i + 1)

-- The constructor.
unfoldable pub make : ℕ → ℕ → CachePolicyLru
make associativity set_count = record {
  stats = replicate set_count (count_up associativity 0);
  associativity = associativity;
}

unfoldable pub update_stats : CachePolicyLru → ℕ → ℕ → Bool → Option CachePolicyLru
update_stats p way row is_valid = Option.bind (get_elem? p.stats row) λ queue.
    Option.map (λ moved. record p { stats = set p.stats row moved }) (update_row queue way is_valid)

unfoldable pub select_way_to_evict : CachePolicyLru → ℕ → Option ℕ
select_way_to_evict p row = Option.bind (get_elem? p.stats row) λ queue. get_elem? queue 0
