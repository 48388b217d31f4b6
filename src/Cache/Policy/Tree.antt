-- ===== src/Cache/Policy/Tree.antt =====
-- `CachePolicyPLRU`: a binary tree of pointers, 0 to the left and 1 to the right, level by level.
pub mod Away
use qtrvsim.Base.{
  ℕ, zero, suc, ◌+◌, ◌-◌, ◌*◌, ◌/◌, ◌%◌, ◌^◌, Bool, true, false, Option, none, some, List, [], ◌∷◌,
  length, get_or, get_elem?, set, replicate, leb, ◌==◌, if◌then◌else◌,
}
use mathlib.Core.Option

-- `associativity_c_log2` is the rounded-up logarithm, which the source takes in floating point.
pub record CachePolicyPlru : Type 0 where
  pub plru_ptr : List (List ℕ)
  pub associativity : ℕ
  pub associativity_c_log2 : ℕ

-- The smallest number of levels, from `levels` on, whose leaves are enough.
abbrev c_log2_from : ℕ → ℕ → ℕ → ℕ
c_log2_from zero levels n = levels
c_log2_from (suc fuel) levels n =
    let more = c_log2_from fuel (levels + 1) n in if leb n (2 ^ levels) then levels else more

unfoldable pub make : ℕ → ℕ → CachePolicyPlru
make associativity set_count =
    let levels = c_log2_from associativity 0 associativity in
    record {
      plru_ptr = replicate set_count (replicate (2 ^ levels - 1) 0);
      associativity = associativity;
      associativity_c_log2 = levels;
    }

-- The loop of `update_stats` at level `i`, with `levels` levels left.
unfoldable pub point_away : ℕ → ℕ → ℕ → ℕ → List ℕ → List ℕ
point_away zero i plru_idx way row_ptr = row_ptr
point_away (suc levels) i plru_idx way row_ptr =
    let pointer = if way / 2 ^ levels % 2 == 1 then 0 else 1 in
    point_away levels (i + 1) (2 ^ (i + 1) - 1 + way / 2 ^ levels) way
      (set row_ptr plru_idx pointer)

-- The loop of `select_way_to_evict` at level `i`, with `levels` levels left.
unfoldable pub follow : ℕ → ℕ → ℕ → ℕ → List ℕ → ℕ
follow zero i plru_idx idx row_ptr = idx
follow (suc levels) i plru_idx idx row_ptr =
    let next = idx * 2 + get_or row_ptr plru_idx 0 in
    follow levels (i + 1) (2 ^ (i + 1) - 1 + next) next row_ptr

unfoldable pub update_stats : CachePolicyPlru → ℕ → ℕ → Option CachePolicyPlru
update_stats p way row =
    Option.map
      (λ row_ptr. record p {
        plru_ptr = set p.plru_ptr row (point_away p.associativity_c_log2 0 0 way row_ptr);
      })
      (get_elem? p.plru_ptr row)

unfoldable pub select_way_to_evict : CachePolicyPlru → ℕ → Option ℕ
select_way_to_evict p row =
    Option.map
      (λ row_ptr.
        let idx = follow p.associativity_c_log2 0 0 0 row_ptr in
        if leb p.associativity idx then p.associativity - 1 else idx)
      (get_elem? p.plru_ptr row)
