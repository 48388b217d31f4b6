-- ===== src/Tlb/Policy.antt =====
-- The replacement policies of src/machine/memory/tlb/tlb_policy.h and tlb_policy.cpp. The class is the
-- constructor of `TlbPolicy`. `none` is a read past the sets, which the source leaves undefined.
pub mod Agreement
pub mod Least
pub mod Pointers
use qtrvsim.Base.{
  ℕ, zero, suc, ◌+◌, ◌-◌, ◌*◌, ◌/◌, ◌%◌, ◌^◌, min, Bool, true, false, ◌||◌, Option, none, some,
  List, [], ◌∷◌, length, get_or, get_elem?, set, replicate, ltb, leb, ◌==◌, if◌then◌else◌,
}
use mathlib.Core.Option

pub data TlbPolicyKind : Type 0 where
  rand lru lfu plru : TlbPolicyKind

pub data TlbPolicy : Type 0 where
  rand : ℕ → TlbPolicy
  lru : List (List ℕ) → TlbPolicy
  lfu : List (List ℕ) → TlbPolicy
  plru : ℕ → ℕ → List (List ℕ) → TlbPolicy

-- The loop of `TLBPolicyLRU::notify_access` from the back, with `places` positions left.
unfoldable pub pass_back : ℕ → ℕ → ℕ → List ℕ → List ℕ
pass_back zero way next row = row
pass_back (suc i) way next row =
    let out = get_or row i 0 in
    let swapped = set row i next in
    let rest = pass_back i way out swapped in if out == way then swapped else rest

-- The loop from the front, at position `i`.
unfoldable pub pass_front : ℕ → ℕ → ℕ → ℕ → List ℕ → List ℕ
pass_front zero i way next row = row
pass_front (suc places) i way next row =
    let out = get_or row i 0 in
    let swapped = set row i next in
    let rest = pass_front places (suc i) way out swapped in if out == way then swapped else rest

unfoldable pub notify_row : List ℕ → ℕ → Bool → List ℕ
notify_row row way valid =
    if valid then pass_back (length row) way way row else pass_front (length row) 0 way way row

-- The loop of `TLBPolicyLFU::select_way` from position `i`.
unfoldable pub least_from : List ℕ → ℕ → ℕ → ℕ → ℕ
least_from [] i minv idx = idx
least_from (count ∷ counts) i minv idx =
    let lower = least_from counts (i + 1) count i in
    let rest = least_from counts (i + 1) minv idx in
    if count == 0 || ltb count minv then if count == 0 then i else lower else rest

-- An empty row has no first count.
abbrev select_least : List ℕ → Option ℕ
select_least [] = none
select_least (count ∷ counts) = some (least_from counts 1 count 0)

-- The loop of `TLBPolicyPLRU::select_way` at level `lvl`, with `levels` levels left.
unfoldable pub follow_bits : ℕ → ℕ → ℕ → ℕ → List ℕ → ℕ
follow_bits zero lvl node idx bits = idx
follow_bits (suc levels) lvl node idx bits =
    let next = idx * 2 + get_or bits node 0 in
    follow_bits levels (lvl + 1) (2 ^ (lvl + 1) - 1 + next) next bits

-- The loop of `TLBPolicyPLRU::notify_access`: the next node is found from the last direction alone.
unfoldable pub turn_bits : ℕ → ℕ → ℕ → ℕ → List ℕ → List ℕ
turn_bits zero lvl node way bits = bits
turn_bits (suc levels) lvl node way bits =
    let dir = way / 2 ^ levels % 2 in
    let turned = set bits node (if dir == 0 then 1 else 0) in
    turn_bits levels (lvl + 1) (2 ^ (lvl + 1) - 1 + (if dir == 0 then 0 else 1)) way turned

-- `std::iota`
abbrev iota : ℕ → ℕ → List ℕ
iota zero i = []
iota (suc n) i = i ∷ iota n (i + 1)

-- The smallest number of levels, from `levels` on, whose leaves are enough.
abbrev c_log2_from : ℕ → ℕ → ℕ → ℕ
c_log2_from zero levels n = levels
c_log2_from (suc fuel) levels n =
    let more = c_log2_from fuel (levels + 1) n in if leb n (2 ^ levels) then levels else more

-- `make_tlb_policy` and the constructors.
unfoldable pub make_tlb_policy : TlbPolicyKind → ℕ → ℕ → TlbPolicy
make_tlb_policy TlbPolicyKind.rand associativity set_count = TlbPolicy.rand associativity
make_tlb_policy TlbPolicyKind.lru associativity set_count =
    TlbPolicy.lru (replicate set_count (iota associativity 0))
make_tlb_policy TlbPolicyKind.lfu associativity set_count =
    TlbPolicy.lfu (replicate set_count (replicate associativity 0))
make_tlb_policy TlbPolicyKind.plru associativity set_count =
    let levels = c_log2_from associativity 0 associativity in
    TlbPolicy.plru associativity levels (replicate set_count (replicate (2 ^ levels - 1) 0))

-- `random` is the number that `std::rand` returns.
unfoldable pub select_way : TlbPolicy → ℕ → ℕ → Option ℕ
select_way (TlbPolicy.rand associativity) index random = some (random % associativity)
select_way (TlbPolicy.lru stats) index random =
    Option.bind (get_elem? stats index) λ row. get_elem? row 0
select_way (TlbPolicy.lfu stats) index random = Option.bind (get_elem? stats index) select_least
select_way (TlbPolicy.plru associativity levels tree) index random =
    Option.map (λ bits. min (follow_bits levels 0 0 0 bits) (associativity - 1))
      (get_elem? tree index)

unfoldable pub notify_access : TlbPolicy → ℕ → ℕ → Bool → Option TlbPolicy
notify_access (TlbPolicy.rand associativity) index way valid = some (TlbPolicy.rand associativity)
notify_access (TlbPolicy.lru stats) index way valid =
    Option.map (λ row. TlbPolicy.lru (set stats index (notify_row row way valid)))
      (get_elem? stats index)
notify_access (TlbPolicy.lfu stats) index way valid = Option.bind (get_elem? stats index) λ row.
    Option.map
      (λ count.
        TlbPolicy.lfu (set stats index (set row way (if valid then (count + 1) % 2 ^ 32 else 0))))
      (get_elem? row way)
notify_access (TlbPolicy.plru associativity levels tree) index way valid =
    Option.map
      (λ bits. TlbPolicy.plru associativity levels (set tree index (turn_bits levels 0 0 way bits)))
      (get_elem? tree index)
