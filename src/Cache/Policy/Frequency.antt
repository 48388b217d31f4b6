-- ===== src/Cache/Policy/Frequency.antt =====
-- `CachePolicyLFU`: the numbers of accesses to the ways of a row, in `uint32_t`.
use qtrvsim.Base.{
  ℕ, zero, suc, ◌+◌, ◌%◌, ◌^◌, ◌≤◌, ◌<◌, ◌≡◌, refl, Bool, Bool-cases, inl, inr, ◌⊎◌, ap, ◌∙◌,
  Option, none, some, List, [], ◌∷◌, length, get_or, get_elem?, set, replicate, ltb, ltb→lt,
  ltb-false→le, ◌==◌, ==_iff, if◌then◌else◌, arith,
}
use mathlib.Core.Option

pub record CachePolicyLfu : Type 0 where
  pub stats : List (List ℕ)

unfoldable pub make : ℕ → ℕ → CachePolicyLfu
make associativity set_count = record { stats = replicate set_count (replicate associativity 0) }

-- `none` is `std::out_of_range`.
unfoldable pub update_stats : CachePolicyLfu → ℕ → ℕ → Bool → Option CachePolicyLfu
update_stats p way row is_valid = Option.bind (get_elem? p.stats row) λ counts.
    Option.map
      (λ count. record p {
        stats = set p.stats row (set counts way (if is_valid then (count + 1) % 2 ^ 32 else 0));
      })
      (get_elem? counts way)

-- The loop from position `i`, with the lowest count so far and its position: it stops at a zero.
unfoldable pub lowest_from : List ℕ → ℕ → ℕ → ℕ → ℕ
lowest_from [] i lowest index = index
lowest_from (count ∷ counts) i lowest index =
    let lower = lowest_from counts (i + 1) count i in
    let rest = lowest_from counts (i + 1) lowest index in
    if count == 0 then i else if ltb count lowest then lower else rest

-- The loop reads an empty row as out of range.
abbrev select_count : List ℕ → Option ℕ
select_count [] = none
select_count (count ∷ counts) = some (lowest_from (count ∷ counts) 0 count 0)

unfoldable pub select_way_to_evict : CachePolicyLfu → ℕ → Option ℕ
select_way_to_evict p row = Option.bind (get_elem? p.stats row) select_count

first_least :
    (count : ℕ) (counts : List ℕ) (m j : ℕ)
    → j < suc (length counts)
    → m ≤ count
    → ((k : ℕ) → k < length counts → m ≤ get_or counts k 0)
    → m ≤ get_or (count ∷ counts) j 0
first_least count counts m zero h le least = le
first_least count counts m (suc j) h le least = least j (omega arith)

-- Where the loop ends: at the position it started with, or at a lower count further on.
lowest_from_lem :
    (counts : List ℕ) (i lowest index : ℕ)
    → ((lowest_from counts i lowest index ≡ index)
        × ((j : ℕ) → j < length counts → lowest ≤ get_or counts j 0))
      ⊎ ((k : ℕ) × (k < length counts)
          × (lowest_from counts i lowest index ≡ i + k)
          × (get_or counts k 0 ≤ lowest)
          × ((j : ℕ) → j < length counts → get_or counts k 0 ≤ get_or counts j 0))
unfolding lowest_from
lowest_from_lem [] i lowest index = inl (refl, λ j h. absurd (omega arith))
lowest_from_lem (count ∷ counts) i lowest index = elim (Bool-cases (count == 0)) [
  | inl z ↦
      let e = (==_iff count 0).0 z in
      inr (0, omega arith, rw z (omega arith), omega arith, λ j h. omega arith)
  | inr nz ↦ elim (Bool-cases (ltb count lowest)) [
    | inl lower ↦
        let less = ltb→lt count lowest lower in
        elim (lowest_from_lem counts (i + 1) count i) [
          | inl (r, least) ↦ inr (
            0,
            omega arith,
            rw (nz, lower, r) (omega arith),
            omega arith,
            λ j h. first_least count counts count j h (omega arith) least,
          )
          | inr (k, inside, r, low, least) ↦ inr (
            suc k,
            omega arith,
            rw (nz, lower, r) (omega arith),
            omega arith,
            λ j h. first_least count counts (get_or counts k 0) j h low least,
          )
        ]
    | inr higher ↦
        let more = ltb-false→le count lowest higher in
        elim (lowest_from_lem counts (i + 1) lowest index) [
          | inl (r, least) ↦
              inl (rw (nz, higher, r) refl, λ j h. first_least count counts lowest j h more least)
          | inr (k, inside, r, low, least) ↦ inr (
            suc k,
            omega arith,
            rw (nz, higher, r) (omega arith),
            low,
            λ j h. first_least count counts (get_or counts k 0) j h (omega arith) least,
          )
        ]
  ]
]

-- The policy evicts a way of the row with the lowest count of the row: in a row of at least one way,
-- no way has a lower count than the evicted one.
pub select_way_to_evict_least :
    (p : CachePolicyLfu) (row : ℕ) (counts : List ℕ)
    → get_elem? p.stats row ≡ some counts
    → 0 < length counts
    → (victim : ℕ) × (select_way_to_evict p row ≡ some victim)
      × (victim < length counts)
      × ((j : ℕ) → j < length counts → get_or counts victim 0 ≤ get_or counts j 0)
unfolding select_way_to_evict Option.bind
select_way_to_evict_least p row [] read some_way = absurd (omega arith)
select_way_to_evict_least p row (count ∷ counts) read some_way =
    elim (lowest_from_lem (count ∷ counts) 0 count 0) [
      | inl (r, least) ↦ (0, rw read (ap some r), some_way, least)
      | inr (k, inside, r, low, least) ↦ (k, rw read (ap some (r ∙ omega arith)), inside, least)
    ]
