-- ===== src/Tlb/Policy/Least.antt =====
-- The way that the least frequently used policy of the TLB takes.
use qtrvsim.Base.{
  ℕ, zero, suc, ◌+◌, ◌≤◌, ◌<◌, ◌≡◌, refl, ap, ◌∙◌, ◌⊎◌, inl, inr, Bool-cases, some, List, [], ◌∷◌,
  length, get_or, get_elem?, ltb, ltb→lt, ltb-false→le, ◌==◌, ==_iff, arith,
}
use mathlib.Core.Option
use qtrvsim.Tlb.Policy.{TlbPolicy, least_from, select_way}

least_cons :
    (count m : ℕ) (counts : List ℕ)
    → m ≤ count
    → ((j : ℕ) → j < length counts → m ≤ get_or counts j 0)
    → (j : ℕ) → j < suc (length counts)
    → m ≤ get_or (count ∷ counts) j 0
least_cons count m counts le least zero h = le
least_cons count m counts le least (suc j) h = least j (omega arith)

-- Where the loop ends: at the position it started with, or at a lower count further on.
least_from_lem :
    (counts : List ℕ) (i minv idx : ℕ)
    → ((least_from counts i minv idx ≡ idx)
        × ((j : ℕ) → j < length counts → minv ≤ get_or counts j 0))
      ⊎ ((k : ℕ) × (k < length counts)
          × (least_from counts i minv idx ≡ i + k)
          × (get_or counts k 0 ≤ minv)
          × ((j : ℕ) → j < length counts → get_or counts k 0 ≤ get_or counts j 0))
unfolding least_from
least_from_lem [] i minv idx = inl (refl, λ j h. absurd (omega arith))
least_from_lem (count ∷ counts) i minv idx = elim (Bool-cases (count == 0)) [
  | inl z ↦
      let e = (==_iff count 0).0 z in
      inr (0, omega arith, rw z (omega arith), omega arith, λ j h. omega arith)
  | inr nz ↦ elim (Bool-cases (ltb count minv)) [
    | inl lower ↦
        let less = ltb→lt count minv lower in
        elim (least_from_lem counts (i + 1) count i) [
          | inl (r, least) ↦ inr (
            0,
            omega arith,
            rw (nz, lower, r) (omega arith),
            omega arith,
            least_cons count count counts (omega arith) least,
          )
          | inr (k, inside, r, low, least) ↦ inr (
            suc k,
            omega arith,
            rw (nz, lower, r) (omega arith),
            omega arith,
            least_cons count (get_or counts k 0) counts low least,
          )
        ]
    | inr higher ↦
        let more = ltb-false→le count minv higher in
        elim (least_from_lem counts (i + 1) minv idx) [
          | inl (r, least) ↦ inl (rw (nz, higher, r) refl, least_cons count minv counts more least)
          | inr (k, inside, r, low, least) ↦ inr (
            suc k,
            omega arith,
            rw (nz, higher, r) (omega arith),
            low,
            least_cons count (get_or counts k 0) counts (omega arith) least,
          )
        ]
  ]
]

-- The least frequently used policy takes a way of the set with the lowest count of the set: in a set
-- of at least one way, no way has a lower count than the taken one.
pub select_way_lem :
    (stats : List (List ℕ)) (index random : ℕ) (counts : List ℕ)
    → get_elem? stats index ≡ some counts
    → 0 < length counts
    → (victim : ℕ) × (select_way (TlbPolicy.lfu stats) index random ≡ some victim)
      × (victim < length counts)
      × ((j : ℕ) → j < length counts → get_or counts victim 0 ≤ get_or counts j 0)
unfolding select_way Option.bind
select_way_lem stats index random [] read some_way = absurd (omega arith)
select_way_lem stats index random (count ∷ counts) read some_way =
    elim (least_from_lem counts 1 count 0) [
      | inl (r, least) ↦
          (0, rw read (ap some r), some_way, least_cons count count counts (omega arith) least)
      | inr (k, inside, r, low, least) ↦ (
        suc k,
        rw read (ap some (r ∙ omega arith)),
        omega arith,
        least_cons count (get_or counts k 0) counts low least,
      )
    ]
