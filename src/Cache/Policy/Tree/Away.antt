-- ===== src/Cache/Policy/Tree/Away.antt =====
-- Where the pointers of `CachePolicyPLRU` lead after an access.
use qtrvsim.Base.{
  ℕ, zero, suc, ◌+◌, ◌-◌, ◌*◌, ◌/◌, ◌%◌, ◌^◌, ◌≤◌, ◌<◌, ◌≡◌, ◌≢◌, refl, ap, ◌∙◌, Bool, true, false,
  Bool-cases, inl, inr, some, List, [], ◌∷◌, length, get_or, get_or-set_self, get_or-set_ne,
  get_elem?, get_elem?-set_self, set, leb, ◌==◌, if◌then◌else◌, arith, ◌⊎◌, ltb, ltb→lt,
  ltb-false→le,
}
use native.Mathlib.Nat.{one-le-pow, div-eq_of_lt, div-eq_of_lt-le, mul-le-mul, le_refl}
use qtrvsim.Base.Bits.{pow-add}
use qtrvsim.Cache.Policy.Tree.{
  CachePolicyPlru, point_away, follow, update_stats, select_way_to_evict,
}

pub record IsTree (row_ptr : List ℕ) : Type 0 where
  pub root : 0 < length row_ptr
  pub bits : (i : ℕ) → get_or row_ptr i 0 ≤ 1

set-bits : (row : List ℕ) (i v j : ℕ) → get_or row j 0 ≤ 1 → v ≤ 1 → get_or (set row i v) j 0 ≤ 1
set-bits [] i v j h k = h
set-bits (x ∷ row) zero v zero h k = k
set-bits (x ∷ row) zero v (suc j) h k = h
set-bits (x ∷ row) (suc i) v zero h k = h
set-bits (x ∷ row) (suc i) v (suc j) h k = set-bits row i v j h k

pointer-le : (b : Bool) → (if b then 0 else 1) ≤ 1
pointer-le true = omega arith
pointer-le false = omega arith

point_away-bits :
    (levels i plru_idx way : ℕ) (row : List ℕ)
    → ((j : ℕ) → get_or row j 0 ≤ 1)
    → ((j : ℕ) → get_or (point_away levels i plru_idx way row) j 0 ≤ 1)
unfolding point_away
point_away-bits zero i plru_idx way row h = h
point_away-bits (suc levels) i plru_idx way row h =
    point_away-bits levels (i + 1) _ way _ (λ j. set-bits row plru_idx _ j (h j) (pointer-le _))

below_root : (i k : ℕ) → 0 < i → 0 < 2 ^ i - 1 + k
below_root zero k h = absurd (omega arith)
below_root (suc i) k h = omega (arith, one-le-pow i 2 (omega arith), pow-add i 1)

point_away-root :
    (levels i plru_idx way : ℕ) (row : List ℕ)
    → 0 < plru_idx
    → get_or (point_away levels i plru_idx way row) 0 0 ≡ get_or row 0 0
unfolding point_away
point_away-root zero i plru_idx way row h = refl
point_away-root (suc levels) i plru_idx way row h =
    point_away-root levels (i + 1) _ way _ (below_root (i + 1) _ (omega arith))
    ∙ get_or-set_ne row plru_idx 0 _ 0 (λ e. omega (arith, e))

-- The leaves that are left below a node.
follow-range :
    (levels i plru_idx idx : ℕ) (row : List ℕ)
    → ((j : ℕ) → get_or row j 0 ≤ 1)
    → (idx * 2 ^ levels ≤ follow levels i plru_idx idx row)
      × (follow levels i plru_idx idx row < (idx + 1) * 2 ^ levels)
unfolding follow
follow-range zero i plru_idx idx row h = (omega arith, omega arith)
follow-range (suc levels) i plru_idx idx row h =
    let bit = get_or row plru_idx 0 in
    let small = h plru_idx in
    let (low, high) =
      follow-range levels (i + 1) (2 ^ (i + 1) - 1 + (idx * 2 + bit)) (idx * 2 + bit) row h in
    let whole : 2 ^ suc levels ≡ 2 * 2 ^ levels = omega (arith, pow-add levels 1) in
    let one_bit : bit * 2 ^ levels ≤ 1 * 2 ^ levels = mul-le-mul small (le_refl (2 ^ levels)) in
    rw whole (omega arith, omega arith)

-- The top bit of a way says in which half it is.
half_of :
    (m way : ℕ)
    → way < 2 * m
    → ((way < m) × ((way / m % 2 == 1) ≡ false)) ⊎ ((m ≤ way) × ((way / m % 2 == 1) ≡ true))
half_of m way inside = elim (Bool-cases (ltb way m)) [
  | inl less ↦ let h = ltb→lt way m less in inl (h, ap (λ (q : ℕ). q % 2 == 1) (div-eq_of_lt h))
  | inr more ↦
      let h = ltb-false→le way m more in
      inr (h, ap (λ (q : ℕ). q % 2 == 1) (div-eq_of_lt-le {k = 1} m (omega arith) (omega arith)))
]

lower_leaf : (top leaf m : ℕ) → top ≡ 0 → leaf < (0 * 2 + top + 1) * m → leaf < m
lower_leaf top leaf m e h = let same : (0 * 2 + top + 1) * m ≡ m = rw e (omega arith) in omega arith

upper_leaf :
    (top leaf m : ℕ)
    → top ≡ 1
    → (0 * 2 + top) * m ≤ leaf
    → leaf < (0 * 2 + top + 1) * m
    → (m ≤ leaf) × (leaf < 2 * m)
upper_leaf top leaf m e low high =
    let one : (0 * 2 + top) * m ≡ m = rw e (omega arith) in
    let two : (0 * 2 + top + 1) * m ≡ 2 * m = rw e (omega arith) in (omega arith, omega arith)

-- The leaf that the pointers lead to after an access is in the half of the tree without the way.
half_away :
    (l way : ℕ) (row : List ℕ)
    → IsTree row
    → way < 2 * 2 ^ l
    → let leaf = follow (suc l) 0 0 0 (point_away (suc l) 0 0 way row) in
      ((way < 2 ^ l) × (2 ^ l ≤ leaf) × (leaf < 2 * 2 ^ l)) ⊎ ((2 ^ l ≤ way) × (leaf < 2 ^ l))
unfolding follow point_away
half_away l way row t inside =
    let pointer : ℕ = if way / 2 ^ l % 2 == 1 then 0 else 1 in
    let pointed = set row 0 pointer in
    let rest = point_away l 1 (2 ^ 1 - 1 + way / 2 ^ l) way pointed in
    let bits =
      point_away-bits l 1 (2 ^ 1 - 1 + way / 2 ^ l) way pointed
        (λ j. set-bits row 0 pointer j (t.bits j) (pointer-le _)) in
    let top : get_or rest 0 0 ≡ pointer =
      point_away-root l 1 (2 ^ 1 - 1 + way / 2 ^ l) way pointed (omega arith)
      ∙ get_or-set_self row 0 pointer 0 t.root in
    let next = 0 * 2 + get_or rest 0 0 in
    let (low, high) = follow-range l 1 (2 ^ 1 - 1 + next) next rest bits in
    elim (half_of (2 ^ l) way inside) [
      | inl (below, bit) ↦
          let (u, v) = upper_leaf _ _ _ (top ∙ rw bit refl) low high in inl (below, u, v)
      | inr (above, bit) ↦ inr (above, lower_leaf _ _ _ (top ∙ rw bit refl) high)
    ]

clamp-lt : (n leaf : ℕ) → 0 < n → (if leb n leaf then n - 1 else leaf) < n
clamp-lt n leaf h = ground arith

clamp-ne :
    (n leaf way m : ℕ)
    → ((way < m) × (m ≤ leaf) × (leaf < 2 * m)) ⊎ ((m ≤ way) × (leaf < m))
    → way < n
    → m < n
    → (if leb n leaf then n - 1 else leaf) ≢ way
clamp-ne n leaf way m half inside many e = ground arith

-- After an access to a way, where the row has another way, the policy evicts another way of the row;
-- the tree has as many levels as the number of ways asks for, and all its pointers are 0 or 1.
pub select_way_to_evict-point_away :
    (p : CachePolicyPlru) (l way row : ℕ) (row_ptr : List ℕ)
    → p.associativity_c_log2 ≡ suc l
    → 2 ^ l < p.associativity
    → p.associativity ≤ 2 * 2 ^ l
    → get_elem? p.plru_ptr row ≡ some row_ptr
    → IsTree row_ptr
    → way < p.associativity
    → (p' : CachePolicyPlru) × (victim : ℕ) × (update_stats p way row ≡ some p')
      × (select_way_to_evict p' row ≡ some victim)
      × (victim < p.associativity)
      × (victim ≢ way)
unfolding update_stats select_way_to_evict
select_way_to_evict-point_away p l way row row_ptr levels many few read t inside =
    let moved = point_away (suc l) 0 0 way row_ptr in
    let leaf = follow (suc l) 0 0 0 moved in
    let half = half_away l way row_ptr t (omega arith) in
    (
      record p { plru_ptr = set p.plru_ptr row moved },
      (if leb p.associativity leaf then p.associativity - 1 else leaf),
      rw (levels, read) refl,
      rw (levels, get_elem?-set_self p.plru_ptr row moved read) refl,
      clamp-lt p.associativity leaf (omega arith),
      clamp-ne p.associativity leaf way (2 ^ l) half inside many,
    )
