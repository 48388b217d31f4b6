-- ===== src/Tlb/Policy/Pointers.antt =====
-- The nodes of the tree that `TLBPolicyPLRU::notify_access` never reaches.
use qtrvsim.Base.{
  ℕ, zero, suc, ◌+◌, ◌/◌, ◌%◌, ◌^◌, ◌≤◌, ◌≡◌, ◌≢◌, refl, ◌∙◌, Bool, true, false, ◌⊎◌, List, get_or,
  get_or-set_ne, ◌==◌, if◌then◌else◌, arith,
}
use native.Mathlib.Nat.{pow-le-pow_right}
use qtrvsim.Tlb.Policy.{turn_bits}

-- From the third level on the nodes are past the sixth.
turn_bits-deep :
    (levels lvl node way : ℕ) (bits : List ℕ) (j : ℕ)
    → j ≤ 6
    → 2 ≤ lvl
    → node ≢ j
    → get_or (turn_bits levels lvl node way bits) j 0 ≡ get_or bits j 0
unfolding turn_bits
turn_bits-deep zero lvl node way bits j small deep other = refl
turn_bits-deep (suc levels) lvl node way bits j small deep other =
    let next : 2 ^ 3 ≤ 2 ^ (lvl + 1) = pow-le-pow_right (omega arith) {i = 3} (omega arith) in
    turn_bits-deep levels (lvl + 1) _ way _ j small (omega arith) (λ e. omega (arith, e, next))
    ∙ get_or-set_ne bits node j _ 0 other

right_node : (dir : ℕ) (b : Bool) → (if b then 0 else 1) ≤ 1
right_node dir true = omega arith
right_node dir false = omega arith

-- In a tree of any number of levels no access, to any way, changes the pointers at the nodes 5 and 6,
-- the third and the fourth of the third level.
pub turn_bits_unreached :
    (levels way : ℕ) (bits : List ℕ) (j : ℕ)
    → (j ≡ 5) ⊎ (j ≡ 6)
    → get_or (turn_bits levels 0 0 way bits) j 0 ≡ get_or bits j 0
unfolding turn_bits
turn_bits_unreached zero way bits j node = refl
turn_bits_unreached (suc zero) way bits j node = get_or-set_ne bits 0 j _ 0 (λ e. ground (arith, e))
turn_bits_unreached (suc (suc levels)) way bits j node =
    let first = right_node 0 (way / 2 ^ suc levels % 2 == 0) in
    let second = right_node 0 (way / 2 ^ levels % 2 == 0) in
    turn_bits-deep levels 2 _ way _ j (ground (arith, node)) (omega arith)
      (λ e. ground (arith, node, e))
    ∙ get_or-set_ne _ _ j _ 0 (λ e. ground (arith, node, e))
    ∙ get_or-set_ne bits 0 j _ 0 (λ e. ground (arith, e))
