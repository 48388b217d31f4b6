-- ===== src/Predictor/History/Window.antt =====
-- What the register of `BranchHistoryRegister::update` holds: a window of the latest results.
use qtrvsim.Base.{
  ℕ, zero, suc, ◌+◌, ◌-◌, ◌*◌, ◌/◌, ◌%◌, ◌^◌, ◌≤◌, ◌<◌, ◌≡◌, refl, sym, ap, ◌∙◌, bit_or, List, [],
  ◌∷◌, ltb, if◌then◌else◌, arith, Bool-cases, inl, inr, ltb→lt,
}
use qtrvsim.Base.Bits.{bit_and_mask, bit_or_disjoint}
use native.Mathlib.Nat.{
  pow-le-pow_right, one-le-pow, div-add-mod', mul-add-mod_self_right, mod-lt, zero-mod,
}
use qtrvsim.Predictor.Types.{BranchResult}
use qtrvsim.Predictor.History.{BranchHistoryRegister, init_register_mask, make, update, push_bit}

-- A new register holds no result.
pub make_lem : (n : ℕ) → ((make n).register_mask ≡ init_register_mask n) × ((make n).value ≡ 0)
unfolding make
make_lem n = (refl, refl)

-- The register after a list of results, the latest first.
unfoldable pub observe : ℕ → List BranchResult → BranchHistoryRegister
observe n [] = make n
observe n (r ∷ rs) = update (observe n rs) r

abbrev pub result_bit : BranchResult → ℕ
result_bit BranchResult.taken = 1
result_bit _ = 0

-- The results as a binary number, the latest in the lowest digit.
abbrev pub encode : List BranchResult → ℕ
encode [] = 0
encode (r ∷ rs) = encode rs * 2 + result_bit r

-- How many results a register made for `n` bits keeps.
abbrev pub kept_bits : ℕ → ℕ
kept_bits n = if ltb n 8 then n else 16

pow_kept-le : (n : ℕ) → n < 8 → 2 ^ n ≤ 2 ^ 7
pow_kept-le n h = pow-le-pow_right (omega arith) {j = 7} (omega arith)

pub small_mask : (n : ℕ) → n < 8 → init_register_mask n ≡ 2 ^ n - 1
unfolding init_register_mask
small_mask zero h = refl
small_mask (suc n) h =
    let b = pow_kept-le (suc n) h in let m = one-le-pow (suc n) 2 (omega arith) in ground arith

large_mask : (n : ℕ) → 8 ≤ n → init_register_mask n ≡ 2 ^ 16 - 1
unfolding init_register_mask
large_mask n h = ground arith

init_register_mask_lem : (n : ℕ) → init_register_mask n ≡ 2 ^ kept_bits n - 1
init_register_mask_lem n = elim (Bool-cases (ltb n 8)) [
  | inl small ↦ rw small (small_mask n (ltb→lt n 8 small))
  | inr large ↦ rw large (large_mask n (ground arith))
]

register_mask-observe :
    (n : ℕ) (rs : List BranchResult) → (observe n rs).register_mask ≡ 2 ^ kept_bits n - 1
unfolding observe make update
register_mask-observe n [] = init_register_mask_lem n
register_mask-observe n (r ∷ rs) = register_mask-observe n rs

push_bit_lem :
    (r : BranchResult) (v : ℕ) → push_bit r (v * 2 % 2 ^ 16) ≡ v * 2 % 2 ^ 16 + result_bit r
push_bit_lem BranchResult.taken v =
    let e : v * 2 % 2 ^ 16 ≡ v % 2 ^ 15 * 2 ^ 1 = omega arith in
    ap (λ (x : ℕ). bit_or x 1) e ∙ bit_or_disjoint 1 (v % 2 ^ 15) 1 (omega arith) ∙ omega arith
push_bit_lem _ v = omega arith

result_bit-le : (r : BranchResult) → result_bit r ≤ 1
result_bit-le BranchResult.taken = omega arith
result_bit-le _ = omega arith

-- Shifting the remainder of a number shifts the number.
shift-mod : (m e b : ℕ) → 0 < m → (e % m * 2 + b) % m ≡ (e * 2 + b) % m
shift-mod m e b h =
    let q = e / m in
    let parts : e * 2 + b ≡ 2 * q * m + (e % m * 2 + b) = omega (arith, div-add-mod' e m) in
    sym (ap (λ (x : ℕ). x % m) parts ∙ mul-add-mod_self_right (2 * q) m (e % m * 2 + b))

observe_step :
    (n e b : ℕ)
    → (e % 2 ^ kept_bits n * 2 % 2 ^ 16 + b) % 2 ^ kept_bits n ≡ (e * 2 + b) % 2 ^ kept_bits n
observe_step n e b = elim (Bool-cases (ltb n 8)) [
  | inl small ↦
      let m = one-le-pow n 2 (omega arith) in
      let b8 = pow_kept-le n (ltb→lt n 8 small) in
      let less = mod-lt e m in
      let whole : e % 2 ^ n * 2 % 2 ^ 16 ≡ e % 2 ^ n * 2 = omega arith in
      rw (small, whole) (shift-mod (2 ^ n) e b m)
  | inr large ↦ rw large (omega arith)
]

-- After any results, the register that was made for `n` bits holds the latest of them as binary
-- digits: the latest `n` where `n` is below 8, and sixteen, not eight, where `n` is 8 or more.
pub value-observe :
    (n : ℕ) (rs : List BranchResult) → (observe n rs).value ≡ encode rs % 2 ^ kept_bits n
unfolding observe make update
value-observe n [] = elim (Bool-cases (ltb n 8)) [
  | inl small ↦ rw small (sym (zero-mod _))
  | inr large ↦ rw large refl
]
value-observe n (r ∷ rs) =
    rw (register_mask-observe n rs, bit_and_mask, value-observe n rs, push_bit_lem)
      (observe_step n (encode rs) (result_bit r))
