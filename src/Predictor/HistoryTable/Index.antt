-- ===== src/Predictor/HistoryTable/Index.antt =====
-- The index of `Predictor::calculate_bht_index` as a number, and the tables that have a row for it.
use qtrvsim.Base.{ℕ, ◌+◌, ◌-◌, ◌*◌, ◌/◌, ◌%◌, ◌^◌, ◌≤◌, ◌<◌, ◌≡◌, length, arith}
use qtrvsim.Base.Bits.{bit_and_mask, bit_or_disjoint, pow-add}
use native.Mathlib.Nat.{mod-lt, one-le-pow, pow-le-pow_right}
use qtrvsim.Predictor.HistoryTable.{Predictor, calculate_bht_index}

-- The numbers of bits of a table, for a history of `h` bits: a row for each index, at most 2 ^ 16.
pub record IsSized (h : ℕ) (p : Predictor) : Type 0 where
  pub address_bits : p.number_of_bht_addr_bits ≤ 8
  pub all_bits : h + p.number_of_bht_addr_bits ≤ 16
  pub covers : 2 ^ (h + p.number_of_bht_addr_bits) ≤ length p.bht

-- The history is the upper part of the index, the lower bits of the instruction's word address the
-- lower part, and no part is cut off: a history of `h` bits and `n` address bits give an index
-- below 2 ^ (h + n), where h + n ≤ 16 and n ≤ 8.
pub calculate_bht_index_lem :
    (h : ℕ) (p : Predictor) (history a : ℕ)
    → history < 2 ^ h
    → p.number_of_bht_addr_bits ≤ 8
    → h + p.number_of_bht_addr_bits ≤ 16
    → let n = p.number_of_bht_addr_bits in
      (calculate_bht_index p history a ≡ history * 2 ^ n + a / 4 % 2 ^ 16 % 2 ^ n)
      × (calculate_bht_index p history a < 2 ^ (h + n))
unfolding calculate_bht_index
calculate_bht_index_lem h p history a small address_bits all_bits =
    let n = p.number_of_bht_addr_bits in
    let m : ℕ = 2 ^ n in
    let low : ℕ = a / 4 % 2 ^ 16 % 2 ^ n in
    let pos : 1 ≤ 2 ^ n = one-le-pow n 2 (omega arith) in
    let m_le : 2 ^ n ≤ 2 ^ 8 = pow-le-pow_right (omega arith) {j = 8} address_bits in
    let all_le : 2 ^ (h + n) ≤ 2 ^ 16 = pow-le-pow_right (omega arith) {j = 16} all_bits in
    let split : 2 ^ (h + n) ≡ 2 ^ h * 2 ^ n = pow-add h n in
    let low-lt : low < 2 ^ n = mod-lt (a / 4 % 2 ^ 16) pos in
    let below : history * 2 ^ n + low < 2 ^ h * 2 ^ n = grind arith in
    let whole : history * 2 ^ n % 2 ^ 16 ≡ history * 2 ^ n = omega arith in
    let mask : (2 ^ n - 1) % 2 ^ 16 ≡ 2 ^ n - 1 = omega arith in
    let index : calculate_bht_index p history a ≡ history * 2 ^ n + low =
      rw (whole, mask, bit_and_mask n (a / 4 % 2 ^ 16)) (bit_or_disjoint n history low low-lt) in
    (index, omega arith)
