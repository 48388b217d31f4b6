-- ===== src/Alu/Product.antt =====
-- The wide products: MUL and MULH, MULHSU or MULHU together are the whole product.
use qtrvsim.Base.{
  ℕ, zero, suc, ◌+◌, ◌-◌, ◌*◌, ◌%◌, ◌^◌, ◌≤◌, ◌<◌, ◌≡◌, refl, ap, ◌∙◌, arith, ltb, ltb→lt,
  ltb-false→le, Bool-cases, inl, inr, ◌⊎◌,
}
use qtrvsim.Base.Int.{pos, negsuc, signed, wrap, minus, ◌*ℤ◌, sub_ℕ}
use native.Mathlib.Nat.{mul-le-mul}
use qtrvsim.Alu.{MulOp, mul64_operate, mulh64, mulhu64, mulhsu64, sign_extend_128}

pos_pos : (a b : ℕ) → pos a *ℤ pos b ≡ pos (a * b)
unfolding ◌*ℤ◌
pos_pos a b = ground arith

sub_ℕ-minus : (x y k : ℕ) → x ≡ 0 → y ≡ k → sub_ℕ x y ≡ minus k
sub_ℕ-minus x y zero e f = ground arith
sub_ℕ-minus x y (suc k) e f = ground arith

pos_negsuc : (a n : ℕ) → pos a *ℤ negsuc n ≡ minus (a * suc n)
unfolding ◌*ℤ◌
pos_negsuc a n = sub_ℕ-minus _ _ (a * suc n) (omega arith) (omega arith)

negsuc_pos : (m b : ℕ) → negsuc m *ℤ pos b ≡ minus (suc m * b)
unfolding ◌*ℤ◌
negsuc_pos m b = sub_ℕ-minus _ _ (suc m * b) (omega arith) (omega arith)

negsuc_negsuc : (m n : ℕ) → negsuc m *ℤ negsuc n ≡ pos (suc m * suc n)
unfolding ◌*ℤ◌
negsuc_negsuc m n = ground arith

wrap-minus : (n : ℕ) → n ≤ 2 ^ 128 → wrap 128 (minus n) ≡ (2 ^ 128 - n) % 2 ^ 128
wrap-minus zero h = refl
wrap-minus (suc n) h = omega arith

-- The sign of a word, with its 128-bit pattern.
extended_cases :
    (x : ℕ)
    → x < 2 ^ 64
    → ((signed 64 x ≡ pos x) × (sign_extend_128 x ≡ x) × (x < 2 ^ 63))
      ⊎ ((m : ℕ) × (signed 64 x ≡ negsuc m)
          × (sign_extend_128 x + suc m ≡ 2 ^ 128)
          × (suc m ≤ 2 ^ 63))
extended_cases x h = elim (Bool-cases (ltb x (2 ^ 63))) [
  | inl low ↦ inl (rw low refl, rw low refl, ltb→lt _ _ low)
  | inr high ↦
      let ge = ltb-false→le x (2 ^ 63) high in
      inr (2 ^ 64 - x - 1, rw high refl, rw high (omega arith), omega arith)
]

-- The extended pattern is the word and a multiple of 2 ^ 64.
extended_low : (x : ℕ) → (k : ℕ) × (sign_extend_128 x ≡ x + 2 ^ 64 * k)
extended_low x = elim (Bool-cases (ltb x (2 ^ 63))) [
  | inl low ↦ (0, rw low (omega arith))
  | inr high ↦ (2 ^ 64 - 1, rw high (omega arith))
]

-- The low word of a product does not depend on the signs.
low_word :
    (a b : ℕ)
    → (sign_extend_128 a * sign_extend_128 b % 2 ^ 64 ≡ a * b % 2 ^ 64)
      × (sign_extend_128 a * b % 2 ^ 64 ≡ a * b % 2 ^ 64)
low_word a b =
    let (j, ea) = extended_low a in
    let (k, eb) = extended_low b in
    (
      omega (
        arith,
        ap (λ (x : ℕ). x * sign_extend_128 b) ea,
        ap (λ (y : ℕ). a * y) eb,
        ap (λ (y : ℕ). j * y) eb,
      ),
      omega (arith, ap (λ (x : ℕ). x * b) ea),
    )

-- A factor negated in 128 bits negates the product.
negated_factor :
    (t x k : ℕ) → x + k ≡ 2 ^ 128 → t * k ≤ 2 ^ 128 → (2 ^ 128 - t * k) % 2 ^ 128 ≡ t * x % 2 ^ 128
negated_factor t x k e small = omega (arith, ap (λ (s : ℕ). t * s) e)

product-lt : (a b : ℕ) → a < 2 ^ 64 → b < 2 ^ 64 → a * b < 2 ^ 128
product-lt a b ha hb =
    let product : suc a * suc b ≤ 2 ^ 64 * 2 ^ 64 = mul-le-mul ha hb in omega arith

below : (t k : ℕ) → t < 2 ^ 64 → k ≤ 2 ^ 63 → t * k ≤ 2 ^ 128
below t k ht hk =
    let ht' : t ≤ 2 ^ 64 = omega arith in
    let product : t * k ≤ 2 ^ 64 * 2 ^ 63 = mul-le-mul ht' hk in omega arith

wrap-product_unsigned :
    (a b : ℕ)
    → a < 2 ^ 64
    → b < 2 ^ 64
    → wrap 128 (signed 64 a *ℤ pos b) ≡ sign_extend_128 a * b % 2 ^ 128
wrap-product_unsigned a b ha hb = elim (extended_cases a ha) [
  | inl (sa, ea, la) ↦ rw (sa, ea, pos_pos a b) refl
  | inr (m, sa, ea, la) ↦
      let small = below b (suc m) hb la in
      let turn : suc m * b ≡ b * suc m = omega arith in
      rw (sa, negsuc_pos m b, turn, wrap-minus (b * suc m) small)
        (negated_factor b (sign_extend_128 a) (suc m) ea small ∙ omega arith)
]

wrap-product :
    (a b : ℕ)
    → a < 2 ^ 64
    → b < 2 ^ 64
    → wrap 128 (signed 64 a *ℤ signed 64 b) ≡ sign_extend_128 a * sign_extend_128 b % 2 ^ 128
wrap-product a b ha hb = elim (extended_cases a ha) [
  | inl (sa, ea, la) ↦ elim (extended_cases b hb) [
    | inl (sb, eb, lb) ↦ rw (sa, ea, sb, eb, pos_pos a b) refl
    | inr (n, sb, eb, lb) ↦
        let small = below a (suc n) ha lb in
        rw (sa, ea, sb, pos_negsuc a n, wrap-minus (a * suc n) small)
          (negated_factor a (sign_extend_128 b) (suc n) eb small)
  ]
  | inr (m, sa, ea, la) ↦ elim (extended_cases b hb) [
    | inl (sb, eb, lb) ↦
        let small = below b (suc m) hb la in
        let turn : suc m * b ≡ b * suc m = omega arith in
        rw (sa, sb, eb, negsuc_pos m b, turn, wrap-minus (b * suc m) small)
          (negated_factor b (sign_extend_128 a) (suc m) ea small ∙ omega arith)
    | inr (n, sb, eb, lb) ↦
        rw (sa, sb, negsuc_negsuc m n)
          (omega (arith, ap (λ (x : ℕ). x * sign_extend_128 b) ea, ap (λ (y : ℕ). suc m * y) eb))
  ]
]

-- The 128-bit two's complement pattern of the exact product is the high word followed by the low word:
-- MULH for two signed factors, MULHSU for a signed and an unsigned one, MULHU for two unsigned ones.
pub mul_words_product :
    (a b : ℕ)
    → a < 2 ^ 64
    → b < 2 ^ 64
    → let low = mul64_operate MulOp.mul a b in
      (mul64_operate MulOp.mulh a b * 2 ^ 64 + low ≡ wrap 128 (signed 64 a *ℤ signed 64 b))
      × (mul64_operate MulOp.mulhsu a b * 2 ^ 64 + low ≡ wrap 128 (signed 64 a *ℤ pos b))
      × (mul64_operate MulOp.mulhu a b * 2 ^ 64 + low ≡ a * b)
unfolding mul64_operate
mul_words_product a b ha hb =
    let (low, low_u) = low_word a b in
    let small : a * b < 2 ^ 128 = product-lt a b ha hb in
    (
      rw (wrap-product a b ha hb) (unfold mulh64 in omega (arith, low)),
      rw (wrap-product_unsigned a b ha hb) (unfold mulhsu64 in omega (arith, low_u)),
      unfold mulhu64 in omega arith,
    )
