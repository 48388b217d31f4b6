-- ===== src/Alu/Fallback/Exact.antt =====
-- The products without a 128-bit type against those with one.
use qtrvsim.Base.{
  ℕ, ◌+◌, ◌-◌, ◌*◌, ◌/◌, ◌%◌, ◌^◌, ◌≤◌, ◌<◌, ◌≡◌, refl, ap, ◌∙◌, arith, leb, lt→ltb, le→ltb-false,
  leb→le, leb-false→lt, Bool-cases, inl, inr, if◌then◌else◌,
}
use native.Mathlib.Nat.{mul-le-mul}
use qtrvsim.Alu.{u64, mulhu64, mulhsu64, sign_extend_128}
use qtrvsim.Alu.Fallback.{
  lower, upper, signed_upper, shift_signed, middle, mulhu64_fallback, mulhsu64_fallback,
}

word_product : (x y : ℕ) → x < 2 ^ 32 → y < 2 ^ 32 → x * y + 2 ^ 33 ≤ 2 ^ 64 + 1
word_product x y hx hy =
    let hx' : x ≤ 2 ^ 32 - 1 = omega arith in
    let hy' : y ≤ 2 ^ 32 - 1 = omega arith in
    let product : x * y ≤ (2 ^ 32 - 1) * (2 ^ 32 - 1) = mul-le-mul hx' hy' in omega arith

-- The words of the product from the four products of words.
schoolbook :
    (p11 p01 p10 p00 : ℕ)
    → p11 + 2 ^ 33 ≤ 2 ^ 64 + 1
    → p01 + 2 ^ 33 ≤ 2 ^ 64 + 1
    → p10 + 2 ^ 33 ≤ 2 ^ 64 + 1
    → p00 + 2 ^ 33 ≤ 2 ^ 64 + 1
    → p11 + (p10 + p00 / 2 ^ 32 + p01 % 2 ^ 32) / 2 ^ 32 + p01 / 2 ^ 32
      ≡ (p11 * 2 ^ 64 + (p10 + p01) * 2 ^ 32 + p00) / 2 ^ 64
schoolbook p11 p01 p10 p00 h11 h01 h10 h00 = omega arith

-- No intermediate value of the unsigned product wraps.
no_wrap :
    (p11 p01 p10 p00 : ℕ)
    → p11 + 2 ^ 33 ≤ 2 ^ 64 + 1
    → p01 + 2 ^ 33 ≤ 2 ^ 64 + 1
    → p10 + 2 ^ 33 ≤ 2 ^ 64 + 1
    → p00 + 2 ^ 33 ≤ 2 ^ 64 + 1
    → u64 (p11 + middle p10 p00 p01 / 2 ^ 32 + p01 / 2 ^ 32)
      ≡ (p11 * 2 ^ 64 + (p10 + p01) * 2 ^ 32 + p00) % 2 ^ 128 / 2 ^ 64
no_wrap p11 p01 p10 p00 h11 h01 h10 h00 =
    let exact = schoolbook p11 p01 p10 p00 h11 h01 h10 h00 in
    let m : middle p10 p00 p01 ≡ p10 + p00 / 2 ^ 32 + p01 % 2 ^ 32 = omega arith in
    let w : (p11 * 2 ^ 64 + (p10 + p01) * 2 ^ 32 + p00) % 2 ^ 128
        ≡ p11 * 2 ^ 64 + (p10 + p01) * 2 ^ 32 + p00 =
      omega arith in
    rw (m, w) (omega (arith, exact))

product_parts :
    (a b au al bu bl : ℕ)
    → a ≡ au * 2 ^ 32 + al
    → b ≡ bu * 2 ^ 32 + bl
    → a * b ≡ au * bu * 2 ^ 64 + (au * bl + al * bu) * 2 ^ 32 + al * bl
product_parts a b au al bu bl e f =
    omega (arith, ap (λ (t : ℕ). t * b) e, ap (λ (t : ℕ). au * t) f, ap (λ (t : ℕ). al * t) f)

parts : (x : ℕ) → x < 2 ^ 64 → x ≡ upper x * 2 ^ 32 + lower x
parts x h = omega arith

-- The unsigned product without a 128-bit type is the one with it, at every pair of words.
pub mulhu64_fallback_lem : (a b : ℕ) → a < 2 ^ 64 → b < 2 ^ 64 → mulhu64_fallback a b ≡ mulhu64 a b
unfolding mulhu64_fallback mulhu64
mulhu64_fallback_lem a b ha hb =
    let b11 = word_product (upper a) (upper b) (omega arith) (omega arith) in
    let b01 = word_product (lower a) (upper b) (omega arith) (omega arith) in
    let b10 = word_product (upper a) (lower b) (omega arith) (omega arith) in
    let b00 = word_product (lower a) (lower b) (omega arith) (omega arith) in
    let e11 : u64 (upper a * upper b) ≡ upper a * upper b = omega arith in
    let e01 : u64 (lower a * upper b) ≡ lower a * upper b = omega arith in
    let e10 : u64 (upper a * lower b) ≡ upper a * lower b = omega arith in
    let e00 : u64 (lower a * lower b) ≡ lower a * lower b = omega arith in
    let whole = product_parts a b _ _ _ _ (parts a ha) (parts b hb) in
    rw (e11, e01, e10, e00, whole) (no_wrap _ _ _ _ b11 b01 b10 b00)

shift_signed_low : (x : ℕ) → x < 2 ^ 63 → shift_signed x ≡ x / 2 ^ 32
unfolding shift_signed
shift_signed_low x h = rw (lt→ltb x (2 ^ 63) h) (omega arith)

shift_signed_high :
    (x : ℕ) → 2 ^ 63 ≤ x → x < 2 ^ 64 → shift_signed x ≡ x / 2 ^ 32 + (2 ^ 64 - 2 ^ 32)
unfolding shift_signed
shift_signed_high x h k = rw (le→ltb-false x (2 ^ 63) h) (omega arith)

-- What the signed middle part of the product loses.
abbrev pub lost : ℕ → ℕ
lost middle_part = if leb (2 ^ 63) middle_part then 2 ^ 32 else 0

shift_signed-lost : (x : ℕ) → x < 2 ^ 64 → u64 (shift_signed x + lost x) ≡ x / 2 ^ 32
shift_signed-lost x h = elim (Bool-cases (leb (2 ^ 63) x)) [
  | inl high ↦ rw (high, shift_signed_high x (leb→le _ _ high) h) (omega arith)
  | inr low ↦ rw (low, shift_signed_low x (leb-false→lt _ _ low)) (omega arith)
]

regroup :
    (p11 m p01 s l : ℕ)
    → u64 (s + l) ≡ m / 2 ^ 32
    → u64 (u64 (p11 + s + p01 / 2 ^ 32) + l) ≡ u64 (p11 + m / 2 ^ 32 + p01 / 2 ^ 32)
regroup p11 m p01 s l e = omega arith

-- The signed by unsigned product without a 128-bit type, for a first factor that is not negative: it is
-- the product with it where the sum of its middle part stays below 2 ^ 63, and 2 ^ 32 too small where
-- the sum reaches 2 ^ 63, since the sum is kept as a signed number.
pub mulhsu64_fallback_lem :
    (a b : ℕ)
    → a < 2 ^ 63
    → b < 2 ^ 64
    → u64 (
        mulhsu64_fallback a b
        + lost (middle (upper a * lower b) (lower a * lower b) (lower a * upper b)))
      ≡ mulhsu64 a b
unfolding mulhsu64_fallback mulhsu64
mulhsu64_fallback_lem a b ha hb =
    let b11 = word_product (upper a) (upper b) (omega arith) (omega arith) in
    let b01 = word_product (lower a) (upper b) (omega arith) (omega arith) in
    let b10 = word_product (upper a) (lower b) (omega arith) (omega arith) in
    let b00 = word_product (lower a) (lower b) (omega arith) (omega arith) in
    let e11 : u64 (upper a * upper b) ≡ upper a * upper b = omega arith in
    let e01 : u64 (lower a * upper b) ≡ lower a * upper b = omega arith in
    let e10 : u64 (upper a * lower b) ≡ upper a * lower b = omega arith in
    let e00 : u64 (lower a * lower b) ≡ lower a * lower b = omega arith in
    let plain : signed_upper a ≡ upper a = rw (lt→ltb (upper a) (2 ^ 31) (omega arith)) refl in
    let whole = product_parts a b _ _ _ _ (parts a (omega arith)) (parts b hb) in
    let keep : sign_extend_128 a ≡ a = rw (lt→ltb a (2 ^ 63) ha) refl in
    let m = middle (upper a * lower b) (lower a * lower b) (lower a * upper b) in
    let part = shift_signed-lost m (omega arith) in
    rw (plain, e11, e01, e10, e00, keep, whole)
      (regroup _ m _ (shift_signed m) (lost m) part ∙ no_wrap _ _ _ _ b11 b01 b10 b00)
