-- ===== src/Base/Bits.antt =====
-- Laws of the bitwise operations at variables: a mask of low bits is a remainder, an `|` of
-- disjoint fields a sum, and results keep the width of their operands.
use Prim.Native.Nat.{
  ℕ, zero, suc, ◌+◌, ◌-◌, ◌*◌, ◌/◌, ◌%◌, ◌^◌, ◌≤◌, ◌<◌, min, max, digits, bitwise, bit_and, bit_or,
  bit_xor, bit_and-bitwise, bit_or-bitwise, bit_xor-bitwise, differ,
}
use mathlib.Core.Path.{◌≡◌, refl, ap, ◌∙◌}
use native.Mathlib.Nat.{
  pow-suc, one-le-pow, div-add-mod', mod-lt, mod-eq_of_lt, mul-add-mod_self_right, zero-add,
  suc-add,
}
use native.Mathlib.Omega.{arith}

-- The digit recursion with its fuel made irrelevant.
module _ (z : ℕ → ℕ) (f : ℕ → ℕ → ℕ) where
  digits_enough : (n m a b : ℕ) → a ≤ n → a ≤ m → digits z f n a b ≡ digits z f m a b
  digits_enough zero zero a b p q = refl
  digits_enough zero (suc m) zero b p q = refl
  digits_enough zero (suc m) (suc a) b p q = absurd (omega arith)
  digits_enough (suc n) zero zero b p q = refl
  digits_enough (suc n) zero (suc a) b p q = absurd (omega arith)
  digits_enough (suc n) (suc m) zero b p q = refl
  digits_enough (suc n) (suc m) (suc a) b p q =
      omega (arith, digits_enough n m (suc a / 2) (b / 2) (omega arith) (omega arith))

  bitwise_halves :
      (a b : ℕ)
      → bitwise z f (suc a) b ≡ bitwise z f (suc a / 2) (b / 2) * 2 + f (suc a % 2) (b % 2)
  bitwise_halves a b =
      omega (arith, digits_enough a (suc a / 2) (suc a / 2) (b / 2) (omega arith) (omega arith))

-- One equation for the lowest digit of each operation, also where a number is zero.
zero-bit_and : (b : ℕ) → bit_and 0 b ≡ 0
zero-bit_and b = bit_and-bitwise 0 b

pub zero-bit_or : (b : ℕ) → bit_or 0 b ≡ b
zero-bit_or b = bit_or-bitwise 0 b

zero-bit_xor : (b : ℕ) → bit_xor 0 b ≡ b
zero-bit_xor b = bit_xor-bitwise 0 b

pub bit_and_halves : (a b : ℕ) → bit_and a b ≡ bit_and (a / 2) (b / 2) * 2 + min (a % 2) (b % 2)
bit_and_halves zero b = omega (arith, zero-bit_and b, zero-bit_and (b / 2))
bit_and_halves (suc a) b = omega (
  arith,
  bit_and-bitwise (suc a) b,
  bit_and-bitwise (suc a / 2) (b / 2),
  bitwise_halves (λ y. 0) min a b,
)

pub bit_or_halves : (a b : ℕ) → bit_or a b ≡ bit_or (a / 2) (b / 2) * 2 + max (a % 2) (b % 2)
bit_or_halves zero b = omega (arith, zero-bit_or b, zero-bit_or (b / 2))
bit_or_halves (suc a) b = omega (
  arith,
  bit_or-bitwise (suc a) b,
  bit_or-bitwise (suc a / 2) (b / 2),
  bitwise_halves (λ y. y) max a b,
)

differ-zero : (n : ℕ) → n < 2 → differ 0 n ≡ n
differ-zero zero h = refl
differ-zero (suc zero) h = refl
differ-zero (suc (suc n)) h = absurd (omega arith)

pub bit_xor_halves : (a b : ℕ) → bit_xor a b ≡ bit_xor (a / 2) (b / 2) * 2 + differ (a % 2) (b % 2)
bit_xor_halves zero b =
    omega (arith, zero-bit_xor b, zero-bit_xor (b / 2), differ-zero (b % 2) (omega arith))
bit_xor_halves (suc a) b = omega (
  arith,
  bit_xor-bitwise (suc a) b,
  bit_xor-bitwise (suc a / 2) (b / 2),
  bitwise_halves (λ y. y) differ a b,
)

differ-lt : (a b : ℕ) → a < 2 → b < 2 → differ a b < 2
differ-lt zero b p q = omega (arith, differ-zero b q)
differ-lt (suc zero) zero p q = omega arith
differ-lt (suc zero) (suc zero) p q = omega arith
differ-lt (suc zero) (suc (suc b)) p q = absurd (omega arith)
differ-lt (suc (suc a)) b p q = absurd (omega arith)

-- Zero on the right. The recursion is on a bound of the number, since it halves it.
bit_and-zero_below : (n a : ℕ) → a ≤ n → bit_and a 0 ≡ 0
bit_and-zero_below n zero h = zero-bit_and 0
bit_and-zero_below zero (suc a) h = absurd (omega arith)
bit_and-zero_below (suc n) (suc a) h =
    omega (arith, bit_and_halves (suc a) 0, bit_and-zero_below n (suc a / 2) (omega arith))

bit_or-zero_below : (n a : ℕ) → a ≤ n → bit_or a 0 ≡ a
bit_or-zero_below n zero h = zero-bit_or 0
bit_or-zero_below zero (suc a) h = absurd (omega arith)
bit_or-zero_below (suc n) (suc a) h =
    omega (arith, bit_or_halves (suc a) 0, bit_or-zero_below n (suc a / 2) (omega arith))

-- The results keep the width of the operands.
pub bit_and-lt : (k a b : ℕ) → b < 2 ^ k → bit_and a b < 2 ^ k
bit_and-lt zero a zero q = omega (arith, bit_and-zero_below a a (omega arith))
bit_and-lt zero a (suc b) q = absurd (omega arith)
bit_and-lt (suc k) a b q = omega (
  arith,
  pow-suc 2 k,
  bit_and_halves a b,
  bit_and-lt k (a / 2) (b / 2) (omega (arith, pow-suc 2 k)),
)

pub bit_or-lt : (k a b : ℕ) → a < 2 ^ k → b < 2 ^ k → bit_or a b < 2 ^ k
bit_or-lt zero zero zero p q = omega (arith, zero-bit_or 0)
bit_or-lt zero zero (suc b) p q = absurd (omega arith)
bit_or-lt zero (suc a) b p q = absurd (omega arith)
bit_or-lt (suc k) a b p q =
    let e = pow-suc 2 k in
    omega (arith, bit_or_halves a b, bit_or-lt k (a / 2) (b / 2) (omega arith) (omega arith))

pub bit_xor-lt : (k a b : ℕ) → a < 2 ^ k → b < 2 ^ k → bit_xor a b < 2 ^ k
bit_xor-lt zero zero zero p q = omega (arith, zero-bit_xor 0)
bit_xor-lt zero zero (suc b) p q = absurd (omega arith)
bit_xor-lt zero (suc a) b p q = absurd (omega arith)
bit_xor-lt (suc k) a b p q =
    let e = pow-suc 2 k in
    omega (
      arith,
      bit_xor_halves a b,
      differ-lt (a % 2) (b % 2) (omega arith) (omega arith),
      bit_xor-lt k (a / 2) (b / 2) (omega arith) (omega arith),
    )

-- The remainder by an even number, digit by digit.
pub mod_double : (m a : ℕ) → 0 < m → a % (m * 2) ≡ (a / 2) % m * 2 + a % 2
mod_double m a h =
    let t = (a / 2) % m in
    let q = a / 2 / m in
    let parts : a ≡ q * (m * 2) + (t * 2 + a % 2) = omega (arith, div-add-mod' (a / 2) m) in
    let small : t * 2 + a % 2 < m * 2 = omega (arith, mod-lt (a / 2) h) in
    ap (λ (x : ℕ). x % (m * 2)) parts
    ∙ mul-add-mod_self_right q (m * 2) (t * 2 + a % 2)
    ∙ mod-eq_of_lt small

-- A mask of the `k` low bits is the remainder by `2 ^ k`.
pub bit_and_mask : (k a : ℕ) → bit_and a (2 ^ k - 1) ≡ a % 2 ^ k
bit_and_mask zero a = bit_and-zero_below a a (omega arith) ∙ omega arith
bit_and_mask (suc k) a =
    let m = one-le-pow k 2 (omega arith) in
    ground (
      arith,
      pow-suc 2 k,
      bit_and_halves a (2 ^ suc k - 1),
      bit_and_mask k (a / 2),
      mod_double (2 ^ k) a,
    )

-- `(q << k) | r` is a sum where `r` fits in the `k` low bits.
pub bit_or_disjoint : (k q r : ℕ) → r < 2 ^ k → bit_or (q * 2 ^ k) r ≡ q * 2 ^ k + r
bit_or_disjoint zero q r h = ground (arith, bit_or-zero_below q q)
bit_or_disjoint (suc k) q r h =
    let e : q * 2 ^ suc k ≡ 2 * (q * 2 ^ k) = omega (arith, ap (λ (t : ℕ). q * t) (pow-suc 2 k)) in
    let rest = bit_or_disjoint k q (r / 2) (omega (arith, pow-suc 2 k)) in
    ground (arith, bit_or_halves (q * 2 ^ suc k) r, rest)

pub pow-add : (a b : ℕ) → 2 ^ (a + b) ≡ 2 ^ a * 2 ^ b
pow-add zero b = ap (λ (n : ℕ). 2 ^ n) (zero-add b) ∙ omega arith
pow-add (suc a) b =
    ap (λ (n : ℕ). 2 ^ n) (suc-add a b)
    ∙ pow-suc 2 (a + b)
    ∙ omega (arith, pow-add a b, ap (λ (t : ℕ). t * 2 ^ b) (pow-suc 2 a))
