-- ===== src/Base/Int.antt =====
-- Signed integers over the native numbers, under the library's names (its ℤ stands on the unary ℕ).
-- Sums and orders go through the two parts of an integer, which are numbers that `omega` reads.
use qtrvsim.Base.{
  ℕ, zero, suc, ◌+◌, ◌-◌, ◌*◌, ◌/◌, ◌%◌, ◌^◌, ◌≤◌, ◌≡◌, refl, Bool, arith, ltb, leb, if◌then◌else◌,
}

-- `negsuc n` is -(n + 1).
pub data ℤ : Type 0 where
  pos : ℕ → ℤ
  negsuc : ℕ → ℤ

abbrev pub pos_part : ℤ → ℕ
pos_part (pos n) = n
pos_part (negsuc n) = 0

abbrev pub neg_part : ℤ → ℕ
neg_part (pos n) = 0
neg_part (negsuc n) = suc n

-- a - b, as an integer.
abbrev pub sub_ℕ : ℕ → ℕ → ℤ
sub_ℕ a b = if leb b a then pos (a - b) else negsuc (b - a - 1)

infixl 65 ◌+ℤ◌ ◌-ℤ◌
infixl 70 ◌*ℤ◌
infix 50 ◌≤ℤ◌
unfoldable pub ◌+ℤ◌ : ℤ → ℤ → ℤ
a +ℤ b = sub_ℕ (pos_part a + pos_part b) (neg_part a + neg_part b)

unfoldable pub ◌-ℤ◌ : ℤ → ℤ → ℤ
a -ℤ b = sub_ℕ (pos_part a + neg_part b) (neg_part a + pos_part b)

unfoldable pub ◌*ℤ◌ : ℤ → ℤ → ℤ
a *ℤ b =
    sub_ℕ (pos_part a * pos_part b + neg_part a * neg_part b)
      (pos_part a * neg_part b + neg_part a * pos_part b)

abbrev pub ◌≤ℤ◌ : ℤ → ℤ → Type 0
a ≤ℤ b = pos_part a + neg_part b ≤ pos_part b + neg_part a

abbrev pub ltb_ℤ : ℤ → ℤ → Bool
ltb_ℤ a b = ltb (pos_part a + neg_part b) (pos_part b + neg_part a)

-- One lemma for each operation lets `omega` work with the operations shut, at any depth.
pub +ℤ_parts :
    (a b : ℤ)
    → pos_part (a +ℤ b) + neg_part a + neg_part b ≡ neg_part (a +ℤ b) + pos_part a + pos_part b
unfolding ◌+ℤ◌
+ℤ_parts a b = ground arith

pub -ℤ_parts :
    (a b : ℤ)
    → pos_part (a -ℤ b) + neg_part a + pos_part b ≡ neg_part (a -ℤ b) + pos_part a + neg_part b
unfolding ◌-ℤ◌
-ℤ_parts a b = ground arith

pub eq_of_parts : (a b : ℤ) → pos_part a + neg_part b ≡ pos_part b + neg_part a → a ≡ b
eq_of_parts a b h = ground arith

pub ruleset int_laws = (arith, +ℤ_parts, -ℤ_parts, eq_of_parts)

pub +ℤ_mono : (a b c d : ℤ) → a ≤ℤ b → c ≤ℤ d → a +ℤ c ≤ℤ b +ℤ d
+ℤ_mono a b c d h k = omega int_laws

-- C's `/` and `%` on integers: the quotient is cut towards zero, the remainder has the dividend's
-- sign.
pub magnitude : ℤ → ℕ
magnitude (pos n) = n
magnitude (negsuc n) = suc n

-- minus a number
abbrev pub minus : ℕ → ℤ
minus zero = pos 0
minus (suc n) = negsuc n

unfoldable pub quot : ℤ → ℤ → ℤ
unfolding magnitude
quot (pos a) (pos b) = pos (a / b)
quot (pos a) (negsuc b) = minus (a / suc b)
quot (negsuc a) (pos b) = minus (suc a / b)
quot (negsuc a) (negsuc b) = pos (suc a / suc b)

unfoldable pub rem : ℤ → ℤ → ℤ
unfolding magnitude
rem (pos a) b = pos (a % magnitude b)
rem (negsuc a) b = minus (suc a % magnitude b)

-- An arithmetic shift to the right: division by 2 ^ k towards minus infinity.
unfoldable pub shift_right : ℤ → ℕ → ℤ
shift_right (pos a) k = pos (a / 2 ^ k)
shift_right (negsuc a) k = negsuc (a / 2 ^ k)

-- The integer that a two's complement pattern of `w` bits stands for, and the pattern of an integer.
abbrev pub signed : ℕ → ℕ → ℤ
signed w x = if ltb x (2 ^ (w - 1)) then pos x else negsuc (2 ^ w - x - 1)

abbrev pub wrap : ℕ → ℤ → ℕ
wrap w (pos n) = n % 2 ^ w
wrap w (negsuc n) = 2 ^ w - 1 - n % 2 ^ w
