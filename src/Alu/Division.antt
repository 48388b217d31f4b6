-- ===== src/Alu/Division.antt =====
-- The signed and unsigned divisions of the multiplier, against the equation that the RISC-V manual
-- states for quotient and remainder.
use qtrvsim.Base.{
  ℕ, zero, suc, ◌+◌, ◌-◌, ◌*◌, ◌/◌, ◌%◌, ◌^◌, ◌≤◌, ◌<◌, ◌≡◌, ◌≢◌, refl, ap, ◌∙◌, arith, ltb,
  Bool-cases, ltb→lt, ltb-false→le, inl, inr, ◌⊎◌,
}
use qtrvsim.Base.Int.{ℤ, pos, negsuc, quot, rem, signed, wrap, minus}
use native.Mathlib.Decide.{ℕ_discrete}
use native.Mathlib.Nat.{div-add-mod', div-le_self, mod-le}
use qtrvsim.Alu.{MulOp, mul64_operate, u64}

abbrev word : ℕ
word = 2 ^ 64

-- The pattern of minus a number.
abbrev neg : ℕ → ℕ
neg n = (word - n) % word

wrap-minus : (n : ℕ) → n ≤ word → wrap 64 (minus n) ≡ neg n
wrap-minus zero h = refl
wrap-minus (suc n) h = omega arith

-- The sign of a pattern, and its magnitude.
signed_cases :
    (x : ℕ)
    → x < word
    → ((signed 64 x ≡ pos x) × (x < 2 ^ 63))
      ⊎ ((m : ℕ) × (signed 64 x ≡ negsuc m) × (x + suc m ≡ word) × (suc m ≤ 2 ^ 63))
signed_cases x h = elim (Bool-cases (ltb x (2 ^ 63))) [
  | inl low ↦ inl (rw low refl, ltb→lt _ _ low)
  | inr high ↦
      let ge = ltb-false→le x (2 ^ 63) high in
      inr (word - x - 1, rw high refl, omega arith, omega arith)
]

neg-word : (q : ℕ) → q ≤ word → (j : ℕ) × (neg q + q ≡ word * j)
neg-word zero h = (0, omega arith)
neg-word (suc q) h = (1, omega arith)

-- The products of negated words, modulo the word.
module _ (q n r m : ℕ) (divides : q * n + r ≡ m) (small : m < word) (fits : q ≤ word) where
  neg-mul : (t : ℕ) → (k : ℕ) × (neg q * t + q * t ≡ word * k)
  neg-mul t = let (j, e) = neg-word q fits in (j * t, omega (arith, ap (λ (s : ℕ). s * t) e))

  pos_neg : (y : ℕ) → y + n ≡ word → u64 (u64 (neg q * y) + r) ≡ m
  pos_neg y e = let (k, d) = neg-mul y in omega (arith, ap (λ (s : ℕ). q * s) e)

  neg_pos : u64 (u64 (neg q * n) + neg r) ≡ neg m
  neg_pos = let (k, d) = neg-mul n in omega arith

  neg-neg : (y : ℕ) → y + n ≡ word → u64 (u64 (q * y) + neg r) ≡ neg m
  neg-neg y e = omega (arith, ap (λ (s : ℕ). q * s) e)

-- What the two signed operations give at magnitudes, outside the two exceptions.
module _ (a b : ℕ) (sa sb : ℤ) (is_a : signed 64 a ≡ sa) (is_b : signed 64 b ≡ sb) (nonzero : b ≢ 0)
    (regular : (a ≢ 2 ^ 63) ⊎ (b ≢ 2 ^ 64 - 1)) where
  div_regular : mul64_operate MulOp.div a b ≡ wrap 64 (quot sa sb)
  unfolding mul64_operate
  div_regular = rw (← is_a, ← is_b) (ground arith)

  rem_regular : mul64_operate MulOp.rem_op a b ≡ wrap 64 (rem sa sb)
  unfolding mul64_operate
  rem_regular = rw (← is_a, ← is_b) (ground arith)

-- The four cases of the signs.
module _ (m n : ℕ) (m_fits : m < word) where
  q_fits : m / n ≤ word
  q_fits = omega (arith, div-le_self m n)

  r_fits : m % n ≤ word
  r_fits = omega (arith, mod-le m n)

  signs_pp : u64 (u64 (wrap 64 (quot (pos m) (pos n)) * n) + wrap 64 (rem (pos m) (pos n))) ≡ m
  unfolding quot rem
  signs_pp =
      let q : m / n % word ≡ m / n = omega (arith, div-le_self m n) in
      let r : m % n % word ≡ m % n = omega (arith, mod-le m n) in
      rw (q, r) (omega (arith, div-add-mod' m n))

signs_pn :
    (m n b : ℕ)
    → m < word
    → b + suc n ≡ word
    → u64 (u64 (wrap 64 (quot (pos m) (negsuc n)) * b) + wrap 64 (rem (pos m) (negsuc n))) ≡ m
unfolding quot rem
signs_pn m n b fits e =
    let q : wrap 64 (minus (m / suc n)) ≡ neg (m / suc n) =
      wrap-minus (m / suc n) (q_fits m (suc n) fits) in
    let r : m % suc n % word ≡ m % suc n = omega (arith, mod-le m (suc n)) in
    rw (q, r)
      (pos_neg (m / suc n) (suc n) (m % suc n) m (div-add-mod' m (suc n)) fits
        (q_fits m (suc n) fits) b e)

signs_np :
    (m n a : ℕ)
    → suc m < word
    → a + suc m ≡ word
    → u64 (u64 (wrap 64 (quot (negsuc m) (pos n)) * n) + wrap 64 (rem (negsuc m) (pos n))) ≡ a
unfolding quot rem
signs_np m n a fits e =
    let q = wrap-minus (suc m / n) (q_fits (suc m) n fits) in
    let r = wrap-minus (suc m % n) (r_fits (suc m) n fits) in
    rw (q, r)
      (neg_pos (suc m / n) n (suc m % n) (suc m) (div-add-mod' (suc m) n) fits
          (q_fits (suc m) n fits)
        ∙ omega arith)

signs_nn :
    (m n a b : ℕ)
    → suc m < word
    → a + suc m ≡ word
    → b + suc n ≡ word
    → u64 (u64 (wrap 64 (quot (negsuc m) (negsuc n)) * b) + wrap 64 (rem (negsuc m) (negsuc n))) ≡ a
unfolding quot rem
signs_nn m n a b fits ea eb =
    let q : suc m / suc n % word ≡ suc m / suc n = omega (arith, div-le_self (suc m) (suc n)) in
    let r = wrap-minus (suc m % suc n) (r_fits (suc m) (suc n) fits) in
    rw (q, r)
      (neg-neg (suc m / suc n) (suc n) (suc m % suc n) (suc m) (div-add-mod' (suc m) (suc n)) fits
          (q_fits (suc m) (suc n) fits) b eb
        ∙ omega arith)

signed_regular :
    (a b : ℕ)
    → a < word
    → b < word
    → b ≢ 0
    → (a ≢ 2 ^ 63) ⊎ (b ≢ 2 ^ 64 - 1)
    → u64 (u64 (mul64_operate MulOp.div a b * b) + mul64_operate MulOp.rem_op a b) ≡ a
signed_regular a b ha hb nonzero regular = elim (signed_cases a ha) [
  | inl (pa, la) ↦ elim (signed_cases b hb) [
    | inl (pb, lb) ↦
        rw
          (
            div_regular a b (pos a) (pos b) pa pb nonzero regular,
            rem_regular a b (pos a) (pos b) pa pb nonzero regular,
          )
          (signs_pp a b ha)
    | inr (n, pb, eb, lb) ↦
        rw
          (
            div_regular a b (pos a) (negsuc n) pa pb nonzero regular,
            rem_regular a b (pos a) (negsuc n) pa pb nonzero regular,
          )
          (signs_pn a n b ha eb)
  ]
  | inr (m, pa, ea, la) ↦ elim (signed_cases b hb) [
    | inl (pb, lb) ↦
        rw
          (
            div_regular a b (negsuc m) (pos b) pa pb nonzero regular,
            rem_regular a b (negsuc m) (pos b) pa pb nonzero regular,
          )
          (signs_np m b a (omega arith) ea)
    | inr (n, pb, eb, lb) ↦
        rw
          (
            div_regular a b (negsuc m) (negsuc n) pa pb nonzero regular,
            rem_regular a b (negsuc m) (negsuc n) pa pb nonzero regular,
          )
          (signs_nn m n a b (omega arith) ea eb)
  ]
]

by_zero :
    (a b : ℕ)
    → a < word
    → b ≡ 0
    → u64 (u64 (mul64_operate MulOp.div a b * b) + mul64_operate MulOp.rem_op a b) ≡ a
unfolding mul64_operate
by_zero a b ha zero_b = rw zero_b (omega arith)

overflow :
    (a b : ℕ)
    → a ≡ 2 ^ 63
    → b ≡ 2 ^ 64 - 1
    → u64 (u64 (mul64_operate MulOp.div a b * b) + mul64_operate MulOp.rem_op a b) ≡ a
unfolding mul64_operate
overflow a b ea eb = rw (ea, eb) refl

signed_identity :
    (a b : ℕ)
    → a < word
    → b < word
    → u64 (u64 (mul64_operate MulOp.div a b * b) + mul64_operate MulOp.rem_op a b) ≡ a
signed_identity a b ha hb = elim (ℕ_discrete b 0) [
  | yes z ↦ by_zero a b ha z
  | no nz ↦ elim (ℕ_discrete a (2 ^ 63)) [
    | no na ↦ signed_regular a b ha hb nz (inl na)
    | yes ea ↦ elim (ℕ_discrete b (2 ^ 64 - 1)) [
      | yes eb ↦ overflow a b ea eb
      | no nb ↦ signed_regular a b ha hb nz (inr nb)
    ]
  ]
]

unsigned_identity :
    (a b : ℕ)
    → a < word
    → u64 (u64 (mul64_operate MulOp.divu a b * b) + mul64_operate MulOp.remu a b) ≡ a
unfolding mul64_operate
unsigned_identity a b ha = elim (ℕ_discrete b 0) [
  | yes z ↦ rw z (omega arith)
  | no nz ↦ ground (arith, div-add-mod' a b)
]

-- Dividend = quotient * divisor + remainder, modulo 2 ^ 64, for DIV with REM and for DIVU with REMU, at
-- every dividend and divisor: the division by zero and the overflow of the smallest number by -1
-- included.
pub div_rem64 :
    (a b : ℕ)
    → a < 2 ^ 64
    → b < 2 ^ 64
    → (u64
          (mul64_operate MulOp.mul (mul64_operate MulOp.div a b) b + mul64_operate MulOp.rem_op a b)
        ≡ a)
      × (u64 (
            mul64_operate MulOp.mul (mul64_operate MulOp.divu a b) b + mul64_operate MulOp.remu a b)
          ≡ a)
unfolding mul64_operate
div_rem64 a b ha hb = (signed_identity a b ha hb, unsigned_identity a b ha)
