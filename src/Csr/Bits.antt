-- ===== src/Csr/Bits.antt =====
-- The fields of a word that is put together bit by bit.
use qtrvsim.Base.{
  ℕ, zero, suc, ◌+◌, ◌-◌, ◌*◌, ◌/◌, ◌%◌, ◌^◌, min, max, ◌<◌, ◌≡◌, refl, sym, ap, ap₂, ◌∙◌, bit_and,
  bit_or, bit_xor, arith,
}
use qtrvsim.Base.Bits.{
  bit_and_halves, bit_or_halves, bit_xor_halves, bit_and_mask, mod_double, bit_or_disjoint,
  zero-bit_or,
}
use Prim.Native.Nat.{differ}
use native.Mathlib.Nat.{pow-suc, div-div-eq-div-mul, one-le-pow, mod-lt, mod-eq_of_lt}
use qtrvsim.Csr.Field.{BitField, bit_not, decode, encode, mask, update}

-- A word operation that works on each binary digit by itself.
record IsDigitwise (f : ℕ → ℕ → ℕ) (digit : ℕ → ℕ → ℕ) : Type 0 where
  halves : (a b : ℕ) → f a b ≡ f (a / 2) (b / 2) * 2 + digit (a % 2) (b % 2)
  small : (a b : ℕ) → digit (a % 2) (b % 2) < 2
  zero_zero : f 0 0 ≡ 0

differ_small : (a b : ℕ) → a < 2 → b < 2 → differ a b < 2
differ_small zero b h k = ground arith
differ_small (suc zero) b h k = ground arith
differ_small (suc (suc a)) b h k = absurd (omega arith)

bit_and-IsDigitwise : IsDigitwise bit_and min
bit_and-IsDigitwise = record {
  halves = bit_and_halves;
  small = λ a b. omega arith;
  zero_zero = refl;
}

bit_or-IsDigitwise : IsDigitwise bit_or max
bit_or-IsDigitwise = record { halves = bit_or_halves; small = λ a b. omega arith; zero_zero = refl }

bit_xor-IsDigitwise : IsDigitwise bit_xor differ
bit_xor-IsDigitwise = record {
  halves = bit_xor_halves;
  small = λ a b. differ_small (a % 2) (b % 2) (omega arith) (omega arith);
  zero_zero = refl;
}

div-step : (a k : ℕ) → a / 2 ^ suc k ≡ a / 2 / 2 ^ k
div-step a k =
    ap (λ (m : ℕ). a / m) (pow-suc 2 k ∙ omega arith) ∙ sym (div-div-eq-div-mul a 2 (2 ^ k))

mod-step : (a k : ℕ) → a % 2 ^ suc k ≡ a / 2 % 2 ^ k * 2 + a % 2
mod-step a k =
    ap (λ (m : ℕ). a % m) (pow-suc 2 k ∙ omega arith)
    ∙ mod_double (2 ^ k) a (one-le-pow k 2 (omega arith))

module _ (f : ℕ → ℕ → ℕ) (digit : ℕ → ℕ → ℕ) (d : IsDigitwise f digit) where
  half : (a b : ℕ) → f a b / 2 ≡ f (a / 2) (b / 2)
  half a b = omega (arith, d.halves a b, d.small a b)

  digitwise-div : (k a b : ℕ) → f a b / 2 ^ k ≡ f (a / 2 ^ k) (b / 2 ^ k)
  digitwise-div zero a b =
      let ha : a / 1 ≡ a = omega arith in
      let hb : b / 1 ≡ b = omega arith in rw (ha, hb) (omega arith)
  digitwise-div (suc k) a b =
      div-step (f a b) k
      ∙ ap (λ (x : ℕ). x / 2 ^ k) (half a b)
      ∙ digitwise-div k (a / 2) (b / 2)
      ∙ sym (ap₂ f (div-step a k) (div-step b k))

  digitwise-mod : (k a b : ℕ) → f a b % 2 ^ k ≡ f (a % 2 ^ k) (b % 2 ^ k)
  digitwise-mod zero a b =
      let ha : a % 1 ≡ 0 = omega arith in
      let hb : b % 1 ≡ 0 = omega arith in rw (ha, hb, d.zero_zero) (omega arith)
  digitwise-mod (suc k) a b =
      let a' = mod-step a k in
      let b' = mod-step b k in
      let rest = digitwise-mod k (a / 2) (b / 2) in
      let ha : a % 2 ^ suc k / 2 ≡ a / 2 % 2 ^ k = omega arith in
      let hb : b % 2 ^ suc k / 2 ≡ b / 2 % 2 ^ k = omega arith in
      let la : a % 2 ^ suc k % 2 ≡ a % 2 = omega arith in
      let lb : b % 2 ^ suc k % 2 ≡ b % 2 = omega arith in
      mod-step (f a b) k
      ∙ ap₂ (λ (x y : ℕ). x * 2 + y) (ap (λ (x : ℕ). x % 2 ^ k) (half a b) ∙ rest)
          (omega (arith, d.halves a b, d.small a b))
      ∙ sym (
          d.halves (a % 2 ^ suc k) (b % 2 ^ suc k)
          ∙ ap₂ (λ (x y : ℕ). x * 2 + y) (ap₂ f ha hb) (ap₂ digit la lb))

pub decode_lem : (f : BitField) (v : ℕ) → decode f v ≡ v / 2 ^ f.offset % 2 ^ f.count
unfolding decode
decode_lem f v = bit_and_mask f.count (v / 2 ^ f.offset)

pub decode-or : (f : BitField) (a b : ℕ) → decode f (bit_or a b) ≡ bit_or (decode f a) (decode f b)
decode-or f a b =
    decode_lem f (bit_or a b)
    ∙ ap (λ (x : ℕ). x % 2 ^ f.count) (digitwise-div bit_or max bit_or-IsDigitwise f.offset a b)
    ∙ digitwise-mod bit_or max bit_or-IsDigitwise f.count _ _
    ∙ sym (ap₂ bit_or (decode_lem f a) (decode_lem f b))

pub decode-and :
    (f : BitField) (a b : ℕ) → decode f (bit_and a b) ≡ bit_and (decode f a) (decode f b)
decode-and f a b =
    decode_lem f (bit_and a b)
    ∙ ap (λ (x : ℕ). x % 2 ^ f.count) (digitwise-div bit_and min bit_and-IsDigitwise f.offset a b)
    ∙ digitwise-mod bit_and min bit_and-IsDigitwise f.count _ _
    ∙ sym (ap₂ bit_and (decode_lem f a) (decode_lem f b))

pub decode-xor :
    (f : BitField) (a b : ℕ) → decode f (bit_xor a b) ≡ bit_xor (decode f a) (decode f b)
decode-xor f a b =
    decode_lem f (bit_xor a b)
    ∙ ap (λ (x : ℕ). x % 2 ^ f.count)
        (digitwise-div bit_xor differ bit_xor-IsDigitwise f.offset a b)
    ∙ digitwise-mod bit_xor differ bit_xor-IsDigitwise f.count _ _
    ∙ sym (ap₂ bit_xor (decode_lem f a) (decode_lem f b))

pub or_zero : (a : ℕ) → (bit_or a 0 ≡ a) × (bit_or 0 a ≡ a)
or_zero a =
    let shifted : a * 2 ^ 0 ≡ a = omega arith in
    (
      ap (λ (x : ℕ). bit_or x 0) (sym shifted) ∙ bit_or_disjoint 0 a 0 (omega arith) ∙ omega arith,
      zero-bit_or a,
    )

pub and_zero : (a : ℕ) → bit_and a 0 ≡ 0
and_zero a = bit_and_mask 0 a ∙ omega arith

decode_bound : (f : BitField) (v : ℕ) → decode f v < 2 ^ f.count
decode_bound f v = rw (decode_lem f v) (mod-lt _ (one-le-pow f.count 2 (omega arith)))

within : (f : BitField) (v : ℕ) → bit_and (decode f v) (2 ^ f.count - 1) ≡ decode f v
within f v = bit_and_mask f.count (decode f v) ∙ mod-eq_of_lt (decode_bound f v)

-- What a field of a merged word is: the field of the new word where the mask has all its bits, and that
-- of the old word where the mask has none.
pub merge_new :
    (f : BitField) (old new keep take : ℕ)
    → decode f take ≡ 2 ^ f.count - 1
    → decode f keep ≡ 0
    → decode f (bit_or (bit_and new take) (bit_and old keep)) ≡ decode f new
merge_new f old new keep take all none =
    decode-or f (bit_and new take) (bit_and old keep)
    ∙ ap₂ bit_or
        (decode-and f new take ∙ ap (λ (x : ℕ). bit_and (decode f new) x) all ∙ within f new)
        (decode-and f old keep ∙ ap (λ (x : ℕ). bit_and (decode f old) x) none ∙ and_zero _)
    ∙ (or_zero (decode f new)).0

pub merge_old :
    (f : BitField) (old new keep take : ℕ)
    → decode f take ≡ 0
    → decode f keep ≡ 2 ^ f.count - 1
    → decode f (bit_or (bit_and new take) (bit_and old keep)) ≡ decode f old
merge_old f old new keep take none all =
    decode-or f (bit_and new take) (bit_and old keep)
    ∙ ap₂ bit_or
        (decode-and f new take ∙ ap (λ (x : ℕ). bit_and (decode f new) x) none ∙ and_zero _)
        (decode-and f old keep ∙ ap (λ (x : ℕ). bit_and (decode f old) x) all ∙ within f old)
    ∙ (or_zero (decode f old)).1

pub decode-and_all :
    (f : BitField) (a m : ℕ) → decode f m ≡ 2 ^ f.count - 1 → decode f (bit_and a m) ≡ decode f a
decode-and_all f a m all =
    decode-and f a m ∙ ap (λ (x : ℕ). bit_and (decode f a) x) all ∙ within f a

-- After an update a field holds the value, and a field whose bits the update leaves alone is as before.
pub decode-update :
    (f : BitField) (orig v : ℕ)
    → decode f (encode f v) ≡ v % 2 ^ f.count
    → decode f (bit_not (mask f)) ≡ 0
    → decode f (update f orig v) ≡ v % 2 ^ f.count
unfolding update
decode-update f orig v read clear =
    decode-or f (encode f v) (bit_and orig (bit_not (mask f)))
    ∙ ap₂ bit_or read (
        decode-and f orig (bit_not (mask f))
        ∙ ap (λ (x : ℕ). bit_and (decode f orig) x) clear
        ∙ and_zero _)
    ∙ (or_zero (v % 2 ^ f.count)).0

pub decode-update_other :
    (f g : BitField) (orig v : ℕ)
    → decode g (encode f v) ≡ 0
    → decode g (bit_not (mask f)) ≡ 2 ^ g.count - 1
    → decode g (update f orig v) ≡ decode g orig
unfolding update
decode-update_other f g orig v apart keep =
    decode-or g (encode f v) (bit_and orig (bit_not (mask f)))
    ∙ ap₂ bit_or apart (decode-and_all g orig (bit_not (mask f)) keep)
    ∙ (or_zero (decode g orig)).1
