-- ===== src/Alu.antt =====
-- The arithmetic-logic unit and the multiplier, src/machine/execute/alu.cpp, with the wide products of
-- src/common/polyfills/mulh64.h and the conversions of src/machine/register_value.h.
-- A register value is its 64-bit pattern, a number below 2 ^ 64; a C++ integer of `w` bits is its
-- pattern, below 2 ^ w, and `signed w` is the number that it stands for as a signed one.
pub mod Division
pub mod Compare
pub mod Product
pub mod Fallback
mod Tests
use qtrvsim.Base.{
  ℕ, ◌+◌, ◌-◌, ◌*◌, ◌/◌, ◌%◌, ◌^◌, bit_and, bit_or, bit_xor, Bool, true, false, ◌&&◌, ltb, ◌==◌,
  if◌then◌else◌,
}
use qtrvsim.Base.Int.{ℤ, signed, wrap, ltb_ℤ, quot, rem, shift_right}

pub data AluOp : Type 0 where
  add sll slt sltu xor sr or and : AluOp

pub data MulOp : Type 0 where
  mul mulh mulhsu mulhu div divu rem_op remu : MulOp

pub data AluComponent : Type 0 where
  alu mul pass : AluComponent

-- `union AluCombinedOp`: one value of three bits, read as either operation.
pub record AluCombinedOp : Type 0 where
  pub alu_op : AluOp
  pub mul_op : MulOp

abbrev pub u32 : ℕ → ℕ
u32 x = x % 2 ^ 32

abbrev pub u64 : ℕ → ℕ
u64 x = x % 2 ^ 64

-- `RegisterValue::as_u32` (and `as_i32`, the same pattern), and the constructor from `int32_t`, which
-- extends the sign.
abbrev pub as_u32 : ℕ → ℕ
as_u32 value = u32 value

abbrev pub of_i32 : ℕ → ℕ
of_i32 x = if ltb x (2 ^ 31) then x else x + (2 ^ 64 - 2 ^ 32)

abbrev bool_value : Bool → ℕ
bool_value true = 1
bool_value false = 0

unfoldable pub alu64_operate : AluOp → Bool → ℕ → ℕ → ℕ
alu64_operate AluOp.add modified a b = u64 (a + (if modified then u64 (2 ^ 64 - b) else b))
alu64_operate AluOp.sll modified a b = u64 (a * 2 ^ (b % 64))
alu64_operate AluOp.slt modified a b = bool_value (ltb_ℤ (signed 64 a) (signed 64 b))
alu64_operate AluOp.sltu modified a b = bool_value (ltb a b)
alu64_operate AluOp.xor modified a b = bit_xor a b
alu64_operate AluOp.sr modified a b =
    if modified then wrap 64 (shift_right (signed 64 a) (b % 64)) else a / 2 ^ (b % 64)
alu64_operate AluOp.or modified a b = bit_or a b
alu64_operate AluOp.and modified a b = bit_and (if modified then 2 ^ 64 - 1 - a else a) b

-- The same on the two lower words; the result is the pattern of an `int32_t`.
abbrev alu_words : AluOp → Bool → ℕ → ℕ → ℕ
alu_words AluOp.add modified a b = u32 (a + (if modified then u32 (2 ^ 32 - b) else b))
alu_words AluOp.sll modified a b = u32 (a * 2 ^ (b % 32))
alu_words AluOp.slt modified a b = bool_value (ltb_ℤ (signed 32 a) (signed 32 b))
alu_words AluOp.sltu modified a b = bool_value (ltb a b)
alu_words AluOp.xor modified a b = bit_xor a b
alu_words AluOp.sr modified a b =
    if modified then wrap 32 (shift_right (signed 32 a) (b % 32)) else a / 2 ^ (b % 32)
alu_words AluOp.or modified a b = bit_or a b
alu_words AluOp.and modified a b = bit_and (if modified then 2 ^ 32 - 1 - a else a) b

unfoldable pub alu32_operate : AluOp → Bool → ℕ → ℕ → ℕ
alu32_operate op modified a b = alu_words op modified (as_u32 a) (as_u32 b)

-- `(unsigned __int128)` of an `int64_t`: the sign is extended.
abbrev sign_extend_128 : ℕ → ℕ
sign_extend_128 x = if ltb x (2 ^ 63) then x else x + (2 ^ 128 - 2 ^ 64)

-- The high words of the products, with a 128-bit integer type.
unfoldable pub mulh64 : ℕ → ℕ → ℕ
mulh64 a b = sign_extend_128 a * sign_extend_128 b % 2 ^ 128 / 2 ^ 64

unfoldable pub mulhu64 : ℕ → ℕ → ℕ
mulhu64 a b = a * b % 2 ^ 128 / 2 ^ 64

unfoldable pub mulhsu64 : ℕ → ℕ → ℕ
mulhsu64 a b = sign_extend_128 a * b % 2 ^ 128 / 2 ^ 64

unfoldable pub mul64_operate : MulOp → ℕ → ℕ → ℕ
unfolding mulh64 mulhu64 mulhsu64 quot rem
mul64_operate MulOp.mul a b = u64 (a * b)
mul64_operate MulOp.mulh a b = mulh64 a b
mul64_operate MulOp.mulhsu a b = mulhsu64 a b
mul64_operate MulOp.mulhu a b = mulhu64 a b
mul64_operate MulOp.div a b =
    if b == 0
    then 2 ^ 64 - 1
    else if a == 2 ^ 63 && b == 2 ^ 64 - 1
    then 2 ^ 63
    else wrap 64 (quot (signed 64 a) (signed 64 b))
mul64_operate MulOp.divu a b = if b == 0 then 2 ^ 64 - 1 else a / b
mul64_operate MulOp.rem_op a b =
    if b == 0
    then a
    else if a == 2 ^ 63 && b == 2 ^ 64 - 1
    then 0
    else wrap 64 (rem (signed 64 a) (signed 64 b))
mul64_operate MulOp.remu a b = if b == 0 then a else a % b

-- `(uint64_t)` of an `int32_t` extends the sign.
abbrev mul_words : MulOp → ℕ → ℕ → ℕ
mul_words MulOp.mul a b = u32 (a * b)
mul_words MulOp.mulh a b = u32 (u64 (of_i32 a * of_i32 b) / 2 ^ 32)
mul_words MulOp.mulhsu a b = u32 (u64 (of_i32 a * b) / 2 ^ 32)
mul_words MulOp.mulhu a b = u32 (u64 (a * b) / 2 ^ 32)
mul_words MulOp.div a b =
    if b == 0
    then 2 ^ 32 - 1
    else if a == 2 ^ 31 && b == 2 ^ 32 - 1
    then 2 ^ 31
    else wrap 32 (quot (signed 32 a) (signed 32 b))
mul_words MulOp.divu a b = if b == 0 then 2 ^ 32 - 1 else a / b
mul_words MulOp.rem_op a b =
    if b == 0
    then a
    else if a == 2 ^ 31 && b == 2 ^ 32 - 1
    then 0
    else wrap 32 (rem (signed 32 a) (signed 32 b))
mul_words MulOp.remu a b = if b == 0 then a else a % b

unfoldable pub mul32_operate : MulOp → ℕ → ℕ → ℕ
unfolding quot rem
mul32_operate op a b = mul_words op (as_u32 a) (as_u32 b)

unfoldable pub alu_combined_operate : AluCombinedOp → AluComponent → Bool → Bool → ℕ → ℕ → ℕ
alu_combined_operate op AluComponent.alu w_operation modified a b =
    if w_operation
    then of_i32 (alu32_operate op.alu_op modified a b)
    else alu64_operate op.alu_op modified a b
alu_combined_operate op AluComponent.mul w_operation modified a b =
    if w_operation then of_i32 (mul32_operate op.mul_op a b) else mul64_operate op.mul_op a b
alu_combined_operate op AluComponent.pass w_operation modified a b = a
